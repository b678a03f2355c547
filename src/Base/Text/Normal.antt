-- ===== src/Base/Text/Normal.antt =====
-- `strings.TrimSpace` and `strings.ToUpper`: each is idempotent, and they commute.
use Prim.Native.Nat.{ℕ, zero, suc, ◌-◌, ◌<◌}
use Prim.Native.Char.{Char, code}
use Prim.Native.String.{String, char_at}
use mathlib.Core.Path.{◌≡◌, refl, sym, ap, ◌∙◌}
use mathlib.Core.Logic.{inl, inr}
use mathlib.Core.Bool.{Bool, true, false, ◌&&◌}
use native.Mathlib.Omega.{arith}
use project_management.Base.Tests.{leb, ◌==◌, Bool-cases, ==_iff}
use project_management.Base.Text.{
  is_space, trim_left, trim_right, drop_space, trim_space, upper_char, to_upper, capitals,
}

-- A test of the numbers under a bound, by evaluation.
unfoldable pub passes : (ℕ → Bool) → ℕ → Bool
passes test zero = true
passes test (suc bound) = passes test bound && test bound

pub passes-test :
    (test : ℕ → Bool) (bound i : ℕ) → passes test bound ≡ true → i < bound → test i ≡ true
unfolding passes
passes-test test zero i done small = absurd (omega arith)
passes-test test (suc bound) i done small = ground (arith, passes-test test bound i)

-- A capital is no space, and no small letter.
abbrev plain : ℕ → Bool
plain n = leb b'A' n && leb n b'Z'

capitals-plain : (x : ℕ) → x < 26 → plain (code (char_at capitals x)) ≡ true
unfolding passes
capitals-plain x h = passes-test (λ i. plain (code (char_at capitals i))) 26 x refl h

upper_plain :
    (c : Char)
    → (leb b'a' (code c) && leb (code c) b'z') ≡ true
    → plain (code (char_at capitals (code c - b'a'))) ≡ true
upper_plain c h = capitals-plain (code c - b'a') (ground arith)

plain_no_space : (n : ℕ) → plain n ≡ true → is_space n ≡ false
unfolding is_space
plain_no_space n h = ground arith

small_no_space : (n : ℕ) → (leb b'a' n && leb n b'z') ≡ true → is_space n ≡ false
unfolding is_space
small_no_space n h = ground arith

other_no_space : (is_space 0x131 ≡ false) × (is_space 0x17f ≡ false)
unfolding is_space
other_no_space = (refl, refl)

capital_letters : (is_space (code "I") ≡ false) × (is_space (code "S") ≡ false)
unfolding is_space
capital_letters = (refl, refl)

is_space-upper_char : (c : Char) → is_space (code (upper_char c)) ≡ is_space (code c)
unfolding upper_char
is_space-upper_char c = elim (Bool-cases (leb b'a' (code c) && leb (code c) b'z')) [
  | inl small ↦
      rw small (plain_no_space _ (upper_plain c small) ∙ sym (small_no_space (code c) small))
  | inr other ↦ rw other (elim (Bool-cases (code c == 0x131)) [
    | inl e ↦ rw (e, (==_iff _ _).0 e) (capital_letters.0 ∙ sym other_no_space.0)
    | inr e ↦ rw e (elim (Bool-cases (code c == 0x17f)) [
      | inl d ↦ rw (d, (==_iff _ _).0 d) (capital_letters.1 ∙ sym other_no_space.1)
      | inr d ↦ rw d
    ])
  ])
]

plain_upper : (c : Char) → plain (code c) ≡ true → upper_char c ≡ c
unfolding upper_char
plain_upper c h = ground arith

upper_char_idem : (c : Char) → upper_char (upper_char c) ≡ upper_char c
upper_char_idem c = elim (Bool-cases (leb b'a' (code c) && leb (code c) b'z')) [
  | inl small ↦ plain_upper (upper_char c) (unfold upper_char in rw small (upper_plain c small))
  | inr other ↦ elim (Bool-cases (code c == 0x131)) [
    | inl e ↦ plain_upper (upper_char c) (unfold upper_char in rw (other, e))
    | inr e ↦ elim (Bool-cases (code c == 0x17f)) [
      | inl d ↦ plain_upper (upper_char c) (unfold upper_char in rw (other, e, d))
      | inr d ↦ ap upper_char (unfold upper_char in rw (other, e, d))
    ]
  ]
]

pub to_upper_idem : (s : String) → to_upper (to_upper s) ≡ to_upper s
unfolding to_upper
to_upper_idem String.[] = refl
to_upper_idem (String.◌∷◌ c s) = cc (upper_char_idem c, to_upper_idem s)

trim_left-to_upper : (s : String) → trim_left (to_upper s) ≡ to_upper (trim_left s)
unfolding trim_left to_upper
trim_left-to_upper String.[] = refl
trim_left-to_upper (String.◌∷◌ c s) =
    rw (is_space-upper_char c) (elim (Bool-cases (is_space (code c))) [
      | inl blank ↦ rw blank (trim_left-to_upper s)
      | inr dark ↦ rw dark
    ])

drop_space-to_upper :
    (c : Char) (s : String) → drop_space (upper_char c) (to_upper s) ≡ to_upper (drop_space c s)
unfolding drop_space to_upper
drop_space-to_upper c String.[] =
    rw (is_space-upper_char c)
      (elim (Bool-cases (is_space (code c))) [ inl blank ↦ rw blank | inr dark ↦ rw dark ])
drop_space-to_upper c (String.◌∷◌ d s) = refl

trim_right-to_upper : (s : String) → trim_right (to_upper s) ≡ to_upper (trim_right s)
unfolding trim_right to_upper
trim_right-to_upper String.[] = refl
trim_right-to_upper (String.◌∷◌ c s) =
    rw (trim_right-to_upper s) (drop_space-to_upper c (trim_right s))

pub trim_space-to_upper : (s : String) → trim_space (to_upper s) ≡ to_upper (trim_space s)
unfolding trim_space
trim_space-to_upper s = ap trim_right (trim_left-to_upper s) ∙ trim_right-to_upper (trim_left s)

trim_left_idem : (s : String) → trim_left (trim_left s) ≡ trim_left s
unfolding trim_left
trim_left_idem String.[] = refl
trim_left_idem (String.◌∷◌ c s) = elim (Bool-cases (is_space (code c))) [
  | inl blank ↦ rw blank (trim_left_idem s)
  | inr dark ↦ rw dark (rw dark)
]

trim_right-nil : trim_right String.[] ≡ String.[]
unfolding trim_right
trim_right-nil = refl

trim_right-cons :
    (c : Char) (s : String) → trim_right (String.◌∷◌ c s) ≡ drop_space c (trim_right s)
unfolding trim_right
trim_right-cons c s = refl

trim_left_blank :
    (c : Char) (s : String) → is_space (code c) ≡ true → trim_left (String.◌∷◌ c s) ≡ trim_left s
unfolding trim_left
trim_left_blank c s blank = rw blank

trim_left_dark :
    (c : Char) (s : String)
    → is_space (code c) ≡ false
    → trim_left (String.◌∷◌ c s) ≡ String.◌∷◌ c s
unfolding trim_left
trim_left_dark c s dark = rw dark

drop_space-trim_right :
    (c : Char) (t : String) → trim_right t ≡ t → trim_right (drop_space c t) ≡ drop_space c t
unfolding drop_space
drop_space-trim_right c String.[] e = elim (Bool-cases (is_space (code c))) [
  | inl blank ↦ rw blank (unfold trim_right in refl)
  | inr dark ↦ rw dark (unfold trim_right in rw dark)
]
drop_space-trim_right c (String.◌∷◌ d t) e =
    trim_right-cons c (String.◌∷◌ d t) ∙ ap (drop_space c) e

trim_right_idem : (s : String) → trim_right (trim_right s) ≡ trim_right s
trim_right_idem String.[] = ap trim_right trim_right-nil
trim_right_idem (String.◌∷◌ c s) =
    rw (trim_right-cons c s) (drop_space-trim_right c (trim_right s) (trim_right_idem s))

trim_left-drop_space :
    (c : Char) (t : String) → is_space (code c) ≡ true → trim_left (drop_space c t) ≡ trim_left t
unfolding trim_left drop_space
trim_left-drop_space c String.[] blank = rw blank
trim_left-drop_space c (String.◌∷◌ d t) blank = rw blank

trim_left-drop_dark :
    (c : Char) (t : String)
    → is_space (code c) ≡ false
    → trim_left (drop_space c t) ≡ drop_space c t
unfolding trim_left drop_space
trim_left-drop_dark c String.[] dark = rw dark (rw dark)
trim_left-drop_dark c (String.◌∷◌ d t) dark = rw dark

trim_comm : (s : String) → trim_left (trim_right s) ≡ trim_right (trim_left s)
trim_comm String.[] = unfold trim_left trim_right in refl
trim_comm (String.◌∷◌ c s) = elim (Bool-cases (is_space (code c))) [
  | inl blank ↦
      rw
        (
          trim_right-cons c s,
          trim_left-drop_space c (trim_right s) blank,
          trim_left_blank c s blank,
        )
        (trim_comm s)
  | inr dark ↦
      rw (trim_left_dark c s dark, trim_right-cons c s) (trim_left-drop_dark c (trim_right s) dark)
]

pub trim_space_idem : (s : String) → trim_space (trim_space s) ≡ trim_space s
unfolding trim_space
trim_space_idem s =
    ap trim_right (trim_comm (trim_left s))
    ∙ trim_right_idem (trim_left (trim_left s))
    ∙ ap trim_right (trim_left_idem s)
