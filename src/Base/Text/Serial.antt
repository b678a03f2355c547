-- ===== src/Base/Text/Serial.antt =====
-- Texts that end in a decimal number behind a dash: what the source uses of `strings.Split` and
-- `strings.TrimPrefix`.
use Prim.Native.Nat.{ℕ, ◌+◌, ◌-◌, ◌*◌, ◌≤◌}
use Prim.Native.Char.{Char, code}
use Prim.Native.String.{String, ◌++◌}
use Prim.Native.String.append
use mathlib.Core.Path.{◌≡◌, refl, sym, ap, ◌∙◌}
use mathlib.Core.Bool.{Bool, true, false, ◌&&◌, ◌||◌}
use mathlib.Core.Option.{Option, none, some}
use native.Mathlib.Omega.{arith}
use project_management.Base.Tests.{leb, ◌==◌, if◌then◌else◌}
use project_management.Base.Text.{is_space, trim_left, trim_right, drop_space, trim_space, is_empty}
use project_management.Base.Text.Decimal.{
  digits_value, digits_value-head, padded_decimal, padded_decimal-filled, value-padded_decimal,
  atoi, atoi-padded_decimal,
}

abbrev is_dash : Char → Bool
is_dash c = code c == 45

has_dash : String → Bool
has_dash String.[] = false
has_dash (String.◌∷◌ c s) = has_dash s || is_dash c

-- The last element of `strings.Split(s, "-")`
unfoldable pub last_part : String → String
unfolding has_dash
last_part String.[] = ""
last_part (String.◌∷◌ c s) =
    let rest = last_part s in if has_dash s || is_dash c then rest else String.◌∷◌ c s

-- What is behind the prefix `p` of `s`, if it is one.
strip : String → String → Option String
strip s String.[] = some s
strip String.[] (String.◌∷◌ d p) = none
strip (String.◌∷◌ c s) (String.◌∷◌ d p) =
    let rest = strip s p in if code c == code d then rest else none

-- `strings.TrimPrefix`
unfoldable pub trim_prefix : String → String → String
unfolding strip
trim_prefix s p = elim (strip s p) [ none ↦ s | some rest ↦ rest ]

-- A text of digits holds no dash and no space.
digits-dashless : (acc : ℕ) (s : String) {n : ℕ} → digits_value acc s ≡ some n → has_dash s ≡ false
unfolding has_dash
digits-dashless acc String.[] e = refl
digits-dashless acc (String.◌∷◌ c s) e =
    let (h, rest) = digits_value-head acc c s e in
    let dashless = digits-dashless (acc * 10 + (code c - 48)) s rest in ground arith

digit_dark : (n : ℕ) → leb 48 n && leb n 57 ≡ true → is_space n ≡ false
unfolding is_space
digit_dark n h = ground arith

drop_dark : (c : Char) (s : String) → is_space (code c) ≡ false → drop_space c s ≡ String.◌∷◌ c s
unfolding drop_space
drop_dark c String.[] h = rw h refl
drop_dark c (String.◌∷◌ d s) h = refl

digits-kept : (acc : ℕ) (s : String) {n : ℕ} → digits_value acc s ≡ some n → trim_right s ≡ s
unfolding trim_right
digits-kept acc String.[] e = refl
digits-kept acc (String.◌∷◌ c s) e =
    let (h, rest) = digits_value-head acc c s e in
    let kept = digits-kept (acc * 10 + (code c - 48)) s rest in
    rw kept (drop_dark c s (digit_dark (code c) h))

last_part-dashless : (s : String) → has_dash s ≡ false → last_part s ≡ s
unfolding last_part has_dash
last_part-dashless String.[] h = refl
last_part-dashless (String.◌∷◌ c s) h = rw h refl

has_dash-behind : (s t : String) → has_dash (s ++ String.◌∷◌ "-" t) ≡ true
unfolding has_dash
has_dash-behind String.[] t = rw (append.nil (String.◌∷◌ "-" t)) (ground arith)
has_dash-behind (String.◌∷◌ c s) t =
    rw (append.cons c s (String.◌∷◌ "-" t), has_dash-behind s t) refl

last_part-behind : (s t : String) → has_dash t ≡ false → last_part (s ++ String.◌∷◌ "-" t) ≡ t
unfolding last_part
last_part-behind String.[] t h =
    rw (append.nil (String.◌∷◌ "-" t), h) (unfold last_part in last_part-dashless t h)
last_part-behind (String.◌∷◌ c s) t h =
    rw (append.cons c s (String.◌∷◌ "-" t), has_dash-behind s t) (last_part-behind s t h)

drop_filled : (c : Char) (s : String) → is_empty s ≡ false → drop_space c s ≡ String.◌∷◌ c s
unfolding drop_space
drop_filled c String.[] h = cc
drop_filled c (String.◌∷◌ d s) h = refl

kept-cons :
    (c : Char) (s : String)
    → is_empty s ≡ false
    → trim_right s ≡ s
    → trim_right (String.◌∷◌ c s) ≡ String.◌∷◌ c s
unfolding trim_right
kept-cons c s filled kept = ap (drop_space c) kept ∙ drop_filled c s filled

-- Nothing is trimmed off a text that ends in digits.
kept-append :
    (s t : String)
    → is_empty t ≡ false
    → trim_right t ≡ t
    → (trim_right (s ++ t) ≡ s ++ t) × (is_empty (s ++ t) ≡ false)
kept-append String.[] t filled kept = rw (append.nil t) (kept, filled)
kept-append (String.◌∷◌ c s) t filled kept =
    let (rest, more) = kept-append s t filled kept in
    rw (append.cons c s t) (kept-cons c (s ++ t) more rest, refl)

trim_space-kept :
    (c : Char) (s : String)
    → is_space (code c) ≡ false
    → trim_right (String.◌∷◌ c s) ≡ String.◌∷◌ c s
    → trim_space (String.◌∷◌ c s) ≡ String.◌∷◌ c s
unfolding trim_space trim_left
trim_space-kept c s dark kept = rw dark kept

-- The number at the end of a text is read back, while it fits an `int`. The text begins with `S`.
pub serial_read :
    (s : String) (n : ℕ)
    → n ≤ 9223372036854775807
    → atoi (last_part (trim_space (String.◌∷◌ "S" (s ++ String.◌∷◌ "-" (padded_decimal n)))))
      ≡ some n
unfolding is_space
serial_read s n h =
    let value = value-padded_decimal n in
    let filled = padded_decimal-filled n in
    let (kept, more) =
      kept-append s (String.◌∷◌ "-" (padded_decimal n)) refl
        (kept-cons "-" (padded_decimal n) filled (digits-kept 0 (padded_decimal n) value)) in
    ap (λ x. atoi (last_part x))
      (trim_space-kept "S" (s ++ String.◌∷◌ "-" (padded_decimal n)) refl
        (kept-cons "S" _ more kept))
    ∙ ap atoi (
        ap (λ x. last_part x) (sym (append.cons "S" s (String.◌∷◌ "-" (padded_decimal n))))
        ∙ last_part-behind (String.◌∷◌ "S" s) (padded_decimal n)
            (digits-dashless 0 (padded_decimal n) value))
    ∙ atoi-padded_decimal n h
