-- ===== src/Base/Text/Decimal.antt =====
-- Decimal numbers: what the source uses of Go's `fmt` (`%03d`) and `strconv.Atoi`.
use Prim.Native.Nat.{ℕ, zero, suc, ◌+◌, ◌-◌, ◌*◌, ◌/◌, ◌%◌, ◌≤◌, ◌<◌}
use Prim.Native.Char.{Char, code}
use Prim.Native.String.{String, char_at}
use mathlib.Core.Path.{◌≡◌, refl, ap, ◌∙◌}
use mathlib.Core.Bool.{Bool, true, false, ◌&&◌}
use mathlib.Core.Option.{Option, none, some}
use mathlib.Core.Logic.{inl, inr}
use native.Mathlib.Omega.{arith}
use project_management.Base.Tests.{leb, ltb, ◌==◌, if◌then◌else◌, Bool-cases, ==_iff}
use project_management.Base.Text.{is_empty}
use project_management.Base.Text.Normal.{passes, passes-test}

abbrev digit : ℕ → Char
digit n = char_at "0123456789" n

-- The digits of `n` in front of `tail`; fuel `suc n` is enough.
digits_onto : ℕ → ℕ → String → String
digits_onto zero n tail = tail
digits_onto (suc fuel) n tail =
    let rest = digits_onto fuel (n / 10) (String.◌∷◌ (digit (n % 10)) tail) in
    if ltb n 10 then String.◌∷◌ (digit n) tail else rest

unfoldable pub decimal : ℕ → String
unfolding digits_onto
decimal n = digits_onto (suc n) n ""

-- Zeros in front of a text that is shorter than three digits.
abbrev padded : ℕ → String → String
padded n s =
    if ltb n 10
    then String.◌∷◌ (digit 0) (String.◌∷◌ (digit 0) s)
    else if ltb n 100
    then String.◌∷◌ (digit 0) s
    else s

-- `fmt.Sprintf("%03d", n)`
unfoldable pub padded_decimal : ℕ → String
padded_decimal n = padded n (decimal n)

abbrev pub is_digit : Char → Bool
is_digit c = leb 48 (code c) && leb (code c) 57

unfoldable pub digits_value : ℕ → String → Option ℕ
digits_value acc String.[] = some acc
digits_value acc (String.◌∷◌ c s) =
    let rest = digits_value (acc * 10 + (code c - 48)) s in if is_digit c then rest else none

abbrev within_int : ℕ → Option ℕ
within_int n = if leb n 9223372036854775807 then some n else none

abbrev unsigned : String → Option ℕ
unsigned String.[] = none
unsigned (String.◌∷◌ c s) = elim (digits_value 0 (String.◌∷◌ c s)) [
  | none ↦ none
  | some n ↦ within_int n
]

-- `strconv.Atoi` on a text without `-`
unfoldable pub atoi : String → Option ℕ
unfolding digits_value
atoi String.[] = none
atoi (String.◌∷◌ c s) = if code c == 43 then unsigned s else unsigned (String.◌∷◌ c s)

digit_code : (n : ℕ) → n < 10 → code (digit n) ≡ 48 + n
unfolding passes
digit_code n h =
    (==_iff (code (digit n)) (48 + n)).0 (passes-test (λ i. code (digit i) == 48 + i) 10 n refl h)

digit-digit : (n : ℕ) → n < 10 → is_digit (digit n) ≡ true
digit-digit n h = let e = digit_code n h in ground arith

-- A digit in front adds its value.
value-digit :
    (acc n : ℕ) (tail : String)
    → n < 10
    → digits_value acc (String.◌∷◌ (digit n) tail) ≡ digits_value (acc * 10 + n) tail
unfolding digits_value
value-digit acc n tail h =
    let same : code (digit n) - 48 ≡ n = let e = digit_code n h in omega (arith, e) in
    rw (digit-digit n h, same) refl

value-digits_onto :
    (fuel n : ℕ) (tail : String)
    → n < fuel
    → digits_value 0 (digits_onto fuel n tail) ≡ digits_value n tail
unfolding digits_onto
value-digits_onto zero n tail h = absurd (omega arith)
value-digits_onto (suc fuel) n tail h = elim (Bool-cases (ltb n 10)) [
  | inl small ↦
      rw small (value-digit 0 n tail (ground arith) ∙ ap (λ v. digits_value v tail) (omega arith))
  | inr large ↦ rw large (
      value-digits_onto fuel (n / 10) (String.◌∷◌ (digit (n % 10)) tail) (ground arith)
      ∙ value-digit (n / 10) (n % 10) tail (omega arith)
      ∙ ap (λ v. digits_value v tail) (omega arith))
]

value-decimal : (n : ℕ) → digits_value 0 (decimal n) ≡ some n
unfolding digits_value decimal
value-decimal n = value-digits_onto (suc n) n "" (omega arith)

value-zero : (s : String) → digits_value 0 (String.◌∷◌ (digit 0) s) ≡ digits_value 0 s
value-zero s = value-digit 0 0 s (omega arith)

value-padded : (n : ℕ) (s : String) → digits_value 0 (padded n s) ≡ digits_value 0 s
value-padded n s = elim (Bool-cases (ltb n 10)) [
  | inl one ↦ rw one (value-zero _ ∙ value-zero s)
  | inr more ↦ elim (Bool-cases (ltb n 100)) [
    | inl two ↦ rw (more, two) (value-zero s)
    | inr three ↦ rw (more, three) refl
  ]
]

pub value-padded_decimal : (n : ℕ) → digits_value 0 (padded_decimal n) ≡ some n
unfolding padded_decimal
value-padded_decimal n = value-padded n (decimal n) ∙ value-decimal n

padded-filled : (n : ℕ) (s : String) → is_empty s ≡ false → is_empty (padded n s) ≡ false
padded-filled n s h = elim (Bool-cases (ltb n 10)) [
  | inl one ↦ rw one refl
  | inr _ ↦ elim (Bool-cases (ltb n 100)) [ inl two ↦ ground arith | inr three ↦ ground arith ]
]

digits_onto-filled :
    (fuel n : ℕ) (c : Char) (tail : String)
    → is_empty (digits_onto fuel n (String.◌∷◌ c tail)) ≡ false
unfolding digits_onto
digits_onto-filled zero n c tail = refl
digits_onto-filled (suc fuel) n c tail = elim (Bool-cases (ltb n 10)) [
  | inl small ↦ rw small refl
  | inr large ↦ rw large (digits_onto-filled fuel (n / 10) (digit (n % 10)) (String.◌∷◌ c tail))
]

decimal-filled : (n : ℕ) → is_empty (decimal n) ≡ false
unfolding decimal digits_onto
decimal-filled n = elim (Bool-cases (ltb n 10)) [
  | inl small ↦ rw small refl
  | inr large ↦ rw large (digits_onto-filled n (n / 10) (digit (n % 10)) "")
]

none_some : {n : ℕ} {X : Type 0} → none ≡ some n → X
none_some e = cc

-- A text with a value begins with a digit.
pub digits_value-head :
    (acc : ℕ) (c : Char) (s : String) {n : ℕ}
    → digits_value acc (String.◌∷◌ c s) ≡ some n
    → (is_digit c ≡ true) × (digits_value (acc * 10 + (code c - 48)) s ≡ some n)
unfolding digits_value
digits_value-head acc c s e = elim (Bool-cases (is_digit c)) [
  | inl h ↦ (h, rw h at e)
  | inr h ↦ none_some (rw h at e)
]

-- What `Atoi` makes of a text of digits whose value fits an `int`.
pub atoi-digits :
    (s : String) {n : ℕ}
    → is_empty s ≡ false
    → digits_value 0 s ≡ some n
    → n ≤ 9223372036854775807
    → atoi s ≡ some n
unfolding atoi
atoi-digits String.[] filled e h = cc
atoi-digits (String.◌∷◌ c s) filled e h = elim (Bool-cases (code c == 43)) [
  | inl plus ↦ let (h, _) = digits_value-head 0 c s e in absurd (ground arith)
  | inr figure ↦ rw figure (rw (e, unsigned) (ground arith))
]

pub padded_decimal-filled : (n : ℕ) → is_empty (padded_decimal n) ≡ false
unfolding padded_decimal
padded_decimal-filled n = padded-filled n (decimal n) (decimal-filled n)

-- What `Atoi` reads is what `%03d` writes, while it fits an `int`.
pub atoi-padded_decimal : (n : ℕ) → n ≤ 9223372036854775807 → atoi (padded_decimal n) ≡ some n
atoi-padded_decimal n h =
    atoi-digits (padded_decimal n) (padded_decimal-filled n) (value-padded_decimal n) h
