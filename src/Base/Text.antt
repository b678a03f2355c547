-- ===== src/Base/Text.antt =====
-- Text: the native strings, and what the source uses of Go's package `strings`.
pub mod Normal
pub mod Decimal
pub mod Serial
use Prim.Native.Nat.{ℕ, ◌+◌, ◌-◌}
use Prim.Native.Char.{Char, code}
use Prim.Native.String.{String, char_at}
use text.Mathlib.Text.{◌==◌ as text_eq}
use mathlib.Core.Path.{◌≡◌, sym, ◌∙◌}
use mathlib.Core.Logic.{◌↔◌, inl, inr}
use mathlib.Core.Bool.{Bool, true, false, ◌&&◌, ◌||◌}
use text.Mathlib.TextEquality.{eq_iff}
use project_management.Base.Tests.{ltb, leb, ◌==◌, if◌then◌else◌, Bool-cases}
use native.Mathlib.Omega.{arith}

-- `a == b` on Go strings
abbrev pub str_eq : String → String → Bool
str_eq a b = text_eq a b

pub str_eq_iff : (a b : String) → (str_eq a b ≡ true) ↔ (a ≡ b)
str_eq_iff a b = eq_iff a b

str_eq-true : (a b : String) → str_eq a b ≡ true → str_eq b a ≡ true
str_eq-true a b e = (str_eq_iff b a).1 (sym ((str_eq_iff a b).0 e))

pub str_eq_comm : (a b : String) → str_eq a b ≡ str_eq b a
str_eq_comm a b = elim (Bool-cases (str_eq a b)) [
  | inl e ↦ e ∙ sym (str_eq-true a b e)
  | inr e ↦ elim (Bool-cases (str_eq b a)) [
    | inl f ↦ absurd (ground (arith, str_eq-true b a f, e))
    | inr f ↦ e ∙ sym f
  ]
]

abbrev pub is_empty : String → Bool
is_empty String.[] = true
is_empty (String.◌∷◌ c s) = false

-- `len(s)`: the bytes of the UTF-8 text
abbrev pub byte_length : String → ℕ
byte_length String.[] = 0
byte_length (String.◌∷◌ c s) =
    (if ltb (code c) 0x80
      then 1
      else if ltb (code c) 0x800
      then 2
      else if ltb (code c) 0x10000
      then 3
      else 4)
    + byte_length s

-- `unicode.IsSpace`
is_space : ℕ → Bool
is_space n =
    (leb 9 n && leb n 13)
    || (n == 32)
    || (n == 0x85)
    || (n == 0xa0)
    || (n == 0x1680)
    || (leb 0x2000 n && leb n 0x200a)
    || (n == 0x2028)
    || (n == 0x2029)
    || (n == 0x202f)
    || (n == 0x205f)
    || (n == 0x3000)

trim_left : String → String
unfolding is_space
trim_left String.[] = String.[]
trim_left (String.◌∷◌ c s) = if is_space (code c) then trim_left s else String.◌∷◌ c s

drop_space : Char → String → String
drop_space c String.[] = if is_space (code c) then String.[] else String.◌∷◌ c String.[]
drop_space c s = String.◌∷◌ c s

trim_right : String → String
unfolding drop_space is_space
trim_right String.[] = String.[]
trim_right (String.◌∷◌ c s) = drop_space c (trim_right s)

-- `strings.TrimSpace`
unfoldable pub trim_space : String → String
unfolding trim_left trim_right
trim_space s = trim_right (trim_left s)

-- `unicode.ToUpper`, exact on ASCII and on the two other runes whose capital is an ASCII letter
-- (U+0131 and U+017F). The remaining runes are left alone: their capitals are no ASCII letters, so
-- no comparison with an ASCII code can tell the difference.
abbrev capitals : String
capitals = "ABCDEFGHIJKLMNOPQRSTUVWXYZ"

upper_char : Char → Char
upper_char c =
    if leb b'a' (code c) && leb (code c) b'z'
    then char_at capitals (code c - b'a')
    else if code c == 0x131
    then "I"
    else if code c == 0x17f
    then "S"
    else c

-- `strings.ToUpper`
unfoldable pub to_upper : String → String
unfolding upper_char
to_upper String.[] = String.[]
to_upper (String.◌∷◌ c s) = String.◌∷◌ (upper_char c) (to_upper s)

-- The simple case folding that `strings.EqualFold` compares by, to the ASCII capitals: of the other
-- runes only U+017F and U+212A fold to an ASCII letter.
fold_char : Char → Char
fold_char c =
    if leb b'a' (code c) && leb (code c) b'z'
    then char_at capitals (code c - b'a')
    else if code c == 0x17f
    then "S"
    else if code c == 0x212a
    then "K"
    else c

fold_case : String → String
unfolding fold_char
fold_case String.[] = String.[]
fold_case (String.◌∷◌ c s) = String.◌∷◌ (fold_char c) (fold_case s)

-- `strings.EqualFold(s, code)` for a code of ASCII capitals.
unfoldable pub equal_fold : String → String → Bool
unfolding fold_case
equal_fold s code = str_eq (fold_case s) code
