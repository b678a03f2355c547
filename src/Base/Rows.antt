-- ===== src/Base/Rows.antt =====
-- Tables as lists of rows: updates that count the rows they reach, and what updates keep.
use Prim.Native.Nat.{ℕ, suc}
use mathlib.Core.Path.{◌≡◌}
use mathlib.Core.Bool.{Bool, true, false, not}
use mathlib.Core.List.{List, [], ◌∷◌}
use mathlib.Core.Option.{some}
use mathlib.Core.Logic.{inl, inr}
use native.Mathlib.Omega.{arith}
use project_management.Base.Tests.{if◌then◌else◌, Bool-cases, ◌==◌}
use project_management.Base.Lists.{All, find, filter, update_where}
use project_management.Base.Outcome.{Result, ok, conflict, ◌>>◌, refuse_if}

module _ {ℓ} {A : Type ℓ} where
  abbrev pub count : (A → Bool) → List A → ℕ
  count test [] = 0
  count test (x ∷ xs) = if test x then suc (count test xs) else count test xs

  -- `UPDATE … WHERE test`, which must reach exactly one row.
  unfoldable pub update_one : (A → Bool) → (A → A) → List A → Result (List A)
  update_one test f rows =
      refuse_if (not (count test rows == 1)) conflict >> ok (update_where test f rows)

  pub update_one-eq :
      (test : A → Bool) (f : A → A) (rows : List A) {rows' : List A}
      → update_one test f rows ≡ ok rows'
      → (rows' ≡ update_where test f rows) × (count test rows ≡ 1)
  unfolding update_one
  update_one-eq test f rows h = elim (Bool-cases (count test rows == 1)) [
    | inl e ↦ ground arith
    | inr e ↦ absurd (ground arith)
  ]

  pub update_where-All {κ μ} :
      (P : A → Type κ) (Q : A → Type μ) (test : A → Bool) (f : A → A) (rows : List A)
      → All P rows
      → All (λ r. test r ≡ true → P r → Q (f r)) rows
      → All (λ r. test r ≡ false → P r → Q r) rows
      → All Q (update_where test f rows)
  update_where-All P Q test f [] h k l = tt
  update_where-All P Q test f (r ∷ rows) h k l = elim (Bool-cases (test r)) [
    | inl e ↦ rw e (k.0 e h.0, update_where-All P Q test f rows h.1 k.1 l.1)
    | inr e ↦ rw e (l.0 e h.0, update_where-All P Q test f rows h.1 k.1 l.1)
  ]

  pub All-map {κ μ} :
      (P : A → Type κ) (Q : A → Type μ) (rows : List A)
      → ((r : A) → P r → Q r)
      → All P rows
      → All Q rows
  All-map P Q [] f h = tt
  All-map P Q (r ∷ rows) f h = (f r h.0, All-map P Q rows f h.1)

  pub All-zip {κ μ} :
      (P : A → Type κ) (Q : A → Type μ) (rows : List A)
      → All P rows
      → All Q rows
      → All (λ r. P r × Q r) rows
  All-zip P Q [] h k = tt
  All-zip P Q (r ∷ rows) h k = ((h.0, k.0), All-zip P Q rows h.1 k.1)

  pub All-All {κ} : (P : A → Type κ) (rows : List A) → ((r : A) → P r) → All P rows
  All-All P [] f = tt
  All-All P (r ∷ rows) f = (f r, All-All P rows f)

  pub find-All {κ} :
      (P : A → Type κ) (test : A → Bool) (rows : List A) {x : A}
      → All P rows
      → find test rows ≡ some x
      → P x × (test x ≡ true)
  find-All P test [] h e = cc
  find-All P test (r ∷ rows) h e = elim (Bool-cases (test r)) [
    | inl hit ↦ ground (arith, hit, h.0)
    | inr miss ↦ find-All P test rows h.1 (rw miss at e)
  ]

  pub filter-All {κ} :
      (P : A → Type κ) (test : A → Bool) (rows : List A)
      → All P rows
      → All (λ r. P r × (test r ≡ true)) (filter test rows)
  filter-All P test [] h = tt
  filter-All P test (r ∷ rows) h = elim (Bool-cases (test r)) [
    | inl e ↦ rw e ((h.0, e), filter-All P test rows h.1)
    | inr e ↦ rw e (filter-All P test rows h.1)
  ]
