-- ===== src/Base/Pairs.antt =====
-- Two states of a table, row by row.
use Prim.Native.Nat.{◌<◌}
use mathlib.Core.Path.{◌≡◌, refl, subst}
use mathlib.Core.Bool.{Bool, true, false}
use mathlib.Core.List.{List, [], ◌∷◌}
use mathlib.Core.Option.{some}
use mathlib.Core.Logic.{inl, inr}
use native.Mathlib.Omega.{arith}
use project_management.Base.Tests.{Bool-cases}
use project_management.Base.Lists.{All, find, update_where}
use project_management.Base.Rows.{count}

module _ {ℓ} {A : Type ℓ} where
  abbrev pub Pointwise : (A → A → Type 0) → List A → List A → Type 0
  Pointwise R [] [] = Unit
  Pointwise R [] (y ∷ ys) = ⊥
  Pointwise R (x ∷ xs) [] = ⊥
  Pointwise R (x ∷ xs) (y ∷ ys) = R x y × Pointwise R xs ys

  pub Pointwise-refl :
      (R : A → A → Type 0) (rows : List A) → ((r : A) → R r r) → Pointwise R rows rows
  Pointwise-refl R [] same = tt
  Pointwise-refl R (r ∷ rows) same = (same r, Pointwise-refl R rows same)

  pub Pointwise-update :
      (R : A → A → Type 0) (test : A → Bool) (f : A → A) (rows : List A)
      → ((r : A) → R r r)
      → All (λ r. test r ≡ true → R r (f r)) rows
      → Pointwise R rows (update_where test f rows)
  Pointwise-update R test f [] same h = tt
  Pointwise-update R test f (r ∷ rows) same h = elim (Bool-cases (test r)) [
    | inl e ↦ rw e (h.0 e, Pointwise-update R test f rows same h.1)
    | inr e ↦ rw e (same r, Pointwise-update R test f rows same h.1)
  ]

  -- The row that a search finds stands at the same place afterwards.
  pub find-Pointwise :
      (R : A → A → Type 0) (test : A → Bool) (xs ys : List A) {x : A}
      → ((a b : A) → R a b → test b ≡ test a)
      → Pointwise R xs ys
      → find test xs ≡ some x
      → (y : A) × (find test ys ≡ some y) × R x y
  find-Pointwise R test [] ys same h e = cc
  find-Pointwise R test (a ∷ xs) [] same h e = absurd h
  find-Pointwise R test (a ∷ xs) (b ∷ ys) {x = x} same (r, h) e = elim (Bool-cases (test a)) [
    | inl hit ↦
        let here : a ≡ x = ground arith in (b, rw (same a b r, hit) refl, subst (λ z. R z b) here r)
    | inr miss ↦
        let (y, found, s) = find-Pointwise R test xs ys {x = x} same h (rw miss at e) in
        (y, rw (same a b r, miss) found, s)
  ]

  none_left :
      (test : A → Bool) (rows : List A) → count test rows ≡ 0 → All (λ r. test r ≡ false) rows
  none_left test [] h = tt
  none_left test (r ∷ rows) h = elim (Bool-cases (test r)) [
    | inl e ↦ absurd (ground arith)
    | inr e ↦ (e, none_left test rows (rw e at h))
  ]

  found-counts :
      (key test : A → Bool) (rows : List A) {x : A}
      → find key rows ≡ some x
      → test x ≡ true
      → 0 < count test rows
  found-counts key test [] e t = cc
  found-counts key test (r ∷ rows) {x = x} e t = elim (Bool-cases (key r)) [
    | inl hit ↦ let here : r ≡ x = ground arith in ground arith
    | inr miss ↦ let rest = found-counts key test rows {x = x} (rw miss at e) t in ground arith
  ]

  -- A row that a test reaches alone is the only one it reaches.
  pub find-alone :
      (key test : A → Bool) (rows : List A) {x : A}
      → find key rows ≡ some x
      → test x ≡ true
      → count test rows ≡ 1
      → All (λ r. test r ≡ true → r ≡ x) rows
  find-alone key test [] e t h = tt
  find-alone key test (r ∷ rows) {x = x} e t h = elim (Bool-cases (key r)) [
    | inl hit ↦
        let here : r ≡ x = ground arith in
        (λ _. here, never _ test rows (none_left test rows (ground arith)))
    | inr miss ↦
        let rest = found-counts key test rows {x = x} (rw miss at e) t in
        (
          λ s. absurd (ground arith),
          find-alone key test rows {x = x} (rw miss at e) t (ground arith),
        )
  ]
    where
      never :
          (x : A) (test : A → Bool) (rows : List A)
          → All (λ r. test r ≡ false) rows
          → All (λ r. test r ≡ true → r ≡ x) rows
      never x test [] h = tt
      never x test (r ∷ rows) h = (λ s. absurd (ground arith), never x test rows h.1)
