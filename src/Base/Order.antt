-- ===== src/Base/Order.antt =====
-- `ORDER BY … LIMIT n`: insertion sort by a test that says which row comes first, and prefixes.
use Prim.Native.Nat.{ℕ, zero, suc, ◌≤◌}
use mathlib.Core.Path.{◌≡◌, refl, ap, ◌∙◌}
use mathlib.Core.Bool.{Bool, ◌||◌}
use mathlib.Core.List.{List, [], ◌∷◌}
use mathlib.Core.Logic.{inl, inr}
use native.Mathlib.Omega.{arith}
use project_management.Base.Tests.{if◌then◌else◌, Bool-cases}
use project_management.Base.Lists.{All, any, length}

module _ {ℓ} {A : Type ℓ} where
  abbrev pub take : ℕ → List A → List A
  take zero xs = []
  take (suc n) [] = []
  take (suc n) (x ∷ xs) = x ∷ take n xs

  unfoldable pub insert_by : (A → A → Bool) → A → List A → List A
  insert_by first x [] = x ∷ []
  insert_by first x (y ∷ ys) =
      let rest = insert_by first x ys in if first x y then x ∷ y ∷ ys else y ∷ rest

  unfoldable pub sort_by : (A → A → Bool) → List A → List A
  sort_by first [] = []
  sort_by first (x ∷ xs) = insert_by first x (sort_by first xs)

  pub take-All {κ} : (P : A → Type κ) (n : ℕ) (xs : List A) → All P xs → All P (take n xs)
  take-All P zero xs h = tt
  take-All P (suc n) [] h = tt
  take-All P (suc n) (x ∷ xs) h = (h.0, take-All P n xs h.1)

  pub take-length : (n : ℕ) (xs : List A) → length xs ≤ n → take n xs ≡ xs
  take-length zero [] h = refl
  take-length zero (x ∷ xs) h = absurd (omega arith)
  take-length (suc n) [] h = refl
  take-length (suc n) (x ∷ xs) h = ap (λ z. x ∷ z) (take-length n xs (omega arith))

  pub length-take : (n : ℕ) (xs : List A) → length (take n xs) ≤ n
  length-take zero xs = omega arith
  length-take (suc n) [] = omega arith
  length-take (suc n) (x ∷ xs) = omega (arith, length-take n xs)

  insert_by-All {κ} :
      (P : A → Type κ) (first : A → A → Bool) (x : A) (xs : List A)
      → P x
      → All P xs
      → All P (insert_by first x xs)
  unfolding insert_by
  insert_by-All P first x [] p h = (p, tt)
  insert_by-All P first x (y ∷ ys) p h = elim (Bool-cases (first x y)) [
    | inl e ↦ rw e (p, h)
    | inr e ↦ rw e (h.0, insert_by-All P first x ys p h.1)
  ]

  pub sort_by-All {κ} :
      (P : A → Type κ) (first : A → A → Bool) (xs : List A) → All P xs → All P (sort_by first xs)
  unfolding sort_by
  sort_by-All P first [] h = tt
  sort_by-All P first (x ∷ xs) h =
      insert_by-All P first x (sort_by first xs) h.0 (sort_by-All P first xs h.1)

  any-insert_by :
      (test : A → Bool) (first : A → A → Bool) (x : A) (xs : List A)
      → any test (insert_by first x xs) ≡ (test x || any test xs)
  unfolding insert_by
  any-insert_by test first x [] = refl
  any-insert_by test first x (y ∷ ys) =
      let ih = any-insert_by test first x ys in
      elim (Bool-cases (first x y)) [ inl e ↦ rw e refl | inr e ↦ rw (e, ih) (ground arith) ]

  -- Sorting neither adds nor drops anything.
  pub any-sort_by :
      (test : A → Bool) (first : A → A → Bool) (xs : List A)
      → any test (sort_by first xs) ≡ any test xs
  unfolding sort_by
  any-sort_by test first [] = refl
  any-sort_by test first (x ∷ xs) =
      any-insert_by test first x (sort_by first xs)
      ∙ ap (λ b. test x || b) (any-sort_by test first xs)

  length-insert_by :
      (first : A → A → Bool) (x : A) (xs : List A) → length (insert_by first x xs) ≡ suc (length xs)
  unfolding insert_by
  length-insert_by first x [] = refl
  length-insert_by first x (y ∷ ys) = elim (Bool-cases (first x y)) [
    | inl e ↦ rw e refl
    | inr e ↦ rw e (ap suc (length-insert_by first x ys))
  ]

  pub length-sort_by : (first : A → A → Bool) (xs : List A) → length (sort_by first xs) ≡ length xs
  unfolding sort_by
  length-sort_by first [] = refl
  length-sort_by first (x ∷ xs) =
      length-insert_by first x (sort_by first xs) ∙ ap suc (length-sort_by first xs)
