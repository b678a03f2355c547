-- ===== src/Base/Changes.antt =====
-- Tables before and after: what each row has become, and keys that keep the rows apart.
use Prim.Native.Nat.{◌+◌}
use mathlib.Core.Path.{◌≡◌, refl, sym, ◌∙◌}
use mathlib.Core.Logic.{◌≢◌, inl, inr}
use mathlib.Core.Bool.{Bool, true, false}
use mathlib.Core.List.{List, [], ◌∷◌}
use native.Mathlib.Omega.{arith}
use project_management.Base.Tests.{Bool-cases}
use project_management.Base.Lists.{All, any, update_where}
use project_management.Base.Rows.{All-map, All-zip, count}

module _ {ℓ} {A : Type ℓ} where
  -- Each row of the first list stands in the second, as what the relation makes of it; rows may follow.
  abbrev pub Grown : (A → A → Type 0) → List A → List A → Type 0
  Grown R [] new = Unit
  Grown R (x ∷ xs) [] = ⊥
  Grown R (x ∷ xs) (y ∷ ys) = R x y × Grown R xs ys

  pub Grown-trans :
      (R : A → A → Type 0) (xs ys zs : List A)
      → ((x y z : A) → R x y → R y z → R x z)
      → Grown R xs ys
      → Grown R ys zs
      → Grown R xs zs
  Grown-trans R [] ys zs t h k = tt
  Grown-trans R (x ∷ xs) [] zs t h k = absurd h
  Grown-trans R (x ∷ xs) (y ∷ ys) [] t h k = absurd k
  Grown-trans R (x ∷ xs) (y ∷ ys) (z ∷ zs) t h k =
      (t x y z h.0 k.0, Grown-trans R xs ys zs t h.1 k.1)

  pub Grown-refl : (R : A → A → Type 0) (xs : List A) → ((x : A) → R x x) → Grown R xs xs
  Grown-refl R [] r = tt
  Grown-refl R (x ∷ xs) r = (r x, Grown-refl R xs r)

  pub Grown-update :
      (R : A → A → Type 0) (test : A → Bool) (f : A → A) (xs : List A)
      → ((x : A) → R x x)
      → All (λ x. test x ≡ true → R x (f x)) xs
      → Grown R xs (update_where test f xs)
  Grown-update R test f [] r h = tt
  Grown-update R test f (x ∷ xs) r h = elim (Bool-cases (test x)) [
    | inl e ↦ rw e (h.0 e, Grown-update R test f xs r h.1)
    | inr e ↦ rw e (r x, Grown-update R test f xs r h.1)
  ]

  pub Grown-map :
      (R S : A → A → Type 0) (xs ys : List A)
      → ((x y : A) → R x y → S x y)
      → Grown R xs ys
      → Grown S xs ys
  Grown-map R S [] ys f h = tt
  Grown-map R S (x ∷ xs) [] f h = absurd h
  Grown-map R S (x ∷ xs) (y ∷ ys) f h = (f x y h.0, Grown-map R S xs ys f h.1)

  -- What holds of the rows and is kept by the relation holds of the rows that they have become.
  pub Grown-keeps :
      (R : A → A → Type 0) (P : A → Type 0) (xs ys : List A)
      → ((x y : A) → R x y → P x → P y)
      → Grown R xs ys
      → All P xs
      → Grown (λ x y. P y) xs ys
  Grown-keeps R P [] ys k h p = tt
  Grown-keeps R P (x ∷ xs) [] k h p = absurd h
  Grown-keeps R P (x ∷ xs) (y ∷ ys) k h p = (k x y h.0 p.0, Grown-keeps R P xs ys k h.1 p.1)

  pub any-All {κ} :
      (Q : A → Type κ) (test : A → Bool) (xs : List A)
      → any test xs ≡ true
      → All Q xs
      → (x : A) × Q x × (test x ≡ true)
  any-All Q test [] e h = cc
  any-All Q test (x ∷ xs) e h = elim (Bool-cases (test x)) [
    | inl hit ↦ (x, h.0, hit)
    | inr miss ↦ any-All Q test xs (rw miss at e) h.1
  ]

  -- An update that makes `P` of rows that it reaches and that were not `P`.
  pub count-update :
      (P test : A → Bool) (f : A → A) (xs : List A)
      → All (λ x. test x ≡ true → (P x ≡ false) × (P (f x) ≡ true)) xs
      → count P (update_where test f xs) ≡ count P xs + count test xs
  count-update P test f [] h = refl
  count-update P test f (x ∷ xs) h =
      let ih = count-update P test f xs h.1 in
      elim (Bool-cases (test x)) [
        | inl e ↦ let k = h.0 e in rw (e, k.0, k.1) (omega (arith, ih))
        | inr e ↦ elim (Bool-cases (P x)) [
          | inl p ↦ rw (e, p) (omega (arith, ih))
          | inr p ↦ rw (e, p) (omega (arith, ih))
        ]
      ]

  pub count-update_same :
      (P test : A → Bool) (f : A → A) (xs : List A)
      → All (λ x. test x ≡ true → P (f x) ≡ P x) xs
      → count P (update_where test f xs) ≡ count P xs
  count-update_same P test f [] h = refl
  count-update_same P test f (x ∷ xs) h =
      let ih = count-update_same P test f xs h.1 in
      elim (Bool-cases (test x)) [
        | inl e ↦ let k = h.0 e in rw (e, k, ih) refl
        | inr e ↦ rw (e, ih) refl
      ]

module _ {ℓ κ} {A : Type ℓ} {K : Type κ} (key : A → K) where
  abbrev pub Unused : K → List A → Type κ
  Unused k = All (λ r. key r ≢ k)

  abbrev pub Keyed : List A → Type κ
  Keyed [] = Unit
  Keyed (r ∷ rows) = Unused (key r) rows × Keyed rows

  update-Unused :
      (k : K) (test : A → Bool) (f : A → A) (rows : List A)
      → ((r : A) → key (f r) ≡ key r)
      → Unused k rows
      → Unused k (update_where test f rows)
  update-Unused k test f [] same h = tt
  update-Unused k test f (r ∷ rows) same h = elim (Bool-cases (test r)) [
    | inl e ↦ rw e ((λ p. h.0 (sym (same r) ∙ p)), update-Unused k test f rows same h.1)
    | inr e ↦ rw e (h.0, update-Unused k test f rows same h.1)
  ]

  -- An update that leaves the keys alone keeps them apart.
  pub update-Keyed :
      (test : A → Bool) (f : A → A) (rows : List A)
      → ((r : A) → key (f r) ≡ key r)
      → Keyed rows
      → Keyed (update_where test f rows)
  update-Keyed test f [] same h = tt
  update-Keyed test f (r ∷ rows) same h =
      let rest = update-Keyed test f rows same h.1 in
      let fresh = update-Unused (key r) test f rows same h.0 in
      elim (Bool-cases (test r)) [
        | inl e ↦ rw e (All-map _ _ _ (λ x n p. n (p ∙ same r)) fresh, rest)
        | inr e ↦ rw e (fresh, rest)
      ]

  -- Rows with the same key are the same row.
  pub only : (rows : List A) → Keyed rows → All (λ x. All (λ r. key x ≡ key r → x ≡ r) rows) rows
  only [] u = tt
  only (r ∷ rows) u = (
    ((λ e. refl), All-map _ _ rows (λ x n e. absurd (n (sym e))) u.0),
    All-map (λ x. (key x ≢ key r) × All (λ y. key x ≡ key y → x ≡ y) rows) _ rows
        (λ x k. ((λ e. absurd (k.0 e)), k.1)) (All-zip _ _ rows u.0 (only rows u.1)),
  )
