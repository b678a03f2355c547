-- ===== src/Base/Maps.antt =====
-- Go maps that are filled in order, as association lists: `m[k]` is the last entry under `k`.
use Prim.Native.String.{String}
use mathlib.Core.Path.{◌≡◌, refl, subst}
use mathlib.Core.Bool.{Bool, true}
use mathlib.Core.List.{List, [], ◌∷◌, map}
use mathlib.Core.Option
use mathlib.Core.Option.{Option, none, some}
use native.Mathlib.Omega.{arith}
use project_management.Base.Tests.{if◌then◌else◌, Option-cases, Bool-cases}
use project_management.Base.Lists.{All, find_last}
use project_management.Base.Text.{str_eq}
use mathlib.Core.Logic.{inl, inr}

module _ {ℓ κ} {K : Type ℓ} {V : Type κ} (eq : K → K → Bool) where
  unfoldable pub get_by : K → List (K × V) → Option V
  get_by k [] = none
  get_by k ((j, v) ∷ m) = elim (get_by k m) [
    | some w ↦ some w
    | none ↦ if eq j k then some v else none
  ]

  -- What holds of every value of a map holds of every value found in it.
  pub get_by-All {μ} :
      (P : V → Type μ) (k : K) (m : List (K × V)) {v : V}
      → All (λ e. P e.1) m
      → get_by k m ≡ some v
      → P v
  unfolding get_by
  get_by-All P k [] h e = cc
  get_by-All P k (x ∷ m) h e = elim (Option-cases (get_by k m)) [
    | inl absent ↦ ground arith
    | inr (w, found) ↦ ground (arith, get_by-All P k m {v = w} h.1 found)
  ]

  -- What holds of the values under a key holds of the value that is found there.
  pub get_by-sound {μ} :
      (P : V → Type μ) (k : K) (m : List (K × V)) {v : V}
      → All (λ e. eq e.0 k ≡ true → P e.1) m
      → get_by k m ≡ some v
      → P v
  unfolding get_by
  get_by-sound P k [] h e = cc
  get_by-sound P k (x ∷ m) h e = elim (Option-cases (get_by k m)) [
    | inl absent ↦ elim (Bool-cases (eq x.0 k)) [
      | inl hit ↦ subst P (ground arith) (h.0 hit)
      | inr miss ↦ absurd (ground arith)
    ]
    | inr (w, found) ↦ ground (arith, get_by-sound P k m {v = w} h.1 found)
  ]

  -- Two maps that are filled from one table by the same key find the same row.
  pub get_by-map {μ} :
      {A : Type μ} (key : A → K) (value : A → V) (k : K) (rows : List A)
      → get_by k (map (λ r. (key r, value r)) rows)
        ≡ Option.map value (find_last (λ r. eq (key r) k) rows)
  unfolding get_by
  get_by-map key value k [] = refl
  get_by-map key value k (r ∷ rows) = ground (arith, get_by-map key value k rows)

-- A map with text keys.
abbrev pub lookup {κ} : {V : Type κ} → String → List (String × V) → Option V
lookup k m = get_by str_eq k m
