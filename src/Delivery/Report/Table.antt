-- ===== src/Delivery/Report/Table.antt =====
-- The keys of pm_report_revision: numbers that the database hands out, each once.
use Prim.Native.Nat.{max}
use project_management.Base.{
  ℕ, suc, ◌≤◌, ◌≡◌, refl, true, false, Bool, List, [], ◌∷◌, arith, All, find, some, update_where,
  inl, inr, Bool-cases, ◌==◌, find-All, All-map,
}
use project_management.Delivery.Schema.{ReportRevision}

-- The auto-increment key of the next row.
unfoldable pub next_id : List ReportRevision → ℕ
next_id [] = 1
next_id (r ∷ rows) = max (suc r.id) (next_id rows)

abbrev pub has_key : ℕ → ReportRevision → Bool
has_key n row = row.id == n

abbrev pub Keyed : List ReportRevision → Type 0
Keyed [] = Unit
Keyed (r ∷ rows) = All (λ s. has_key r.id s ≡ false) rows × Keyed rows

below_next :
    (rows : List ReportRevision) (n : ℕ) → next_id rows ≤ n → All (λ r. has_key n r ≡ false) rows
unfolding next_id
below_next [] n h = tt
below_next (r ∷ rows) n h = (ground arith, below_next rows n (ground arith))

pub Keyed-insert :
    (row : ReportRevision) (rows : List ReportRevision)
    → row.id ≡ next_id rows
    → Keyed rows
    → Keyed (row ∷ rows)
Keyed-insert row rows e k = (below_next rows row.id (omega (arith, e)), k)

module _ (test : ReportRevision → Bool) (f : ReportRevision → ReportRevision)
    (same : (r : ReportRevision) → (f r).id ≡ r.id) where
  other_key-update :
      (n : ℕ) (rows : List ReportRevision)
      → All (λ r. has_key n r ≡ false) rows
      → All (λ r. has_key n r ≡ false) (update_where test f rows)
  other_key-update n [] h = tt
  other_key-update n (r ∷ rows) h = elim (Bool-cases (test r)) [
    | inl e ↦ rw (e, same r) (h.0, other_key-update n rows h.1)
    | inr e ↦ rw e (h.0, other_key-update n rows h.1)
  ]

  pub Keyed-update : (rows : List ReportRevision) → Keyed rows → Keyed (update_where test f rows)
  Keyed-update [] k = tt
  Keyed-update (r ∷ rows) k = elim (Bool-cases (test r)) [
    | inl e ↦ rw (e, same r) (other_key-update r.id rows k.0, Keyed-update rows k.1)
    | inr e ↦ rw e (other_key-update r.id rows k.0, Keyed-update rows k.1)
  ]

-- The row that a search returns is the only one under its key.
pub find-only :
    (test : ReportRevision → Bool) (rows : List ReportRevision) {x : ReportRevision}
    → Keyed rows
    → find test rows ≡ some x
    → All (λ r. has_key x.id r ≡ true → r ≡ x) rows
find-only test [] k e = tt
find-only test (r ∷ rows) {x = x} k e = elim (Bool-cases (test r)) [
  | inl hit ↦
      let same : r ≡ x = ground arith in
      rw (← same) (λ h. refl, All-map _ _ rows (λ s d h. absurd (ground arith)) k.0)
  | inr miss ↦
      let found = (rw miss at e) in
      let (other, _) = find-All (λ s. has_key r.id s ≡ false) test rows k.0 found in
      (λ h. absurd (ground arith), find-only test rows k.1 found)
]
