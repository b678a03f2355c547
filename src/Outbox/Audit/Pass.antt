-- ===== src/Outbox/Audit/Pass.antt =====
-- internal/auditoutbox/dispatcher.go `deliverOnce`: a pass that has room takes every row that is due, and settles it.
use project_management.Base.{
  ℕ, ◌≤◌, ◌<◌, ◌≡◌, refl, ◌∙◌, ◌⊎◌, inl, inr, String, Bool, true, false, List, [], ◌∷◌, map, arith,
  All, All-map, All-All, All-zip, negsuc, Bool-cases, filter, length, ltb, ℤ, pos, str_eq,
  str_eq_iff, update_where, update_where-All, sort_by, any-sort_by, take-length, length-sort_by,
}
use project_management.Outbox.Audit.{
  StoreConfig, Row, Entry, is_open, claim, claim_some, lock_rows, due_rows, is_due, locked, has_id,
  entry_of, comes_first,
}
use project_management.Outbox.Audit.Dispatch.{
  Dispatcher, AuditEvent, batch_of, batch_size, settle, event_of, deliver_all, deliver_once,
}
use project_management.Outbox.Audit.Leases.{listed}

str_eq_refl : (s : String) → str_eq s s ≡ true
str_eq_refl s = (str_eq_iff s s).1 refl

listed-filter-cons :
    (test : Row → Bool) (x : Row) (rows : List Row) (r : Row)
    → listed (filter test rows) r ≡ true
    → listed (filter test (x ∷ rows)) r ≡ true
listed-filter-cons test x rows r h = elim (Bool-cases (test x)) [
  | inl e ↦ rw (e, h) (ground arith)
  | inr e ↦ rw e h
]

listed-filter :
    (test : Row → Bool) (rows : List Row)
    → All (λ r. test r ≡ true → listed (filter test rows) r ≡ true) rows
listed-filter test [] = tt
listed-filter test (x ∷ rows) = (
  (λ t. rw (t, str_eq_refl x.id) refl),
  All-map _ _ rows (λ r h t. listed-filter-cons test x rows r (h t)) (listed-filter test rows),
)

length-filter : (test : Row → Bool) (rows : List Row) → length (filter test rows) ≤ length rows
length-filter test [] = omega arith
length-filter test (x ∷ rows) =
    let ih = length-filter test rows in
    elim (Bool-cases (test x)) [
      | inl e ↦ rw e (omega (arith, ih))
      | inr e ↦ rw e (omega (arith, ih))
    ]

-- A pass that has room for all rows takes every row that is due.
due_rows-listed :
    (config : StoreConfig) (limit now : ℕ) (table : List Row)
    → length table ≤ limit
    → All
        (λ r. is_due config now r ≡ true → listed (due_rows config limit now table) r ≡ true)
        table
unfolding due_rows
due_rows-listed config limit now table room =
    let found = filter (is_due config now) table in
    let fits : length (sort_by comes_first found) ≤ limit =
      omega (arith, length-sort_by comes_first found, length-filter (is_due config now) table) in
    rw (take-length limit (sort_by comes_first found) fits) (
      All-map _ _ table (λ r h due. any-sort_by (λ f. str_eq r.id f.id) comes_first found ∙ h due)
        (listed-filter (is_due config now) table))

-- While the rows are locked, every open row is among those that were found.
abbrev Covered : List Row → Row → Type 0
Covered rows r = is_open r.delivery_status ≡ true → listed rows r ≡ true

lock-Covered :
    (now : ℕ) (all rows table : List Row)
    → ((r : Row) → listed rows r ≡ true → listed all r ≡ true)
    → All (Covered all) table
    → All (Covered all) (lock_rows now rows table)
unfolding lock_rows
lock-Covered now all [] table within h = h
lock-Covered now all (f ∷ rows) table within h =
    lock-Covered now all rows (update_where (has_id f.id) (locked now) table)
      (λ r t. within r (ground arith))
      (update_where-All (Covered all) (Covered all) (has_id f.id) (locked now) table h
        (All-All _ table (λ r hit _ _. within (locked now r) (ground arith)))
        (All-All _ table (λ r _ k. k)))

-- What a settled entry leaves: the rows with its key have `S`, the others stay.
abbrev pub Settles : (Row → Type 0) → (Entry → List Row → List Row) → Type 1
Settles S step =
    (entry : Entry) (X : Row → Type 0) (table : List Row)
    → All (λ r. S r ⊎ X r) table
    → All (λ r. S r ⊎ (X r × (str_eq r.id entry.id ≡ false))) (step entry table)

deliver-all :
    (config : StoreConfig) (d : Dispatcher) (report : AuditEvent → Bool) (now : ℕ)
    (S : Row → Type 0)
    → Settles S (λ entry. settle config d now (report (event_of entry)) entry)
    → (rows table : List Row) → All (λ r. S r ⊎ (listed rows r ≡ true)) table
    → All S (deliver_all config d report now (map (entry_of config) rows) table)
unfolding deliver_all
deliver-all config d report now S settles [] table h =
    All-map _ _ table (λ r k. elim k [ inl s ↦ s | inr t ↦ cc ]) h
deliver-all config d report now S settles (f ∷ rows) table h =
    deliver-all config d report now S settles rows _ (
      All-map _ _ _ (λ r k. elim k [ inl s ↦ inl s | inr (t, miss) ↦ inr (ground arith) ])
        (settles (entry_of config f) (λ r. listed (f ∷ rows) r ≡ true) table h))

batch_of-pos : (n : ℤ) → 0 < batch_of n
batch_of-pos (pos n) = ground arith
batch_of-pos (negsuc n) = omega arith

batch_size_pos : (d : Dispatcher) → 0 < batch_size d
unfolding batch_size
batch_size_pos d = batch_of-pos d.batch_size

-- The pass as a whole, from what each settled entry leaves.
pub pass :
    (config : StoreConfig) (d : Dispatcher) (report : AuditEvent → Bool) (now : ℕ)
    (S : Row → Type 0)
    → Settles S (λ entry. settle config d now (report (event_of entry)) entry)
    → ((r : Row) → is_open r.delivery_status ≡ false → S r)
    → (table : List Row) → length table ≤ batch_size d
    → All (λ r. is_open r.delivery_status ≡ true → is_due config now r ≡ true) table
    → All S (deliver_once config d report now table)
unfolding deliver_once claim claim_some
pass config d report now S settles closed table room due =
    elim (Bool-cases (ltb (batch_size d) 1)) [
      | inl none_wanted ↦ absurd (ground (arith, batch_size_pos d, none_wanted))
      | inr wanted ↦
          let found = due_rows config (batch_size d) now table in
          rw wanted (
            deliver-all config d report now S settles found (lock_rows now found table) (
              All-map _ _ _
                (λ r k. elim (Bool-cases (is_open r.delivery_status)) [
                  | inl o ↦ inr (k o)
                  | inr e ↦ inl (closed r e)
                ])
                (lock-Covered now found found table (λ r t. t)
                  (All-map
                    (λ r.
                      (is_open r.delivery_status ≡ true → is_due config now r ≡ true)
                      × (is_due config now r ≡ true → listed found r ≡ true))
                    (Covered found) table (λ r k o. k.1 (k.0 o))
                    (All-zip _ _ table due
                      (due_rows-listed config (batch_size d) now table room))))))
    ]
