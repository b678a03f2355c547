-- ===== src/Outbox/Audit/Leases.antt =====
-- internal/auditoutbox/gorm_store.go `Claim`: the lease.
use project_management.Base.{
  ℕ, ◌+◌, ◌≤◌, ◌≡◌, refl, ap, ◌∙◌, String, Bool, true, false, List, [], ◌∷◌, map, some, inl, inr,
  arith, All, All-map, All-All, Bool-cases, any, ltb, ℤ, pos, negsuc, str_eq, update_where,
  update_where-All, filter-All, take-All, sort_by-All, ◌||◌,
}
use project_management.Outbox.Audit.{
  StoreConfig, Row, Entry, claim, claim_some, lock_rows, due_rows, is_due, locked, has_id, entry_of,
  lease_time, comes_first,
}

-- The row is among these.
abbrev pub listed : List Row → Row → Bool
listed rows r = any (λ f. str_eq r.id f.id) rows

abbrev HeldAt : ℕ → (Row → Bool) → Row → Type 0
HeldAt now test r = test r ≡ true → r.locked_at ≡ some now

lock-Held :
    (now : ℕ) (rows table : List Row) (held : Row → Bool)
    → All (HeldAt now held) table
    → All (HeldAt now (λ r. held r || listed rows r)) (lock_rows now rows table)
unfolding lock_rows
lock-Held now [] table held h = All-map _ _ table (λ r k t. k (ground arith)) h
lock-Held now (f ∷ rows) table held h =
    All-map _ _ (lock_rows now rows (update_where (has_id f.id) (locked now) table))
      (λ r k t. k (ground arith))
      (lock-Held now rows (update_where (has_id f.id) (locked now) table)
        (λ r. held r || str_eq r.id f.id)
        (update_where-All (HeldAt now held) _ (has_id f.id) (locked now) table h
          (All-All _ table (λ r _ _ _. refl)) (All-All _ table (λ r miss k t. k (ground arith)))))

any-entries :
    (config : StoreConfig) (id : String) (rows : List Row)
    → any (λ (e : Entry). str_eq id e.id) (map (entry_of config) rows)
      ≡ any (λ (f : Row). str_eq id f.id) rows
any-entries config id [] = refl
any-entries config id (r ∷ rows) = ap (λ b. str_eq id r.id || b) (any-entries config id rows)

map-All :
    (config : StoreConfig) (P : String → Type 0) (rows : List Row)
    → All (λ r. P r.id) rows
    → All (λ (e : Entry). P e.id) (map (entry_of config) rows)
map-All config P [] h = tt
map-All config P (r ∷ rows) h = (h.0, map-All config P rows h.1)

-- A row whose lease still runs is not due.
held_not_due :
    (config : StoreConfig) (now later : ℕ) (row : Row)
    → later ≤ now + lease_time config
    → row.locked_at ≡ some now
    → is_due config later row ≡ true
    → ⊥
unfolding is_due
held_not_due config now later row near held due = ground arith

due-apart :
    (config : StoreConfig) (limit now later : ℕ) (rows table : List Row)
    → later ≤ now + lease_time config
    → All (HeldAt now (listed rows)) table
    → All (λ r. listed rows r ≡ false) (due_rows config limit later table)
unfolding due_rows
due-apart config limit now later rows table near h = take-All _ limit _ (
    sort_by-All _ comes_first _ (
      All-map _ _ _
        (λ r (k, due). elim (Bool-cases (listed rows r)) [
          | inl t ↦ absurd (held_not_due config now later r near (k t) due)
          | inr e ↦ e
        ])
        (filter-All _ (is_due config later) table h)))

-- What one claim hands out, another one does not hand out again before the lease has run out.
pub claim-exclusive :
    (config : StoreConfig) (limit limit' : ℤ) (now later : ℕ) (table : List Row)
    → later ≤ now + lease_time config
    → All
        (λ e. any (λ (f : Entry). str_eq e.id f.id) (claim config limit now table).0 ≡ false)
        (claim config limit' later (claim config limit now table).1).0
unfolding claim claim_some
claim-exclusive config limit (negsuc n) now later table near = tt
claim-exclusive config (negsuc n) (pos n') now later table near = All-All _ _ (λ e. refl)
claim-exclusive config (pos n) (pos n') now later table near = elim (Bool-cases (ltb n' 1)) [
  | inl none_wanted ↦ rw none_wanted tt
  | inr wanted ↦ elim (Bool-cases (ltb n 1)) [
    | inl none_taken ↦ rw (wanted, none_taken) (All-All _ _ (λ e. refl))
    | inr some_taken ↦
        let rows = due_rows config n now table in
        let after = lock_rows now rows table in
        rw (wanted, some_taken)
          (map-All config
            (λ id. any (λ (f : Entry). str_eq id f.id) (map (entry_of config) rows) ≡ false)
            (due_rows config n' later after)
            (All-map _ _ _ (λ r e. any-entries config r.id rows ∙ e)
              (due-apart config n' now later rows after near
                (lock-Held now rows table (λ _. false) (All-All _ table (λ r t. cc))))))
  ]
]
