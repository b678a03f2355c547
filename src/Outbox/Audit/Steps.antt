-- ===== src/Outbox/Audit/Steps.antt =====
-- internal/auditoutbox/gorm_store.go: the table under the steps of any number of workers, of operators
-- and of the transactions that write audit events. A worker may crash or come late at any point: its
-- next step is then missing, or stands anywhere behind.
use project_management.Base.{
  ℕ, ◌+◌, ◌-◌, ◌≤◌, ◌<◌, ◌≡◌, refl, sym, subst, inl, inr, String, Bool, true, false, ◌&&◌, ◌||◌,
  not, List, [], ◌∷◌, Option, none, some, arith, All, All-map, All-All, Bool-cases, Option-cases,
  is_some, ltb, leb, ◌==◌, ℤ, pos, negsuc, ok, update_where, update_where-All, find, refused,
  Unused, update-Keyed, ok_injective,
}
use project_management.Outbox.Audit.Keys.{KeyedRows, find-only}
use project_management.Outbox.Audit.{
  StoreConfig, Row, DeliveryStatus, pending, retry, processing, delivered, failed, is_open,
  is_processing, is_failed, claim, claim_some, lock_rows, due_rows, locked, has_id, mark_delivered,
  mark_failed, failed_status, retry_failed, is_failed_of, is_due, lease_time, locked_before,
}

pub data Step (config : StoreConfig) : List Row → List Row → Type 0 where
  creates :
      {table : List Row} (row : Row)
      → row.delivery_status ≡ pending
      → row.attempts ≡ 0
      → row.locked_at ≡ none
      → Unused (λ (r : Row). r.id) row.id table
      → Step config table (row ∷ table)
  claims :
      {table : List Row} (limit : ℤ) (now : ℕ) → Step config table (claim config limit now table).1
  delivers :
      {table : List Row} (id : String) (now : ℕ) → Step config table (mark_delivered id now table)
  fails :
      {table after : List Row} (id code : String) (retry_at : ℕ)
      → mark_failed config id code retry_at table ≡ ok after
      → Step config table after
  resets :
      {table : List Row} (tenant id : String) (now : ℕ)
      → Step config table (retry_failed tenant id now table).1

pub data Reach (config : StoreConfig) : List Row → Type 0 where
  empty : Reach config []
  next :
      {table after : List Row} → Reach config table → Step config table after → Reach config after

abbrev pub is_waiting : DeliveryStatus → Bool
is_waiting pending = true
is_waiting retry = true
is_waiting _ = false

-- A row holds a lease exactly while it is processing; a row that waits has attempts left; a row that is
-- given up has used them.
pub record Sane (config : StoreConfig) (row : Row) : Type 0 where
  pub held : is_processing row.delivery_status ≡ is_some row.locked_at
  pub budget :
      is_waiting row.delivery_status ≡ true
      → (config.max_tries == 0 || ltb row.attempts config.max_tries) ≡ true
  pub used :
      is_failed row.delivery_status ≡ true
      → (0 < config.max_tries) × (config.max_tries ≤ row.attempts)

keeps :
    (config : StoreConfig) (test : Row → Bool) (f : Row → Row) (table : List Row)
    → ((r : Row) → Sane config (f r))
    → All (Sane config) table
    → All (Sane config) (update_where test f table)
keeps config test f table g h =
    update_where-All (Sane config) (Sane config) test f table h (All-All _ table (λ r _ _. g r))
      (All-All _ table (λ r _ s. s))

locked-Sane : (config : StoreConfig) (now : ℕ) (row : Row) → Sane config (locked now row)
locked-Sane config now row = record { held = refl; budget = λ e. cc; used = λ e. cc }

lock-Sane :
    (config : StoreConfig) (now : ℕ) (rows table : List Row)
    → All (Sane config) table
    → All (Sane config) (lock_rows now rows table)
unfolding lock_rows
lock-Sane config now [] table h = h
lock-Sane config now (r ∷ rows) table h =
    lock-Sane config now rows (update_where (has_id r.id) (locked now) table)
      (keeps config (has_id r.id) (locked now) table (locked-Sane config now) h)

claim-Sane :
    (config : StoreConfig) (limit : ℤ) (now : ℕ) (table : List Row)
    → All (Sane config) table
    → All (Sane config) (claim config limit now table).1
unfolding claim claim_some
claim-Sane config (negsuc n) now table h = h
claim-Sane config (pos limit) now table h = elim (Bool-cases (ltb limit 1)) [
  | inl e ↦ rw e h
  | inr e ↦ rw e (lock-Sane config now (due_rows config limit now table) table h)
]

delivered-Sane :
    (config : StoreConfig) (id : String) (now : ℕ) (table : List Row)
    → All (Sane config) table
    → All (Sane config) (mark_delivered id now table)
unfolding mark_delivered
delivered-Sane config id now table h =
    keeps config (has_id id) _ table (λ r. record { held = refl; budget = λ e. cc; used = λ e. cc })
      h

-- What a failed attempt makes of a row.
abbrev failed_row : StoreConfig → String → ℕ → ℕ → Row → Row
failed_row config code retry_at attempts row = record row {
  delivery_status = failed_status config attempts;
  next_attempt_at = retry_at;
  locked_at = none;
  last_error = some code;
}

failed_row-Sane :
    (config : StoreConfig) (code : String) (retry_at : ℕ) (row : Row)
    → Sane config (failed_row config code retry_at row.attempts row)
failed_row-Sane config code retry_at row =
    elim (Bool-cases (not (config.max_tries == 0) && leb config.max_tries row.attempts)) [
      | inl spent ↦ rw spent (record { held = refl; budget = λ e. cc; used = λ _. ground arith })
      | inr left ↦ rw left (record { held = refl; budget = λ _. ground arith; used = λ e. cc })
    ]

-- A failure is written with the status that the attempts of the row call for.
failed-Sane :
    (config : StoreConfig) (id code : String) (retry_at : ℕ) (table : List Row) {after : List Row}
    → mark_failed config id code retry_at table ≡ ok after
    → KeyedRows table
    → All (Sane config) table
    → All (Sane config) after
unfolding mark_failed
failed-Sane config id code retry_at table e u h = elim (Bool-cases (config.max_tries == 0)) [
  | inl unlimited ↦ rw (sym (ok_injective (rw unlimited at e))) (
      keeps config (has_id id) _ table
        (λ r. record { held = refl; budget = λ _. rw unlimited refl; used = λ q. cc }) h)
  | inr limited ↦ elim (Option-cases (find (has_id id) table)) [
    | inl absent ↦ refused (rw (limited, absent) at e)
    | inr (row, found) ↦ rw (sym (ok_injective (rw (limited, found) at e))) (
        update_where-All (Sane config) (Sane config) (has_id id)
          (failed_row config code retry_at row.attempts) table h
          (All-map _ _ table
            (λ r only t _.
              subst (λ z. Sane config (failed_row config code retry_at row.attempts z))
                (sym (only t)) (failed_row-Sane config code retry_at row))
            (find-only id table u found))
          (All-All _ table (λ r _ k. k)))
  ]
]

reset-Sane :
    (config : StoreConfig) (tenant id : String) (now : ℕ) (table : List Row)
    → All (Sane config) table
    → All (Sane config) (retry_failed tenant id now table).1
unfolding retry_failed
reset-Sane config tenant id now table h =
    keeps config (is_failed_of tenant id) _ table
      (λ r. record { held = refl; budget = λ e. ground arith; used = λ e. cc }) h

lock-KeyedRows :
    (now : ℕ) (rows table : List Row) → KeyedRows table → KeyedRows (lock_rows now rows table)
unfolding lock_rows
lock-KeyedRows now [] table u = u
lock-KeyedRows now (r ∷ rows) table u =
    lock-KeyedRows now rows _
      (update-Keyed (λ (r : Row). r.id) (has_id r.id) (locked now) table (λ r. refl) u)

claim-KeyedRows :
    (config : StoreConfig) (limit : ℤ) (now : ℕ) (table : List Row)
    → KeyedRows table
    → KeyedRows (claim config limit now table).1
unfolding claim claim_some
claim-KeyedRows config (negsuc n) now table u = u
claim-KeyedRows config (pos limit) now table u = elim (Bool-cases (ltb limit 1)) [
  | inl e ↦ rw e u
  | inr e ↦ rw e (lock-KeyedRows now (due_rows config limit now table) table u)
]

failed-KeyedRows :
    (config : StoreConfig) (id code : String) (retry_at : ℕ) (table : List Row) {after : List Row}
    → mark_failed config id code retry_at table ≡ ok after
    → KeyedRows table
    → KeyedRows after
unfolding mark_failed
failed-KeyedRows config id code retry_at table e u = elim (Bool-cases (config.max_tries == 0)) [
  | inl unlimited ↦
      rw (sym (ok_injective (rw unlimited at e)))
        (update-Keyed (λ (r : Row). r.id) (has_id id) _ table (λ r. refl) u)
  | inr limited ↦ elim (Option-cases (find (has_id id) table)) [
    | inl absent ↦ refused (rw (limited, absent) at e)
    | inr (row, found) ↦
        rw (sym (ok_injective (rw (limited, found) at e)))
          (update-Keyed (λ (r : Row). r.id) (has_id id) _ table (λ r. refl) u)
  ]
]

Step-Sane :
    {config : StoreConfig} {table after : List Row}
    → Step config table after
    → KeyedRows table
    → All (Sane config) table
    → KeyedRows after × All (Sane config) after
unfolding mark_delivered retry_failed
Step-Sane {config = config} (creates {table = table} row e tries free fresh) u h = (
  (fresh, u),
  (record { held = ground arith; budget = λ _. ground arith; used = λ q. ground arith }, h),
)
Step-Sane {config = config} (claims {table = table} limit now) u h =
    (claim-KeyedRows config limit now table u, claim-Sane config limit now table h)
Step-Sane {config = config} (delivers {table = table} id now) u h = (
  update-Keyed (λ (r : Row). r.id) (has_id id) _ table (λ r. refl) u,
  unfold mark_delivered in delivered-Sane config id now table h,
)
Step-Sane {config = config} (fails {table = table} id code retry_at e) u h = (
  failed-KeyedRows config id code retry_at table e u,
  failed-Sane config id code retry_at table e u h,
)
Step-Sane {config = config} (resets {table = table} tenant id now) u h = (
  update-Keyed (λ (r : Row). r.id) (is_failed_of tenant id) _ table (λ r. refl) u,
  unfold retry_failed in reset-Sane config tenant id now table h,
)

-- In every table that the steps lead to the keys are unique, a row holds a lease exactly while it is
-- processing, a row that waits has attempts left, and a row that is given up has used them.
pub Reach-Sane :
    {config : StoreConfig} {table : List Row}
    → Reach config table
    → KeyedRows table × All (Sane config) table
Reach-Sane empty = (tt, tt)
Reach-Sane (next r s) = let (u, h) = Reach-Sane r in Step-Sane s u h

due_test :
    (max attempts time now lease : ℕ) (status : DeliveryStatus) (lock : Option ℕ)
    → is_processing status ≡ is_some lock
    → (is_waiting status ≡ true → (max == 0 || ltb attempts max) ≡ true)
    → is_open status ≡ true
    → time ≤ now
    → ((at : ℕ) → lock ≡ some at → at + lease < now)
    → (leb time now
        && (not (is_some lock) || locked_before (now - lease) lock)
        && is_open status
        && (max == 0
            || ltb attempts max
            || (is_processing status && locked_before (now - lease) lock)))
      ≡ true
due_test max attempts time now lease pending none h b o t l = let left = b refl in ground arith
due_test max attempts time now lease pending (some at) h b o t l = cc
due_test max attempts time now lease retry none h b o t l = let left = b refl in ground arith
due_test max attempts time now lease retry (some at) h b o t l = cc
due_test max attempts time now lease processing none h b o t l = cc
due_test max attempts time now lease processing (some at) h b o t l =
    let over : at + lease < now = l at refl in ground arith
due_test max attempts time now lease delivered lock h b o t l = cc
due_test max attempts time now lease failed lock h b o t l = cc

-- A row that is open is due once its time has come and its lease, if it has one, has run out: no crash
-- of a worker leaves it behind.
pub open-is_due :
    (config : StoreConfig) (now : ℕ) (row : Row)
    → Sane config row
    → is_open row.delivery_status ≡ true
    → row.next_attempt_at ≤ now
    → ((at : ℕ) → row.locked_at ≡ some at → at + lease_time config < now)
    → is_due config now row ≡ true
unfolding is_due
open-is_due config now row s o time lease =
    due_test config.max_tries row.attempts row.next_attempt_at now (lease_time config)
      row.delivery_status row.locked_at s.held s.budget o time lease
