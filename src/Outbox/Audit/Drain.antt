-- ===== src/Outbox/Audit/Drain.antt =====
-- internal/auditoutbox/dispatcher.go `deliverOnce`: what one pass leaves, when nothing interrupts it.
use project_management.Base.{
  ℕ, suc, ◌+◌, ◌≤◌, ◌<◌, ◌≡◌, refl, ◌⊎◌, inl, inr, String, Bool, true, false, List, [], ◌∷◌, none,
  some, arith, All, All-map, All-All, All-zip, Bool-cases, Option-cases, find, length, ltb, ◌==◌,
  str_eq, update_where-All,
}
use project_management.Outbox.Audit.{
  StoreConfig, Row, Entry, DeliveryStatus, pending, retry, processing, delivered, failed, is_open,
  is_due, has_id, lease_time, mark_delivered, mark_failed, write_failed, failed_status,
}
use project_management.Outbox.Audit.Dispatch.{
  Dispatcher, AuditEvent, backoff, batch_size, settle, written_or, event_of, deliver_once,
}
use project_management.Outbox.Audit.Backoff.{backoff-bounds}
use project_management.Outbox.Audit.Steps.{Reach, Reach-Sane, open-is_due}
use project_management.Outbox.Audit.Pass.{Settles, pass}

-- The row is delivered, given up, or waits for a later time.
abbrev settled_status : ℕ → ℕ → DeliveryStatus → Bool
settled_status now time pending = false
settled_status now time retry = ltb now time
settled_status now time processing = false
settled_status now time delivered = true
settled_status now time failed = true

abbrev pub is_settled : ℕ → Row → Bool
is_settled now row = settled_status now row.next_attempt_at row.delivery_status

accept-Settles :
    (config : StoreConfig) (d : Dispatcher) (report : AuditEvent → Bool) (now : ℕ)
    → ((event : AuditEvent) → report event ≡ true)
    → Settles
        (λ r. is_open r.delivery_status ≡ false)
        (λ entry. settle config d now (report (event_of entry)) entry)
unfolding mark_delivered
accept-Settles config d report now accepts entry X table h = rw (accepts (event_of entry)) (
    update_where-All _ _ (has_id entry.id) _ table h (All-All _ table (λ r _ _. inl refl))
      (All-All _ table (λ r miss k. elim k [ inl s ↦ inl s | inr x ↦ inr (x, miss) ])))

-- A query by key that finds nothing: no row has the key.
find-none :
    (id : String) (table : List Row)
    → find (has_id id) table ≡ none
    → All (λ r. str_eq r.id id ≡ false) table
find-none id [] e = tt
find-none id (r ∷ rows) e = elim (Bool-cases (str_eq r.id id)) [
  | inl hit ↦ absurd (ground arith)
  | inr miss ↦ (miss, find-none id rows (rw miss at e))
]

failed_status-settled :
    (config : StoreConfig) (attempts now later : ℕ) (row : Row)
    → now < later
    → row.delivery_status ≡ failed_status config attempts
    → row.next_attempt_at ≡ later
    → is_settled now row ≡ true
failed_status-settled config attempts now later row after e at = ground (arith, after, e, at)

write_failed-Settles :
    (config : StoreConfig) (code : String) (attempts now later : ℕ) (status : DeliveryStatus)
    → now < later
    → status ≡ failed_status config attempts
    → Settles (λ r. is_settled now r ≡ true) (λ entry. write_failed entry.id code later status)
write_failed-Settles config code attempts now later status after st entry X table h =
    update_where-All _ _ (has_id entry.id) _ table h
      (All-All _ table (λ r _ _.
        let settled =
          failed_status-settled config attempts now later
            (record r { delivery_status = status; next_attempt_at = later }) after st refl in
        inl settled))
      (All-All _ table (λ r miss k. elim k [ inl s ↦ inl s | inr x ↦ inr (x, miss) ]))

failed_status-unlimited :
    (config : StoreConfig) → (config.max_tries == 0) ≡ true → retry ≡ failed_status config 0
failed_status-unlimited config e = rw e refl

fail-Settles :
    (config : StoreConfig) (code : String) (now later : ℕ)
    → now < later
    → (entry : Entry) (X : Row → Type 0) (table : List Row)
    → All (λ r. (is_settled now r ≡ true) ⊎ X r) table
    → All
        (λ r. (is_settled now r ≡ true) ⊎ (X r × (str_eq r.id entry.id ≡ false)))
        (written_or table (mark_failed config entry.id code later table))
unfolding mark_failed
fail-Settles config code now later after entry X table h =
    elim (Bool-cases (config.max_tries == 0)) [
      | inl e ↦ rw e (
          write_failed-Settles config code 0 now later retry after
            (failed_status-unlimited config e) entry X table h)
      | inr e ↦ elim (Option-cases (find (has_id entry.id) table)) [
        | inl missing ↦
            rw (e, missing)
              (All-map _ _ table (λ r (k, miss). elim k [ inl s ↦ inl s | inr x ↦ inr (x, miss) ])
                (All-zip _ _ table h (find-none entry.id table missing)))
        | inr (row, found) ↦
            rw (e, found)
              (write_failed-Settles config code row.attempts now later _ after refl entry X table h)
      ]
    ]

settle-Settles :
    (config : StoreConfig) (d : Dispatcher) (report : AuditEvent → Bool) (now : ℕ)
    → Settles
        (λ r. is_settled now r ≡ true)
        (λ entry. settle config d now (report (event_of entry)) entry)
unfolding mark_delivered
settle-Settles config d report now entry X table h = elim (Bool-cases (report (event_of entry))) [
  | inl e ↦ rw e (
      update_where-All _ _ (has_id entry.id) _ table h (All-All _ table (λ r _ _. inl refl))
        (All-All _ table (λ r miss k. elim k [ inl s ↦ inl s | inr x ↦ inr (x, miss) ])))
  | inr e ↦
      let waits = backoff-bounds d (suc entry.attempts) (suc entry.attempts) (omega arith) in
      rw e (
        fail-Settles config _ now (now + backoff d (suc entry.attempts)) (omega (arith, waits.0))
          entry X table h)
]

closed-settled :
    (now : ℕ) (row : Row) → is_open row.delivery_status ≡ false → is_settled now row ≡ true
closed-settled now row e = closed_status row.delivery_status e
  where
    closed_status :
        (status : DeliveryStatus)
        → is_open status ≡ false
        → settled_status now row.next_attempt_at status ≡ true
    closed_status pending e = cc
    closed_status retry e = cc
    closed_status processing e = cc
    closed_status delivered e = refl
    closed_status failed e = refl

-- A pass that has room for the table, where no open row still waits for its time or is held by a running
-- lease, settles every row, whatever the platform answers: each is delivered, given up, or has a later time.
pub deliver_once-settles :
    (config : StoreConfig) (d : Dispatcher) (report : AuditEvent → Bool) (now : ℕ)
    (table : List Row)
    → length table ≤ batch_size d
    → All (λ r. is_open r.delivery_status ≡ true → is_due config now r ≡ true) table
    → All (λ r. is_settled now r ≡ true) (deliver_once config d report now table)
deliver_once-settles config d report now table room due =
    pass config d report now _ (settle-Settles config d report now) (closed-settled now) table room
      due

-- From every table that can come about: a pass drains it, once the times of the open rows have come and
-- the leases of lost workers are over, when it has room and the platform accepts.
pub deliver_once-drains :
    (config : StoreConfig) (d : Dispatcher) (report : AuditEvent → Bool) (now : ℕ)
    {table : List Row}
    → Reach config table
    → ((event : AuditEvent) → report event ≡ true)
    → length table ≤ batch_size d
    → All (λ r. is_open r.delivery_status ≡ true → r.next_attempt_at ≤ now) table
    → All (λ r. (at : ℕ) → r.locked_at ≡ some at → at + lease_time config < now) table
    → All (λ r. is_open r.delivery_status ≡ false) (deliver_once config d report now table)
deliver_once-drains config d report now {table = table} reached accepts room come over =
    pass config d report now _ (accept-Settles config d report now accepts) (λ r e. e) table room
      (All-map _ _ table (λ r ((s, c), l) o. open-is_due config now r s o (c o) l)
        (All-zip _ _ table (All-zip _ _ table (Reach-Sane reached).1 come) over))
