-- ===== src/Outbox/Audit.antt =====
-- internal/auditoutbox/gorm_store.go: the table prj_audit_outbox. A statement is atomic, row locks are
-- left out; a time is a number of nanoseconds.
pub mod Dispatch
pub mod Keys
pub mod Steps
pub mod Leases
pub mod Backoff
pub mod Pass
pub mod Drain
mod Tests
use Prim.Native.String.{compare}
use text.Mathlib.Text.{is_lt}
use project_management.Base.{
  ℕ, zero, suc, ◌+◌, ◌-◌, String, Bool, true, false, ◌&&◌, ◌||◌, not, List, [], ◌∷◌, map, Option,
  none, some, any, find, filter, if◌then◌else◌, is_some, str_eq, ltb, leb, ◌==◌, update_where,
  count, take, sort_by, ℤ, pos, negsuc, Result, ok, err, storage,
}

-- The values of `delivery_status`.
pub data DeliveryStatus : Type 0 where
  pending retry processing delivered failed : DeliveryStatus

-- `outboxRow`
pub record Row : Type 0 where
  pub id : String
  pub tenant_id : String
  pub event_id : String
  pub actor_id : Option String
  pub actor_type : String
  pub action : String
  pub resource_type : String
  pub resource_id : String
  pub request_id : Option String
  pub login_ip : List ℕ
  pub client_ip : List ℕ
  pub ip_source : String
  pub result : String
  pub delivery_status : DeliveryStatus
  pub attempts : ℕ
  pub next_attempt_at : ℕ
  pub locked_at : Option ℕ
  pub delivered_at : Option ℕ
  pub last_error : Option String
  pub created_at : ℕ

-- `Entry`
pub record Entry : Type 0 where
  pub id : String
  pub tenant_id : String
  pub event_id : String
  pub actor_id : String
  pub actor_type : String
  pub action : String
  pub resource_type : String
  pub resource_id : String
  pub request_id : String
  pub login_ip : String
  pub client_ip : String
  pub ip_source : String
  pub result : String
  pub attempts : ℕ

-- `GORMStore`, with `net.IP.String`
pub record StoreConfig : Type 0 where
  pub lease : ℤ
  pub max_tries : ℕ
  pub ip_text : List ℕ → String

abbrev pub is_open : DeliveryStatus → Bool
is_open pending = true
is_open retry = true
is_open processing = true
is_open delivered = false
is_open failed = false

abbrev pub is_processing : DeliveryStatus → Bool
is_processing processing = true
is_processing _ = false

abbrev pub is_failed : DeliveryStatus → Bool
is_failed failed = true
is_failed _ = false

-- Two minutes, unless the configuration gives a positive lease.
abbrev lease_of : ℤ → ℕ
lease_of (pos n) = if ltb 0 n then n else 120000000000
lease_of (negsuc n) = 120000000000

unfoldable pub lease_time : StoreConfig → ℕ
lease_time config = lease_of config.lease

abbrev pub locked_before : ℕ → Option ℕ → Bool
locked_before cutoff none = false
locked_before cutoff (some at) = ltb at cutoff

-- The condition of the query, with the one on the attempts where a limit is set.
unfoldable pub is_due : StoreConfig → ℕ → Row → Bool
is_due config now row =
    let cutoff = now - lease_time config in
    leb row.next_attempt_at now
    && (not (is_some row.locked_at) || locked_before cutoff row.locked_at)
    && is_open row.delivery_status
    && (config.max_tries == 0
        || ltb row.attempts config.max_tries
        || (is_processing row.delivery_status && locked_before cutoff row.locked_at))

-- `next_attempt_at ASC, id ASC`
abbrev pub comes_first : Row → Row → Bool
comes_first a b =
    ltb a.next_attempt_at b.next_attempt_at
    || (a.next_attempt_at == b.next_attempt_at && is_lt (compare a.id b.id))

abbrev pub has_id : String → Row → Bool
has_id id row = str_eq row.id id

abbrev pub locked : ℕ → Row → Row
locked now row = record row {
  delivery_status = processing;
  locked_at = some now;
  attempts = suc row.attempts;
}

-- The loop over the rows that were found.
unfoldable pub lock_rows : ℕ → List Row → List Row → List Row
lock_rows now [] table = table
lock_rows now (found ∷ rows) table =
    lock_rows now rows (update_where (has_id found.id) (locked now) table)

abbrev deref : Option String → String
deref none = ""
deref (some s) = s

-- `ipString`; a value that is not empty is no nil address.
abbrev ip_string : (List ℕ → String) → List ℕ → String
ip_string ip_text [] = ""
ip_string ip_text (b ∷ bytes) = ip_text (b ∷ bytes)

abbrev pub entry_of : StoreConfig → Row → Entry
entry_of config row = record {
  id = row.id;
  tenant_id = row.tenant_id;
  event_id = row.event_id;
  actor_id = deref row.actor_id;
  actor_type = row.actor_type;
  action = row.action;
  resource_type = row.resource_type;
  resource_id = row.resource_id;
  request_id = deref row.request_id;
  login_ip = ip_string config.ip_text row.login_ip;
  client_ip = ip_string config.ip_text row.client_ip;
  ip_source = row.ip_source;
  result = row.result;
  attempts = suc row.attempts;
}

unfoldable pub due_rows : StoreConfig → ℕ → ℕ → List Row → List Row
due_rows config limit now table =
    take limit (sort_by comes_first (filter (is_due config now) table))

-- `Claim`, with a limit that is at least 1: the entries and the table after the transaction
unfoldable pub claim_some : StoreConfig → ℕ → ℕ → List Row → List Entry × List Row
claim_some config limit now table =
    let rows = due_rows config limit now table in
    (map (entry_of config) rows, lock_rows now rows table)

-- `GORMStore.Claim`
unfoldable pub claim : StoreConfig → ℤ → ℕ → List Row → List Entry × List Row
claim config (pos limit) now table =
    if ltb limit 1 then ([], table) else claim_some config limit now table
claim config (negsuc _) now table = ([], table)

-- `GORMStore.MarkDelivered`
unfoldable pub mark_delivered : String → ℕ → List Row → List Row
mark_delivered id now table =
    update_where (has_id id)
      (λ r. record r {
        delivery_status = delivered;
        delivered_at = some now;
        locked_at = none;
        last_error = none;
      })
      table

-- The status of a failed attempt: over the limit it stays for the operator.
abbrev pub failed_status : StoreConfig → ℕ → DeliveryStatus
failed_status config attempts =
    if not (config.max_tries == 0) && leb config.max_tries attempts then failed else retry

abbrev pub write_failed : String → String → ℕ → DeliveryStatus → List Row → List Row
write_failed id code retry_at status table =
    update_where (has_id id)
      (λ r. record r {
        delivery_status = status;
        next_attempt_at = retry_at;
        locked_at = none;
        last_error = some code;
      })
      table

-- `GORMStore.MarkFailed`; the attempts are read only where a limit is set.
unfoldable pub mark_failed : StoreConfig → String → String → ℕ → List Row → Result (List Row)
mark_failed config id code retry_at table =
    if config.max_tries == 0
    then ok (write_failed id code retry_at retry table)
    else elim (find (has_id id) table) [
      | none ↦ err storage
      | some row ↦ ok (write_failed id code retry_at (failed_status config row.attempts) table)
    ]

-- The reset of `GORMStore.RetryFailed`
abbrev pub is_failed_of : String → String → Row → Bool
is_failed_of tenant id row =
    str_eq row.tenant_id tenant && str_eq row.id id && is_failed row.delivery_status

-- `GORMStore.RetryFailed`: whether one row was reached, and the table
unfoldable pub retry_failed : String → String → ℕ → List Row → Bool × List Row
retry_failed tenant id now table = (
  count (is_failed_of tenant id) table == 1,
  update_where (is_failed_of tenant id)
      (λ r. record r {
        delivery_status = retry;
        attempts = 0;
        next_attempt_at = now;
        locked_at = none;
        last_error = none;
      })
      table,
)

-- `created_at DESC, id DESC`
abbrev comes_last : Row → Row → Bool
comes_last a b =
    ltb b.created_at a.created_at || (a.created_at == b.created_at && is_lt (compare b.id a.id))

abbrev list_limit : ℤ → ℕ
list_limit (pos limit) = if ltb limit 1 || ltb 200 limit then 100 else limit
list_limit (negsuc _) = 100

-- `GORMStore.ListFailed`; the entries are the rows with fewer columns.
unfoldable pub list_failed : String → ℤ → List Row → List Row
list_failed tenant limit table = take (list_limit limit) (
    sort_by comes_last
      (filter (λ r. str_eq r.tenant_id tenant && is_failed r.delivery_status) table))
