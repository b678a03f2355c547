-- ===== src/Outbox/Audit/Dispatch.antt =====
-- internal/auditoutbox/dispatcher.go: one pass of the delivery loop.
use project_management.Base.{
  ℕ, zero, suc, ◌+◌, ◌*◌, String, Bool, true, false, ◌&&◌, ◌||◌, List, [], ◌∷◌, if◌then◌else◌, ltb,
  ℤ, pos, negsuc, Result, ok, err,
}
use project_management.Outbox.Audit.{StoreConfig, Entry, Row, claim, mark_delivered, mark_failed}

-- internal/platform/service_client.go `AuditEvent`, the fields that are set here
pub record AuditEvent : Type 0 where
  pub actor_id : String
  pub actor_type : String
  pub action : String
  pub resource_type : String
  pub resource_id : String
  pub request_id : String
  pub correlation_id : String
  pub result : String
  pub login_ip : String
  pub client_ip : String
  pub ip_source : String

-- `Dispatcher`, the fields that a pass reads
pub record Dispatcher : Type 0 where
  pub batch_size : ℤ
  pub max_backoff : ℤ

abbrev pub second : ℕ
second = 1000000000

-- `batchSize`
abbrev pub batch_of : ℤ → ℕ
batch_of (pos n) = if ltb n 1 || ltb 200 n then 50 else n
batch_of (negsuc _) = 50

unfoldable pub batch_size : Dispatcher → ℕ
batch_size d = batch_of d.batch_size

-- The loop of `backoff`: `i` runs from 1 while it is below both bounds; `left` is `8 - i`.
unfoldable pub doubled : ℕ → ℕ → ℕ → ℕ → ℕ
doubled zero i attempts base = base
doubled (suc left) i attempts base =
    let next = doubled left (suc i) attempts (base * 2) in if ltb i attempts then next else base

abbrev pub capped : ℤ → ℕ → ℕ
capped (pos most) base = if ltb 0 most && ltb most base then most else base
capped (negsuc _) base = base

-- `backoff`
unfoldable pub backoff : Dispatcher → ℕ → ℕ
unfolding doubled
backoff d attempts = capped d.max_backoff (doubled 7 1 attempts second)

abbrev pub event_of : Entry → AuditEvent
event_of entry = record {
  actor_id = entry.actor_id;
  actor_type = entry.actor_type;
  action = entry.action;
  resource_type = entry.resource_type;
  resource_id = entry.resource_id;
  request_id = entry.request_id;
  correlation_id = entry.request_id;
  result = entry.result;
  login_ip = entry.login_ip;
  client_ip = entry.client_ip;
  ip_source = entry.ip_source;
}

-- What a failed write of the outcome leaves: it is logged, and the table stays.
abbrev pub written_or : List Row → Result (List Row) → List Row
written_or table (ok after) = after
written_or table (err _) = table

-- The outcome of one report.
abbrev pub settle : StoreConfig → Dispatcher → ℕ → Bool → Entry → List Row → List Row
settle config d now true entry table = mark_delivered entry.id now table
settle config d now false entry table = written_or table (
    mark_failed config entry.id "PLATFORM_AUDIT_UNAVAILABLE" (now + backoff d (suc entry.attempts))
      table)

-- The loop over the entries; `report` says whether the platform accepts an event in this pass.
unfoldable pub deliver_all :
    StoreConfig → Dispatcher → (AuditEvent → Bool) → ℕ → List Entry → List Row → List Row
deliver_all config d report now [] table = table
deliver_all config d report now (entry ∷ entries) table =
    deliver_all config d report now entries
      (settle config d now (report (event_of entry)) entry table)

-- `deliverOnce`, with a store and a reporter, while the database answers.
unfoldable pub deliver_once :
    StoreConfig → Dispatcher → (AuditEvent → Bool) → ℕ → List Row → List Row
deliver_once config d report now table =
    let (entries, locked) = claim config (pos (batch_size d)) now table in
    deliver_all config d report now entries locked
