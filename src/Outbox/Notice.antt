-- ===== src/Outbox/Notice.antt =====
-- internal/infrastructure/mysql/delivery_notification.go: the table pm_notification_outbox of
-- migrations/000022_business_flow_controls.sql. A statement is atomic, row locks are left out; a time is a
-- number of nanoseconds. `encode` and `decode` are the JSON codec of a message.
pub mod Dispatch
pub mod Life
pub mod Owners
mod Tests
use project_management.Base.{
  ℕ, zero, suc, ◌+◌, String, Bool, true, false, ◌&&◌, ◌||◌, not, List, [], ◌∷◌, ◌++◌, Option, none,
  some, any, filter, if◌then◌else◌, is_empty, str_eq, trim_space, byte_length, ltb, leb, ◌==◌,
  update_where, update_one, take, sort_by, ℤ, pos, negsuc, Result, ok, err, Check, refuse_if,
  validation, storage, ◌>>=◌, ◌>>◌,
}

-- `status`
pub data NoticeStatus : Type 0 where
  pending processing retry_wait sent dead_letter : NoticeStatus

-- internal/domain/delivery.go `NotificationMessage`
pub record NotificationMessage : Type 0 where
  pub event_id : String
  pub event_type : String
  pub scope : String
  pub priority : String
  pub title : String
  pub content : String
  pub reference_type : String
  pub reference_id : String
  pub recipients : List String
  pub occurred_at : ℕ
  pub idempotency_key : String

-- `notificationOutboxRecord`
pub record NoticeRow : Type 0 where
  pub id : ℕ
  pub event_id : String
  pub tenant_id : String
  pub idempotency_key : String
  pub event_type : String
  pub aggregate_type : String
  pub aggregate_id : String
  pub payload : String
  pub status : NoticeStatus
  pub retry_count : ℕ
  pub next_retry_at : Option ℕ
  pub locked_by : String
  pub locked_until : Option ℕ
  pub last_error_summary : String
  pub created_at : ℕ
  pub sent_at : Option ℕ

-- The table, with the next value of its counter.
pub record Notices : Type 0 where
  pub rows : List NoticeRow
  pub next_id : ℕ

-- The JSON codec.
pub record Codec : Type 0 where
  pub encode : NotificationMessage → Option String
  pub decode : String → Option NotificationMessage

-- internal/domain/delivery.go `NotificationOutboxItem`
pub record NoticeItem : Type 0 where
  pub id : ℕ
  pub message : NotificationMessage
  pub retry_count : ℕ

-- internal/application/delivery_effects.go `ValidateOutboxIdentity`
abbrev pub validate_outbox_identity : String → String → Check
validate_outbox_identity tenant owner =
    refuse_if
      (is_empty (trim_space tenant)
        || ltb 64 (byte_length tenant)
        || is_empty (trim_space owner)
        || ltb 128 (byte_length owner))
      validation

-- The two unique keys.
abbrev pub clashes : NoticeRow → NoticeRow → Bool
clashes new row =
    str_eq row.event_id new.event_id
    || (str_eq row.tenant_id new.tenant_id && str_eq row.idempotency_key new.idempotency_key)

abbrev append : NoticeRow → Notices → Notices
append row notices = record {
  rows = notices.rows ++ ((record row { id = notices.next_id }) ∷ []);
  next_id = suc notices.next_id;
}

-- `Create`: a row that repeats a unique key is an error.
unfoldable pub create : NoticeRow → Notices → Result Notices
create row notices = if any (clashes row) notices.rows then err storage else ok (append row notices)

-- `Create` with `OnConflict{DoNothing: true}`: the rows affected are one or none.
unfoldable pub create_or_skip : NoticeRow → Notices → Bool × Notices
create_or_skip row notices =
    if any (clashes row) notices.rows then (false, notices) else (true, append row notices)

abbrev pub text_or : String → String → String
text_or fallback key = if is_empty key then fallback else key

abbrev new_row : String → String → String → String → String → String → String → ℕ → NoticeRow
new_row event tenant key kind aggregate_type aggregate_id payload at = record {
  id = 0;
  event_id = event;
  tenant_id = tenant;
  idempotency_key = key;
  event_type = kind;
  aggregate_type = aggregate_type;
  aggregate_id = aggregate_id;
  payload = payload;
  status = pending;
  retry_count = 0;
  next_retry_at = none;
  locked_by = "";
  locked_until = none;
  last_error_summary = "";
  created_at = at;
  sent_at = none;
}

abbrev pub message_row : String → String → NotificationMessage → String → NoticeRow
message_row tenant key message payload =
    new_row message.event_id tenant key message.event_type message.reference_type
      message.reference_id payload message.occurred_at

abbrev pub marshal : Codec → NotificationMessage → Result String
marshal codec message = elim (codec.encode message) [ none ↦ err storage | some text ↦ ok text ]

-- `EnqueueNotification`
unfoldable pub enqueue : Codec → String → NotificationMessage → Notices → Result (Bool × Notices)
enqueue codec tenant message notices = marshal codec message >>= λ payload.
    let key = text_or message.event_id (trim_space message.idempotency_key) in
    ok (create_or_skip (message_row tenant key message payload) notices)

-- What `createNotificationOutbox` reads of an event
pub record NoticeSource : Type 0 where
  pub id : String
  pub tenant_id : String
  pub type : String
  pub service_item_id : String
  pub created_at : ℕ
  pub notification : Option NotificationMessage

abbrev create_message : Codec → NoticeSource → NotificationMessage → Notices → Result Notices
create_message codec event message notices = marshal codec message >>= λ payload.
    let key = text_or event.id (trim_space message.idempotency_key) in
    create
      (new_row event.id event.tenant_id key event.type "service_item" event.service_item_id payload
        event.created_at)
      notices

abbrev create_for : Codec → NoticeSource → Option NotificationMessage → Notices → Result Notices
create_for codec event none notices = ok notices
create_for codec event (some message) notices = elim message.recipients [
  | [] ↦ ok notices
  | _ ∷ _ ↦ create_message codec event message notices
]

-- `createNotificationOutbox`
unfoldable pub create_outbox : Codec → NoticeSource → Notices → Result Notices
create_outbox codec event notices = create_for codec event event.notification notices

abbrev pub is_open : NoticeStatus → Bool
is_open pending = true
is_open retry_wait = true
is_open processing = true
is_open sent = false
is_open dead_letter = false

abbrev pub is_processing : NoticeStatus → Bool
is_processing processing = true
is_processing _ = false

-- `column IS NULL OR column <= now`
abbrev pub passed : ℕ → Option ℕ → Bool
passed now none = true
passed now (some at) = leb at now

-- The condition of the claim
unfoldable pub is_due : String → ℕ → NoticeRow → Bool
is_due tenant now row =
    str_eq row.tenant_id tenant
    && is_open row.status
    && passed now row.next_retry_at
    && passed now row.locked_until

abbrev pub oldest : NoticeRow → NoticeRow → Bool
oldest a b = ltb a.created_at b.created_at

abbrev claim_limit : ℤ → ℕ
claim_limit (pos n) = if ltb n 1 || ltb 100 n then 50 else n
claim_limit (negsuc _) = 50

abbrev pub lease_time : ℕ
lease_time = 120000000000

-- `tenant_id = ? AND id IN ?`
abbrev pub is_among : String → List NoticeRow → NoticeRow → Bool
is_among tenant rows row =
    str_eq row.tenant_id tenant && any (λ (r : NoticeRow). r.id == row.id) rows

abbrev pub taken_by : String → ℕ → NoticeRow → NoticeRow
taken_by worker now row = record row {
  status = processing;
  locked_by = worker;
  locked_until = some (now + lease_time);
}

unfoldable pub due_rows : String → ℕ → ℕ → List NoticeRow → List NoticeRow
due_rows tenant limit now rows = take limit (sort_by oldest (filter (is_due tenant now) rows))

-- The stored key replaces that of the message.
abbrev pub item_of : NoticeRow → NotificationMessage → NoticeItem
item_of row message = record {
  id = row.id;
  message = record message { idempotency_key = row.idempotency_key };
  retry_count = row.retry_count;
}

-- The items of the claimed rows
abbrev pub items_of : Codec → List NoticeRow → Result (List NoticeItem)
items_of codec [] = ok []
items_of codec (row ∷ rows) =
    let rest = items_of codec rows in
    elim (codec.decode row.payload) [
      | none ↦ err storage
      | some message ↦ rest >>= λ items. ok (item_of row message ∷ items)
    ]

-- `ClaimNotificationOutbox`: the items and the table; the rows stay claimed when an item cannot be read.
unfoldable pub claim :
    Codec → String → String → ℤ → ℕ → Notices → Result (List NoticeItem) × Notices
claim codec tenant worker limit now notices = elim (validate_outbox_identity tenant worker) [
  | err e ↦ (err e, notices)
  | ok _ ↦
      let claimed = due_rows tenant (claim_limit limit) now notices.rows in
      (
        items_of codec claimed,
        record notices {
          rows = update_where (is_among tenant claimed) (taken_by worker now) notices.rows;
        },
      )
]

abbrev pub runs_after : ℕ → Option ℕ → Bool
runs_after now none = false
runs_after now (some until) = ltb now until

-- `tenant_id=? AND id=? AND status='PROCESSING' AND locked_by=? AND locked_until > ?`
unfoldable pub is_held : String → ℕ → String → ℕ → NoticeRow → Bool
is_held tenant id worker now row =
    str_eq row.tenant_id tenant
    && row.id == id
    && is_processing row.status
    && str_eq row.locked_by worker
    && runs_after now row.locked_until

abbrev pub write : (NoticeRow → Bool) → (NoticeRow → NoticeRow) → Notices → Result Notices
write test f notices =
    update_one test f notices.rows >>= λ rows. ok (record notices { rows = rows })

abbrev pub sent_row : ℕ → NoticeRow → NoticeRow
sent_row now row = record row {
  status = sent;
  sent_at = some now;
  locked_by = "";
  locked_until = none;
  last_error_summary = "";
}

-- `MarkNotificationOutboxSent`
unfoldable pub mark_sent : String → ℕ → String → ℕ → Notices → Result Notices
mark_sent tenant id worker now notices =
    validate_outbox_identity tenant worker
    >> write (is_held tenant id worker now) (sent_row now) notices

abbrev pub retry_row : ℕ → Bool → NoticeRow → NoticeRow
retry_row next dead row = record row {
  status = if dead then dead_letter else retry_wait;
  retry_count = suc row.retry_count;
  next_retry_at = some next;
  locked_by = "";
  locked_until = none;
}

-- `MarkNotificationOutboxRetry`
unfoldable pub mark_retry : String → ℕ → String → ℕ → ℕ → Bool → Notices → Result Notices
mark_retry tenant id worker now next dead notices =
    validate_outbox_identity tenant worker
    >> write (is_held tenant id worker now) (retry_row next dead) notices
