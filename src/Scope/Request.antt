-- ===== src/Scope/Request.antt =====
-- internal/infrastructure/mysql/native_scope_change.go: `RequestNativeScope` and `ReplayNativeScope`.
use Prim.Native.String.{◌++◌}
use project_management.Base.{
  ℕ, suc, String, Bool, ◌&&◌, ◌||◌, not, List, [], ◌∷◌, Option, none, some, find, any,
  if◌then◌else◌, is_empty, str_eq, ◌==◌, length, trim_space, Result, ok, ◌>>=◌, ◌>>◌, refuse_if,
  validation, conflict, storage,
}
use project_management.Base.Text.Decimal.{padded_decimal}
use project_management.Delivery.Payload.{ItemInput, text, number}
use project_management.Delivery.Schema.{Project, ServiceItem, DeliveryEvent, other_event}
use project_management.Delivery.Gates.{ensure_no_pending_native_scope}
use project_management.Scope.{
  ScopeStore, ScopeChange, ScopeInput, ContractService, Digest, pending, scope_fingerprint, seen,
  lock_native_project,
}
use project_management.Scope.Catalog.{validate_native_scope_catalog, catalog_fingerprint}
use project_management.Scope.Eligible.{lock_native_scope_eligible, check_native_scope_baseline}

-- Who calls, and what the call draws from outside: its data scope, the clock, and fresh ids.
pub record Call : Type 0 where
  pub visible : Project → Bool
  pub actor : String
  pub now : ℕ
  pub change_id : String
  pub event_id : String
  -- the ids of new service items, by their index
  pub item_id : ℕ → String

abbrev pub has_operation : String → String → ScopeChange → Bool
has_operation project operation row =
    str_eq row.project_id project && str_eq row.operation_id operation

abbrev pub line_name : String → ℕ → ItemInput → String
line_name change index item =
    if is_empty item.source_service_id
    then "NL-" ++ change ++ "-" ++ padded_decimal index
    else item.source_service_id

-- The loop of `newNativeScopeChange`; `seen_lines` are the lines before.
unfoldable pub name_lines :
    List ServiceItem → String → ℕ → List String → List ItemInput → Result (List ItemInput)
name_lines active change index seen_lines [] = ok []
name_lines active change index seen_lines (item ∷ items) =
    let line = line_name change (suc index) item in
    let rest = name_lines active change (suc index) (line ∷ seen_lines) items in
    refuse_if
      (not (is_empty item.source_service_id)
        && not
            (any (λ (r : ServiceItem). str_eq r.source_service_id item.source_service_id) active))
      validation
    >> refuse_if (any (str_eq line) seen_lines) validation
    >> rest
    >>= λ named. ok ((record item { source_service_id = line }) ∷ named)

-- `newNativeScopeChange`, with the hash of the catalogue
abbrev pub new_change :
    Digest → Call → Project → ScopeInput → List ItemInput → String → String → ScopeChange
new_change digest call project input named fingerprint catalog = record {
  catalog_hash = catalog;
  id = call.change_id;
  project_id = project.id;
  operation_id = input.operation_id;
  pending_project = some project.id;
  fingerprint = fingerprint;
  base_scope_version = input.base_scope_version;
  expected_project_version = input.expected_project_version;
  version = 1;
  status = pending;
  reason = input.reason;
  requested_by = call.actor;
  decided_by = "";
  decision_operation = "";
  decision_fingerprint = "";
  comment = "";
  scope_hash = scope_fingerprint digest named;
  applied_scope_version = 0;
  service_items = named;
  created_at = call.now;
  decided_at = none;
}

-- `saveNativeScopeEvent`, without the audit row
abbrev pub scope_event : Call → Project → ScopeChange → String → DeliveryEvent
scope_event call project change action = record {
  id = call.event_id;
  project_id = project.id;
  service_item_id = "";
  event_type = other_event action;
  actor_user_id = call.actor;
  client_operation_id = "";
  captured_at = none;
  payload =
      ("change_id", text change.id)
      ∷ ("base_scope_version", number change.base_scope_version)
      ∷ ("applied_scope_version", number change.applied_scope_version)
      ∷ ("scope_hash", text change.scope_hash)
      ∷ ("reason", text change.reason)
      ∷ ("comment", text change.comment)
      ∷ ("requested_by", text change.requested_by)
      ∷ ("decided_by", text change.decided_by)
      ∷ [];
  created_at = call.now;
}

abbrev pub with_event : Call → Project → ScopeChange → String → ScopeStore → ScopeStore
with_event call project change action store = record store {
  delivery = record store.delivery {
    events = scope_event call project change action ∷ store.delivery.events;
  };
}

-- The part of `RequestNativeScope` after the operation number was found to be new
unfoldable pub create_change :
    Digest
    → Call
    → ScopeStore
    → Project
    → ScopeInput
    → List ItemInput
    → String
    → Result (ScopeChange × ScopeStore)
create_change digest call store project input items fingerprint =
    refuse_if
      (not (project.version == input.expected_project_version)
        || not (project.scope_version == input.base_scope_version))
      conflict
    >> ensure_no_pending_native_scope (seen store) project
    >> lock_native_scope_eligible store.delivery project
    >>= λ active.
        check_native_scope_baseline digest store project active
        >> validate_native_scope_catalog store items
        >> name_lines active call.change_id 0 [] items
        >>= λ named. catalog_fingerprint digest store named >>= λ catalog.
            refuse_if (any (λ (c : ScopeChange). str_eq c.id call.change_id) store.changes) storage
            >> let change = new_change digest call project input named fingerprint catalog in
              ok (
                change,
                with_event call project change "NATIVE_SCOPE_CHANGE_REQUESTED"
                    (record store { changes = change ∷ store.changes }),
              )

-- `RequestNativeScope`
unfoldable pub request_native_scope :
    Digest
    → Call
    → ScopeStore
    → String
    → ScopeInput
    → List ItemInput
    → Result (ScopeChange × ScopeStore)
request_native_scope digest call store id input items =
    lock_native_project call.visible store id >>= λ project.
    let fingerprint = digest.command call.actor input items in
    elim (find (has_operation id input.operation_id) store.changes) [
      | some old ↦ refuse_if (not (str_eq old.fingerprint fingerprint)) conflict >> ok (old, store)
      | none ↦ create_change digest call store project input items fingerprint
    ]

abbrev pub asked : List ContractService → List ItemInput → List ItemInput
asked (s ∷ services) (i ∷ items) =
    (record i { id = ""; source_service_id = trim_space s.source_id }) ∷ asked services items
asked _ _ = []

-- `ReplayNativeScope`: nothing, or the proposal of the same request
unfoldable pub replay_native_scope :
    Digest → Call → ScopeStore → String → ScopeInput → Result (Option ScopeChange)
replay_native_scope digest call store id input =
    lock_native_project call.visible store id >>= λ project.
    elim (find (has_operation id input.operation_id) store.changes) [
      | none ↦ ok none
      | some row ↦
          refuse_if (not (length input.service_items == length row.service_items)) conflict
          >> refuse_if
              (not (
                str_eq
                  (digest.command call.actor input (asked input.service_items row.service_items))
                  row.fingerprint))
              conflict
          >> ok (some row)
    ]
