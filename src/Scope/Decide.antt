-- ===== src/Scope/Decide.antt =====
-- internal/infrastructure/mysql/native_scope_change.go: `DecideNativeScope` and `applyNativeScope`.
use Prim.Native.String.{◌++◌}
use project_management.Base.{
  suc, String, Bool, true, false, ◌&&◌, ◌||◌, not, [], Option, none, some, find, if◌then◌else◌,
  str_eq, ◌==◌, update_where, Result, ok, err, Check, ◌>>=◌, ◌>>◌, refuse_if, validation, conflict,
  forbidden, not_found,
}
use project_management.Delivery.Schema.{Project}
use project_management.Scope.{
  ScopeStore, ScopeChange, ChangeStatus, ScopeDecision, Digest, pending, approved, rejected,
  withdrawn, lock_native_project,
}
use project_management.Scope.Request.{Call, with_event}
use project_management.Scope.Approve.{apply_native_scope}

abbrev pub decision_status : String → Option ChangeStatus
decision_status decision =
    if str_eq decision "APPROVE"
    then some approved
    else if str_eq decision "REJECT"
    then some rejected
    else if str_eq decision "WITHDRAW"
    then some withdrawn
    else none

abbrev status_code : ChangeStatus → String
status_code pending = "PENDING"
status_code approved = "APPROVED"
status_code rejected = "REJECTED"
status_code withdrawn = "WITHDRAWN"

abbrev pub is_pending : ChangeStatus → Bool
is_pending pending = true
is_pending approved = false
is_pending rejected = false
is_pending withdrawn = false

abbrev pub is_approval : ChangeStatus → Bool
is_approval approved = true
is_approval _ = false

abbrev pub decision_fingerprint : Digest → Call → ScopeDecision → String
decision_fingerprint digest call input =
    digest.command call.actor
      (record {
        operation_id = input.operation_id;
        expected_project_version = 0;
        base_scope_version = input.expected_version;
        reason = input.decision ++ "\n" ++ input.comment;
        service_items = [];
      })
      []

-- Two people: a proposal is withdrawn by who made it, and decided by another.
abbrev pub check_decider : ScopeChange → String → String → Check
check_decider row actor decision =
    if str_eq decision "WITHDRAW"
    then refuse_if (not (str_eq row.requested_by actor)) forbidden
    else refuse_if (str_eq row.requested_by actor) forbidden

abbrev pub decided_row : Digest → Call → ScopeDecision → ChangeStatus → ScopeChange → ScopeChange
decided_row digest call input status row = record row {
  status = status;
  version = suc row.version;
  pending_project = none;
  decided_by = call.actor;
  decided_at = some call.now;
  comment = input.comment;
  decision_operation = input.operation_id;
  decision_fingerprint = decision_fingerprint digest call input;
}

abbrev pub is_change : String → String → ScopeChange → Bool
is_change project id row = str_eq row.project_id project && str_eq row.id id

abbrev pub apply_if :
    ChangeStatus
    → Digest
    → Call
    → ScopeStore
    → Project
    → ScopeChange
    → Result (ScopeChange × ScopeStore)
apply_if approved digest call store project row = apply_native_scope digest call store project row
apply_if pending digest call store project row = ok (row, store)
apply_if rejected digest call store project row = ok (row, store)
apply_if withdrawn digest call store project row = ok (row, store)

-- `tx.Save(&row)` and the event
abbrev pub saved :
    Digest
    → Call
    → Project
    → ScopeDecision
    → ChangeStatus
    → ScopeChange × ScopeStore
    → ScopeChange × ScopeStore
saved digest call project input status (row, store) =
    let decided = decided_row digest call input status row in
    (
      decided,
      with_event call project decided ("NATIVE_SCOPE_CHANGE_" ++ status_code status) (record store {
        changes =
            update_where (λ (c : ScopeChange). str_eq c.id row.id) (λ _. decided) store.changes;
      }),
    )

-- The part of `DecideNativeScope` for a proposal that waits
unfoldable pub decide_pending :
    Digest
    → Call
    → ScopeStore
    → Project
    → ScopeDecision
    → ScopeChange
    → Result (ScopeChange × ScopeStore)
decide_pending digest call store project input row =
    refuse_if (not (row.version == input.expected_version)) conflict
    >> check_decider row call.actor input.decision
    >> elim (decision_status input.decision) [
      | none ↦ err validation
      | some status ↦ apply_if status digest call store project row >>= λ written.
          ok (saved digest call project input status written)
    ]

-- The answer to a proposal that was decided before
abbrev pub decided_before :
    Digest → Call → ScopeStore → ScopeDecision → ScopeChange → Result (ScopeChange × ScopeStore)
decided_before digest call store input row =
    refuse_if
      (not (str_eq row.decision_operation input.operation_id)
        || not (str_eq row.decision_fingerprint (decision_fingerprint digest call input)))
      conflict
    >> ok (row, store)

-- `DecideNativeScope`
unfoldable pub decide_native_scope :
    Digest → Call → ScopeStore → String → String → ScopeDecision → Result (ScopeChange × ScopeStore)
decide_native_scope digest call store project_id id input =
    lock_native_project call.visible store project_id >>= λ project.
    elim (find (is_change project_id id) store.changes) [
      | none ↦ err not_found
      | some row ↦
          if is_pending row.status
          then decide_pending digest call store project input row
          else decided_before digest call store input row
    ]
