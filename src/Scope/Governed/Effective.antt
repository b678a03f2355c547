-- ===== src/Scope/Governed/Effective.antt =====
-- internal/infrastructure/mysql/native_scope_change.go `applyNativeScope`: an approved scope is the one in
-- force.
use project_management.Base.{
  ◌≡◌, sym, subst, String, true, not, some, find, All-All, Option-cases, inl, inr, find-All, str_eq,
  str_eq_iff, ok, Answers, Answers-ok, after, refuse_if, ◌==◌, conflict,
}
use project_management.Delivery.Schema.{Project}
use project_management.Delivery.Store.{project_of}
use project_management.Scope.{
  ScopeStore, ScopeChange, ChangeStatus, ScopeDecision, Digest, lock_native_project, approved,
  pending, rejected, withdrawn,
}
use project_management.Scope.Request.{Call}
use project_management.Scope.Approve.{apply_native_scope}
use project_management.Scope.Decide.{
  decide_native_scope, decide_pending, is_pending, is_approval, is_change, apply_if, saved,
  check_decider, decision_status,
}
use project_management.Scope.Governed.Reach.{ScopeReach, ScopeReach-Governance, saved-Governance}
use project_management.Scope.Governed.Deciders.{Kept, apply_if-Kept, decider-status}
use project_management.Scope.Governed.{Governed, Governance, lock-native}
use project_management.Scope.Governed.Approval.{Applied, apply-Applied}
use project_management.Scope.Governed.InForce.{InForce, in_force}

abbrev Confirmed : Digest → ScopeChange → ScopeStore → String → ScopeChange × ScopeStore → Type 0
Confirmed digest row store id answer =
    is_approval answer.0.status ≡ true → InForce digest row id store answer.1

written-Confirmed :
    (digest : Digest) (call : Call) (store : ScopeStore) (project : Project) (input : ScopeDecision)
    (row : ScopeChange) (answer : ScopeChange × ScopeStore) (id : String)
    → Governance store
    → Governance (saved digest call project input approved answer).1
    → find (is_change project.id id) store.changes ≡ some row
    → is_pending row.status ≡ true
    → project_of store.delivery project.id ≡ some project
    → project.source_kind ≡ "NATIVE"
    → Applied call store project row answer
    → InForce digest row project.id store (saved digest call project input approved answer).1
written-Confirmed digest call store project input row (next, left) id g good found waits there
      native applied =
    subst
      (λ s.
        InForce digest row project.id store (saved digest call project input approved (next, s)).1)
      (sym applied.written)
      (in_force digest call store project input row next applied.rows id g
        (subst (λ s. Governance (saved digest call project input approved (next, s)).1)
          applied.written good)
        found waits applied.same there native applied.base applied.version applied.inserted)

status-Confirmed :
    (status : ChangeStatus) (digest : Digest) (call : Call) (store : ScopeStore) (project : Project)
    (input : ScopeDecision) (row : ScopeChange) (written : ScopeChange × ScopeStore) (id : String)
    → Governance store
    → Governance (saved digest call project input status written).1
    → find (is_change project.id id) store.changes ≡ some row
    → is_pending row.status ≡ true
    → project_of store.delivery project.id ≡ some project
    → project.source_kind ≡ "NATIVE"
    → apply_if status digest call store project row ≡ ok written
    → is_approval status ≡ true
    → InForce digest row project.id store (saved digest call project input status written).1
status-Confirmed approved digest call store project input row written id g good found waits there
      native applied a =
    written-Confirmed digest call store project input row written id g good found waits there native
      (Answers-ok (Applied call store project row)
        (apply_native_scope digest call store project row) applied
        (apply-Applied digest call store project row))
status-Confirmed pending digest call store project input row written id g good found waits there
      native applied a =
    cc
status-Confirmed rejected digest call store project input row written id g good found waits there
      native applied a =
    cc
status-Confirmed withdrawn digest call store project input row written id g good found waits there
      native applied a =
    cc

pending-Confirmed :
    (digest : Digest) (call : Call) (store : ScopeStore) (project : Project) (id : String)
    (input : ScopeDecision) (row : ScopeChange)
    → Governance store
    → row.version ≡ 1
    → find (is_change project.id id) store.changes ≡ some row
    → is_pending row.status ≡ true
    → project_of store.delivery project.id ≡ some project
    → project.source_kind ≡ "NATIVE"
    → Answers
        (Confirmed digest row store project.id)
        (decide_pending digest call store project input row)
unfolding decide_pending
pending-Confirmed digest call store project id input row g v found waits there native =
    after (Confirmed digest row store project.id)
      (refuse_if (not (row.version == input.expected_version)) conflict) _
      λ _ _.
        after (Confirmed digest row store project.id) (check_decider row call.actor input.decision)
          _
          λ _ may. elim (Option-cases (decision_status input.decision)) [
            | inl e ↦ rw (e, Answers) tt
            | inr (status, e) ↦
                let (apart, closed) =
                  decider-status row call.actor input.decision {status = status} may e in
                rw (e, Answers)
                  (after (Confirmed digest row store project.id)
                    (apply_if status digest call store project row) _
                    (λ written applied approval.
                      let good =
                        saved-Governance digest call store project input status row written g v
                          closed apart
                          (Answers-ok (Kept row store status)
                            (apply_if status digest call store project row) applied
                            (apply_if-Kept status digest call store project row)) in
                      status-Confirmed status digest call store project input row written id g good
                        found waits there native applied approval))
          ]

decide-Confirmed :
    (digest : Digest) (call : Call) (store : ScopeStore) (project_id id : String)
    (input : ScopeDecision) (row : ScopeChange)
    → Governance store
    → find (is_change project_id id) store.changes ≡ some row
    → is_pending row.status ≡ true
    → Answers
        (Confirmed digest row store project_id)
        (decide_native_scope digest call store project_id id input)
unfolding decide_native_scope
decide-Confirmed digest call store project_id id input row g found waits =
    after (Confirmed digest row store project_id)
      (lock_native_project call.visible store project_id) _
      λ project locked.
        let (there, native) = lock-native call.visible store project_id locked in
        let hit =
          (find-All (λ _. Unit {0}) (λ (p : Project). str_eq p.id project_id)
            store.delivery.projects {x = project} (All-All _ store.delivery.projects (λ _. tt))
            there).1 in
        let same : project.id ≡ project_id = (str_eq_iff project.id project_id).0 hit in
        let good =
          (find-All Governed (is_change project_id id) store.changes {x = row} g.all found).0 in
        rw (found, waits, Answers)
          (subst
            (λ z.
              Answers (Confirmed digest row store z)
                (decide_pending digest call store project input row))
            same
            (pending-Confirmed digest call store project id input row g (rw waits at good.versions)
              (subst (λ z. find (is_change z id) store.changes ≡ some row) (sym same) found) waits
              (subst (λ z. project_of store.delivery z ≡ some project) (sym same) there)
              ((str_eq_iff project.source_kind "NATIVE").0 native)))

-- An approval that is accepted puts the proposal in force: right after it the project names the version
-- after the one that the proposal was made for, that version is stored with the lines of the proposal, the
-- items of the project are these lines, the items it had are archived, those of other projects are as
-- before, and the confirmation of the items passes its gate.
pub approved-confirms :
    (digest : Digest) (call : Call) {store : ScopeStore} (project_id id : String)
    (input : ScopeDecision) {row change : ScopeChange} {left : ScopeStore}
    → ScopeReach digest store
    → find (is_change project_id id) store.changes ≡ some row
    → is_pending row.status ≡ true
    → decide_native_scope digest call store project_id id input ≡ ok (change, left)
    → is_approval change.status ≡ true
    → InForce digest row project_id store left
approved-confirms digest call {store = store} project_id id input {row = row} r found waits accepted
      approval =
    Answers-ok (Confirmed digest row store project_id)
      (decide_native_scope digest call store project_id id input) accepted
      (decide-Confirmed digest call store project_id id input row
        (record { all = (ScopeReach-Governance r).0; one = (ScopeReach-Governance r).1 }) found
        waits)
      approval
