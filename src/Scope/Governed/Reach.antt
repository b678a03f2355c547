-- ===== src/Scope/Governed/Reach.antt =====
-- internal/infrastructure/mysql/native_scope_change.go: sequences of requests and decisions, with the
-- delivery workflow and the catalogue at work in between.
use project_management.Base.{
  ◌≤◌, ◌≡◌, ap, ◌∙◌, String, false, ◌||◌, not, List, [], find, All, All-All, arith, Bool-cases,
  Option-cases, inl, inr, count, update_where-All, find-All, str_eq, ok, Answers, Answers-ok, after,
  refuse_if, ◌==◌, conflict,
}
use project_management.Delivery.Payload.{ItemInput}
use project_management.Delivery.Schema.{Project}
use project_management.Delivery.Store.{Store}
use project_management.Scope.{
  ScopeStore, ScopeChange, NativeScope, ChangeStatus, ScopeInput, ScopeDecision, Digest,
  DetectionCategory, Site, lock_native_project,
}
use project_management.Scope.Request.{Call, request_native_scope}
use project_management.Scope.Decide.{
  decide_native_scope, decide_pending, decided_row, is_pending, is_change, apply_if, saved,
  check_decider, decision_status, decision_fingerprint,
}
use project_management.Scope.Governed.{
  Governed, Governance, GovernedAnswer, is_withdrawal, waits_in, decide_status-Governed,
  count-update_most, request-Governance,
}
use project_management.Scope.Governed.Deciders.{Kept, apply_if-Kept, decider-status}

pub saved-Governance :
    (digest : Digest) (call : Call) (store : ScopeStore) (project : Project) (input : ScopeDecision)
    (status : ChangeStatus) (row : ScopeChange) (written : ScopeChange × ScopeStore)
    → Governance store
    → row.version ≡ 1
    → is_pending status ≡ false
    → str_eq row.requested_by call.actor ≡ is_withdrawal status
    → Kept row store status written
    → GovernedAnswer (saved digest call project input status written)
saved-Governance digest call store project input status row (next, after_store) g v closed apart
      kept =
    record {
      all = rw kept.changes (
          update_where-All Governed Governed (λ (c : ScopeChange). str_eq c.id next.id)
            (λ _. decided) store.changes g.all (All-All _ store.changes (λ c _ _. good))
            (All-All _ store.changes (λ c _ k. k)));
      one = λ p.
          let fewer =
            count-update_most (waits_in p) (λ (c : ScopeChange). str_eq c.id next.id) (λ _. decided)
              store.changes (λ _. ground (arith, closed)) in
          let most = g.one p in rw kept.changes (omega (arith, fewer, most));
    }
  where
    decided : ScopeChange
    decided = decided_row digest call input status next

    good : Governed decided
    good =
        decide_status-Governed digest call input status next closed
          (ap (λ z. str_eq z call.actor) kept.requested ∙ apart) kept.applied (kept.version ∙ v)

decide_pending-Governance :
    (digest : Digest) (call : Call) (store : ScopeStore) (project : Project) (input : ScopeDecision)
    (row : ScopeChange)
    → Governance store
    → row.version ≡ 1
    → Answers GovernedAnswer (decide_pending digest call store project input row)
unfolding decide_pending
decide_pending-Governance digest call store project input row g v =
    after GovernedAnswer (refuse_if (not (row.version == input.expected_version)) conflict) _ λ _ _.
      after GovernedAnswer (check_decider row call.actor input.decision) _ λ _ may.
        elim (Option-cases (decision_status input.decision)) [
          | inl e ↦ rw (e, Answers) tt
          | inr (status, e) ↦
              let (apart, closed) =
                decider-status row call.actor input.decision {status = status} may e in
              rw (e, Answers)
                (after GovernedAnswer (apply_if status digest call store project row) _
                  (λ written applied.
                    saved-Governance digest call store project input status row written g v closed
                      apart
                      (Answers-ok (Kept row store status)
                        (apply_if status digest call store project row) applied
                        (apply_if-Kept status digest call store project row))))
        ]

decide-Governance :
    (digest : Digest) (call : Call) (store : ScopeStore) (project_id id : String)
    (input : ScopeDecision)
    → Governance store
    → Answers GovernedAnswer (decide_native_scope digest call store project_id id input)
unfolding decide_native_scope
decide-Governance digest call store project_id id input g =
    after GovernedAnswer (lock_native_project call.visible store project_id) _ λ project _.
      elim (Option-cases (find (is_change project_id id) store.changes)) [
        | inl e ↦ rw (e, Answers) tt
        | inr (row, e) ↦
            let good =
              (find-All Governed (is_change project_id id) store.changes {x = row} g.all e).0 in
            elim (Bool-cases (is_pending row.status)) [
              | inl waits ↦
                  rw (e, waits, Answers)
                    (decide_pending-Governance digest call store project input row g
                      (rw waits at good.versions))
              | inr decided ↦
                  rw (e, decided, Answers)
                    (after GovernedAnswer
                      (refuse_if
                        (not (str_eq row.decision_operation input.operation_id)
                          || not (
                              str_eq row.decision_fingerprint
                                (decision_fingerprint digest call input)))
                        conflict)
                      _ (λ _ _. g))
            ]
      ]

pub data ScopeStep (digest : Digest) : ScopeStore → ScopeStore → Type 0 where
  requests :
      {store after : ScopeStore} {change : ScopeChange} (call : Call) (id : String)
      (input : ScopeInput) (items : List ItemInput)
      → request_native_scope digest call store id input items ≡ ok (change, after)
      → ScopeStep digest store after
  decides :
      {store after : ScopeStore} {change : ScopeChange} (call : Call) (project id : String)
      (input : ScopeDecision)
      → decide_native_scope digest call store project id input ≡ ok (change, after)
      → ScopeStep digest store after
  -- whatever is written to the tables of the delivery workflow, the scopes of new projects, and the catalogue
  works :
      {store : ScopeStore} (delivery : Store) (scopes : List NativeScope)
      (categories : List DetectionCategory) (sites : List Site)
      → ScopeStep digest store (record store {
        delivery = delivery;
        scopes = scopes;
        categories = categories;
        sites = sites;
      })

pub data ScopeReach (digest : Digest) : ScopeStore → Type 0 where
  starts : (store : ScopeStore) → store.changes ≡ [] → ScopeReach digest store
  goes_on :
      {store after : ScopeStore}
      → ScopeReach digest store
      → ScopeStep digest store after
      → ScopeReach digest after

-- At any time, after whatever requests, decisions and other work: a proposal waits exactly while it is
-- pending, it is decided by another person than who made it and withdrawn by nobody else, one that is
-- approved names as its applied version the one after the version it was made for, its own version is 1
-- while it is pending and 2 from then on, and a project has one pending proposal at most.
pub ScopeReach-Governance :
    {digest : Digest} {store : ScopeStore}
    → ScopeReach digest store
    → All Governed store.changes × ((project : String) → count (waits_in project) store.changes ≤ 1)
ScopeReach-Governance r = let g = reached r in (g.all, g.one)
  where
    stepped :
        {digest : Digest} {store after : ScopeStore}
        → ScopeStep digest store after
        → Governance store
        → Governance after
    stepped {digest = digest} {store = store} (requests call id input items e) g =
        Answers-ok GovernedAnswer (request_native_scope digest call store id input items) e
          (request-Governance digest call store id input items g)
    stepped {digest = digest} {store = store} (decides call project id input e) g =
        Answers-ok GovernedAnswer (decide_native_scope digest call store project id input) e
          (decide-Governance digest call store project id input g)
    stepped (works delivery scopes categories sites) g = record { all = g.all; one = g.one }

    reached : {digest : Digest} {store : ScopeStore} → ScopeReach digest store → Governance store
    reached (starts store e) = record { all = rw e tt; one = λ p. rw e (omega arith) }
    reached (goes_on r s) = stepped s (reached r)
