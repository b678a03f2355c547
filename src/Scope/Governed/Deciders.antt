-- ===== src/Scope/Governed/Deciders.antt =====
-- internal/infrastructure/mysql/native_scope_change.go `DecideNativeScope`: who may decide, and what a
-- decision leaves of the proposals.
use project_management.Base.{
  suc, ◌≡◌, refl, ap, subst, String, true, false, ◌&&◌, ◌||◌, not, some, any, arith, Bool-cases,
  inl, inr, str_eq, str_eq_iff, ok, Answers, after, refuse_if, refused, ◌==◌, forbidden, conflict,
  storage,
}
use mathlib.Core.List.{◌++◌}
use project_management.Delivery.Schema.{Project}
use project_management.Scope.{
  ScopeStore, ScopeChange, NativeScope, ChangeStatus, Digest, pending, approved, rejected,
  withdrawn, scope_fingerprint,
}
use project_management.Scope.Eligible.{lock_native_scope_eligible, check_native_scope_baseline}
use project_management.Scope.Catalog.{validate_native_scope_catalog, catalog_fingerprint}
use project_management.Scope.Request.{Call}
use project_management.Scope.Approve.{apply_native_scope, insert_items}
use project_management.Scope.Decide.{
  is_pending, is_approval, apply_if, check_decider, decision_status,
}
use project_management.Scope.Governed.{is_withdrawal}

-- Who decides: nobody but who made the proposal withdraws it, and nobody who made it decides it.
pub decider-status :
    (row : ScopeChange) (actor decision : String) {status : ChangeStatus} {u : Unit {0}}
    → check_decider row actor decision ≡ ok u
    → decision_status decision ≡ some status
    → (str_eq row.requested_by actor ≡ is_withdrawal status) × (is_pending status ≡ false)
decider-status row actor decision {status = status} h k =
    elim (Bool-cases (str_eq decision "APPROVE")) [
      | inl e ↦ approves ((str_eq_iff decision "APPROVE").0 e)
      | inr not_approve ↦ elim (Bool-cases (str_eq decision "REJECT")) [
        | inl e ↦ rejects ((str_eq_iff decision "REJECT").0 e)
        | inr not_reject ↦ elim (Bool-cases (str_eq decision "WITHDRAW")) [
          | inl e ↦ withdraws ((str_eq_iff decision "WITHDRAW").0 e)
          | inr e ↦ absurd (ground (arith, not_approve, not_reject, e, k))
        ]
      ]
    ]
  where
    apart :
        refuse_if (str_eq row.requested_by actor) forbidden ≡ ok tt
        → str_eq row.requested_by actor ≡ false
    apart g = elim (Bool-cases (str_eq row.requested_by actor)) [
      | inl e ↦ refused (rw e at g)
      | inr e ↦ e
    ]

    own :
        refuse_if (not (str_eq row.requested_by actor)) forbidden ≡ ok tt
        → str_eq row.requested_by actor ≡ true
    own g = elim (Bool-cases (str_eq row.requested_by actor)) [
      | inl e ↦ e
      | inr e ↦ refused (rw e at g)
    ]

    approves :
        decision ≡ "APPROVE"
        → (str_eq row.requested_by actor ≡ is_withdrawal status) × (is_pending status ≡ false)
    approves e =
        let s : approved ≡ status = (let q = rw e at k in cc) in
        subst (λ z. (str_eq row.requested_by actor ≡ is_withdrawal z) × (is_pending z ≡ false)) s
          (apart (rw e at h), refl)

    rejects :
        decision ≡ "REJECT"
        → (str_eq row.requested_by actor ≡ is_withdrawal status) × (is_pending status ≡ false)
    rejects e =
        let s : rejected ≡ status = (let q = rw e at k in cc) in
        subst (λ z. (str_eq row.requested_by actor ≡ is_withdrawal z) × (is_pending z ≡ false)) s
          (apart (rw e at h), refl)

    withdraws :
        decision ≡ "WITHDRAW"
        → (str_eq row.requested_by actor ≡ is_withdrawal status) × (is_pending status ≡ false)
    withdraws e =
        let s : withdrawn ≡ status = (let q = rw e at k in cc) in
        subst (λ z. (str_eq row.requested_by actor ≡ is_withdrawal z) × (is_pending z ≡ false)) s
          (own (rw e at h), refl)

-- What the step before the decision is written leaves of the proposal and the others.
pub record Kept (row : ScopeChange) (store : ScopeStore) (status : ChangeStatus)
    (answer : ScopeChange × ScopeStore) : Type 0 where
  pub changes : answer.1.changes ≡ store.changes
  pub id : answer.0.id ≡ row.id
  pub project : answer.0.project_id ≡ row.project_id
  pub requested : answer.0.requested_by ≡ row.requested_by
  pub version : answer.0.version ≡ row.version
  pub applied :
      is_approval status ≡ true → answer.0.applied_scope_version ≡ suc answer.0.base_scope_version

apply-Kept :
    (digest : Digest) (call : Call) (store : ScopeStore) (project : Project) (row : ScopeChange)
    → Answers (Kept row store approved) (apply_native_scope digest call store project row)
unfolding apply_native_scope
apply-Kept digest call store project row =
    after (Kept row store approved)
      (refuse_if
        (not (project.scope_version == row.base_scope_version)
          || not (project.version == row.expected_project_version))
        conflict)
      _
      λ _ base.
        after (Kept row store approved) (lock_native_scope_eligible store.delivery project) _
          λ active _.
            after (Kept row store approved)
              (check_native_scope_baseline digest store project active) _
              λ _ _.
                after (Kept row store approved)
                  (refuse_if
                    (not (str_eq (scope_fingerprint digest row.service_items) row.scope_hash))
                    conflict)
                  _
                  λ _ _.
                    after (Kept row store approved)
                      (validate_native_scope_catalog store row.service_items) _
                      λ _ _.
                        after (Kept row store approved)
                          (catalog_fingerprint digest store row.service_items) _
                          λ catalog _.
                            after (Kept row store approved)
                              (refuse_if (not (str_eq catalog row.catalog_hash)) conflict) _
                              λ _ _.
                                after (Kept row store approved)
                                  (insert_items call project 0
                                    (store.delivery.items ++ store.delivery.archived)
                                    row.service_items)
                                  _
                                  λ rows _.
                                    after (Kept row store approved)
                                      (refuse_if
                                        (any
                                          (λ (s : NativeScope).
                                            str_eq s.project_id project.id
                                            && s.version == suc project.scope_version)
                                          store.scopes)
                                        storage)
                                      _
                                      λ _ _. record {
                                        changes = refl;
                                        id = refl;
                                        project = refl;
                                        requested = refl;
                                        version = refl;
                                        applied = λ _. ap suc (same_base base);
                                      }
  where
    same_base :
        {u : Unit {0}}
        → refuse_if
            (not (project.scope_version == row.base_scope_version)
              || not (project.version == row.expected_project_version))
            conflict
          ≡ ok u
        → project.scope_version ≡ row.base_scope_version
    same_base g = elim (Bool-cases (project.scope_version == row.base_scope_version)) [
      | inl e ↦ ground (arith, e)
      | inr e ↦ refused (rw e at g)
    ]

pub apply_if-Kept :
    (status : ChangeStatus) (digest : Digest) (call : Call) (store : ScopeStore) (project : Project)
    (row : ScopeChange)
    → Answers (Kept row store status) (apply_if status digest call store project row)
apply_if-Kept approved digest call store project row = apply-Kept digest call store project row
apply_if-Kept pending digest call store project row = record {
  changes = refl;
  id = refl;
  project = refl;
  requested = refl;
  version = refl;
  applied = λ e. cc;
}
apply_if-Kept rejected digest call store project row = record {
  changes = refl;
  id = refl;
  project = refl;
  requested = refl;
  version = refl;
  applied = λ e. cc;
}
apply_if-Kept withdrawn digest call store project row = record {
  changes = refl;
  id = refl;
  project = refl;
  requested = refl;
  version = refl;
  applied = λ e. cc;
}
