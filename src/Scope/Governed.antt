-- ===== src/Scope/Governed.antt =====
-- internal/infrastructure/mysql/native_scope_change.go: the proposals over time, whatever the delivery
-- workflow does to its own tables in between.
pub mod Deciders
pub mod Reach
pub mod Blocks
pub mod Inserts
pub mod Approval
pub mod InForce
pub mod Effective
pub mod Requests
pub mod Replay
use project_management.Base.{
  ℕ, zero, suc, ◌+◌, ◌≤◌, ◌<◌, ◌≡◌, refl, sym, ap, ◌∙◌, subst, String, Bool, true, false, ◌&&◌,
  ◌||◌, not, List, [], ◌∷◌, Option, none, some, find, any, All, All-map, All-All, arith, Bool-cases,
  Option-cases, inl, inr, count, update_where, update_where-All, find-All, str_eq, str_eq_iff,
  str_eq_comm, is_some, Result, ok, err, Check, Answers, Answers-ok, guard, after, Result-cases,
  ◌>>=◌, ◌>>◌, refuse_if, if◌then◌else◌, refused, guarded, >>=-eq-ok, ok_injective, ◌==◌, ltb,
  forbidden, conflict, not_found, validation, storage, precondition,
}
use project_management.Delivery.Payload.{ItemInput}
use project_management.Delivery.Schema.{Project}
use project_management.Delivery.Store.{Store, project_of}
use project_management.Delivery.Gates.{ensure_no_pending_native_scope}
use project_management.Scope.{
  ScopeStore, ScopeChange, ChangeStatus, ScopeInput, ScopeDecision, Digest, pending, approved,
  rejected, withdrawn, scope_fingerprint, seen, waits_for, lock_native_project,
}
use project_management.Scope.Eligible.{lock_native_scope_eligible, check_native_scope_baseline}
use project_management.Scope.Catalog.{validate_native_scope_catalog, catalog_fingerprint}
use project_management.Scope.Request.{
  Call, request_native_scope, create_change, new_change, has_operation, name_lines,
}
use project_management.Scope.Approve.{apply_native_scope}
use project_management.Scope.Decide.{
  decide_native_scope, decide_pending, decided_before, decided_row, is_pending, is_approval,
  is_change, apply_if, saved, check_decider, decision_status,
}

abbrev pub is_withdrawal : ChangeStatus → Bool
is_withdrawal withdrawn = true
is_withdrawal _ = false

-- A proposal waits exactly while it is pending; it is decided by another person than who made it, and
-- withdrawn by nobody else; one that is approved names as its applied version the one after the version
-- it was made for.
pub record Governed (change : ScopeChange) : Type 0 where
  pub waits :
      change.pending_project ≡ (if is_pending change.status then some change.project_id else none)
  pub apart :
      is_pending change.status ≡ false
      → str_eq change.requested_by change.decided_by ≡ is_withdrawal change.status
  pub applied :
      is_approval change.status ≡ true
      → change.applied_scope_version ≡ suc change.base_scope_version
  pub versions : change.version ≡ (if is_pending change.status then 1 else 2)

-- The proposals of a project that wait.
abbrev pub waits_in : String → ScopeChange → Bool
waits_in project change = is_pending change.status && str_eq change.project_id project

pub record Governance (store : ScopeStore) : Type 0 where
  pub all : All Governed store.changes
  pub one : (project : String) → count (waits_in project) store.changes ≤ 1

-- `waits_for` is the list of the projects with a proposal that waits.
pub waits-count :
    (project : String) (changes : List ScopeChange)
    → All Governed changes
    → any (str_eq project) (waits_for changes) ≡ not (count (waits_in project) changes == 0)
waits-count project [] h = refl
waits-count project (c ∷ cs) h =
    let ih = waits-count project cs h.1 in
    elim (Bool-cases (is_pending c.status)) [
      | inl p ↦
          let here : c.pending_project ≡ some c.project_id = rw p at h.0.waits in
          elim (Bool-cases (str_eq c.project_id project)) [
            | inl e ↦ rw (here, p, e, str_eq_comm project c.project_id, e) (ground arith)
            | inr e ↦ rw (here, p, e, str_eq_comm project c.project_id, e) ih
          ]
      | inr p ↦ let here : c.pending_project ≡ none = rw p at h.0.waits in rw (here, p) ih
    ]

pub count-update_most :
    (P test : ScopeChange → Bool) (f : ScopeChange → ScopeChange) (xs : List ScopeChange)
    → ((x : ScopeChange) → P (f x) ≡ false)
    → count P (update_where test f xs) ≤ count P xs
count-update_most P test f [] gone = omega arith
count-update_most P test f (x ∷ xs) gone =
    let ih = count-update_most P test f xs gone in
    elim (Bool-cases (test x)) [
      | inl e ↦ rw (e, gone x) (ground (arith, ih))
      | inr e ↦ rw e (ground (arith, ih))
    ]

-- An update that reaches a row that counts, and makes it count no more.
pub count-update_less :
    (P test look : ScopeChange → Bool) (f : ScopeChange → ScopeChange) (xs : List ScopeChange)
    {row : ScopeChange}
    → ((x : ScopeChange) → P (f x) ≡ false)
    → find look xs ≡ some row
    → P row ≡ true
    → test row ≡ true
    → count P (update_where test f xs) < count P xs
count-update_less P test look f [] gone found p t = cc
count-update_less P test look f (x ∷ xs) {row = row} gone found p t = elim (Bool-cases (look x)) [
  | inl hit ↦
      let most = count-update_most P test f xs gone in
      let same : x ≡ row = ground arith in
      let px : P x ≡ true = subst (λ z. P z ≡ true) (sym same) p in
      let tx : test x ≡ true = subst (λ z. test z ≡ true) (sym same) t in
      rw (tx, gone x, px) (omega (arith, most))
  | inr missed ↦
      let ih = count-update_less P test look f xs {row = row} gone (rw missed at found) p t in
      elim (Bool-cases (test x)) [
        | inl e ↦ rw (e, gone x) (ground (arith, ih))
        | inr e ↦ rw e (ground (arith, ih))
      ]
]

pub decide_status-Governed :
    (digest : Digest) (call : Call) (input : ScopeDecision) (status : ChangeStatus)
    (row : ScopeChange)
    → is_pending status ≡ false
    → str_eq row.requested_by call.actor ≡ is_withdrawal status
    → (is_approval status ≡ true → row.applied_scope_version ≡ suc row.base_scope_version)
    → row.version ≡ 1
    → Governed (decided_row digest call input status row)
decide_status-Governed digest call input status row d a v w = record {
  waits = rw d refl;
  apart = λ _. a;
  applied = v;
  versions = rw d (ap suc w);
}

pub lock-native :
    (visible : Project → Bool) (store : ScopeStore) (id : String) {project : Project}
    → lock_native_project visible store id ≡ ok project
    → (project_of store.delivery id ≡ some project) × (str_eq project.source_kind "NATIVE" ≡ true)
unfolding lock_native_project
lock-native visible store id {project = project} h =
    elim (Option-cases (project_of store.delivery id)) [
      | inl e ↦ refused (rw (e, lock_native_project) at h)
      | inr (found, e) ↦
          let (seen_it, k) =
            guarded {b = not (visible found)} not_found (rw (e, lock_native_project) at h) in
          let (native, l) =
            guarded {b = not (str_eq found.source_kind "NATIVE") || ltb found.scope_version 1}
              precondition k in
          let same : found ≡ project = ok_injective l in rw (sym same) (e, ground (arith, native))
    ]

abbrev pub GovernedAnswer : ScopeChange × ScopeStore → Type 0
GovernedAnswer answer = Governance answer.1

no-pending :
    (store : ScopeStore) (project : Project) {u : Unit {0}}
    → str_eq project.source_kind "NATIVE" ≡ true
    → ensure_no_pending_native_scope (seen store) project ≡ ok u
    → any (str_eq project.id) (waits_for store.changes) ≡ false
no-pending store project native h =
    elim (Bool-cases (any (str_eq project.id) (waits_for store.changes))) [
      | inl e ↦ refused (rw (native, e) at h)
      | inr e ↦ e
    ]

new-Governance :
    (store : ScopeStore) (project : String) (change : ScopeChange)
    → Governance store
    → Governed change
    → change.project_id ≡ project
    → any (str_eq project) (waits_for store.changes) ≡ false
    → All Governed (change ∷ store.changes)
      × ((p : String) → count (waits_in p) (change ∷ store.changes) ≤ 1)
new-Governance store project change g h same free = ((h, g.all), one)
  where
    one : (p : String) → count (waits_in p) (change ∷ store.changes) ≤ 1
    one p = elim (Bool-cases (waits_in p change)) [
      | inl e ↦
          let here : project ≡ p =
            sym same ∙ (str_eq_iff change.project_id p).0 (ground (arith, e)) in
          let zero : any (str_eq p) (waits_for store.changes) ≡ false =
            subst (λ z. any (str_eq z) (waits_for store.changes) ≡ false) here free in
          let none_waits = sym (waits-count p store.changes g.all) ∙ zero in
          rw e (ground (arith, none_waits))
      | inr e ↦ rw e (g.one p)
    ]

new_change-Governed :
    (digest : Digest) (call : Call) (project : Project) (input : ScopeInput)
    (named : List ItemInput) (fingerprint catalog : String)
    → Governed (new_change digest call project input named fingerprint catalog)
new_change-Governed digest call project input named fingerprint catalog = record {
  waits = refl;
  apart = λ e. cc;
  applied = λ e. cc;
  versions = refl;
}

create-Governance :
    (digest : Digest) (call : Call) (store : ScopeStore) (project : Project) (input : ScopeInput)
    (items : List ItemInput) (fingerprint : String)
    → Governance store
    → str_eq project.source_kind "NATIVE" ≡ true
    → Answers GovernedAnswer (create_change digest call store project input items fingerprint)
unfolding create_change
create-Governance digest call store project input items fingerprint g native =
    after GovernedAnswer
      (refuse_if
        (not (project.version == input.expected_project_version)
          || not (project.scope_version == input.base_scope_version))
        conflict)
      _
      λ _ _. after GovernedAnswer (ensure_no_pending_native_scope (seen store) project) _ λ _ free.
        after GovernedAnswer (lock_native_scope_eligible store.delivery project) _ λ active _.
          after GovernedAnswer (check_native_scope_baseline digest store project active) _ λ _ _.
            after GovernedAnswer (validate_native_scope_catalog store items) _ λ _ _.
              after GovernedAnswer (name_lines active call.change_id 0 [] items) _ λ named _.
                after GovernedAnswer (catalog_fingerprint digest store named) _ λ catalog _.
                  after GovernedAnswer
                    (refuse_if (any (λ (c : ScopeChange). str_eq c.id call.change_id) store.changes)
                      storage)
                    _
                    λ _ _.
                      let (all, one) =
                        new-Governance store project.id
                          (new_change digest call project input named fingerprint catalog) g
                          (new_change-Governed digest call project input named fingerprint catalog)
                          refl (no-pending store project native free) in
                      record { all = all; one = one }

pub request-Governance :
    (digest : Digest) (call : Call) (store : ScopeStore) (id : String) (input : ScopeInput)
    (items : List ItemInput)
    → Governance store
    → Answers GovernedAnswer (request_native_scope digest call store id input items)
unfolding request_native_scope
request-Governance digest call store id input items g =
    after GovernedAnswer (lock_native_project call.visible store id) _ λ project locked.
      elim (Option-cases (find (has_operation id input.operation_id) store.changes)) [
        | inl e ↦
            rw (e, Answers)
              (create-Governance digest call store project input items _ g
                (lock-native call.visible store id locked).1)
        | inr (old, e) ↦
            rw (e, Answers)
              (after GovernedAnswer
                (refuse_if (not (str_eq old.fingerprint (digest.command call.actor input items)))
                  conflict)
                _ (λ _ _. g))
      ]
