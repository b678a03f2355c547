-- ===== src/Scope/Governed/Approval.antt =====
-- internal/infrastructure/mysql/native_scope_change.go `applyNativeScope`: the tables that an approval leaves.
use project_management.Base.{
  suc, ◌≡◌, refl, sym, ◌∙◌, String, true, false, ◌&&◌, ◌||◌, not, List, some, find, any, filter,
  All, All-All, arith, count, update_where, find-All, str_eq, str_eq_iff, ok, Answers, Answers-ok,
  after, refuse_if, ◌==◌, conflict, storage, length, Bool-cases, inl, inr, refused,
}
use mathlib.Core.List.{◌++◌}
use project_management.Delivery.Schema.{Project, ServiceItem}
use project_management.Delivery.Store.{project_of}
use project_management.Scope.{
  ScopeStore, ScopeChange, NativeScope, ChangeStatus, ScopeDecision, Digest, scope_fingerprint,
  waits_for, approved,
}
use project_management.Scope.Eligible.{
  lock_native_scope_eligible, check_native_scope_baseline, of_project,
  guard_native_scope_confirmation,
}
use project_management.Scope.Catalog.{validate_native_scope_catalog, catalog_fingerprint}
use project_management.Scope.Request.{Call}
use project_management.Scope.Approve.{
  apply_native_scope, insert_items, numbered, next_scope, applied_store,
}
use project_management.Scope.Decide.{decided_row, is_pending, is_change, saved}
use project_management.Scope.Governed.{
  Governed, Governance, waits_in, waits-count, count-update_less,
}
use project_management.Scope.Governed.Inserts.{
  Inserted, insert-Inserted, filter-own, find-updated, finds-next, baseline,
}

-- What an approval leaves.
pub record Applied (call : Call) (store : ScopeStore) (project : Project) (row : ScopeChange)
    (answer : ScopeChange × ScopeStore) : Type 0 where
  pub rows : List ServiceItem
  pub inserted : Inserted project (numbered call 0 row.service_items) rows
  pub written : answer.1 ≡ applied_store call project row rows store
  pub same : answer.0.id ≡ row.id
  pub base : project.scope_version ≡ row.base_scope_version
  pub version : project.version ≡ row.expected_project_version

pub apply-Applied :
    (digest : Digest) (call : Call) (store : ScopeStore) (project : Project) (row : ScopeChange)
    → Answers (Applied call store project row) (apply_native_scope digest call store project row)
unfolding apply_native_scope
apply-Applied digest call store project row =
    after P
      (refuse_if
        (not (project.scope_version == row.base_scope_version)
          || not (project.version == row.expected_project_version))
        conflict)
      _
      λ _ fresh. after P (lock_native_scope_eligible store.delivery project) _ λ active _.
        after P (check_native_scope_baseline digest store project active) _ λ _ _.
          after P
            (refuse_if (not (str_eq (scope_fingerprint digest row.service_items) row.scope_hash))
              conflict)
            _
            λ _ _. after P (validate_native_scope_catalog store row.service_items) _ λ _ _.
              after P (catalog_fingerprint digest store row.service_items) _ λ catalog _.
                after P (refuse_if (not (str_eq catalog row.catalog_hash)) conflict) _ λ _ _.
                  after P (insert_items call project 0 taken row.service_items) _ λ rows made.
                    after P
                      (refuse_if
                        (any
                          (λ (s : NativeScope).
                            str_eq s.project_id project.id
                            && s.version == suc project.scope_version)
                          store.scopes)
                        storage)
                      _
                      λ _ _. record {
                        rows = rows;
                        inserted =
                            Answers-ok (Inserted project (numbered call 0 row.service_items))
                              (insert_items call project 0 taken row.service_items) made
                              (insert-Inserted call project 0 taken row.service_items);
                        written = refl;
                        same = refl;
                        base = (versions fresh).0;
                        version = (versions fresh).1;
                      }
  where
    P : ScopeChange × ScopeStore → Type 0
    P = Applied call store project row

    taken : List ServiceItem
    taken = store.delivery.items ++ store.delivery.archived

    versions :
        {u : Unit {0}}
        → refuse_if
            (not (project.scope_version == row.base_scope_version)
              || not (project.version == row.expected_project_version))
            conflict
          ≡ ok u
        → (project.scope_version ≡ row.base_scope_version)
          × (project.version ≡ row.expected_project_version)
    versions h = elim (Bool-cases (project.scope_version == row.base_scope_version)) [
      | inr a ↦ refused (rw a at h)
      | inl a ↦ elim (Bool-cases (project.version == row.expected_project_version)) [
        | inr b ↦ refused (rw (a, b) at h)
        | inl b ↦ (ground arith, ground arith)
      ]
    ]

-- After a decision on a pending proposal its project has none that waits.
none-waits :
    (digest : Digest) (call : Call) (project : Project) (input : ScopeDecision)
    (status : ChangeStatus) (row : ScopeChange) (store : ScopeStore) (next : ScopeChange)
    (id : String)
    → Governance store
    → All Governed (
        update_where
          (λ (c : ScopeChange). str_eq c.id next.id)
          (λ _. decided_row digest call input status next)
          store.changes)
    → find (is_change project.id id) store.changes ≡ some row
    → is_pending row.status ≡ true
    → is_pending status ≡ false
    → next.id ≡ row.id
    → any (str_eq project.id) (
        waits_for (
          update_where
            (λ (c : ScopeChange). str_eq c.id next.id)
            (λ _. decided_row digest call input status next)
            store.changes))
      ≡ false
none-waits digest call project input status row store next id g good found waits closed same =
    let test = λ (c : ScopeChange). str_eq c.id next.id in
    let f = λ (_ : ScopeChange). decided_row digest call input status next in
    let hit =
      (find-All (λ _. Unit {0}) (is_change project.id id) store.changes {x = row}
        (All-All _ store.changes (λ _. tt)) found).1 in
    let less =
      count-update_less (waits_in project.id) test (is_change project.id id) f store.changes
        {row = row} (λ _. ground (arith, closed)) found (ground (arith, hit, waits))
        ((str_eq_iff row.id next.id).1 (sym same)) in
    let most = g.one project.id in
    let zero : count (waits_in project.id) (update_where test f store.changes) ≡ 0 =
      omega (arith, less, most) in
    waits-count project.id (update_where test f store.changes) good ∙ rw zero refl

confirm-ok :
    (digest : Digest) (store : ScopeStore) (id : String) (project : Project)
    (rows : List ServiceItem)
    → project_of store.delivery id ≡ some project
    → project.source_kind ≡ "NATIVE"
    → any (str_eq project.id) (waits_for store.changes) ≡ false
    → filter (of_project project.id) store.delivery.items ≡ rows
    → check_native_scope_baseline digest store project rows ≡ ok tt
    → guard_native_scope_confirmation digest store id ≡ ok tt
unfolding guard_native_scope_confirmation check_native_scope_baseline
confirm-ok digest store id project rows there native free items base =
    rw (there, guard_native_scope_confirmation, native, free, items, base) refl

-- The project as an approval writes it
abbrev pub approved_project : Call → Project → ScopeChange → Project → Project
approved_project call project row p = record p {
  scope_version = suc project.scope_version;
  version = suc project.version;
  services = length row.service_items;
  status = "待拆解确认";
  progress = 0;
  updated_at = call.now;
}

pub confirmed :
    (digest : Digest) (call : Call) (store : ScopeStore) (project : Project) (input : ScopeDecision)
    (row next : ScopeChange) (rows : List ServiceItem) (id : String)
    → Governance store
    → Governance
        (saved digest call project input approved
          (next, applied_store call project row rows store)).1
    → find (is_change project.id id) store.changes ≡ some row
    → is_pending row.status ≡ true
    → next.id ≡ row.id
    → project_of store.delivery project.id ≡ some project
    → project.source_kind ≡ "NATIVE"
    → Inserted project (numbered call 0 row.service_items) rows
    → guard_native_scope_confirmation digest
        (saved digest call project input approved
          (next, applied_store call project row rows store)).1
        project.id
      ≡ ok tt
unfolding guard_native_scope_confirmation
confirmed digest call store project input row next rows id g after found waits same there native
      inserted =
    let result =
      (saved digest call project input approved
        (next, applied_store call project row rows store)).1 in
    let changed = approved_project call project row project in
    let now_there : project_of result.delivery project.id ≡ some changed =
      find-updated project.id (approved_project call project row) store.delivery.projects
        {project = project} (λ p. refl) there in
    let free : any (str_eq project.id) (waits_for result.changes) ≡ false =
      none-waits digest call project input approved row store next id g after.all found waits refl
        same in
    let items : filter (of_project project.id) result.delivery.items ≡ rows =
      filter-own project.id store.delivery.items rows inserted.own in
    let base : check_native_scope_baseline digest result changed rows ≡ ok tt =
      baseline digest (next_scope call project (numbered call 0 row.service_items)) project changed
        result (numbered call 0 row.service_items) rows inserted refl
        (finds-next call project changed (numbered call 0 row.service_items) store.scopes refl
          refl) in
    confirm-ok digest result project.id changed rows now_there native free items base
