-- ===== src/Scope/Governed/InForce.antt =====
-- internal/infrastructure/mysql/native_scope_change.go `applyNativeScope`: what it is for a proposal to be
-- in force.
use project_management.Base.{
  ℕ, suc, ◌≡◌, refl, ap, ◌∙◌, String, true, List, [], ◌∷◌, some, map, find, filter, All, inl, inr,
  Bool-cases, ok,
}
use mathlib.Core.List.{◌++◌}
use project_management.Delivery.Payload.{ItemInput}
use project_management.Delivery.Schema.{Project, ServiceItem}
use project_management.Delivery.Store.{project_of}
use project_management.Scope.{
  ScopeStore, ScopeChange, NativeScope, ScopeDecision, Digest, line_of, approved,
}
use project_management.Scope.Eligible.{
  of_project, guard_native_scope_confirmation, service_from_record, is_version,
}
use project_management.Scope.Request.{Call}
use project_management.Scope.Approve.{numbered, next_scope, applied_store, outside}
use project_management.Scope.Decide.{is_pending, is_change, saved}
use project_management.Scope.Governed.{Governance}
use project_management.Scope.Governed.Inserts.{Inserted, filter-own, find-updated, finds-next}
use project_management.Scope.Governed.Approval.{approved_project, confirmed}

-- The proposal `row` on the project is in force in the tables that its approval leaves: the project names
-- the version after the one that the proposal was made for, that version is stored with the lines of the
-- proposal, the items of the project are these lines and the items it had are archived, the items of other
-- projects are as before, and the confirmation of the items passes its gate.
pub record InForce (digest : Digest) (row : ScopeChange) (id : String) (before after : ScopeStore)
    : Type 0 where
  pub project : Project
  pub there : project_of after.delivery id ≡ some project
  pub next_scope_version : project.scope_version ≡ suc row.base_scope_version
  pub next_version : project.version ≡ suc row.expected_project_version
  pub scope : NativeScope
  pub stored : find (is_version id project.scope_version) after.scopes ≡ some scope
  pub scope_lines : map line_of scope.service_items ≡ map line_of row.service_items
  pub item_lines :
      map line_of (map service_from_record (filter (of_project id) after.delivery.items))
      ≡ map line_of row.service_items
  pub archived :
      after.delivery.archived
      ≡ filter (of_project id) before.delivery.items ++ before.delivery.archived
  pub others : filter (outside id) after.delivery.items ≡ filter (outside id) before.delivery.items
  pub confirms : guard_native_scope_confirmation digest after id ≡ ok tt

numbered-lines :
    (call : Call) (index : ℕ) (items : List ItemInput)
    → map line_of (numbered call index items) ≡ map line_of items
numbered-lines call index [] = refl
numbered-lines call index (item ∷ items) =
    ap (λ z. line_of item ∷ z) (numbered-lines call (suc index) items)

filter-others :
    (id : String) (items rows : List ServiceItem)
    → All (λ r. of_project id r ≡ true) rows
    → filter (outside id) (filter (outside id) items ++ rows) ≡ filter (outside id) items
filter-others id [] [] h = refl
filter-others id [] (r ∷ rows) h = rw h.0 (filter-others id [] rows h.1)
filter-others id (i ∷ items) rows h = elim (Bool-cases (of_project id i)) [
  | inl e ↦ rw e (filter-others id items rows h)
  | inr e ↦ rw (e, e) (ap (λ z. i ∷ z) (filter-others id items rows h))
]

pub in_force :
    (digest : Digest) (call : Call) (store : ScopeStore) (project : Project) (input : ScopeDecision)
    (row next : ScopeChange) (rows : List ServiceItem) (id : String)
    → Governance store
    → Governance
        (saved digest call project input approved
          (next, applied_store call project row rows store)).1
    → find (is_change project.id id) store.changes ≡ some row
    → is_pending row.status ≡ true
    → next.id ≡ row.id
    → project_of store.delivery project.id ≡ some project
    → project.source_kind ≡ "NATIVE"
    → project.scope_version ≡ row.base_scope_version
    → project.version ≡ row.expected_project_version
    → Inserted project (numbered call 0 row.service_items) rows
    → InForce digest row project.id store
        (saved digest call project input approved
          (next, applied_store call project row rows store)).1
in_force digest call store project input row next rows id g after found waits same there native base
      version inserted =
    let changed = approved_project call project row project in
    let items = numbered call 0 row.service_items in
    let kept = filter-own project.id store.delivery.items rows inserted.own in
    record {
      project = changed;
      there =
          find-updated project.id (approved_project call project row) store.delivery.projects
            {project = project} (λ p. refl) there;
      next_scope_version = ap suc base;
      next_version = ap suc version;
      scope = next_scope call project items;
      stored = finds-next call project changed items store.scopes refl refl;
      scope_lines = numbered-lines call 0 row.service_items;
      item_lines =
          ap (λ z. map line_of (map service_from_record z)) kept
          ∙ inserted.lines
          ∙ numbered-lines call 0 row.service_items;
      archived = refl;
      others = filter-others project.id store.delivery.items rows inserted.own;
      confirms =
          confirmed digest call store project input row next rows id g after found waits same there
            native inserted;
    }
