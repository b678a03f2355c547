-- ===== src/Scope/Governed/Blocks.antt =====
-- internal/infrastructure/mysql/native_scope_guards.go `guardNativeScopeMutation`: the gate of the delivery
-- workflow, and the proposals.
use project_management.Base.{◌≡◌, refl, not, some, count, refuse_if, precondition, ◌==◌}
use project_management.Delivery.Schema.{Project, ServiceItem}
use project_management.Delivery.Store.{project_of}
use project_management.Delivery.Gates.{guard_native_scope_mutation}
use project_management.Scope.{ScopeStore, Digest, seen}
use project_management.Scope.Governed.{waits_in, waits-count}
use project_management.Scope.Governed.Reach.{ScopeReach, ScopeReach-Governance}

-- An event on an item of a native project passes the gate exactly while no proposal of the project waits.
pub guard_native_scope_mutation_iff :
    {digest : Digest} {store : ScopeStore} (item : ServiceItem) (project : Project)
    → ScopeReach digest store
    → project_of store.delivery item.project_id ≡ some project
    → project.source_kind ≡ "NATIVE"
    → guard_native_scope_mutation (seen store) item
      ≡ refuse_if (not (count (waits_in project.id) store.changes == 0)) precondition
unfolding guard_native_scope_mutation
guard_native_scope_mutation_iff {store = store} item project r found native =
    rw
      (
        found,
        native,
        guard_native_scope_mutation,
        waits-count project.id store.changes (ScopeReach-Governance r).0,
      )
      refl
