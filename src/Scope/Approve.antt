-- ===== src/Scope/Approve.antt =====
-- internal/infrastructure/mysql/native_scope_change.go `applyNativeScope`: what an approval writes.
use project_management.Base.{
  ℕ, suc, String, Bool, ◌&&◌, ◌||◌, not, List, [], ◌∷◌, none, some, filter, any, str_eq, ◌==◌,
  length, update_where, Result, ok, ◌>>=◌, ◌>>◌, refuse_if, conflict, storage,
}
use mathlib.Core.List.{◌++◌ as append}
use project_management.Delivery.Payload.{ItemInput, null_value, texts}
use project_management.Delivery.Schema.{Project, ServiceItem}
use project_management.Scope.{ScopeStore, ScopeChange, NativeScope, Digest, scope_fingerprint}
use project_management.Scope.Catalog.{validate_native_scope_catalog, catalog_fingerprint}
use project_management.Scope.Eligible.{
  lock_native_scope_eligible, check_native_scope_baseline, of_project,
}
use project_management.Scope.Request.{Call}

-- The row of a new item
abbrev pub item_row : Call → Project → String → ItemInput → ServiceItem
item_row call project id item = record {
  id = id;
  project_id = project.id;
  source_service_id = item.source_service_id;
  batch = item.batch;
  site = item.site;
  site_code = item.site_code;
  category = item.category;
  requirement = item.requirement;
  system = item.system;
  system_level = item.system_level;
  system_standard = item.system_standard;
  special = item.special;
  test_mode = item.test_mode;
  team_lead_id = "";
  project_manager_id = "";
  engineer_ids = null_value;
  equipment_ids = null_value;
  required_codes = texts item.required_codes;
  planned_start = none;
  planned_end = none;
  conflict_status = "UNCHECKED";
  tech_review_status = "";
  tech_reviewed_at = none;
  tech_reviewed_by = "";
  tech_review_comment = "";
  report_status = "";
  report_updated_at = none;
  report_updated_by = "";
  report_revision = 0;
  report_prepared_by = "";
  report_reviewed_by = "";
  report_issued_by = "";
  status = "待确认";
  status_changed_at = some call.now;
  version = 1;
  created_at = call.now;
  updated_at = call.now;
  updated_by = call.actor;
}

-- The loop over the items of the proposal: `taken` are the rows whose ids are in use.
unfoldable pub insert_items :
    Call → Project → ℕ → List ServiceItem → List ItemInput → Result (List ServiceItem)
insert_items call project index taken [] = ok []
insert_items call project index taken (item ∷ items) =
    let row = item_row call project (call.item_id index) item in
    let rest = insert_items call project (suc index) (row ∷ taken) items in
    refuse_if (any (λ (r : ServiceItem). str_eq r.id row.id) taken) storage >> rest >>= λ rows.
    ok (row ∷ rows)

-- The items of the new version, with the ids of their rows
abbrev pub numbered : Call → ℕ → List ItemInput → List ItemInput
numbered call index [] = []
numbered call index (item ∷ items) =
    (record item { id = call.item_id index; status = "待确认" }) ∷ numbered call (suc index) items

abbrev pub is_project : String → Project → Bool
is_project id p = str_eq p.id id

abbrev pub outside : String → ServiceItem → Bool
outside id row = not (of_project id row)

abbrev pub next_scope : Call → Project → List ItemInput → NativeScope
next_scope call project items = record {
  project_id = project.id;
  version = suc project.scope_version;
  source_id = project.source_id;
  actor_identity_id = call.actor;
  service_items = items;
  created_at = call.now;
}

-- What the approval writes
abbrev pub applied_store : Call → Project → ScopeChange → List ServiceItem → ScopeStore → ScopeStore
applied_store call project row rows store = record store {
  delivery = record store.delivery {
    items = append (filter (outside project.id) store.delivery.items) rows;
    archived = append (filter (of_project project.id) store.delivery.items) store.delivery.archived;
    projects =
        update_where (is_project project.id)
          (λ p. record p {
            scope_version = suc project.scope_version;
            version = suc project.version;
            services = length row.service_items;
            status = "待拆解确认";
            progress = 0;
            updated_at = call.now;
          })
          store.delivery.projects;
  };
  scopes = next_scope call project (numbered call 0 row.service_items) ∷ store.scopes;
}

-- `applyNativeScope`: the proposal as it is written back, and the tables
unfoldable pub apply_native_scope :
    Digest → Call → ScopeStore → Project → ScopeChange → Result (ScopeChange × ScopeStore)
apply_native_scope digest call store project row =
    refuse_if
      (not (project.scope_version == row.base_scope_version)
        || not (project.version == row.expected_project_version))
      conflict
    >> lock_native_scope_eligible store.delivery project
    >>= λ active.
        check_native_scope_baseline digest store project active
        >> refuse_if (not (str_eq (scope_fingerprint digest row.service_items) row.scope_hash))
            conflict
        >> validate_native_scope_catalog store row.service_items
        >> catalog_fingerprint digest store row.service_items
        >>= λ catalog.
            refuse_if (not (str_eq catalog row.catalog_hash)) conflict
            >> insert_items call project 0 (append store.delivery.items store.delivery.archived)
                row.service_items
            >>= λ rows.
                refuse_if
                  (any
                    (λ (s : NativeScope).
                      str_eq s.project_id project.id && s.version == suc project.scope_version)
                    store.scopes)
                  storage
                >> ok (
                  record row {
                    applied_scope_version = suc project.scope_version;
                    service_items = numbered call 0 row.service_items;
                  },
                  applied_store call project row rows store,
                )
