-- ===== src/Scope.antt =====
-- internal/infrastructure/mysql/native_scope_change.go and native_project.go: the scope of a native project,
-- its versions and the proposals to change it, with the tables of the delivery workflow.
pub mod Catalog
pub mod Eligible
pub mod Request
pub mod Approve
pub mod Decide
pub mod Governed
mod Tests
use Prim.Native.String.{compare}
use text.Mathlib.Text.{is_lt}
use project_management.Base.{
  ℕ, String, Bool, true, false, not, ◌||◌, List, [], ◌∷◌, map, Option, none, some, find, filter,
  any, if◌then◌else◌, str_eq, ltb, sort_by, is_some, Result, ok, err, Check, ◌>>=◌, ◌>>◌, refuse_if,
  not_found, precondition,
}
use project_management.Delivery.Payload.{ItemInput}
use project_management.Delivery.Schema.{Project, DeliveryEvent}
use project_management.Delivery.Store.{Store, project_of}

-- The values of `status`
pub data ChangeStatus : Type 0 where
  pending approved rejected withdrawn : ChangeStatus

-- `nativeScopeChangeRecord`; its JSON column of items is held as their list
pub record ScopeChange : Type 0 where
  pub catalog_hash : String
  pub id : String
  pub project_id : String
  pub operation_id : String
  pub pending_project : Option String
  pub fingerprint : String
  pub base_scope_version : ℕ
  pub expected_project_version : ℕ
  pub version : ℕ
  pub status : ChangeStatus
  pub reason : String
  pub requested_by : String
  pub decided_by : String
  pub decision_operation : String
  pub decision_fingerprint : String
  pub comment : String
  pub scope_hash : String
  pub applied_scope_version : ℕ
  pub service_items : List ItemInput
  pub created_at : ℕ
  pub decided_at : Option ℕ

-- `nativeScopeRecord`
pub record NativeScope : Type 0 where
  pub project_id : String
  pub version : ℕ
  pub source_id : String
  pub actor_identity_id : String
  pub service_items : List ItemInput
  pub created_at : ℕ

-- internal/infrastructure/mysql/split_config.go `detectionCategoryRecord`, the columns of the catalogue
pub record DetectionCategory : Type 0 where
  pub category : String
  pub system_standard : String
  pub required_codes : String
  pub special_method : String
  pub enabled : Bool
  pub updated_at : ℕ

-- internal/infrastructure/mysql/models.go `siteRecord`, the columns of the catalogue
pub record Site : Type 0 where
  pub site_code : String
  pub name : String
  pub status : String
  pub updated_at : ℕ

-- The tables of one tenant. `delivery.pending_scopes` is a view of `changes`.
pub record ScopeStore : Type 0 where
  pub delivery : Store
  pub scopes : List NativeScope
  pub changes : List ScopeChange
  pub categories : List DetectionCategory
  pub sites : List Site

abbrev pub waits_for : List ScopeChange → List String
waits_for [] = []
waits_for (row ∷ rows) = elim row.pending_project [
  | none ↦ waits_for rows
  | some project ↦ project ∷ waits_for rows
]

-- The tables as the delivery workflow sees them.
abbrev pub seen : ScopeStore → Store
seen store = record store.delivery { pending_scopes = waits_for store.changes }

-- internal/domain/delivery.go `ContractService`
pub record ContractService : Type 0 where
  pub source_id : String
  pub name : String
  pub site : String
  pub site_code : String
  pub batch : String
  pub category : String
  pub system : String
  pub system_level : String
  pub requirement : String
  pub test_mode : String

-- internal/domain/native_scope.go `NativeScopeInput`
pub record ScopeInput : Type 0 where
  pub operation_id : String
  pub expected_project_version : ℕ
  pub base_scope_version : ℕ
  pub reason : String
  pub service_items : List ContractService

-- internal/domain/native_scope.go `NativeScopeDecision`
pub record ScopeDecision : Type 0 where
  pub operation_id : String
  pub expected_version : ℕ
  pub decision : String
  pub comment : String

-- A line of a scope, as `NativeScopeFingerprint` of internal/application/native_scope_change.go sees it
pub record Line : Type 0 where
  pub id : String
  pub batch : String
  pub site : String
  pub site_code : String
  pub category : String
  pub requirement : String
  pub system : String
  pub system_level : String
  pub system_standard : String
  pub test_mode : String
  pub special : String
  pub codes : List String

-- A row of the catalogue, under the key of its kind and name
pub data Fact : Type 0 where
  category_fact : DetectionCategory → Fact
  site_fact : Site → Fact

-- SHA-256 over the JSON texts of a command, of the lines of a scope, and of the facts of the catalogue
pub record Digest : Type 0 where
  pub command : String → ScopeInput → List ItemInput → String
  pub lines : List Line → String
  pub facts : List (String × Fact) → String

abbrev pub before_text : String → String → Bool
before_text a b = is_lt (compare a b)

-- `sort.Strings`
abbrev pub sort_strings : List String → List String
sort_strings = sort_by before_text

abbrev pub line_of : ItemInput → Line
line_of item = record {
  id = item.source_service_id;
  batch = item.batch;
  site = item.site;
  site_code = item.site_code;
  category = item.category;
  requirement = item.requirement;
  system = item.system;
  system_level = item.system_level;
  system_standard = item.system_standard;
  test_mode = item.test_mode;
  special = item.special;
  codes = sort_strings item.required_codes;
}

-- internal/application/native_scope_change.go `NativeScopeFingerprint`
unfoldable pub scope_fingerprint : Digest → List ItemInput → String
scope_fingerprint digest items =
    digest.lines (sort_by (λ (a b : Line). before_text a.id b.id) (map line_of items))

-- `lockNativeProject`; `visible` is the data scope of the caller
unfoldable pub lock_native_project : (Project → Bool) → ScopeStore → String → Result Project
lock_native_project visible store id = elim (project_of store.delivery id) [
  | none ↦ err not_found
  | some project ↦
      refuse_if (not (visible project)) not_found
      >> refuse_if (not (str_eq project.source_kind "NATIVE") || ltb project.scope_version 1)
          precondition
      >> ok project
]
