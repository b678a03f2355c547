-- ===== src/Scope/Tests.antt =====
-- Native scopes: a request and its approval on one small store.
use Prim.Native.String.{◌++◌}
use project_management.Base.{
  ℕ, ◌≤◌, ◌≡◌, refl, String, true, not, [], ◌∷◌, some, ok, All, count, sort_by, insert_by,
  trim_space, precondition, refuse_if, ◌==◌,
}
use project_management.Delivery.Payload.{ItemInput}
use project_management.Delivery.Schema.{Project, ServiceItem}
use project_management.Delivery.Gates.{guard_native_scope_mutation}
use project_management.Delivery.Tests.{item, store_with}
use project_management.Scope.{
  ScopeStore, ScopeChange, NativeScope, DetectionCategory, ScopeInput, ContractService,
  ScopeDecision, Digest, approved, scope_fingerprint, seen, lock_native_project,
}
use project_management.Scope.Catalog.{
  split_capability_codes, split_parts, fresh_codes, normal_codes, validate_native_scope_catalog,
  catalog_fingerprint, check_items, check_item, all_facts,
}
use project_management.Scope.Eligible.{
  service_from_record, lock_native_scope_eligible, check_native_scope_baseline,
}
use project_management.Scope.Request.{
  Call, request_native_scope, create_change, name_lines, new_change, with_event,
  replay_native_scope,
}
use project_management.Scope.Approve.{
  apply_native_scope, insert_items, applied_store, numbered, item_row,
}
use project_management.Scope.Decide.{decide_native_scope, decide_pending, saved}
use project_management.Scope.Governed.{Governed, waits_in}
use project_management.Scope.Governed.Reach.{
  requests, decides, ScopeReach, starts, goes_on, ScopeReach-Governance,
}
use project_management.Scope.Governed.Blocks.{guard_native_scope_mutation_iff}
use project_management.Scope.Governed.Effective.{approved-confirms}
use project_management.Scope.Governed.InForce.{InForce}
use project_management.Scope.Governed.Requests.{request_native_scope-replay}
use project_management.Scope.Governed.Replay.{decide_native_scope-again}

splits_codes : split_capability_codes " A1，B2;,A1 " ≡ "A1" ∷ "B2" ∷ []
unfolding split_capability_codes split_parts fresh_codes trim_space
splits_codes = refl

abbrev digest : Digest
digest = record {
  command = λ actor input items. actor ++ ":" ++ input.operation_id;
  lines = λ ls. elim ls [ [] ↦ "" | l ∷ rest ↦ l.id ++ l.requirement ];
  facts = λ fs. "facts";
}

abbrev project : Project
project = record {
  id = "PJ-1";
  source_kind = "NATIVE";
  source_id = "W-1";
  scope_version = 1;
  services = 1;
  supplement_status = "NONE";
  status = "待拆解确认";
  progress = 0;
  version = 1;
  updated_at = 0;
}

abbrev waiting_item : ServiceItem
waiting_item = record item {
  source_service_id = "NATIVE-001";
  status = "待确认";
  team_lead_id = "";
  project_manager_id = "";
}

abbrev scope : NativeScope
scope = record {
  project_id = "PJ-1";
  version = 1;
  source_id = "W-1";
  actor_identity_id = "amy";
  service_items = service_from_record waiting_item ∷ [];
  created_at = 0;
}

abbrev category : DetectionCategory
category = record {
  category = "软件测试";
  system_standard = "";
  required_codes = "";
  special_method = "";
  enabled = true;
  updated_at = 0;
}

abbrev store : ScopeStore
store = record {
  delivery = record (store_with waiting_item) { projects = project ∷ [] };
  scopes = scope ∷ [];
  changes = [];
  categories = category ∷ [];
  sites = [];
}

abbrev call : String → ℕ → Call
call actor now = record {
  visible = λ _. true;
  actor = actor;
  now = now;
  change_id = "C-1";
  event_id = "E-1";
  item_id = λ _. "SI-2";
}

abbrev requested : ContractService
requested = record {
  source_id = " NATIVE-001 ";
  name = "";
  site = "";
  site_code = "";
  batch = "";
  category = "软件测试";
  system = "";
  system_level = "";
  requirement = "more";
  test_mode = "";
}

abbrev input : ScopeInput
input = record {
  operation_id = "op-1";
  expected_project_version = 1;
  base_scope_version = 1;
  reason = "r";
  service_items = requested ∷ [];
}

abbrev wanted : ItemInput
wanted = record (service_from_record waiting_item) { id = ""; requirement = "more" }

abbrev change : ScopeChange
change = new_change digest (call "amy" 5) project input (wanted ∷ []) "amy:op-1" "facts"

abbrev asked_store : ScopeStore
asked_store =
    with_event (call "amy" 5) project change "NATIVE_SCOPE_CHANGE_REQUESTED"
      (record store { changes = change ∷ [] })

request_accepted :
    request_native_scope digest (call "amy" 5) store "PJ-1" input (wanted ∷ [])
    ≡ ok (change, asked_store)
unfolding request_native_scope create_change lock_native_project lock_native_scope_eligible
    check_native_scope_baseline validate_native_scope_catalog check_items check_item name_lines
    catalog_fingerprint all_facts scope_fingerprint sort_by insert_by normal_codes
    split_capability_codes split_parts fresh_codes
request_accepted = refl

abbrev approval : ScopeDecision
approval = record {
  operation_id = "op-2";
  expected_version = 1;
  decision = "APPROVE";
  comment = "ok";
}

abbrev applied_change : ScopeChange
applied_change = record change {
  applied_scope_version = 2;
  service_items = numbered (call "bob" 9) 0 (wanted ∷ []);
}

abbrev decision : ScopeChange × ScopeStore
decision = saved digest (call "bob" 9) project approval approved (
  applied_change,
  applied_store (call "bob" 9) project change (item_row (call "bob" 9) project "SI-2" wanted ∷ [])
      asked_store,
)

decision_accepted :
    decide_native_scope digest (call "bob" 9) asked_store "PJ-1" "C-1" approval ≡ ok decision
unfolding decide_native_scope decide_pending apply_native_scope insert_items lock_native_project
    lock_native_scope_eligible check_native_scope_baseline validate_native_scope_catalog check_items
    check_item catalog_fingerprint all_facts scope_fingerprint sort_by insert_by normal_codes
    split_capability_codes split_parts fresh_codes
decision_accepted = refl

abbrev asked_reach : ScopeReach digest asked_store
asked_reach =
    goes_on (starts store refl)
      (requests (call "amy" 5) "PJ-1" input (wanted ∷ []) request_accepted)

ScopeReach-Governance_example :
    All Governed decision.1.changes × ((p : String) → count (waits_in p) decision.1.changes ≤ 1)
ScopeReach-Governance_example =
    ScopeReach-Governance
      (goes_on asked_reach (decides (call "bob" 9) "PJ-1" "C-1" approval decision_accepted))

guard_native_scope_mutation_iff_example :
    guard_native_scope_mutation (seen asked_store) waiting_item
    ≡ refuse_if (not (count (waits_in "PJ-1") asked_store.changes == 0)) precondition
guard_native_scope_mutation_iff_example =
    guard_native_scope_mutation_iff waiting_item project asked_reach refl refl

approved-confirms_example : InForce digest change "PJ-1" asked_store decision.1
approved-confirms_example =
    approved-confirms digest (call "bob" 9) "PJ-1" "C-1" approval {row = change} asked_reach refl
      refl decision_accepted refl

request_native_scope-replay_example :
    replay_native_scope digest (call "amy" 5) asked_store "PJ-1" input ≡ ok (some change)
unfolding trim_space
request_native_scope-replay_example =
    request_native_scope-replay digest (call "amy" 5) store "PJ-1" input (wanted ∷ []) refl refl
      refl request_accepted

still_native :
    lock_native_project (λ _. true) decision.1 "PJ-1"
    ≡ ok (record project { scope_version = 2; version = 2; updated_at = 9 })
unfolding lock_native_project
still_native = refl

decide_native_scope-again_example :
    decide_native_scope digest (call "bob" 20) decision.1 "PJ-1" "C-1" approval ≡ ok decision
decide_native_scope-again_example =
    decide_native_scope-again digest (call "bob" 9) (call "bob" 20) asked_store "PJ-1" "C-1"
      approval decision_accepted refl still_native
