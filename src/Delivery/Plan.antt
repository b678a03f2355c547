-- ===== src/Delivery/Plan.antt =====
-- internal/infrastructure/mysql/delivery_events.go and internal/application/delivery_plan.go: the
-- implementation plan of a service item.
use project_management.Base.{
  ℕ, String, Bool, ◌&&◌, not, List, ◌∷◌, Option, none, some, any, if◌then◌else◌, is_empty, str_eq,
  trim_space, update_where, Result, Check, ok, ◌>>◌, refuse_if, conflict, precondition, ◌==◌, count,
}
use project_management.Delivery.Payload.{string_value, json_bytes, Payload}
use project_management.Delivery.Schema.{ServiceItem, ImplPlan, DeliveryEvent}
use project_management.Delivery.Store.{Platform}

-- `CheckImplementationPlanPrecondition` on the snapshot `PlanPrecondition` of the item
unfoldable pub check_implementation_plan_precondition : ServiceItem → Check
check_implementation_plan_precondition item =
    refuse_if (not (str_eq (trim_space item.status) "待分配")) precondition
    >> refuse_if (is_empty (trim_space item.project_manager_id)) precondition
    >> refuse_if (not (str_eq item.conflict_status "PASSED")) precondition
    >> refuse_if (str_eq item.special "是" && not (str_eq item.tech_review_status "APPROVED"))
        precondition

abbrev of_plan : ServiceItem → ImplPlan → Bool
of_plan item plan = str_eq plan.service_item_id item.id

-- `rfc3339Value` and `rfc3339Time`
abbrev pub rfc3339_value : Platform → Payload → String → Option ℕ
rfc3339_value platform payload key = platform.parse_time (string_value payload key)

abbrev plan_row : Platform → ServiceItem → DeliveryEvent → ImplPlan
plan_row platform item event = record {
  service_item_id = item.id;
  planned_start = rfc3339_value platform event.payload "planned_start";
  planned_end = rfc3339_value platform event.payload "planned_end";
  site_plan = string_value event.payload "site_plan";
  penetration_test_plan = string_value event.payload "penetration_test_plan";
  auth_doc_no = string_value event.payload "auth_doc_no";
  auth_start = rfc3339_value platform event.payload "auth_start";
  auth_end = rfc3339_value platform event.payload "auth_end";
  auth_scope = string_value event.payload "auth_scope";
  test_scope = string_value event.payload "test_scope";
  test_window = string_value event.payload "test_window";
  emergency_contact = string_value event.payload "emergency_contact";
  rollback_plan = string_value event.payload "rollback_plan";
  personnel = json_bytes event.payload "personnel";
  equipment = none;
  updated_at = event.created_at;
  updated_by = event.actor_user_id;
}

-- `upsertImplPlan`: a plan that is there keeps its equipment.
unfoldable pub upsert_impl_plan :
    Platform → ServiceItem → DeliveryEvent → List ImplPlan → List ImplPlan
upsert_impl_plan platform item event plans =
    let row = plan_row platform item event in
    if any (of_plan item) plans
    then update_where (of_plan item) (λ p. record row { equipment = p.equipment }) plans
    else row ∷ plans

-- `updateImplPlanEquipment`
unfoldable pub update_impl_plan_equipment :
    ServiceItem → DeliveryEvent → List ImplPlan → Result (List ImplPlan)
update_impl_plan_equipment item event plans = elim (json_bytes event.payload "equipment") [
  | none ↦ ok plans
  | some v ↦
      refuse_if (count (of_plan item) plans == 0) conflict
      >> ok (
          update_where (of_plan item)
            (λ p. record p {
              equipment = some v;
              updated_at = event.created_at;
              updated_by = event.actor_user_id;
            })
            plans)
]

abbrev cleared : DeliveryEvent → ImplPlan → ImplPlan
cleared event p = record p {
  equipment = none;
  updated_at = event.created_at;
  updated_by = event.actor_user_id;
}

abbrev emptied : DeliveryEvent → ImplPlan → ImplPlan
emptied event p = record (cleared event p) {
  planned_start = none;
  planned_end = none;
  site_plan = "";
  penetration_test_plan = "";
  auth_doc_no = "";
  auth_start = none;
  auth_end = none;
  auth_scope = "";
  test_scope = "";
  test_window = "";
  emergency_contact = "";
  rollback_plan = "";
  personnel = none;
}

-- `clearImplPlan`
unfoldable pub clear_impl_plan : ServiceItem → DeliveryEvent → Bool → List ImplPlan → List ImplPlan
clear_impl_plan item event clear_plan plans =
    update_where (of_plan item) (if clear_plan then emptied event else cleared event) plans
