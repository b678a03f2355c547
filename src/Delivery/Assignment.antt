-- ===== src/Delivery/Assignment.antt =====
-- internal/infrastructure/mysql/delivery_events.go `applyItemEvent`: assignment, plan and review.
pub mod Sound
use project_management.Base.{
  String, Bool, true, false, ◌&&◌, ◌||◌, not, List, [], Option, none, some, if◌then◌else◌, is_empty,
  str_eq, to_upper, Result, ok, ◌>>◌, refuse_if, validation,
}
use project_management.Delivery.Payload.{Value, texts, string_value, json_value}
use project_management.Delivery.Schema.{ServiceItem, DeliveryEvent}
use project_management.Delivery.Store.{Store, Platform}
use project_management.Delivery.Plan.{
  check_implementation_plan_precondition, rfc3339_value, upsert_impl_plan, clear_impl_plan,
}
use project_management.Delivery.Change.{Outcome, changed}

abbrev pub status_is : ServiceItem → String → Bool
status_is item status = str_eq item.status status

abbrev unassigned : ServiceItem → ServiceItem
unassigned r = record r {
  project_manager_id = "";
  engineer_ids = texts [];
  equipment_ids = texts [];
  conflict_status = "UNCHECKED";
}

-- `EventTeamAssigned`
unfoldable pub assign_team : Store → ServiceItem → DeliveryEvent → Result Outcome
assign_team store item event =
    refuse_if (not (status_is item "待分配")) validation
    >> ok (
        changed store none
          (λ r. record r { team_lead_id = string_value event.payload "team_lead_id" }))

-- `EventTeamAssignmentRevoked`: the required codes stay.
unfoldable pub revoke_team : Store → ServiceItem → DeliveryEvent → Result Outcome
revoke_team store item event =
    refuse_if (not (status_is item "待分配") || is_empty item.team_lead_id) validation
    >> ok (changed store none (λ r. record (unassigned r) { team_lead_id = "" }))

-- `EventDecompositionReturned`
unfoldable pub return_decomposition : Store → ServiceItem → DeliveryEvent → Result Outcome
return_decomposition store item event =
    refuse_if (not (status_is item "待分配")) validation
    >> ok (
        changed store (some "待确认") (λ r. record (unassigned r) {
          team_lead_id = "";
          tech_review_status = "NONE";
          tech_reviewed_at = none;
          tech_reviewed_by = "";
          tech_review_comment = "";
        }))

-- `EventExecutionTeamAssigned`
unfoldable pub assign_execution : Store → ServiceItem → DeliveryEvent → Result Outcome
assign_execution store item event =
    refuse_if (not (status_is item "待分配")) validation
    >> refuse_if (is_empty item.team_lead_id) validation
    >> ok (
        changed store none (λ r. record r {
          project_manager_id = string_value event.payload "project_manager_id";
          engineer_ids = json_value event.payload "engineer_ids";
          equipment_ids = json_value event.payload "equipment_ids";
          required_codes = json_value event.payload "required_codes";
          conflict_status = string_value event.payload "conflict_status";
        }))

-- `EventExecutionAssignmentRevoked`
unfoldable pub revoke_execution : Store → ServiceItem → DeliveryEvent → Result Outcome
revoke_execution store item event =
    refuse_if
      (not (status_is item "待分配") || is_empty item.team_lead_id || is_empty item.project_manager_id)
      validation
    >> ok (changed store none unassigned)

-- `EventImplementationPlanned`
unfoldable pub plan_implementation : Platform → Store → ServiceItem → DeliveryEvent → Result Outcome
plan_implementation platform store item event =
    check_implementation_plan_precondition item
    >> refuse_if
        (str_eq item.test_mode "PENETRATION"
          && is_empty (string_value event.payload "penetration_test_plan"))
        validation
    >> ok (
        changed (record store { plans = upsert_impl_plan platform item event store.plans })
          (some "待实施")
          (λ r. record r {
            planned_start = rfc3339_value platform event.payload "planned_start";
            planned_end = rfc3339_value platform event.payload "planned_end";
          }))

-- `EventImplementationPlanRevoked`
unfoldable pub revoke_plan : Store → ServiceItem → DeliveryEvent → Result Outcome
revoke_plan store item event =
    refuse_if (not (status_is item "待实施")) validation
    >> ok (
        changed (record store { plans = clear_impl_plan item event true store.plans }) (some "待分配")
          (λ r. record r { planned_start = none; planned_end = none }))

-- `EventSpecialMethodReviewed`
unfoldable pub review_special_method : Store → ServiceItem → DeliveryEvent → Result Outcome
review_special_method store item event =
    let decision = to_upper (string_value event.payload "decision") in
    refuse_if (not (str_eq item.special "是")) validation
    >> refuse_if (not (str_eq decision "APPROVED") && not (str_eq decision "REJECTED")) validation
    >> refuse_if
        (not (str_eq item.tech_review_status "PENDING")
          && not (str_eq item.tech_review_status "REJECTED"))
        validation
    >> ok (
        changed store none (λ r. record r {
          tech_review_status = decision;
          tech_reviewed_at = some event.created_at;
          tech_reviewed_by = event.actor_user_id;
          tech_review_comment = string_value event.payload "comment";
        }))
