-- ===== src/Delivery/Items/Sound.antt =====
-- internal/infrastructure/mysql/delivery_events.go `applyItemEvent`: what every accepted event keeps.
use project_management.Base.{
  ℕ, ◌≡◌, sym, ok, ok_injective, guarded, Answers, Answers-ok, >>=-eq-ok, update_one, update_one-eq,
  update_where, count, String, Option, ℕ, false, List, conflict,
}
use project_management.Delivery.Schema.{
  ServiceItem, DeliveryEvent, EventType, team_assigned, team_assignment_revoked,
  decomposition_returned, execution_team_assigned, execution_assignment_revoked,
  implementation_planned, implementation_plan_revoked, special_method_reviewed,
  report_status_updated, equipment_returned, preparation_started, preparation_revoked,
  rollback_approved, rollback_withdrawn, report_correction_approved, field_started,
  field_record_submitted, field_checked_in, field_signature_captured, field_completed,
  deviation_reported, deviation_reviewed, contract_activated, contract_stamp_status,
  decomposition_adjusted, rollback_requested, rollback_rejected, report_correction_requested,
  report_correction_rejected, scope_change_detected, supplement_closed, automation_triggered,
  warning_triggered, other_event,
}
use project_management.Delivery.Store.{Store, Platform}
use project_management.Delivery.Gates.{guard_native_scope_mutation}
use project_management.Delivery.Change.{
  Outcome, unchanged, changed, write_item, updated_item, is_same_version,
}
use project_management.Delivery.Assignment.Sound.{
  assign_team_sound, revoke_team_sound, return_decomposition_sound, assign_execution_sound,
  revoke_execution_sound, plan_implementation_sound, revoke_plan_sound, review_special_method_sound,
}
use project_management.Delivery.Field.Sound.{
  check_in_sound, complete_field_sound, record_field_sound, report_deviation_sound,
  return_equipment_sound, review_deviation_sound, revoke_preparation_sound, start_field_sound,
  start_preparation_sound,
}
use project_management.Delivery.Reporting.Sound.{
  advance_report_sound, approve_rollback_sound, withdraw_rollback_sound, approve_correction_sound,
}
use project_management.Delivery.Items.{handle_event, apply_item_event, is_stale}
use project_management.Delivery.Moves.{Sound, SoundOutcome}
use project_management.Delivery.Report.Ledger.{Ledger}

handle_sound :
    (platform : Platform) (store : Store) (item : ServiceItem) (event : DeliveryEvent) (now : ℕ)
    (type : EventType)
    → Answers
        (SoundOutcome platform type store item)
        (handle_event platform store item event now type)
unfolding handle_event
handle_sound platform store item event now team_assigned =
    assign_team_sound platform store item event
handle_sound platform store item event now team_assignment_revoked =
    revoke_team_sound platform store item event
handle_sound platform store item event now decomposition_returned =
    return_decomposition_sound platform store item event
handle_sound platform store item event now execution_team_assigned =
    assign_execution_sound platform store item event
handle_sound platform store item event now execution_assignment_revoked =
    revoke_execution_sound platform store item event
handle_sound platform store item event now implementation_planned =
    plan_implementation_sound platform store item event
handle_sound platform store item event now implementation_plan_revoked =
    revoke_plan_sound platform store item event
handle_sound platform store item event now special_method_reviewed =
    review_special_method_sound platform store item event
handle_sound platform store item event now report_status_updated =
    advance_report_sound platform store item event now
handle_sound platform store item event now equipment_returned =
    return_equipment_sound platform store item event
handle_sound platform store item event now preparation_started =
    start_preparation_sound platform store item event
handle_sound platform store item event now preparation_revoked =
    revoke_preparation_sound platform store item event
handle_sound platform store item event now rollback_approved =
    approve_rollback_sound platform store item event
handle_sound platform store item event now rollback_withdrawn =
    withdraw_rollback_sound platform store item event
handle_sound platform store item event now report_correction_approved =
    approve_correction_sound platform store item event now
handle_sound platform store item event now field_started =
    start_field_sound platform store item event
handle_sound platform store item event now field_record_submitted =
    record_field_sound platform store item event field_record_submitted
handle_sound platform store item event now field_checked_in =
    check_in_sound platform store item event
handle_sound platform store item event now field_signature_captured =
    record_field_sound platform store item event field_signature_captured
handle_sound platform store item event now field_completed =
    complete_field_sound platform store item event
handle_sound platform store item event now deviation_reported =
    report_deviation_sound platform store item event
handle_sound platform store item event now deviation_reviewed =
    review_deviation_sound platform store item event
handle_sound platform store item event now contract_activated = tt
handle_sound platform store item event now contract_stamp_status = tt
handle_sound platform store item event now decomposition_adjusted = tt
handle_sound platform store item event now rollback_requested = tt
handle_sound platform store item event now rollback_rejected = tt
handle_sound platform store item event now report_correction_requested = tt
handle_sound platform store item event now report_correction_rejected = tt
handle_sound platform store item event now scope_change_detected = tt
handle_sound platform store item event now supplement_closed = tt
handle_sound platform store item event now automation_triggered = tt
handle_sound platform store item event now warning_triggered = tt
handle_sound platform store item event now (other_event _) = tt

-- An accepted event either leaves the tables alone, or writes the one row of the item.
pub data Applied (platform : Platform) (store : Store) (item : ServiceItem) (event : DeliveryEvent)
    (store' : Store) : Type 0 where
  left : store' ≡ store → Applied platform store item event store'
  wrote :
      (written : Store) (status : Option String) (columns : ServiceItem → ServiceItem)
      (rows : List ServiceItem)
      → Sound platform event.event_type store item written status columns
      → store' ≡ record written { items = rows }
      → rows ≡ update_where (is_same_version item) (updated_item event status columns) store.items
      → count (is_same_version item) store.items ≡ 1
      → Applied platform store item event store'

written-Applied :
    (platform : Platform) (store : Store) (item : ServiceItem) (event : DeliveryEvent)
    (outcome : Outcome) {store' : Store}
    → SoundOutcome platform event.event_type store item outcome
    → write_item store item event outcome ≡ ok store'
    → Applied platform store item event store'
unfolding write_item
written-Applied platform store item event unchanged s h = left (sym (ok_injective h))
written-Applied platform store item event (changed written status columns) s h =
    let (rows, e, done) =
      >>=-eq-ok
        (update_one (is_same_version item) (updated_item event status columns) written.items) _ h in
    let (all_rows, once) = update_one-eq _ _ written.items e in
    wrote written status columns rows s (sym (ok_injective done)) (rw s.items_kept at all_rows)
      (rw s.items_kept at once)

pub apply-Applied :
    (platform : Platform) (store : Store) (item : ServiceItem) (event : DeliveryEvent) (now : ℕ)
    {store' : Store}
    → apply_item_event platform store item event now ≡ ok store'
    → (is_stale item event ≡ false) × Applied platform store item event store'
unfolding apply_item_event
apply-Applied platform store item event now h =
    let (_, _, h1) = >>=-eq-ok (guard_native_scope_mutation store item) _ h in
    let (fresh, h2) = guarded {b = is_stale item event} conflict h1 in
    let (outcome, e, h3) =
      >>=-eq-ok (handle_event platform store item event now event.event_type) _ h2 in
    (
      fresh,
      written-Applied platform store item event outcome
          (Answers-ok _ _ e (handle_sound platform store item event now event.event_type)) h3,
    )

pub apply_item_event-Ledger :
    (platform : Platform) (store : Store) (item : ServiceItem) (event : DeliveryEvent) (now : ℕ)
    {store' : Store}
    → apply_item_event platform store item event now ≡ ok store'
    → Ledger store.revisions
    → Ledger store'.revisions
apply_item_event-Ledger platform store item event now h l =
    let (_, applied) = apply-Applied platform store item event now h in
    elim applied [
      | left e ↦ rw e l
      | wrote written status columns rows s e _ _ ↦ rw e (s.ledger_kept l)
    ]
