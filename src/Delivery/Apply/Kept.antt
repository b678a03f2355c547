-- ===== src/Delivery/Apply/Kept.antt =====
-- internal/infrastructure/mysql/delivery.go `ApplyDeliveryEvent`: what becomes of the service items.
use Prim.Native.String.{◌++◌}
use project_management.Base.{
  ℕ, ◌≡◌, refl, sym, ap, ◌∙◌, subst, String, false, Option, none, some, inl, inr, Bool-cases,
  Option-cases, find, find-Pointwise, find-All, All-All, suc, is_empty, str_eq, str_eq_iff,
  trim_space, equal_fold, not, Answers, Answers-ok, after, guard, update_one,
}
use project_management.Penetration.Package.{ensure_embedded_penetration_package}
use project_management.Delivery.Schema.{
  Project, ServiceItem, DeliveryEvent, EventType, decomposition_adjusted, scope_change_detected,
  supplement_closed, contract_activated, contract_stamp_status, decomposition_returned,
  team_assigned, team_assignment_revoked, execution_team_assigned, execution_assignment_revoked,
  implementation_planned, implementation_plan_revoked, preparation_started, preparation_revoked,
  field_started, field_checked_in, field_record_submitted, field_signature_captured,
  rollback_requested, rollback_approved, rollback_rejected, rollback_withdrawn,
  report_correction_requested, report_correction_approved, report_correction_rejected,
  deviation_reported, deviation_reviewed, field_completed, special_method_reviewed,
  report_status_updated, equipment_returned, automation_triggered, warning_triggered, other_event,
}
use project_management.Delivery.Store.{Store, Platform, item_of, project_of}
use project_management.Delivery.Json.{type_code}
use project_management.Delivery.Items.{apply_item_event}
use project_management.Delivery.Items.Runs.{apply_item_event-Evolves, Evolves-id}
use project_management.Delivery.Projects.{
  project_columns, apply_project_event, sync_project_status_column, write_project, guard_native,
  is_same_project,
}
use project_management.Delivery.Apply.{
  apply_to_project, apply_to_item, is_type, check_operation, with_package, desk_of, embed_package,
}

-- The event is none that replaces the items of its project.
abbrev pub KeepsItems : EventType → Type 0
KeepsItems type = is_type "DECOMPOSITION_ADJUSTED" type ≡ false

columns-items :
    (store : Store) (project : Project) (event : DeliveryEvent) (type : EventType)
    → KeepsItems type
    → Answers (λ w. w.0.items ≡ store.items) (project_columns store project event type)
unfolding project_columns type_code
columns-items store project event decomposition_adjusted h = cc
columns-items store project event scope_change_detected h = refl
columns-items store project event supplement_closed h =
    guard _ (not (equal_fold (trim_space project.supplement_status) "REQUIRED")) _ _ λ _. refl
columns-items store project event contract_activated h = refl
columns-items store project event contract_stamp_status h = refl
columns-items store project event decomposition_returned h = refl
columns-items store project event team_assigned h = refl
columns-items store project event team_assignment_revoked h = refl
columns-items store project event execution_team_assigned h = refl
columns-items store project event execution_assignment_revoked h = refl
columns-items store project event implementation_planned h = refl
columns-items store project event implementation_plan_revoked h = refl
columns-items store project event preparation_started h = refl
columns-items store project event preparation_revoked h = refl
columns-items store project event field_started h = refl
columns-items store project event field_checked_in h = refl
columns-items store project event field_record_submitted h = refl
columns-items store project event field_signature_captured h = refl
columns-items store project event rollback_requested h = refl
columns-items store project event rollback_approved h = refl
columns-items store project event rollback_rejected h = refl
columns-items store project event rollback_withdrawn h = refl
columns-items store project event report_correction_requested h = refl
columns-items store project event report_correction_approved h = refl
columns-items store project event report_correction_rejected h = refl
columns-items store project event deviation_reported h = refl
columns-items store project event deviation_reviewed h = refl
columns-items store project event field_completed h = refl
columns-items store project event special_method_reviewed h = refl
columns-items store project event report_status_updated h = refl
columns-items store project event equipment_returned h = refl
columns-items store project event automation_triggered h = refl
columns-items store project event warning_triggered h = refl
columns-items store project event (other_event code) h = refl

write-items :
    (project : Project) (event : DeliveryEvent) (written : Store)
    (columns : Option (Project → Project))
    → Answers (λ s. s.items ≡ written.items) (write_project project event (written, columns))
write-items project event written none = refl
write-items project event written (some columns) =
    after _
      (update_one (is_same_project project)
        (λ r. record (columns r) { version = suc r.version; updated_at = event.created_at })
        written.projects)
      _ λ rows _. refl

sync-items :
    (store : Store) (id : String)
    → Answers (λ s. s.items ≡ store.items) (sync_project_status_column store id)
unfolding sync_project_status_column
sync-items store id = elim (Option-cases (project_of store id)) [
  | inl absent ↦ rw (absent, Answers) tt
  | inr (project, found) ↦ rw (found, Answers) refl
]

project_event-items :
    (store : Store) (project : Project) (event : DeliveryEvent)
    → KeepsItems event.event_type
    → Answers (λ s. s.items ≡ store.items) (apply_project_event store project event)
unfolding apply_project_event
project_event-items store project event h =
    after _ (guard_native store project event.event_type) _ λ _ _.
      after _ (project_columns store project event event.event_type) _ λ w e.
        let kept = Answers-ok _ _ e (columns-items store project event event.event_type h) in
        subst (λ z. Answers (λ s. s.items ≡ z) (write_project project event w)) kept
          (write-items project event w.0 w.1)

pub project-items :
    (store : Store) (event : DeliveryEvent)
    → KeepsItems event.event_type
    → Answers (λ s. s.items ≡ store.items) (apply_to_project store event)
unfolding apply_to_project
project-items store event h = elim (Bool-cases (is_empty event.project_id)) [
  | inl none_named ↦ rw (none_named, Answers) refl
  | inr named ↦ elim (Option-cases (project_of store event.project_id)) [
    | inl absent ↦ rw (named, absent, Answers) tt
    | inr (project, found) ↦
        rw (named, found)
          (after _ (apply_project_event store project event) _ λ written e.
            let kept = Answers-ok _ _ e (project_event-items store project event h) in
            subst
              (λ z.
                Answers (λ s. s.items ≡ z) (sync_project_status_column written event.project_id))
              kept (sync-items written event.project_id))
  ]
]

embed-items :
    (store : Store) (event : DeliveryEvent) (id : String) (item : Option ServiceItem)
    → Answers (λ s. s.items ≡ store.items) (embed_package store event id item)
embed-items store event id none = tt
embed-items store event id (some item) =
    after _
      (ensure_embedded_penetration_package (desk_of store) item id (record {
        item_id = item.id;
        expected_version = 0;
        idempotency_key = event.id ++ "-penetration-package";
        event_type = "WORK_PACKAGE_CREATED";
        actor = event.actor_user_id;
        now = event.created_at;
      }))
      _ λ desk _. refl

package-items :
    (store : Store) (item : ServiceItem) (event : DeliveryEvent) (id : String)
    → Answers (λ s. s.items ≡ store.items) (with_package store item event id)
package-items store item event id =
    elim (Bool-cases (is_type "EXECUTION_TEAM_ASSIGNED" event.event_type)) [
      | inl assigned ↦ rw (assigned, Answers) (embed-items store event id (item_of store item.id))
      | inr other ↦ rw (other, Answers) refl
    ]

-- The item of an accepted event is still there afterwards.
pub item-stays :
    (platform : Platform) (store : Store) (event : DeliveryEvent) (now : ℕ) (id : String)
    → is_empty event.service_item_id ≡ false
    → Answers
        (λ p.
          (p.0 ≡ record event { project_id = p.0.project_id })
          × ((item : ServiceItem) × (item_of p.1 event.service_item_id ≡ some item)))
        (apply_to_item platform store event now id)
unfolding apply_to_item
item-stays platform store event now id named =
    elim (Option-cases (item_of store event.service_item_id)) [
      | inl absent ↦ rw (named, absent, Answers) tt
      | inr (item, found) ↦
          let placed = record event { project_id = item.project_id } in
          let same : item.id ≡ event.service_item_id =
            (str_eq_iff item.id event.service_item_id).0
              (find-All (λ r. r ≡ r) (λ i. str_eq i.id event.service_item_id) store.items
                (All-All _ store.items (λ r. refl)) found).1 in
          rw (named, found)
            (after _ (check_operation store placed) _ λ _ _.
              after _ (apply_item_event platform store item placed now) _ λ written e.
                after _ (with_package written item placed id) _ λ packed e'.
                  let (after_item, stays, _) =
                    find-Pointwise _ (λ i. str_eq i.id event.service_item_id) store.items
                      written.items
                      (λ a b r. ap (λ x. str_eq x event.service_item_id) (Evolves-id a b r))
                      (apply_item_event-Evolves platform store item placed now
                        (subst (λ x. item_of store x ≡ some item) (sym same) found) e)
                      found in
                  let kept = Answers-ok _ _ e' (package-items written item placed id) in
                  (
                    refl,
                    (after_item, ap (find (λ i. str_eq i.id event.service_item_id)) kept ∙ stays),
                  ))
    ]
