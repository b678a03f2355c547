-- ===== src/Delivery/Field/Sound.antt =====
-- internal/infrastructure/mysql/delivery_events.go: preparation, field work, deviations and devices
-- keep what every event keeps.
use project_management.Base.{
  String, ◌≡◌, refl, sym, subst, inl, inr, ◌⊎◌, none, some, guard, after, Answers, Answers-ok, not,
  ◌||◌, ◌&&◌, is_empty, str_eq, str_eq_iff, arith, false, Bool-cases, Option-cases, any, trim_space,
  [],
}
use project_management.Domain.Status.{terminated}
use project_management.Delivery.Payload.{string_value}
use project_management.Delivery.Schema.{
  ServiceItem, DeliveryEvent, EventType, preparation_started, preparation_revoked, field_started,
  field_checked_in, field_completed, deviation_reported, deviation_reviewed, equipment_returned,
}
use project_management.Delivery.Store.{Store, Platform, plan_of}
use project_management.Delivery.Report.Ledger.{ensure-Ledger, Ledger}
use project_management.Delivery.Plan.{update_impl_plan_equipment}
use project_management.Delivery.Evidence.{persist_evidence_files}
use project_management.Delivery.Equipment.{
  sync_equipment_reservations, mark_equipment_returned, is_out, is_locked,
}
use project_management.Delivery.EquipmentLocks.{equipment_of, stored_resources, lock_item_equipment}
use project_management.Delivery.Gates.{validate_penetration_field_completion_gate}
use project_management.Delivery.Assignment.{status_is}
use project_management.Delivery.Field.{
  can_start_preparation, start_preparation, revoke_preparation, start_field, record_field, check_in,
  complete_field, report_deviation, review_deviation, return_equipment, has_field_evidence,
  deviation_review_status, decide_deviation, latest_deviation, is_reviewed,
}
use project_management.Delivery.Moves.{
  SoundOutcome, stays, goes, status_of, prepares, revokes_preparation, starts, completes, deviates,
  reviews,
}

preparable : (s : String) → not (can_start_preparation s) ≡ false → (s ≡ "待实施") ⊎ (s ≡ "实施准备中")
preparable s h = elim (Bool-cases (str_eq s "待实施")) [
  | inl e ↦ inl ((str_eq_iff _ _).0 e)
  | inr e ↦ inr ((str_eq_iff _ _).0 (ground arith))
]

review_target :
    (decision : String) {s : String}
    → deviation_review_status decision ≡ some s
    → (s ≡ "实施中") ⊎ (s ≡ terminated)
unfolding deviation_review_status
review_target decision h =
    elim (Bool-cases (str_eq decision "RELEASE" || str_eq decision "RETEST")) [
      | inl e ↦ inl (unsome (rw (e, deviation_review_status) at h))
      | inr e ↦ elim (Bool-cases (str_eq decision "TERMINATE")) [
        | inl d ↦ inr (unsome (rw (e, d, deviation_review_status) at h))
        | inr d ↦ absurd (never (rw (e, d, deviation_review_status) at h))
      ]
    ]
  where
    unsome : {x y : String} → some x ≡ some y → y ≡ x
    unsome p = cc

    never : {x : String} → none ≡ some x → ⊥
    never p = cc

module _ (platform : Platform) (store : Store) (item : ServiceItem) (event : DeliveryEvent) where
  pub start_preparation_sound :
      Answers
        (SoundOutcome platform preparation_started store item)
        (start_preparation platform store item event)
  unfolding start_preparation
  start_preparation_sound = guard _ (not (can_start_preparation item.status)) _ _ λ at.
      after _ (sync_equipment_reservations platform store item event) _ λ booked e.
        after _ (update_impl_plan_equipment item event store.plans) _ λ _ _. record {
          items_kept = refl;
          events_kept = refl;
          ledger_kept = λ l. l;
          moves = goes (prepares (preparable item.status at) refl);
          id_kept = λ r. refl;
          codes_kept = λ n r. refl;
          phase_step = λ r. inl refl;
        }

  pub revoke_preparation_sound :
      Answers
        (SoundOutcome platform preparation_revoked store item)
        (revoke_preparation platform store item event)
  unfolding revoke_preparation
  revoke_preparation_sound = guard _ (not (status_is item "实施准备中")) _ _ λ at. record {
    items_kept = refl;
    events_kept = refl;
    ledger_kept = λ l. l;
    moves = goes (revokes_preparation (status_of item _ at) refl);
    id_kept = λ r. refl;
    codes_kept = λ n r. refl;
    phase_step = λ r. inl refl;
  }

  pub start_field_sound :
      Answers (SoundOutcome platform field_started store item) (start_field store item event)
  unfolding start_field
  start_field_sound = guard _ (not (status_is item "实施准备中")) _ _ λ at. record {
    items_kept = refl;
    events_kept = refl;
    ledger_kept = λ l. l;
    moves = goes (starts (status_of item _ at) refl);
    id_kept = λ r. refl;
    codes_kept = λ n r. refl;
    phase_step = λ r. inl refl;
  }

  pub record_field_sound :
      (type : EventType)
      → Answers (SoundOutcome platform type store item) (record_field store item event)
  unfolding record_field
  record_field_sound type = guard _ (not (status_is item "实施中")) _ _ λ _.
      after _ (persist_evidence_files item event "FIELD" store.evidence) _ λ _ _. record {
        items_kept = refl;
        events_kept = refl;
        ledger_kept = λ l. l;
        moves = stays;
        id_kept = λ r. refl;
        codes_kept = λ n r. refl;
        phase_step = λ r. inl refl;
      }

  pub check_in_sound :
      Answers (SoundOutcome platform field_checked_in store item) (check_in store item event)
  unfolding check_in
  check_in_sound = guard _ (not (status_is item "实施中")) _ _ λ _. record {
    items_kept = refl;
    events_kept = refl;
    ledger_kept = λ l. l;
    moves = stays;
    id_kept = λ r. refl;
    codes_kept = λ n r. refl;
    phase_step = λ r. inl refl;
  }

  pub complete_field_sound :
      Answers (SoundOutcome platform field_completed store item) (complete_field store item event)
  unfolding complete_field
  complete_field_sound = guard _ (not (status_is item "实施中")) _ _ λ at.
      after _ (validate_penetration_field_completion_gate store item) _ λ _ _.
        guard _
          (not (has_field_evidence store item.id)
            && is_empty (string_value event.payload "incomplete_reason"))
          _ _
          λ _. record {
            items_kept = refl;
            events_kept = refl;
            ledger_kept = ensure-Ledger item event.created_at store.revisions;
            moves = goes (completes (status_of item _ at) refl);
            id_kept = λ r. refl;
            codes_kept = λ n r. refl;
            phase_step = λ r. inr (inl refl);
          }

  pub report_deviation_sound :
      Answers
        (SoundOutcome platform deviation_reported store item)
        (report_deviation store item event)
  unfolding report_deviation
  report_deviation_sound = guard _ (not (status_is item "实施中")) _ _ λ at.
      after _ (persist_evidence_files item event "DEVIATION" store.evidence) _ λ _ _. record {
        items_kept = refl;
        events_kept = refl;
        ledger_kept = λ l. l;
        moves = goes (deviates (status_of item _ at) refl);
        id_kept = λ r. refl;
        codes_kept = λ n r. refl;
        phase_step = λ r. inl refl;
      }

  decide_deviation_sound :
      (decision : String)
      → not (status_is item "异常处理中") ≡ false
      → Answers
          (SoundOutcome platform deviation_reviewed store item)
          (decide_deviation platform store item (deviation_review_status decision))
  decide_deviation_sound decision at = elim (Option-cases (deviation_review_status decision)) [
    | inl e ↦ rw e tt
    | inr (s, e) ↦ rw e (elim (Bool-cases (str_eq s terminated)) [
      | inl gone ↦ rw gone (record {
        items_kept = refl;
        events_kept = refl;
        ledger_kept = λ l. l;
        moves = goes (reviews (status_of item _ at) (review_target decision e));
        id_kept = λ r. refl;
        codes_kept = λ n r. refl;
        phase_step = λ r. inl refl;
      })
      | inr kept ↦ rw kept (record {
        items_kept = refl;
        events_kept = refl;
        ledger_kept = λ l. l;
        moves = goes (reviews (status_of item _ at) (review_target decision e));
        id_kept = λ r. refl;
        codes_kept = λ n r. refl;
        phase_step = λ r. inl refl;
      })
    ])
  ]

  pub review_deviation_sound :
      Answers
        (SoundOutcome platform deviation_reviewed store item)
        (review_deviation platform store item event)
  unfolding review_deviation
  review_deviation_sound =
      let deviation_id = string_value event.payload "deviation_id" in
      guard _ (is_empty deviation_id) _ _ λ _.
        elim (Option-cases (latest_deviation store item.id)) [
          | inl e ↦ rw e tt
          | inr (latest, e) ↦ rw e (
              guard _ (not (str_eq (string_value latest.payload "deviation_id") deviation_id)) _ _
                λ _. elim (Bool-cases (is_reviewed store item.id deviation_id)) [
                  | inl d ↦ rw d tt
                  | inr d ↦ rw d (
                      guard _ (not (status_is item "异常处理中")) _ _
                        λ at. decide_deviation_sound (string_value event.payload "decision") at)
                ])
        ]

  returned_tables :
      Answers
        (λ (written : Store).
          (written.items ≡ store.items)
          × (written.events ≡ store.events)
          × (written.revisions ≡ store.revisions))
        (mark_equipment_returned platform store item event)
  unfolding mark_equipment_returned
  returned_tables =
      let resource_id = trim_space (string_value event.payload "resource_id") in
      guard _ (is_empty resource_id) _ _ λ _.
        after _ (lock_item_equipment platform store item []) _ λ locked _.
          elim (Option-cases (equipment_of platform store resource_id)) [
            | inl e ↦ rw e (refl, refl, refl)
            | inr (master, e) ↦ rw e (elim (Option-cases (plan_of store item.id)) [
              | inl d ↦ rw d tt
              | inr (plan, d) ↦ rw d (
                  after _ (stored_resources plan.equipment) _ λ rs _.
                    elim (Bool-cases (any (is_out master) rs)) [
                      | inl c ↦
                          rw c (guard _ (not (is_locked master locked)) _ _ λ _. (refl, refl, refl))
                      | inr c ↦ rw c (refl, refl, refl)
                    ])
            ])
          ]

  pub return_equipment_sound :
      Answers
        (SoundOutcome platform equipment_returned store item)
        (return_equipment platform store item event)
  unfolding return_equipment
  return_equipment_sound =
      guard _
        (status_is item "待确认"
          || status_is item "待复核"
          || status_is item "待分配"
          || status_is item terminated)
        _ _
        λ _. after _ (mark_equipment_returned platform store item event) _ λ written e.
          let (items, events, revisions) = Answers-ok _ _ e returned_tables in
          record {
            items_kept = items;
            events_kept = events;
            ledger_kept = subst Ledger (sym revisions);
            moves = stays;
            id_kept = λ r. refl;
            codes_kept = λ n r. refl;
            phase_step = λ r. inl refl;
          }
