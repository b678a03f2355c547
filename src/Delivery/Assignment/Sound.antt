-- ===== src/Delivery/Assignment/Sound.antt =====
-- internal/infrastructure/mysql/delivery_events.go: assignment, plan and review keep what every event
-- keeps.
use project_management.Base.{
  ◌≡◌, refl, inl, ok, guarded, guard, after, Answers, not-not, to_upper, precondition, not, ◌||◌,
  ◌&&◌, is_empty, str_eq, str_eq_iff, trim_space,
}
use project_management.Delivery.Schema.{
  ServiceItem, DeliveryEvent, team_assigned, team_assignment_revoked, decomposition_returned,
  execution_team_assigned, execution_assignment_revoked, implementation_planned,
  implementation_plan_revoked, special_method_reviewed,
}
use project_management.Delivery.Store.{Store, Platform}
use project_management.Delivery.Plan.{check_implementation_plan_precondition}
use project_management.Delivery.Payload.{string_value}
use project_management.Delivery.Assignment.{
  assign_team, revoke_team, return_decomposition, assign_execution, revoke_execution,
  plan_implementation, revoke_plan, review_special_method, status_is,
}
use project_management.Delivery.Moves.{
  SoundOutcome, stays, goes, status_of, returns, plans, revokes_plan,
}

module _ (platform : Platform) (store : Store) (item : ServiceItem) (event : DeliveryEvent) where
  pub assign_team_sound :
      Answers (SoundOutcome platform team_assigned store item) (assign_team store item event)
  unfolding assign_team
  assign_team_sound = guard _ (not (status_is item "待分配")) _ _ λ at. record {
    items_kept = refl;
    events_kept = refl;
    ledger_kept = λ l. l;
    moves = stays;
    id_kept = λ r. refl;
    codes_kept = λ n r. refl;
    phase_step = λ r. inl refl;
  }

  pub revoke_team_sound :
      Answers
        (SoundOutcome platform team_assignment_revoked store item)
        (revoke_team store item event)
  unfolding revoke_team
  revoke_team_sound = guard _ (not (status_is item "待分配") || is_empty item.team_lead_id) _ _ λ at.
      record {
        items_kept = refl;
        events_kept = refl;
        ledger_kept = λ l. l;
        moves = stays;
        id_kept = λ r. refl;
        codes_kept = λ n r. refl;
        phase_step = λ r. inl refl;
      }

  pub return_decomposition_sound :
      Answers
        (SoundOutcome platform decomposition_returned store item)
        (return_decomposition store item event)
  unfolding return_decomposition
  return_decomposition_sound = guard _ (not (status_is item "待分配")) _ _ λ at. record {
    items_kept = refl;
    events_kept = refl;
    ledger_kept = λ l. l;
    moves = goes (returns (status_of item _ at) refl);
    id_kept = λ r. refl;
    codes_kept = λ n r. refl;
    phase_step = λ r. inl refl;
  }

  pub assign_execution_sound :
      Answers
        (SoundOutcome platform execution_team_assigned store item)
        (assign_execution store item event)
  unfolding assign_execution
  assign_execution_sound = guard _ (not (status_is item "待分配")) _ _ λ at.
      guard _ (is_empty item.team_lead_id) _ _ λ led. record {
        items_kept = refl;
        events_kept = refl;
        ledger_kept = λ l. l;
        moves = stays;
        id_kept = λ r. refl;
        codes_kept = λ n r. absurd (n refl);
        phase_step = λ r. inl refl;
      }

  pub revoke_execution_sound :
      Answers
        (SoundOutcome platform execution_assignment_revoked store item)
        (revoke_execution store item event)
  unfolding revoke_execution
  revoke_execution_sound =
      guard _
        (not (status_is item "待分配")
          || is_empty item.team_lead_id
          || is_empty item.project_manager_id)
        _ _
        λ at. record {
          items_kept = refl;
          events_kept = refl;
          ledger_kept = λ l. l;
          moves = stays;
          id_kept = λ r. refl;
          codes_kept = λ n r. refl;
          phase_step = λ r. inl refl;
        }

  planned_from :
      check_implementation_plan_precondition item ≡ ok tt → trim_space item.status ≡ "待分配"
  unfolding check_implementation_plan_precondition
  planned_from h =
      (str_eq_iff _ _).0
        (not-not (guarded {b = not (str_eq (trim_space item.status) "待分配")} precondition h).0)

  pub plan_implementation_sound :
      Answers
        (SoundOutcome platform implementation_planned store item)
        (plan_implementation platform store item event)
  unfolding plan_implementation
  plan_implementation_sound = after _ (check_implementation_plan_precondition item) _ λ _ checked.
      guard _
        (str_eq item.test_mode "PENETRATION"
          && is_empty (string_value event.payload "penetration_test_plan"))
        _ _
        λ _. record {
          items_kept = refl;
          events_kept = refl;
          ledger_kept = λ l. l;
          moves = goes (plans (planned_from checked) refl);
          id_kept = λ r. refl;
          codes_kept = λ n r. refl;
          phase_step = λ r. inl refl;
        }

  pub revoke_plan_sound :
      Answers
        (SoundOutcome platform implementation_plan_revoked store item)
        (revoke_plan store item event)
  unfolding revoke_plan
  revoke_plan_sound = guard _ (not (status_is item "待实施")) _ _ λ at. record {
    items_kept = refl;
    events_kept = refl;
    ledger_kept = λ l. l;
    moves = goes (revokes_plan (status_of item _ at) refl);
    id_kept = λ r. refl;
    codes_kept = λ n r. refl;
    phase_step = λ r. inl refl;
  }

  pub review_special_method_sound :
      Answers
        (SoundOutcome platform special_method_reviewed store item)
        (review_special_method store item event)
  unfolding review_special_method
  review_special_method_sound =
      let decision = to_upper (string_value event.payload "decision") in
      guard _ (not (str_eq item.special "是")) _ _ λ _.
        guard _ (not (str_eq decision "APPROVED") && not (str_eq decision "REJECTED")) _ _ λ _.
          guard _
            (not (str_eq item.tech_review_status "PENDING")
              && not (str_eq item.tech_review_status "REJECTED"))
            _ _
            λ _. record {
              items_kept = refl;
              events_kept = refl;
              ledger_kept = λ l. l;
              moves = stays;
              id_kept = λ r. refl;
              codes_kept = λ n r. refl;
              phase_step = λ r. inl refl;
            }
