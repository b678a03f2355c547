-- ===== src/Delivery/Reporting/Sound.antt =====
-- internal/infrastructure/mysql/delivery_events.go: the report, its correction and the rollbacks keep
-- what every event keeps.
use project_management.Base.{
  ℕ, String, ◌≡◌, refl, sym, ap, ◌∙◌, inl, inr, guard, after, Answers, not, str_eq, str_eq_iff,
  arith, true, false, Bool-cases, not-not, to_upper, eq_ℤ, suc_ℤ, ℤ, pos, negsuc,
}
use project_management.Domain.Phase.{report_phase_rank}
use project_management.Delivery.Payload.{string_value}
use project_management.Delivery.Schema.{
  ServiceItem, DeliveryEvent, report_status_updated, rollback_approved, rollback_withdrawn,
  report_correction_approved,
}
use project_management.Delivery.Store.{Store, Platform}
use project_management.Delivery.Report.{
  allowed_report_phase, lock_report_revision, advance_report_revision,
  invalidate_and_create_report_revision,
}
use project_management.Delivery.Report.Ledger.{
  lock-Ledger, advance-Ledger, rework-Ledger, invalidate-Ledger,
}
use project_management.Delivery.Gates.{validate_penetration_report_gate}
use project_management.Delivery.Rollback.{
  validate_rollback_approval, validate_rollback_withdrawal, validate_report_correction_approval,
}
use project_management.Delivery.Assignment.{status_is}
use project_management.Delivery.Reporting.{
  advance_report, is_in_step, approve_rollback, withdraw_rollback, approve_correction, can_rework,
  can_correct, report_columns,
}
use project_management.Delivery.Moves.{SoundOutcome, stays, goes, status_of, rolls_back, reworks}

eq_ℤ-eq : (a b : ℤ) → eq_ℤ a b ≡ true → a ≡ b
eq_ℤ-eq (pos a) (pos b) h = ground arith
eq_ℤ-eq (pos a) (negsuc b) h = cc
eq_ℤ-eq (negsuc a) (pos b) h = cc
eq_ℤ-eq (negsuc a) (negsuc b) h = ground arith

-- The columns that a report step writes: the phase, whose signature it is, and no key.
report_columns-facts :
    (phase : String) (event : DeliveryEvent) (r : ServiceItem)
    → ((report_columns phase event r).id ≡ r.id)
      × ((report_columns phase event r).required_codes ≡ r.required_codes)
      × ((report_columns phase event r).report_status ≡ phase)
report_columns-facts phase event r = elim (Bool-cases (str_eq phase "COMPILING")) [
  | inl a ↦ rw a (refl, refl, refl)
  | inr a ↦ rw a (elim (Bool-cases (str_eq phase "REVIEWED")) [
    | inl b ↦ rw b (refl, refl, refl)
    | inr b ↦ rw b (elim (Bool-cases (str_eq phase "ISSUED")) [
      | inl c ↦ rw c (refl, refl, refl)
      | inr c ↦ rw c (refl, refl, refl)
    ])
  ])
]

module _ (platform : Platform) (store : Store) (item : ServiceItem) (event : DeliveryEvent) where
  pub advance_report_sound :
      (now : ℕ)
      → Answers
          (SoundOutcome platform report_status_updated store item)
          (advance_report store item event now)
  unfolding advance_report
  advance_report_sound now =
      let phase = to_upper (string_value event.payload "phase") in
      guard _ (not (status_is item "现场实施完成")) _ _ λ _.
        guard _ (not (allowed_report_phase phase)) _ _ λ _.
          guard _
            (not (eq_ℤ (report_phase_rank phase) (suc_ℤ (report_phase_rank item.report_status)))) _
            _
            λ next. after _ (validate_penetration_report_gate store item phase) _ λ _ _.
              after _ (lock_report_revision item now store.revisions) _ λ locked e.
                guard _ (not (is_in_step item locked.0)) _ _ λ step.
                  after _ (advance_report_revision locked.0 phase event locked.1) _ λ rows d.
                    let after_item : report_phase_rank phase
                        ≡ suc_ℤ (report_phase_rank item.report_status) =
                      eq_ℤ-eq _ _ (not-not next) in
                    let same : report_phase_rank locked.0.status
                        ≡ report_phase_rank item.report_status =
                      eq_ℤ-eq _ _ (ground arith) in
                    record {
                      items_kept = refl;
                      events_kept = refl;
                      ledger_kept = λ l.
                          let (l', found) = lock-Ledger item now store.revisions e l in
                          advance-Ledger locked.0 phase event locked.1 _ found
                            (after_item ∙ ap suc_ℤ (sym same)) d l';
                      moves = stays;
                      id_kept = λ r. (report_columns-facts phase event r).0;
                      codes_kept =
                          λ n r. let (_, codes, _) = report_columns-facts phase event r in codes;
                      phase_step = λ r.
                          let (_, _, written) = report_columns-facts phase event r in
                          inr (inr (ap report_phase_rank written ∙ after_item));
                    }

  rework_from : not (can_rework item) ≡ false → item.status ≡ "现场实施完成"
  rework_from h = (str_eq_iff _ _).0 (ground arith)

  pub approve_rollback_sound :
      Answers
        (SoundOutcome platform rollback_approved store item)
        (approve_rollback store item event)
  unfolding approve_rollback
  approve_rollback_sound =
      let kind = string_value event.payload "kind" in
      after _ (validate_rollback_approval store item event) _ λ _ _.
        elim (Bool-cases (str_eq kind "FIELD_TO_PREPARATION")) [
          | inl a ↦ rw a (
              guard _ (not (status_is item "实施中")) _ _ λ at. record {
                items_kept = refl;
                events_kept = refl;
                ledger_kept = λ l. l;
                moves = goes (rolls_back (status_of item _ at) refl);
                id_kept = λ r. refl;
                codes_kept = λ n r. refl;
                phase_step = λ r. inl refl;
              })
          | inr a ↦ rw a (elim (Bool-cases (str_eq kind "REPORT_TO_FIELD")) [
            | inl b ↦ rw b (
                guard _ (not (can_rework item)) _ _ λ at. record {
                  items_kept = refl;
                  events_kept = refl;
                  ledger_kept = rework-Ledger item event store.revisions;
                  moves = goes (reworks (rework_from at) refl);
                  id_kept = λ r. refl;
                  codes_kept = λ n r. refl;
                  phase_step = λ r. inr (inl refl);
                })
            | inr b ↦ rw b tt
          ])
        ]

  pub withdraw_rollback_sound :
      Answers
        (SoundOutcome platform rollback_withdrawn store item)
        (withdraw_rollback store item event)
  unfolding withdraw_rollback
  withdraw_rollback_sound = after _ (validate_rollback_withdrawal store item event) _ λ _ _.
      record {
        items_kept = refl;
        events_kept = refl;
        ledger_kept = λ l. l;
        moves = stays;
        id_kept = λ r. refl;
        codes_kept = λ n r. refl;
        phase_step = λ r. inl refl;
      }

  pub approve_correction_sound :
      (now : ℕ)
      → Answers
          (SoundOutcome platform report_correction_approved store item)
          (approve_correction store item event now)
  unfolding approve_correction
  approve_correction_sound now =
      after _ (validate_report_correction_approval store item event) _ λ _ _.
        guard _ (not (can_correct item)) _ _ λ _.
          after _ (invalidate_and_create_report_revision item event now store.revisions) _ λ rows e.
            record {
              items_kept = refl;
              events_kept = refl;
              ledger_kept = invalidate-Ledger item event now store.revisions e;
              moves = stays;
              id_kept = λ r. refl;
              codes_kept = λ n r. refl;
              phase_step = λ r. inr (inl refl);
            }
