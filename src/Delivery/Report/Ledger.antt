-- ===== src/Delivery/Report/Ledger.antt =====
-- internal/infrastructure/mysql/delivery_report.go and delivery.go: every operation keeps the ledger
-- of report revisions well formed.
use project_management.Base.{
  ℕ, suc, ◌≡◌, refl, sym, ap, subst, true, Bool, ◌&&◌, String, List, ◌∷◌, arith, All, find, some,
  update_where, inl, inr, Bool-cases, Option-cases, All-map, All-All, update_where-All,
  ok_injective, refused, guarded, storage, update_one-eq, suc_ℤ, ok, >>=-eq-ok, any, trim_space,
}
use project_management.Domain.Phase.{report_phase_rank}
use project_management.Delivery.Schema.{ServiceItem, ReportRevision, DeliveryEvent}
use project_management.Delivery.Payload.{ReportArtifactInput}
use project_management.Delivery.Report.{
  new_revision, of_item, is_active_revision, ensure_report_revision, lock_report_revision,
  advance_columns, still_at, advance_report_revision, invalidate_and_create_report_revision,
  void_current, create_next, next_revision, service_item_subject, rework_report_revision,
  register_report_artifact,
}
use project_management.Delivery.Report.Table.{Keyed, Keyed-insert, Keyed-update, find-only, next_id}
use project_management.Delivery.Report.Duties.{
  Duties, Duties-advance, Duties-new, Step, Step-of, rectifying, compiling, reviewing, issuing,
  archiving,
}

pub record Ledger (rows : List ReportRevision) : Type 0 where
  pub keyed : Keyed rows
  pub duties : All Duties rows

Ledger-insert :
    (row : ReportRevision) (rows : List ReportRevision)
    → row.id ≡ next_id rows
    → Duties row
    → Ledger rows
    → Ledger (row ∷ rows)
Ledger-insert row rows e d l = record {
  keyed = Keyed-insert row rows e l.keyed;
  duties = (d, l.duties);
}

Ledger-update :
    (test : ReportRevision → Bool) (f : ReportRevision → ReportRevision)
    (rows : List ReportRevision)
    → ((r : ReportRevision) → (f r).id ≡ r.id)
    → All (λ r. test r ≡ true → Duties r → Duties (f r)) rows
    → Ledger rows
    → Ledger (update_where test f rows)
Ledger-update test f rows same kept l = record {
  keyed = Keyed-update test f same rows l.keyed;
  duties = update_where-All Duties Duties test f rows l.duties kept (All-All _ rows (λ r e d. d));
}

-- A change of columns that the duties do not read.
Duties-same :
    (r s : ReportRevision)
    → s.status ≡ r.status
    → s.prepared_by ≡ r.prepared_by
    → s.reviewed_by ≡ r.reviewed_by
    → s.issued_by ≡ r.issued_by
    → s.archived_by ≡ r.archived_by
    → Duties r
    → Duties s
Duties-same r s a b c e g d = record {
  reviewed = rw (b, c) d.reviewed;
  issued = rw (b, c, e) d.issued;
  unprepared = rw (a, b) d.unprepared;
  unreviewed = rw (a, c) d.unreviewed;
  unissued = rw (a, e) d.unissued;
  unarchived = rw (a, g) d.unarchived;
}

pub ensure-Ledger :
    (item : ServiceItem) (now : ℕ) (rows : List ReportRevision)
    → Ledger rows
    → Ledger (ensure_report_revision item now rows)
unfolding ensure_report_revision
ensure-Ledger item now rows l = elim (Bool-cases (any (of_item item item.report_revision) rows)) [
  | inl e ↦ rw e l
  | inr e ↦ rw e (
      Ledger-insert _ rows refl
        (record {
          reviewed = ground arith;
          issued = ground arith;
          unprepared = λ h. refl;
          unreviewed = λ h. refl;
          unissued = λ h. refl;
          unarchived = λ h. refl;
        })
        l)
]

pub lock-Ledger :
    (item : ServiceItem) (now : ℕ) (rows : List ReportRevision) {row : ReportRevision}
    {rows' : List ReportRevision}
    → lock_report_revision item now rows ≡ ok (row, rows')
    → Ledger rows
    → Ledger rows' × (find (of_item item item.report_revision) rows' ≡ some row)
unfolding lock_report_revision
lock-Ledger item now rows {row = row} {rows' = rows'} h l =
    elim (Option-cases
      (find (of_item item item.report_revision) (ensure_report_revision item now rows))) [
        | inl absent ↦ refused (rw (absent, lock_report_revision) at h)
        | inr (x, found) ↦
            let e = ok_injective (rw (found, lock_report_revision) at h) in
            rw (← ap (λ p. p.0) e, ← ap (λ p. p.1) e) (ensure-Ledger item now rows l, found)
      ]

columns-id :
    {revision : ReportRevision} {phase actor : String} {now : ℕ}
    {columns : ReportRevision → ReportRevision}
    → Step revision phase actor now columns
    → (r : ReportRevision) → (columns r).id ≡ r.id
columns-id (rectifying _) r = refl
columns-id (compiling _) r = refl
columns-id (reviewing _ _ _) r = refl
columns-id (issuing _ _ _ _) r = refl
columns-id (archiving _) r = refl

pub advance-Ledger :
    (revision : ReportRevision) (phase : String) (event : DeliveryEvent)
    (rows : List ReportRevision) {rows' : List ReportRevision} (test : ReportRevision → Bool)
    → find test rows ≡ some revision
    → report_phase_rank phase ≡ suc_ℤ (report_phase_rank revision.status)
    → advance_report_revision revision phase event rows ≡ ok rows'
    → Ledger rows
    → Ledger rows'
unfolding advance_report_revision
advance-Ledger revision phase event rows test found next h l =
    let actor = trim_space event.actor_user_id in
    let (known, h1) = guarded _ h in
    let (columns, step, h2) =
      >>=-eq-ok (advance_columns revision phase actor event.created_at) _ h1 in
    let (e, _) = update_one-eq _ _ rows h2 in
    let f = λ (r : ReportRevision). record (columns r) {
      status = phase;
      updated_at = event.created_at;
    } in
    rw e (
      Ledger-update (still_at revision) f rows
        (columns-id (Step-of revision phase actor event.created_at step))
        (All-map _ _ rows
          (λ r only t d.
            let same = only (ground arith) in
            subst (λ s. Duties (f s)) (sym same)
              (Duties-advance revision phase actor event.created_at known next step
                (subst Duties same d)))
          (find-only test rows l.keyed found))
        l)

pub rework-Ledger :
    (item : ServiceItem) (event : DeliveryEvent) (rows : List ReportRevision)
    → Ledger rows
    → Ledger (rework_report_revision item event rows)
unfolding rework_report_revision
rework-Ledger item event rows l =
    let test =
      λ (r : ReportRevision). of_item item item.report_revision r && is_active_revision r in
    let f = λ (r : ReportRevision). record r {
      validity_status = "SUPERSEDED";
      updated_at = event.created_at;
    } in
    let kept =
      Ledger-update test f rows (λ r. refl)
        (All-All _ rows (λ r e d. Duties-same r (f r) refl refl refl refl refl d)) l in
    elim (Bool-cases (any (of_item item (suc item.report_revision)) (update_where test f rows))) [
      | inl e ↦ rw e kept
      | inr e ↦ rw e (Ledger-insert _ _ refl (Duties-new _ _ _ _ _ _) kept)
    ]

void-Ledger :
    (current : ReportRevision) (event : DeliveryEvent) (rows : List ReportRevision)
    {rows' : List ReportRevision}
    → void_current current event rows ≡ ok rows'
    → Ledger rows
    → Ledger rows'
void-Ledger current event rows h l =
    let (_, h1) = guarded _ h in
    let (e, _) = update_one-eq _ _ rows h1 in
    rw e (
      Ledger-update _ _ rows (λ r. refl)
        (All-All _ _ (λ r t d. Duties-same r _ refl refl refl refl refl d)) l)

create-Ledger :
    (item : ServiceItem) (event : DeliveryEvent) (rows : List ReportRevision)
    {rows' : List ReportRevision}
    → create_next item event rows ≡ ok rows'
    → Ledger rows
    → Ledger rows'
create-Ledger item event rows h l =
    let (_, e) = guarded {b = any (of_item item (suc item.report_revision)) rows} storage h in
    let row = next_revision item event rows in
    let d =
      Duties-same
        (new_revision rows item.id service_item_subject item.id (suc item.report_revision)
          event.created_at)
        row refl refl refl refl refl (Duties-new _ _ _ _ _ _) in
    subst Ledger (ok_injective e) (Ledger-insert row rows refl d l)

pub invalidate-Ledger :
    (item : ServiceItem) (event : DeliveryEvent) (now : ℕ) (rows : List ReportRevision)
    {rows' : List ReportRevision}
    → invalidate_and_create_report_revision item event now rows ≡ ok rows'
    → Ledger rows
    → Ledger rows'
unfolding invalidate_and_create_report_revision
invalidate-Ledger item event now rows h l =
    let ((current, locked), e, h1) = >>=-eq-ok (lock_report_revision item now rows) _ h in
    let (voided, e2, h2) =
      >>=-eq-ok (void_current current event locked) (create_next item event) h1 in
    create-Ledger item event voided h2
      (void-Ledger current event locked e2 (lock-Ledger item now rows e l).0)

pub register-Ledger :
    (item : ServiceItem) (revision : ℕ) (input : ReportArtifactInput) (now : ℕ)
    (rows : List ReportRevision) {rows' : List ReportRevision}
    → register_report_artifact item revision input now rows ≡ ok rows'
    → Ledger rows
    → Ledger rows'
unfolding register_report_artifact
register-Ledger item revision input now rows h l =
    let (_, h1) = guarded _ h in
    let (e, _) = update_one-eq _ _ _ h1 in
    rw e (
      Ledger-update _ _ _ (λ r. refl)
        (All-All _ _ (λ r t d. Duties-same r _ refl refl refl refl refl d))
        (ensure-Ledger item now rows l))
