-- ===== src/Delivery/Report/Duties.antt =====
-- internal/infrastructure/mysql/delivery_report.go `advanceReportRevision`: the segregation of duties
-- on a report revision, kept by every operation on the ledger.
use project_management.Base.{
  ℕ, suc, ◌≡◌, refl, subst, ok_injective, refused, guarded, or_left, or_right, sym, ap, ◌∙◌, true,
  false, String, List, arith, some, inl, inr, Bool-cases, is_empty, str_eq, str_eq_iff, ℤ, pos,
  negsuc, ltb_ℤ, suc_ℤ, ok, trim_space, to_upper, get_by,
}
use project_management.Domain.Phase.{report_phase_rank, normalize_report_phase}
use project_management.Delivery.Schema.{ReportRevision}
use project_management.Delivery.Report.{
  new_revision, advance_columns, review_columns, issue_columns, archive_columns,
}

-- Who reviewed did not prepare, who issued neither prepared nor reviewed, and nobody signs ahead of
-- the phase.
pub record Duties (r : ReportRevision) : Type 0 where
  pub reviewed :
      is_empty r.reviewed_by ≡ false
      → (is_empty r.prepared_by ≡ false) × (str_eq r.reviewed_by r.prepared_by ≡ false)
  pub issued :
      is_empty r.issued_by ≡ false
      → (is_empty r.reviewed_by ≡ false)
        × (str_eq r.issued_by r.prepared_by ≡ false)
        × (str_eq r.issued_by r.reviewed_by ≡ false)
  pub unprepared : ltb_ℤ (report_phase_rank r.status) (pos 2) ≡ true → is_empty r.prepared_by ≡ true
  pub unreviewed : ltb_ℤ (report_phase_rank r.status) (pos 3) ≡ true → is_empty r.reviewed_by ≡ true
  pub unissued : ltb_ℤ (report_phase_rank r.status) (pos 4) ≡ true → is_empty r.issued_by ≡ true
  pub unarchived : ltb_ℤ (report_phase_rank r.status) (pos 5) ≡ true → is_empty r.archived_by ≡ true

rank-rectifying : report_phase_rank "RECTIFYING" ≡ pos 1
unfolding report_phase_rank normalize_report_phase trim_space to_upper get_by
rank-rectifying = refl

rank-compiling : report_phase_rank "COMPILING" ≡ pos 2
unfolding report_phase_rank normalize_report_phase trim_space to_upper get_by
rank-compiling = refl

rank-reviewed : report_phase_rank "REVIEWED" ≡ pos 3
unfolding report_phase_rank normalize_report_phase trim_space to_upper get_by
rank-reviewed = refl

rank-issued : report_phase_rank "ISSUED" ≡ pos 4
unfolding report_phase_rank normalize_report_phase trim_space to_upper get_by
rank-issued = refl

rank-archived : report_phase_rank "ARCHIVED" ≡ pos 5
unfolding report_phase_rank normalize_report_phase trim_space to_upper get_by
rank-archived = refl

pred_rank : (z : ℤ) (n : ℕ) → pos (suc n) ≡ suc_ℤ z → z ≡ pos n
pred_rank (pos m) n h = ground arith
pred_rank (negsuc m) n h = ground arith

-- The steps that the guards let through, with what each has checked.
pub data Step (r : ReportRevision) (phase actor : String) (now : ℕ)
    : (ReportRevision → ReportRevision) → Type 0 where
  rectifying : phase ≡ "RECTIFYING" → Step r phase actor now (λ r. r)
  compiling :
      phase ≡ "COMPILING"
      → Step r phase actor now (λ r. record r { prepared_by = actor; prepared_at = some now })
  reviewing :
      phase ≡ "REVIEWED"
      → is_empty r.prepared_by ≡ false
      → str_eq actor r.prepared_by ≡ false
      → Step r phase actor now (λ r. record r { reviewed_by = actor; reviewed_at = some now })
  issuing :
      phase ≡ "ISSUED"
      → is_empty r.reviewed_by ≡ false
      → str_eq actor r.prepared_by ≡ false
      → str_eq actor r.reviewed_by ≡ false
      → Step r phase actor now (λ r. record r { issued_by = actor; issued_at = some now })
  archiving :
      phase ≡ "ARCHIVED"
      → Step r phase actor now (λ r. record r { archived_by = actor; archived_at = some now })

pub Step-of :
    (r : ReportRevision) (phase actor : String) (now : ℕ)
    {columns : ReportRevision → ReportRevision}
    → advance_columns r phase actor now ≡ ok columns
    → Step r phase actor now columns
unfolding advance_columns
Step-of r phase actor now {columns = columns} h = elim (Bool-cases (str_eq phase "RECTIFYING")) [
  | inl e ↦ subst (Step r phase actor now) (ok_injective (rw e at h)) (rectifying (text e))
  | inr e1 ↦ elim (Bool-cases (str_eq phase "COMPILING")) [
    | inl e ↦ subst (Step r phase actor now) (ok_injective (rw (e1, e) at h)) (compiling (text e))
    | inr e2 ↦ elim (Bool-cases (str_eq phase "REVIEWED")) [
      | inl e ↦
          let h' : review_columns r actor now ≡ ok columns = (rw (e1, e2, e) at h) in
          let (who, h'') = guarded _ h' in
          let (_, written) = guarded _ h'' in
          subst (Step r phase actor now) (ok_injective written)
            (reviewing (text e) (or_left _ _ who) (or_right _ _ who))
      | inr e3 ↦ elim (Bool-cases (str_eq phase "ISSUED")) [
        | inl e ↦
            let h' : issue_columns r actor now ≡ ok columns = (rw (e1, e2, e3, e) at h) in
            let (who, written) = guarded _ h' in
            let rest = or_left _ _ who in
            subst (Step r phase actor now) (ok_injective written)
              (issuing (text e) (or_left _ _ rest) (or_right _ _ rest) (or_right _ _ who))
        | inr e4 ↦ elim (Bool-cases (str_eq phase "ARCHIVED")) [
          | inl e ↦
              let h' : archive_columns r actor now ≡ ok columns = (rw (e1, e2, e3, e4, e) at h) in
              let (_, written) = guarded _ h' in
              subst (Step r phase actor now) (ok_injective written) (archiving (text e))
          | inr e5 ↦ refused (rw (e1, e2, e3, e4, e5) at h)
        ]
      ]
    ]
  ]
]
  where
    text : {code : String} → str_eq phase code ≡ true → phase ≡ code
    text e = (str_eq_iff phase _).0 e

rank_before :
    (r : ReportRevision) (phase code : String) (n : ℕ)
    → report_phase_rank code ≡ pos (suc n)
    → phase ≡ code
    → report_phase_rank phase ≡ suc_ℤ (report_phase_rank r.status)
    → (report_phase_rank phase ≡ pos (suc n)) × (report_phase_rank r.status ≡ pos n)
rank_before r phase code n known e next =
    let here = ap report_phase_rank e ∙ known in (here, pred_rank _ n (sym here ∙ next))

-- The step writes what the duties ask for.
Duties-Step :
    (r : ReportRevision) (phase actor : String) (now : ℕ)
    {columns : ReportRevision → ReportRevision}
    → is_empty actor ≡ false
    → report_phase_rank phase ≡ suc_ℤ (report_phase_rank r.status)
    → Step r phase actor now columns
    → Duties r
    → Duties (record (columns r) { status = phase; updated_at = now })
Duties-Step r phase actor now some_actor next (rectifying e) d =
    let (here, before) = rank_before r phase _ 0 rank-rectifying e next in
    record {
      reviewed = d.reviewed;
      issued = d.issued;
      unprepared = ground (arith, d.unprepared);
      unreviewed = ground (arith, d.unreviewed);
      unissued = ground (arith, d.unissued);
      unarchived = ground (arith, d.unarchived);
    }
Duties-Step r phase actor now some_actor next (compiling e) d =
    let (here, before) = rank_before r phase _ 1 rank-compiling e next in
    record {
      reviewed = ground (arith, d.unreviewed);
      issued = ground (arith, d.unissued);
      unprepared = ground arith;
      unreviewed = ground (arith, d.unreviewed);
      unissued = ground (arith, d.unissued);
      unarchived = ground (arith, d.unarchived);
    }
Duties-Step r phase actor now some_actor next (reviewing e prepared other) d =
    let (here, before) = rank_before r phase _ 2 rank-reviewed e next in
    record {
      reviewed = λ h. (prepared, other);
      issued = ground (arith, d.unissued);
      unprepared = ground arith;
      unreviewed = ground arith;
      unissued = ground (arith, d.unissued);
      unarchived = ground (arith, d.unarchived);
    }
Duties-Step r phase actor now some_actor next (issuing e reviewed other another) d =
    let (here, before) = rank_before r phase _ 3 rank-issued e next in
    record {
      reviewed = d.reviewed;
      issued = λ h. (reviewed, other, another);
      unprepared = ground arith;
      unreviewed = ground arith;
      unissued = ground arith;
      unarchived = ground (arith, d.unarchived);
    }
Duties-Step r phase actor now some_actor next (archiving e) d =
    let (here, before) = rank_before r phase _ 4 rank-archived e next in
    record {
      reviewed = d.reviewed;
      issued = d.issued;
      unprepared = ground arith;
      unreviewed = ground arith;
      unissued = ground arith;
      unarchived = ground arith;
    }

pub Duties-advance :
    (r : ReportRevision) (phase actor : String) (now : ℕ)
    {columns : ReportRevision → ReportRevision}
    → is_empty actor ≡ false
    → report_phase_rank phase ≡ suc_ℤ (report_phase_rank r.status)
    → advance_columns r phase actor now ≡ ok columns
    → Duties r
    → Duties (record (columns r) { status = phase; updated_at = now })
Duties-advance r phase actor now some_actor next h =
    Duties-Step r phase actor now some_actor next (Step-of r phase actor now h)

pub Duties-new :
    (rows : List ReportRevision) (item_id subject_type subject_id : String) (revision now : ℕ)
    → Duties (new_revision rows item_id subject_type subject_id revision now)
Duties-new rows item_id subject_type subject_id revision now = record {
  reviewed = ground arith;
  issued = ground arith;
  unprepared = λ h. refl;
  unreviewed = λ h. refl;
  unissued = λ h. refl;
  unarchived = λ h. refl;
}
