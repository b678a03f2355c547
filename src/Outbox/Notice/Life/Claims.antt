-- ===== src/Outbox/Notice/Life/Claims.antt =====
-- internal/infrastructure/mysql/delivery_notification.go: the rows that a claim reaches.
use project_management.Base.{
  ℕ, ◌≡◌, sym, subst, String, true, List, All, All-map, filter-All, take-All, sort_by-All, arith,
  only, Keyed, any-All, ◌==◌,
}
use project_management.Outbox.Notice.{NoticeRow, is_due, due_rows, oldest, is_among, is_open}

abbrev pub KeyedRows : List NoticeRow → Type 0
KeyedRows = Keyed (λ (r : NoticeRow). r.id)

due-All :
    (P : NoticeRow → Type 0) (tenant : String) (limit now : ℕ) (rows : List NoticeRow)
    → All P rows
    → All (λ r. P r × (is_due tenant now r ≡ true)) (due_rows tenant limit now rows)
unfolding due_rows
due-All P tenant limit now rows h =
    take-All _ limit _ (sort_by-All _ oldest _ (filter-All P (is_due tenant now) rows h))

due_open :
    (tenant : String) (now : ℕ) (r : NoticeRow)
    → is_due tenant now r ≡ true
    → is_open r.status ≡ true
unfolding is_due
due_open tenant now r e = ground arith

-- Of each row: a claimed row with its number is the row.
pub claimed-only :
    (tenant : String) (limit now : ℕ) (rows : List NoticeRow)
    → KeyedRows rows
    → All
        (λ x.
          All
            (λ r. (x.id ≡ r.id → x ≡ r) × (is_due tenant now r ≡ true))
            (due_rows tenant limit now rows))
        rows
claimed-only tenant limit now rows u =
    All-map _ _ rows (λ x k. due-All _ tenant limit now rows k)
      (only (λ (r : NoticeRow). r.id) rows u)

-- A claim reaches open rows only.
pub among-open :
    (tenant : String) (limit now : ℕ) (rows : List NoticeRow)
    → KeyedRows rows
    → All
        (λ x. is_among tenant (due_rows tenant limit now rows) x ≡ true → is_open x.status ≡ true)
        rows
among-open tenant limit now rows u =
    All-map _ _ rows
      (λ x k t.
        let (r, q, same) =
          any-All (λ r. (x.id ≡ r.id → x ≡ r) × (is_due tenant now r ≡ true))
            (λ (r : NoticeRow). r.id == x.id) _ (ground arith) k in
        let e : x ≡ r = q.0 (ground arith) in
        subst (λ (z : NoticeRow). is_open z.status ≡ true) (sym e) (due_open tenant now r q.1))
      (claimed-only tenant limit now rows u)
