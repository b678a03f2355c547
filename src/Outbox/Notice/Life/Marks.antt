-- ===== src/Outbox/Notice/Life/Marks.antt =====
-- internal/infrastructure/mysql/delivery_notification.go: what a mark leaves of the table.
use project_management.Base.{
  ℕ, ◌+◌, ◌≡◌, refl, sym, ap, ◌∙◌, subst, String, Bool, true, false, All, All-map, All-All, arith,
  Bool-cases, inl, inr, Result, ok, err, Answers, after, count, update_where, update_one,
  update_one-eq, Grown, Grown-refl, Grown-trans, Grown-update, update-Keyed, count-update,
  count-update_same,
}
use project_management.Outbox.Notice.{
  NoticeRow, NoticeItem, NoticeStatus, Notices, pending, retry_wait, dead_letter, sent, processing,
  is_open, is_processing, validate_outbox_identity, mark_sent, mark_retry, is_held, write, sent_row,
  retry_row,
}
use project_management.Outbox.Notice.Dispatch.{
  Ending, stops, goes_on, marked, acknowledge, count_sent, is_dead,
}
use project_management.Outbox.Notice.Life.{Lives, rests, delivers, puts_off, gives_up, Life-trans}
use project_management.Outbox.Notice.Life.Claims.{KeyedRows}

abbrev sent_status : NoticeStatus → Bool
sent_status sent = true
sent_status _ = false

abbrev pub is_sent : NoticeRow → Bool
is_sent row = sent_status row.status

abbrev pub count_of_sent : Notices → ℕ
count_of_sent notices = count is_sent notices.rows

-- The rows have lived on, the keys are still apart, and so many more are sent.
pub record After (old : Notices) (more : ℕ) (new : Notices) : Type 0 where
  pub lives : Grown Lives old.rows new.rows
  pub keyed : KeyedRows new.rows
  pub counts : count_of_sent new ≡ count_of_sent old + more

pub After-refl : (notices : Notices) → KeyedRows notices.rows → After notices 0 notices
After-refl notices u = record {
  lives = Grown-refl Lives notices.rows (λ x. rests);
  keyed = u;
  counts = omega arith;
}

pub After-trans : (a b c : Notices) (n m : ℕ) → After a n b → After b m c → After a (n + m) c
After-trans a b c n m h k = record {
  lives = Grown-trans Lives a.rows b.rows c.rows (λ x y z p q. Life-trans p q) h.lives k.lives;
  keyed = k.keyed;
  counts = omega (arith, h.counts, k.counts);
}

abbrev pub Ends : (Bool → Notices → Type 0) → Ending → Type 0
Ends P (stops failure notices) = P false notices
Ends P (goes_on one notices) = P one notices

abbrev pub AfterTurn : Notices → Bool → Notices → Type 0
AfterTurn old one new = After old (count_sent one 0) new

held_processing :
    (tenant : String) (id : ℕ) (worker : String) (now : ℕ) (r : NoticeRow)
    → is_held tenant id worker now r ≡ true
    → (is_processing r.status ≡ true) × (r.id ≡ id)
unfolding is_held
held_processing tenant id worker now r e = ground arith

processing_unsent : (r : NoticeRow) → is_processing r.status ≡ true → is_sent r ≡ false
processing_unsent r p = status r.status p
  where
    status : (s : NoticeStatus) → is_processing s ≡ true → sent_status s ≡ false
    status pending p = refl
    status processing p = refl
    status retry_wait p = refl
    status sent p = cc
    status dead_letter p = refl

pub open_unsent : (r : NoticeRow) → is_open r.status ≡ true → is_sent r ≡ false
open_unsent r p = status r.status p
  where
    status : (s : NoticeStatus) → is_open s ≡ true → sent_status s ≡ false
    status pending p = refl
    status processing p = refl
    status retry_wait p = refl
    status sent p = cc
    status dead_letter p = refl

-- What a mark leaves, when it is accepted.
write-Answers :
    (test : NoticeRow → Bool) (f : NoticeRow → NoticeRow) (more : ℕ) (notices : Notices)
    → KeyedRows notices.rows
    → ((r : NoticeRow) → (f r).id ≡ r.id)
    → All (λ r. test r ≡ true → Lives r (f r)) notices.rows
    → (count test notices.rows ≡ 1
        → count is_sent (update_where test f notices.rows) ≡ count is_sent notices.rows + more)
    → Answers (After notices more) (write test f notices)
write-Answers test f more notices u same lives counts =
    after (After notices more) (update_one test f notices.rows) _ (λ rows e.
      let (eq, one) = update_one-eq test f notices.rows e in
      subst (λ z. After notices more (record notices { rows = z })) (sym eq)
        (record {
          lives = Grown-update Lives test f notices.rows (λ x. rests) lives;
          keyed = update-Keyed (λ (r : NoticeRow). r.id) test f notices.rows same u;
          counts = counts one;
        }))

mark_sent-Answers :
    (tenant : String) (id : ℕ) (worker : String) (now : ℕ) (notices : Notices)
    → KeyedRows notices.rows
    → Answers (After notices 1) (mark_sent tenant id worker now notices)
unfolding mark_sent
mark_sent-Answers tenant id worker now notices u =
    after (After notices 1) (validate_outbox_identity tenant worker) _ λ _ _.
      write-Answers (is_held tenant id worker now) (sent_row now) 1 notices u (λ r. refl)
        (All-All _ notices.rows
          (λ r t. delivers (held_processing tenant id worker now r t).0 rests))
        (λ one.
          count-update is_sent (is_held tenant id worker now) (sent_row now) notices.rows (
            All-All _ notices.rows
              (λ r t. (processing_unsent r (held_processing tenant id worker now r t).0, refl)))
          ∙ ap (λ z. count is_sent notices.rows + z) one)

-- The rows with the number of the item have failed as often as it says.
abbrev pub Counted : NoticeItem → NoticeRow → Type 0
Counted item x = x.id ≡ item.id → x.retry_count ≡ item.retry_count

retry-Lives :
    (next retries : ℕ) (r : NoticeRow)
    → is_processing r.status ≡ true
    → r.retry_count ≡ retries
    → Lives r (retry_row next (is_dead retries) r)
retry-Lives next retries r p e = elim (Bool-cases (is_dead retries)) [
  | inl dead ↦ rw dead (gives_up p (ground arith) rests)
  | inr alive ↦ rw alive (puts_off p (ground arith) rests)
]

retry_unsent : (next : ℕ) (dead : Bool) (r : NoticeRow) → is_sent (retry_row next dead r) ≡ false
retry_unsent next true r = refl
retry_unsent next false r = refl

mark_retry-Answers :
    (tenant : String) (item : NoticeItem) (worker : String) (now next : ℕ) (notices : Notices)
    → KeyedRows notices.rows
    → All (Counted item) notices.rows
    → Answers
        (After notices 0)
        (mark_retry tenant item.id worker now next (is_dead item.retry_count) notices)
unfolding mark_retry
mark_retry-Answers tenant item worker now next notices u c =
    after (After notices 0) (validate_outbox_identity tenant worker) _ λ _ _.
      write-Answers (is_held tenant item.id worker now) (retry_row next (is_dead item.retry_count))
        0 notices u (λ r. refl)
        (All-map _ _ notices.rows
          (λ r k t.
            let (p, same) = held_processing tenant item.id worker now r t in
            retry-Lives next item.retry_count r p (k same))
          c)
        (λ one.
          count-update_same is_sent (is_held tenant item.id worker now) _ notices.rows (
            All-All _ notices.rows (λ r t.
              retry_unsent next (is_dead item.retry_count) r
              ∙ sym (processing_unsent r (held_processing tenant item.id worker now r t).0)))
          ∙ omega arith)

marked-Ends :
    (one : Bool) (notices : Notices) (m : Result Notices)
    → KeyedRows notices.rows
    → Answers (AfterTurn notices one) m
    → Ends (AfterTurn notices) (marked one notices m)
marked-Ends one notices (ok a) u h = h
marked-Ends one notices (err e) u h = After-refl notices u

pub acknowledge-Ends :
    (tenant worker : String) (now : ℕ) (item : NoticeItem) (accepted : Bool) (notices : Notices)
    → KeyedRows notices.rows
    → All (Counted item) notices.rows
    → Ends (AfterTurn notices) (acknowledge tenant worker now item accepted notices)
unfolding acknowledge
acknowledge-Ends tenant worker now item true notices u c =
    marked-Ends true notices _ u (mark_sent-Answers tenant item.id worker now notices u)
acknowledge-Ends tenant worker now item false notices u c =
    marked-Ends false notices _ u (mark_retry-Answers tenant item worker now _ notices u c)
