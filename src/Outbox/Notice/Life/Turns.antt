-- ===== src/Outbox/Notice/Life/Turns.antt =====
-- internal/application/delivery_outbox.go `DispatchNotificationOutbox`: what a turn of the loop and the
-- whole call leave of the table.
use project_management.Base.{
  ℕ, zero, suc, ◌+◌, ◌≤◌, ◌*◌, ◌≡◌, refl, sym, ap, ◌∙◌, String, true, false, List, [], ◌∷◌, All,
  All-map, All-All, arith, Option, Option-cases, Bool-cases, inl, inr, Result, ok, err, Check,
  update_where, update_where-All, Grown, Grown-keeps, Grown-map, Grown-update, update-Keyed,
  count-update_same, leb, AppError, ◌⊎◌, ◌>>=◌, ◌>>◌, ℤ, Result-cases,
}
use project_management.Outbox.Notice.{
  NoticeRow, NoticeItem, Notices, Codec, is_open, due_rows, is_among, taken_by, claim, item_of,
  items_of, validate_outbox_identity,
}
use project_management.Outbox.Notice.Dispatch.{
  Turn, Ending, stops, goes_on, Run, publish_first, one_turn, dispatch_loop, dispatch, turn_limit,
  minute,
}
use project_management.Outbox.Notice.Life.{Life-Budget, Life-closed, Budget, Lives, rests, takes}
use project_management.Outbox.Notice.Life.Claims.{KeyedRows, claimed-only, among-open}
use project_management.Outbox.Notice.Life.Marks.{
  is_sent, count_of_sent, After, After-refl, After-trans, Ends, AfterTurn, open_unsent, Counted,
  acknowledge-Ends,
}

-- The table that a claim leaves, from the rows that it took.
abbrev claimed_table : String → String → ℕ → List NoticeRow → Notices → Notices
claimed_table tenant worker now claimed notices = record notices {
  rows = update_where (is_among tenant claimed) (taken_by worker now) notices.rows;
}

claimed-After :
    (tenant worker : String) (now : ℕ) (claimed : List NoticeRow) (notices : Notices)
    → KeyedRows notices.rows
    → All (λ x. is_among tenant claimed x ≡ true → is_open x.status ≡ true) notices.rows
    → After notices 0 (claimed_table tenant worker now claimed notices)
claimed-After tenant worker now claimed notices u opened = record {
  lives =
      Grown-update Lives (is_among tenant claimed) (taken_by worker now) notices.rows (λ x. rests)
        (All-map _ _ notices.rows (λ x k t. takes (k t) rests) opened);
  keyed =
      update-Keyed (λ (r : NoticeRow). r.id) (is_among tenant claimed) _ notices.rows (λ r. refl) u;
  counts =
      count-update_same is_sent (is_among tenant claimed) (taken_by worker now) notices.rows
        (All-map _ _ notices.rows (λ x k t. sym (open_unsent x (k t))) opened)
      ∙ omega arith;
}

claimed-Counted :
    (tenant worker : String) (now : ℕ) (claimed : List NoticeRow) (row : NoticeRow)
    (item : NoticeItem) (rows : List NoticeRow)
    → item.id ≡ row.id
    → item.retry_count ≡ row.retry_count
    → All (λ x. x.id ≡ row.id → x ≡ row) rows
    → All (Counted item) (update_where (is_among tenant claimed) (taken_by worker now) rows)
claimed-Counted tenant worker now claimed row item rows same retries only_row =
    let counted : All (Counted item) rows =
      All-map _ _ rows (λ x k e. ap (λ (z : NoticeRow). z.retry_count) (k (e ∙ same)) ∙ sym retries)
        only_row in
    update_where-All (Counted item) (Counted item) (is_among tenant claimed) (taken_by worker now)
      rows counted (All-All _ rows (λ x t k. k)) (All-All _ rows (λ x t k. k))

Ends-trans :
    (a b : Notices) (ending : Ending)
    → After a 0 b
    → Ends (AfterTurn b) ending
    → Ends (AfterTurn a) ending
Ends-trans a b (stops failure c) h k = After-trans a b c 0 0 h k
Ends-trans a b (goes_on true c) h k = After-trans a b c 0 1 h k
Ends-trans a b (goes_on false c) h k = After-trans a b c 0 0 h k

licensed-Ends :
    (tenant worker : String) (now : ℕ) (turn : Turn) (item : NoticeItem) (items : List NoticeItem)
    (notices : Notices)
    → KeyedRows notices.rows
    → All (Counted item) notices.rows
    → Ends (AfterTurn notices) (publish_first tenant worker now turn (ok (item ∷ items)) notices)
unfolding publish_first
licensed-Ends tenant worker now turn item items notices u c =
    elim (Result-cases (turn.licence_claimed >> turn.licence_published)) [
      | inl (_, e) ↦ rw (e, Ends) (acknowledge-Ends tenant worker _ item _ notices u c)
      | inr (_, e) ↦ rw (e, Ends) (After-refl notices u)
    ]

more-Ends :
    (tenant worker : String) (now : ℕ) (turn : Turn) (item : NoticeItem)
    (rest : Result (List NoticeItem)) (notices : Notices)
    → KeyedRows notices.rows
    → All (Counted item) notices.rows
    → Ends
        (AfterTurn notices)
        (publish_first tenant worker now turn (rest >>= λ items. ok (item ∷ items)) notices)
unfolding publish_first
more-Ends tenant worker now turn item (ok items) notices u c =
    licensed-Ends tenant worker now turn item items notices u c
more-Ends tenant worker now turn item (err e) notices u c = After-refl notices u

-- A turn from the claim on, by the rows that were claimed.
publish-Ends :
    (codec : Codec) (tenant worker : String) (now claim_now : ℕ) (turn : Turn)
    (claimed : List NoticeRow) (notices : Notices)
    → KeyedRows (claimed_table tenant worker claim_now claimed notices).rows
    → All (λ x. All (λ r. x.id ≡ r.id → x ≡ r) claimed) notices.rows
    → Ends (AfterTurn (claimed_table tenant worker claim_now claimed notices)) (
        publish_first tenant worker now turn
          (items_of codec claimed)
          (claimed_table tenant worker claim_now claimed notices))
unfolding publish_first
publish-Ends codec tenant worker now claim_now turn [] notices u k =
    After-refl (claimed_table tenant worker claim_now [] notices) u
publish-Ends codec tenant worker now claim_now turn (r ∷ rest) notices u k =
    elim (Option-cases (codec.decode r.payload)) [
      | inl e ↦
          rw (e, Ends) (After-refl (claimed_table tenant worker claim_now (r ∷ rest) notices) u)
      | inr (message, e) ↦
          rw (e, Ends)
            (more-Ends tenant worker now turn (item_of r message) (items_of codec rest)
              (claimed_table tenant worker claim_now (r ∷ rest) notices) u
              (claimed-Counted tenant worker claim_now (r ∷ rest) r (item_of r message) notices.rows
                refl refl (All-map _ _ notices.rows (λ x h. h.0) k)))
    ]

one_turn-Ends :
    (codec : Codec) (tenant worker : String) (now : ℕ) (turn : Turn) (notices : Notices)
    → KeyedRows notices.rows
    → Ends (AfterTurn notices) (one_turn codec tenant worker now turn notices)
unfolding one_turn claim publish_first
one_turn-Ends codec tenant worker now turn notices u =
    elim (Bool-cases (leb (4 * minute) turn.elapsed)) [
      | inl late ↦ rw late (After-refl notices u)
      | inr early ↦ elim (Result-cases (turn.context >> turn.licence_before)) [
        | inr (_, e) ↦ rw (early, e) (After-refl notices u)
        | inl (_, e) ↦ elim (Result-cases (validate_outbox_identity tenant worker)) [
          | inr (_, bad) ↦ rw (early, e, claim, bad) (After-refl notices u)
          | inl (_, valid) ↦
              let at = now + turn.claimed_after in
              let claimed = due_rows tenant 1 at notices.rows in
              let taken =
                claimed-After tenant worker at claimed notices u
                  (among-open tenant 1 at notices.rows u) in
              rw (early, e, claim, valid)
                (Ends-trans notices (claimed_table tenant worker at claimed notices) _ taken (
                  publish-Ends codec tenant worker now at turn claimed notices taken.keyed (
                    All-map _ _ notices.rows (λ x k. All-map _ _ claimed (λ r h. h.0) k)
                      (claimed-only tenant 1 at notices.rows u))))
        ]
      ]
    ]

ending_cases :
    (ending : Ending)
    → ((failure : Option AppError) × (n : Notices) × (ending ≡ stops failure n))
      ⊎ (((n : Notices) × (ending ≡ goes_on true n)) ⊎ ((n : Notices) × (ending ≡ goes_on false n)))
ending_cases (stops failure n) = inl (failure, n, refl)
ending_cases (goes_on true n) = inr (inl (n, refl))
ending_cases (goes_on false n) = inr (inr (n, refl))

-- What the call leaves of the table, and what it answers.
abbrev Ran : Notices → ℕ → ℕ → Run → Type 0
Ran old before left run = (n : ℕ) × ((run.sent ≡ before + n) × (n ≤ left)) × After old n run.notices

loop-Ran :
    (codec : Codec) (tenant worker : String) (now : ℕ) (turns : ℕ → Turn)
    (left processed sent_before : ℕ) (notices : Notices)
    → KeyedRows notices.rows
    → Ran notices sent_before left
        (dispatch_loop codec tenant worker now turns left processed sent_before notices)
unfolding dispatch_loop
loop-Ran codec tenant worker now turns zero processed sent_before notices u =
    (0, (omega arith, omega arith), After-refl notices u)
loop-Ran codec tenant worker now turns (suc left) processed sent_before notices u =
    let h = one_turn-Ends codec tenant worker now (turns processed) notices u in
    elim (ending_cases (one_turn codec tenant worker now (turns processed) notices)) [
      | inl (failure, left_over, e) ↦
          rw (e, dispatch_loop) (0, (omega arith, omega arith), (rw e at h))
      | inr (inl (left_over, e)) ↦
          let k = rw e at h in
          let (n, sum, rest) =
            loop-Ran codec tenant worker now turns left (suc processed) (suc sent_before) left_over
              k.keyed in
          rw (e, dispatch_loop)
            (
              1 + n,
              (omega (arith, sum.0), omega (arith, sum.1)),
              After-trans notices left_over _ 1 n k rest,
            )
      | inr (inr (left_over, e)) ↦
          let k = rw e at h in
          let (n, sum, rest) =
            loop-Ran codec tenant worker now turns left (suc processed) sent_before left_over
              k.keyed in
          rw (e, dispatch_loop)
            (
              0 + n,
              (omega (arith, sum.0), omega (arith, sum.1)),
              After-trans notices left_over _ 0 n k rest,
            )
    ]

-- The dispatcher, with whatever clock, licence and platform: each row only lives on as the life of a
-- notification allows, the keys stay apart, and the number that it answers is the number of the messages
-- that it has sent, the limit at most.
pub dispatch-Life :
    (codec : Codec) (tenant worker : String) (limit : ℤ) (now : ℕ) (licence : Check)
    (turns : ℕ → Turn) (notices : Notices)
    → KeyedRows notices.rows
    → let run = dispatch codec tenant worker limit now licence turns notices in
      Grown Lives notices.rows run.notices.rows
      × KeyedRows run.notices.rows
      × (count_of_sent run.notices ≡ count_of_sent notices + run.sent)
      × (run.sent ≤ turn_limit limit)
unfolding dispatch
dispatch-Life codec tenant worker limit now licence turns notices u =
    elim (Result-cases (validate_outbox_identity tenant worker >> licence)) [
      | inl (_, e) ↦
          let (n, sum, h) =
            loop-Ran codec tenant worker now turns (turn_limit limit) 0 0 notices u in
          rw (e, dispatch)
            (h.lives, h.keyed, omega (arith, sum.0, h.counts), omega (arith, sum.0, sum.1))
      | inr (_, e) ↦
          let h = After-refl notices u in rw (e, dispatch) (h.lives, h.keyed, h.counts, omega arith)
    ]

-- No call of the dispatcher leaves an open row with more than eleven recorded failures, or a dead letter with
-- another number of them than twelve, if the rows had none such before.
pub dispatch-Budget :
    (codec : Codec) (tenant worker : String) (limit : ℤ) (now : ℕ) (licence : Check)
    (turns : ℕ → Turn) (notices : Notices)
    → KeyedRows notices.rows
    → All (λ r. Budget r.status r.retry_count) notices.rows
    → Grown
        (λ x y. Budget y.status y.retry_count)
        notices.rows
        (dispatch codec tenant worker limit now licence turns notices).notices.rows
dispatch-Budget codec tenant worker limit now licence turns notices u b =
    Grown-keeps Lives (λ r. Budget r.status r.retry_count) notices.rows _
      (λ x y l k. Life-Budget l k)
      (dispatch-Life codec tenant worker limit now licence turns notices u).0 b

-- What was sent or given up is never touched again.
pub dispatch-closed :
    (codec : Codec) (tenant worker : String) (limit : ℤ) (now : ℕ) (licence : Check)
    (turns : ℕ → Turn) (notices : Notices)
    → KeyedRows notices.rows
    → Grown
        (λ x y. is_open x.status ≡ false → (y.status ≡ x.status) × (y.retry_count ≡ x.retry_count))
        notices.rows
        (dispatch codec tenant worker limit now licence turns notices).notices.rows
dispatch-closed codec tenant worker limit now licence turns notices u =
    Grown-map Lives _ notices.rows _ (λ x y l c. Life-closed c l)
      (dispatch-Life codec tenant worker limit now licence turns notices u).0
