-- ===== src/Outbox/Notice/Owners.antt =====
-- internal/infrastructure/mysql/delivery_notification.go: whose mark counts.
use project_management.Base.{
  ℕ, ◌≡◌, ◌≢◌, refl, sym, ap, ◌∙◌, subst, String, Bool, true, false, List, [], ◌∷◌, any, All,
  All-All, arith, Bool-cases, inl, inr, ok, count, update_where, update_where-All, update_one, ◌==◌,
  ◌||◌, ℤ, str_eq, str_eq_iff, Option-cases, refused, >>=-eq-ok, ok_injective, Answers, after,
  Result-cases,
}
use project_management.Outbox.Notice.{
  NoticeRow, NoticeItem, Notices, Codec, due_rows, is_among, taken_by, claim, claim_limit,
  validate_outbox_identity, mark_sent, mark_retry, is_held, write, items_of, item_of,
}

count-none :
    (test : NoticeRow → Bool) (rows : List NoticeRow)
    → All (λ r. test r ≡ false) rows
    → count test rows ≡ 0
count-none test [] h = refl
count-none test (r ∷ rows) h = rw h.0 (count-none test rows h.1)

other-not_held :
    (tenant : String) (id : ℕ) (worker other : String) (now later : ℕ) (r : NoticeRow)
    → worker ≢ other
    → is_held tenant id worker later (taken_by other now r) ≡ false
unfolding is_held
other-not_held tenant id worker other now later r apart = elim (Bool-cases (str_eq other worker)) [
  | inl same ↦ absurd (apart (sym ((str_eq_iff other worker).0 same)))
  | inr different ↦ ground (arith, different)
]

miss :
    (tenant : String) (id : ℕ) (worker : String) (later : ℕ) (claimed : List NoticeRow)
    (r : NoticeRow)
    → any (λ (c : NoticeRow). c.id == id) claimed ≡ true
    → is_among tenant claimed r ≡ false
    → is_held tenant id worker later r ≡ false
unfolding is_held
miss tenant id worker later claimed r taken m = elim (Bool-cases (r.id == id)) [
  | inl hit ↦
      let same : r.id ≡ id = ground arith in
      let among = subst (λ z. any (λ (c : NoticeRow). c.id == z) claimed ≡ true) (sym same) taken in
      ground (arith, among, m)
  | inr other ↦ ground (arith, other)
]

-- The items have the numbers of the rows.
items-any :
    (codec : Codec) (id : ℕ) (rows : List NoticeRow) {items : List NoticeItem}
    → items_of codec rows ≡ ok items
    → any (λ (r : NoticeRow). r.id == id) rows ≡ any (λ (i : NoticeItem). i.id == id) items
items-any codec id [] h = rw (sym (ok_injective h)) refl
items-any codec id (r ∷ rows) {items = items} h = elim (Option-cases (codec.decode r.payload)) [
  | inl e ↦ refused (rw (e, items_of) at h)
  | inr (message, e) ↦
      let (rest, k, l) =
        >>=-eq-ok (items_of codec rows) (λ more. ok (item_of r message ∷ more))
          (rw (e, items_of) at h) in
      rw (sym (ok_injective l)) (ap (λ z. (r.id == id) || z) (items-any codec id rows k))
]

write-refused :
    (test : NoticeRow → Bool) (f : NoticeRow → NoticeRow) (notices : Notices)
    → All (λ r. test r ≡ false) notices.rows
    → Answers (λ _. ⊥) (write test f notices)
unfolding update_one
write-refused test f notices h = rw (count-none test notices.rows h, Answers) tt

claimed-not_held :
    (tenant : String) (id : ℕ) (worker other : String) (at now : ℕ) (claimed rows : List NoticeRow)
    → worker ≢ other
    → any (λ (c : NoticeRow). c.id == id) claimed ≡ true
    → All
        (λ r. is_held tenant id worker now r ≡ false)
        (update_where (is_among tenant claimed) (taken_by other at) rows)
claimed-not_held tenant id worker other at now claimed rows apart taken =
    update_where-All (λ _. Unit {0}) _ (is_among tenant claimed) (taken_by other at) rows
      (All-All _ rows (λ r. tt))
      (All-All _ rows (λ r t k. other-not_held tenant id worker other at now r apart))
      (All-All _ rows (λ r m k. miss tenant id worker now claimed r taken m))

-- After a message was handed to another worker, no mark of this worker is accepted any more, early or
-- late: what the platform answered to it does not count.
pub mark-refused :
    (codec : Codec) (tenant worker other : String) (limit : ℤ) (at id now next : ℕ) (dead : Bool)
    (notices : Notices) {items : List NoticeItem}
    → worker ≢ other
    → (claim codec tenant other limit at notices).0 ≡ ok items
    → any (λ (i : NoticeItem). i.id == id) items ≡ true
    → let after = (claim codec tenant other limit at notices).1 in
      Answers (λ _. ⊥) (mark_sent tenant id worker now after)
      × Answers (λ _. ⊥) (mark_retry tenant id worker now next dead after)
unfolding claim mark_sent mark_retry
mark-refused codec tenant worker other limit at id now next dead notices {items = items} apart h
      listed =
    elim (Result-cases (validate_outbox_identity tenant other)) [
      | inr (_, bad) ↦ refused (rw (claim, bad) at h)
      | inl (_, valid) ↦
          let claimed = due_rows tenant (claim_limit limit) at notices.rows in
          let taken = items-any codec id claimed (rw (claim, valid) at h) ∙ listed in
          let none_held =
            claimed-not_held tenant id worker other at now claimed notices.rows apart taken in
          rw (claim, valid)
            (
              after _ (validate_outbox_identity tenant worker) _
                  (λ _ _. write-refused _ _ _ none_held),
              after _ (validate_outbox_identity tenant worker) _
                  (λ _ _. write-refused _ _ _ none_held),
            )
    ]
