-- ===== src/Outbox/Notice/Dispatch.antt =====
-- internal/application/delivery_outbox.go `DispatchNotificationOutbox`. The clock, the licence check and the
-- platform are given as their answers in each turn of the loop; the caller has a repository and a
-- destination.
use Prim.Native.Nat.{min}
use project_management.Base.{
  ℕ, zero, suc, ◌+◌, ◌*◌, ◌^◌, String, Bool, true, false, ◌||◌, List, [], ◌∷◌, Option, none, some,
  if◌then◌else◌, ltb, leb, ℤ, pos, negsuc, Result, ok, err, Check, AppError, ◌>>◌,
}
use project_management.Outbox.Notice.{
  NotificationMessage, NoticeItem, Notices, Codec, validate_outbox_identity, claim, mark_sent,
  mark_retry,
}

-- What one turn of the loop meets: the times since the start, the state of the context, the answers of the
-- licence check before the claim, after it and after the publication, and those of the platform.
pub record Turn : Type 0 where
  pub elapsed : ℕ
  pub context : Check
  pub licence_before : Check
  pub claimed_after : ℕ
  pub licence_claimed : Check
  pub publish : NotificationMessage → Bool
  pub licence_published : Check
  pub published_after : ℕ

-- How a turn ends: the loop stops, with an error or without one, or goes on, after a message was sent or not.
pub data Ending : Type 0 where
  stops : Option AppError → Notices → Ending
  goes_on : Bool → Notices → Ending

-- The answer of the call
pub record Run : Type 0 where
  pub sent : ℕ
  pub failure : Option AppError
  pub notices : Notices

abbrev pub minute : ℕ
minute = 60000000000

-- `item.RetryCount+1 >= 12`
abbrev pub is_dead : ℕ → Bool
is_dead retries = leb 12 (suc retries)

unfoldable pub backoff : ℕ → ℕ
backoff retries = 2 ^ min retries 8 * minute

abbrev pub marked : Bool → Notices → Result Notices → Ending
marked sent before (err e) = stops (some e) before
marked sent before (ok after) = goes_on sent after

-- From the answer of the platform to the end of the turn
unfoldable pub acknowledge : String → String → ℕ → NoticeItem → Bool → Notices → Ending
acknowledge tenant worker now item true notices =
    marked true notices (mark_sent tenant item.id worker now notices)
acknowledge tenant worker now item false notices = marked false notices (
    mark_retry tenant item.id worker now (now + backoff item.retry_count) (is_dead item.retry_count)
      notices)

-- From the claim to the end of the turn
unfoldable pub publish_first :
    String → String → ℕ → Turn → Result (List NoticeItem) → Notices → Ending
publish_first tenant worker now turn (err e) notices = stops (some e) notices
publish_first tenant worker now turn (ok []) notices = stops none notices
publish_first tenant worker now turn (ok (item ∷ items)) notices =
    elim (turn.licence_claimed >> turn.licence_published) [
      | err e ↦ stops (some e) notices
      | ok _ ↦
          acknowledge tenant worker (now + turn.published_after) item (turn.publish item.message)
            notices
    ]

-- The body of the loop
unfoldable pub one_turn : Codec → String → String → ℕ → Turn → Notices → Ending
one_turn codec tenant worker now turn notices =
    if leb (4 * minute) turn.elapsed
    then stops none notices
    else elim (turn.context >> turn.licence_before) [
      | err e ↦ stops (some e) notices
      | ok _ ↦
          let (items, after) =
            claim codec tenant worker (pos 1) (now + turn.claimed_after) notices in
          publish_first tenant worker now turn items after
    ]

abbrev pub count_sent : Bool → ℕ → ℕ
count_sent true n = suc n
count_sent false n = n

-- The loop: `left` turns are left, `turns` gives what each of them meets.
unfoldable pub dispatch_loop : Codec → String → String → ℕ → (ℕ → Turn) → ℕ → ℕ → ℕ → Notices → Run
dispatch_loop codec tenant worker now turns zero processed sent notices = record {
  sent = sent;
  failure = none;
  notices = notices;
}
dispatch_loop codec tenant worker now turns (suc left) processed sent notices =
    elim (one_turn codec tenant worker now (turns processed) notices) [
      | stops failure after ↦ record { sent = sent; failure = failure; notices = after }
      | goes_on one after ↦
          dispatch_loop codec tenant worker now turns left (suc processed) (count_sent one sent)
            after
    ]

abbrev pub turn_limit : ℤ → ℕ
turn_limit (pos n) = if ltb n 1 || ltb 50 n then 50 else n
turn_limit (negsuc _) = 50

-- `DispatchNotificationOutbox`
unfoldable pub dispatch : Codec → String → String → ℤ → ℕ → Check → (ℕ → Turn) → Notices → Run
dispatch codec tenant worker limit now licence turns notices =
    elim (validate_outbox_identity tenant worker >> licence) [
      | err e ↦ record { sent = 0; failure = some e; notices = notices }
      | ok _ ↦ dispatch_loop codec tenant worker now turns (turn_limit limit) 0 0 notices
    ]
