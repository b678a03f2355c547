-- ===== src/Outbox/Notice/Tests.antt =====
-- internal/application/delivery_outbox.go: the theorems at concrete tables.
use project_management.Base.{
  ℕ, ◌+◌, ◌≤◌, ◌<◌, ◌≡◌, ◌≢◌, refl, String, Bool, true, false, List, [], ◌∷◌, Option, none, some,
  All, any, arith, ℤ, pos, str_eq, str_eq_iff, ok, err, Check, Answers, Grown, ◌==◌, trim_space,
}
use project_management.Outbox.Notice.{
  NotificationMessage, NoticeRow, NoticeItem, Notices, Codec, enqueue, create_or_skip, claim,
  mark_sent, mark_retry, is_open, due_rows, is_due, message_row,
}
use project_management.Outbox.Notice.Dispatch.{Turn, Run, dispatch, turn_limit}
use project_management.Outbox.Notice.Life.{Lives, Budget}
use project_management.Outbox.Notice.Life.Claims.{KeyedRows}
use project_management.Outbox.Notice.Life.Turns.{dispatch-Life, dispatch-Budget, dispatch-closed}
use project_management.Outbox.Notice.Life.Marks.{count_of_sent}
use project_management.Outbox.Notice.Owners.{mark-refused}

abbrev message : NotificationMessage
message = record {
  event_id = "e1";
  event_type = "TEAM_ASSIGNED";
  scope = "CROSS_SYSTEM";
  priority = "NORMAL";
  title = "t";
  content = "c";
  reference_type = "service_item";
  reference_id = "SI-1";
  recipients = "u1" ∷ [];
  occurred_at = 5;
  idempotency_key = "";
}

abbrev codec : Codec
codec = record { encode = λ _. some "{}"; decode = λ _. some message }

abbrev waiting : NoticeRow
waiting = record (message_row "t" "e1" message "{}") { id = 1 }

abbrev notices : Notices
notices = record { rows = waiting ∷ []; next_id = 2 }

-- The key of the message falls back on the event; a second message with it is left out.
enqueues_once : enqueue codec "t" message (record { rows = []; next_id = 1 }) ≡ ok (true, notices)
unfolding enqueue create_or_skip trim_space
enqueues_once = refl

skips_twice : enqueue codec "t" message notices ≡ ok (false, notices)
unfolding enqueue create_or_skip trim_space
skips_twice = refl

abbrev turn : Turn
turn = record {
  elapsed = 0;
  context = ok tt;
  licence_before = ok tt;
  claimed_after = 1;
  licence_claimed = ok tt;
  publish = λ _. true;
  licence_published = ok tt;
  published_after = 2;
}

abbrev run : Run
run = dispatch codec "t" "w" (pos 3) 100 (ok tt) (λ _. turn) notices

dispatch-Life_example :
    Grown Lives notices.rows run.notices.rows
    × KeyedRows run.notices.rows
    × (count_of_sent run.notices ≡ count_of_sent notices + run.sent)
    × (run.sent ≤ turn_limit (pos 3))
dispatch-Life_example = dispatch-Life codec "t" "w" (pos 3) 100 (ok tt) (λ _. turn) notices (tt, tt)

dispatch-Budget_example : Grown (λ x y. Budget y.status y.retry_count) notices.rows run.notices.rows
dispatch-Budget_example =
    dispatch-Budget codec "t" "w" (pos 3) 100 (ok tt) (λ _. turn) notices (tt, tt)
      (record { left = λ o. omega arith; used = λ e. cc }, tt)

dispatch-closed_example :
    Grown
      (λ x y. is_open x.status ≡ false → (y.status ≡ x.status) × (y.retry_count ≡ x.retry_count))
      notices.rows
      run.notices.rows
dispatch-closed_example =
    dispatch-closed codec "t" "w" (pos 3) 100 (ok tt) (λ _. turn) notices (tt, tt)

abbrev item : NoticeItem
item = record { id = 1; message = record message { idempotency_key = "e1" }; retry_count = 0 }

mark-refused_example :
    Answers (λ _. ⊥) (mark_sent "t" 1 "w1" 60 (claim codec "t" "w2" (pos 1) 50 notices).1)
    × Answers
        (λ _. ⊥)
        (mark_retry "t" 1 "w1" 60 90 false (claim codec "t" "w2" (pos 1) 50 notices).1)
unfolding claim due_rows is_due trim_space project_management.Base.sort_by
    project_management.Base.insert_by
mark-refused_example =
    mark-refused codec "t" "w1" "w2" (pos 1) 50 1 60 90 false notices {items = item ∷ []}
      (λ e. let same : false ≡ true = (str_eq_iff "w1" "w2").1 e in cc) refl refl
