-- ===== src/Outbox/Audit/Tests.antt =====
-- internal/auditoutbox: the theorems at concrete tables.
use project_management.Base.{
  ℕ, ◌+◌, ◌*◌, ◌≤◌, ◌<◌, ◌≡◌, refl, String, Bool, true, false, List, [], ◌∷◌, Option, none, some,
  All, any, arith, ℤ, pos, str_eq, str_eq_iff, length, ok, update_where,
}
use project_management.Outbox.Audit.{
  StoreConfig, Row, Entry, pending, processing, is_open, claim, claim_some, due_rows, is_due,
  lock_rows, lease_time,
}
use project_management.Outbox.Audit.Dispatch.{
  Dispatcher, backoff, doubled, second, deliver_once, batch_size,
}
use project_management.Outbox.Audit.Keys.{KeyedRows}
use project_management.Outbox.Audit.Steps.{creates, claims, Reach, empty, next, Sane, Reach-Sane}
use project_management.Outbox.Audit.Leases.{claim-exclusive}
use project_management.Outbox.Audit.Backoff.{backoff-bounds}
use project_management.Outbox.Audit.Drain.{is_settled, deliver_once-settles, deliver_once-drains}

abbrev config : StoreConfig
config = record { lease = pos 0; max_tries = 3; ip_text = λ _. "10.0.0.1" }

abbrev dispatcher : Dispatcher
dispatcher = record { batch_size = pos 0; max_backoff = pos 30000000000 }

abbrev row : String → ℕ → Row
row id at = record {
  id = id;
  tenant_id = "t";
  event_id = "e1";
  actor_id = some "u1";
  actor_type = "USER";
  action = "PROJECT_MANAGEMENT:PROJECT_UPDATED";
  resource_type = "project";
  resource_id = "PJ-1";
  request_id = none;
  login_ip = [];
  client_ip = 10 ∷ 0 ∷ 0 ∷ 1 ∷ [];
  ip_source = "SOCKET";
  result = "SUCCESS";
  delivery_status = pending;
  attempts = 0;
  next_attempt_at = at;
  locked_at = none;
  delivered_at = none;
  last_error = none;
  created_at = at;
}

abbrev two_rows : List Row
two_rows = row "b" 7 ∷ row "a" 7 ∷ []

apart : (row "a" 7).id ≡ (row "b" 7).id → ⊥
apart e = let same : false ≡ true = (str_eq_iff "a" "b").1 e in cc

abbrev reached : Reach config two_rows
unfolding apart
reached =
    next (next empty (creates (row "a" 7) refl refl refl tt))
      (creates (row "b" 7) refl refl refl (apart, tt))

abbrev claimed_table : List Row
unfolding claim claim_some due_rows is_due lock_rows lease_time
claimed_table = (claim config (pos 1) 9 two_rows).1

-- The row with the smaller key is taken first.
claims_first :
    (claim config (pos 1) 9 two_rows).1
    ≡ row "b" 7
      ∷ (record (row "a" 7) { delivery_status = processing; locked_at = some 9; attempts = 1 })
      ∷ []
unfolding claim claim_some due_rows is_due lock_rows lease_time project_management.Base.sort_by
    project_management.Base.insert_by
claims_first = refl

backoff_first : backoff dispatcher 1 ≡ second
unfolding backoff doubled
backoff_first = refl

backoff_capped : backoff dispatcher 9 ≡ 30 * second
unfolding backoff doubled
backoff_capped = refl

Reach-Sane_example :
    KeyedRows (claim config (pos 1) 9 two_rows).1
    × All (Sane config) (claim config (pos 1) 9 two_rows).1
Reach-Sane_example = Reach-Sane (next reached (claims (pos 1) 9))

claim-exclusive_example :
    All
      (λ e. any (λ (f : Entry). str_eq e.id f.id) (claim config (pos 1) 9 two_rows).0 ≡ false)
      (claim config (pos 5) 20 (claim config (pos 1) 9 two_rows).1).0
unfolding lease_time
claim-exclusive_example = claim-exclusive config (pos 1) (pos 5) 9 20 two_rows (omega arith)

backoff-bounds_example :
    (0 < backoff dispatcher 2)
    × (backoff dispatcher 2 ≤ 128 * second)
    × (backoff dispatcher 2 ≤ backoff dispatcher 5)
    × ((most : ℕ) → 0 < most → pos 30000000000 ≡ pos most → backoff dispatcher 2 ≤ most)
backoff-bounds_example = backoff-bounds dispatcher 2 5 (omega arith)

deliver_once-settles_example :
    All
      (λ r. is_settled 9 r ≡ true)
      (deliver_once config dispatcher (λ event. str_eq event.actor_id "u2") 9 two_rows)
unfolding batch_size is_due
deliver_once-settles_example =
    deliver_once-settles config dispatcher (λ event. str_eq event.actor_id "u2") 9 two_rows
      (omega arith) ((λ o. refl), ((λ o. refl), tt))

deliver_once-drains_example :
    All
      (λ r. is_open r.delivery_status ≡ false)
      (deliver_once config dispatcher (λ _. true) 9 two_rows)
unfolding batch_size
deliver_once-drains_example =
    deliver_once-drains config dispatcher (λ _. true) 9 reached (λ event. refl) (omega arith)
      ((λ o. omega arith), ((λ o. omega arith), tt)) ((λ at h. cc), ((λ at h. cc), tt))
