-- ===== src/Outbox/Effects/Tests.antt =====
-- internal/application/delivery_effects.go: the recipients of a role, at a concrete directory.
use project_management.Base.{
  ℕ, ◌≡◌, String, List, [], ◌∷◌, Option, none, some, All, pos, str_eq, if◌then◌else◌, zero, suc,
  ◌≤◌, length,
}
use project_management.Outbox.Effects.{DirectoryPage, batched, part_size}
use project_management.Outbox.Notice.{NotificationMessage}
use project_management.Outbox.Effects.Parts.{all_recipients, batched-recipients}

abbrev page : List String → ℕ → DirectoryPage
page items total = record { items = items; page = pos 1; page_size = pos 50; total = pos total }

abbrev directory : String → ℕ → Option DirectoryPage
directory role number =
    if str_eq role "lead"
    then some (page ("u1" ∷ " u2 " ∷ []) 2)
    else if str_eq role "manager"
    then some (page ("u2" ∷ []) 1)
    else none

abbrev people : ℕ → List String
people zero = []
people (suc n) = "u" ∷ people n

abbrev message : NotificationMessage
message = record {
  event_id = "e1";
  event_type = "AUTOMATION_TRIGGERED";
  scope = "CROSS_SYSTEM";
  priority = "NORMAL";
  title = "t";
  content = "c";
  reference_type = "project";
  reference_id = "PJ-1";
  recipients = people 501;
  occurred_at = 5;
  idempotency_key = "k";
}

batched-recipients_example :
    All (λ (m : NotificationMessage). length m.recipients ≤ part_size) (batched message)
    × (all_recipients (batched message) ≡ message.recipients)
batched-recipients_example = batched-recipients message
