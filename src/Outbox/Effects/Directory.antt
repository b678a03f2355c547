-- ===== src/Outbox/Effects/Directory.antt =====
-- internal/application/delivery_effects.go `deliveryRoleRecipients`: what an answer says of the directory.
use project_management.Base.{ℕ, ◌+◌, ◌<◌, ◌≡◌, String, false, List, Option, All}
use project_management.Outbox.Effects.{DirectoryPage, Found, is_unexpected}
use project_management.Outbox.Effects.People.{Pages, Grows, Good}

-- What the pages of a role from a number on leave.
record Walked (list : ℕ → Option DirectoryPage) (expected : Option ℕ) (number : ℕ)
    (before after : Found) : Type 0 where
  good : Good before.recipients → Good after.recipients
  grows : Grows before.recipients after.recipients
  pages :
      (total : ℕ) × (met : ℕ) × (is_unexpected expected total ≡ false)
      × Pages list after.recipients total number met
      × (met + before.resolved ≡ total)
      × (after.resolved ≡ total)

-- All pages of the role were read, the people on them are the total that each page names, at least one,
-- and everyone of them is a recipient.
abbrev pub Covered : (String → ℕ → Option DirectoryPage) → List String → String → Type 0
Covered list recipients role =
    (total : ℕ) × (0 < total) × Pages (list role) recipients total 1 total

-- What the loop over the roles leaves.
record Met (list : String → ℕ → Option DirectoryPage) (roles before after : List String)
    : Type 0 where
  good : Good before → Good after
  grows : Grows before after
  covered : All (Covered list after) roles
