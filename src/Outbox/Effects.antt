-- ===== src/Outbox/Effects.antt =====
-- internal/application/delivery_effects.go: who receives a notification to a role, and the parts of a long
-- list of recipients.
pub mod People
pub mod Directory
pub mod Parts
mod Tests
use Prim.Native.String.{◌++◌}
use project_management.Base.Text.Decimal.{decimal}
use project_management.Base.{
  ℕ, zero, suc, ◌+◌, ◌*◌, String, Bool, true, false, ◌||◌, not, List, [], ◌∷◌, Option, none, some,
  any, if◌then◌else◌, is_empty, str_eq, ltb, leb, ◌==◌, length, take, trim_space, byte_length, ℤ,
  pos, negsuc,
}
use project_management.Outbox.Notice.{NotificationMessage}

-- internal/platform/owner_directory.go `OwnerDirectoryPage`, of each person the user's id
pub record DirectoryPage : Type 0 where
  pub items : List String
  pub page : ℤ
  pub page_size : ℤ
  pub total : ℤ

abbrev pub page_size : ℕ
page_size = 50

-- What is known so far: the recipients, those of this role, and their number.
pub record Found : Type 0 where
  pub recipients : List String
  pub role_seen : List String
  pub resolved : ℕ

abbrev pub is_recorded : List String → String → Bool
is_recorded list id = any (str_eq id) list

abbrev pub is_bad_id : String → Bool
is_bad_id id = is_empty id || ltb 26 (byte_length id)

abbrev pub snoc : List String → String → List String
snoc [] x = x ∷ []
snoc (y ∷ ys) x = y ∷ snoc ys x

abbrev pub with_person : String → Found → Found
with_person id found = record {
  recipients =
      if is_recorded found.recipients id then found.recipients else snoc found.recipients id;
  role_seen = id ∷ found.role_seen;
  resolved = suc found.resolved;
}

-- The loop over the people of a page; nothing stands for ErrPersonnelUnavailable.
unfoldable pub add_people : List String → Found → Option Found
add_people [] found = some found
add_people (person ∷ people) found =
    let id = trim_space person in
    let rest = add_people people (with_person id found) in
    if is_bad_id id then none else if is_recorded found.role_seen id then none else rest

abbrev pub is_number : ℕ → ℤ → Bool
is_number n (pos m) = m == n
is_number n (negsuc m) = false

abbrev pub total_of : ℤ → Option ℕ
total_of (pos n) = some n
total_of (negsuc _) = none

-- The checks of a page: its total, if it is the page that was asked for and has not too many people
abbrev pub check_page : ℕ → DirectoryPage → Option ℕ
check_page number page =
    if not (is_number number page.page)
      || not (is_number page_size page.page_size)
      || ltb page_size (length page.items)
    then none
    else total_of page.total

-- `page.Total != expectedTotal`, once a total is expected
abbrev pub is_unexpected : Option ℕ → ℕ → Bool
is_unexpected none total = false
is_unexpected (some expected) total = not (total == expected)

-- The pages of a role from a number on; `left` more of them may be asked for.
unfoldable pub role_pages : (ℕ → Option DirectoryPage) → ℕ → ℕ → Option ℕ → Found → Option Found
role_pages list zero number expected found = none
role_pages list (suc left) number expected found = elim (list number) [
  | none ↦ none
  | some page ↦ elim (check_page number page) [
    | none ↦ none
    | some total ↦
        if is_unexpected expected total then none else elim (add_people page.items found) [
          | none ↦ none
          | some more ↦
              if leb total (number * page_size)
              then (if more.resolved == total then some more else none)
              else elim page.items [
                | [] ↦ none
                | _ ∷ _ ↦ role_pages list left (suc number) (some total) more
              ]
        ]
  ]
]

abbrev pub page_limit : ℕ
page_limit = 10000

abbrev pub fresh_role : List String → Found
fresh_role recipients = record { recipients = recipients; role_seen = []; resolved = 0 }

-- `uniqueStrings`
abbrev pub unique_from : List String → List String → List String
unique_from seen [] = []
unique_from seen (x ∷ xs) =
    let skipped = unique_from seen xs in
    let taken = x ∷ unique_from (x ∷ seen) xs in if is_recorded seen x then skipped else taken

-- The loop over the roles
unfoldable pub roles_recipients :
    (String → ℕ → Option DirectoryPage) → List String → List String → Option (List String)
roles_recipients list [] recipients = some recipients
roles_recipients list (role ∷ roles) recipients =
    elim (role_pages (list role) page_limit 1 none (fresh_role recipients)) [
      | none ↦ none
      | some found ↦
          if found.resolved == 0 then none else roles_recipients list roles found.recipients
    ]

-- `deliveryRoleRecipients`, with a directory
unfoldable pub delivery_role_recipients :
    (String → ℕ → Option DirectoryPage) → List String → Option (List String)
delivery_role_recipients list roles = roles_recipients list (unique_from [] roles) []

abbrev pub part_size : ℕ
part_size = 500

abbrev pub drop : ℕ → List String → List String
drop zero xs = xs
drop (suc n) [] = []
drop (suc n) (x ∷ xs) = drop n xs

abbrev pub part : NotificationMessage → ℕ → List String → NotificationMessage
part message number recipients = record message {
  recipients = recipients;
  event_id = message.event_id ++ "-" ++ decimal number;
  idempotency_key = message.idempotency_key ++ "-part-" ++ decimal number;
}

-- The loop over the parts: `left` bounds the recipients that are left.
unfoldable pub parts : NotificationMessage → ℕ → ℕ → List String → List NotificationMessage
parts message zero number recipients = []
parts message (suc left) number [] = []
parts message (suc left) number (r ∷ recipients) =
    part message number (take part_size (r ∷ recipients))
    ∷ parts message left (suc number) (drop part_size (r ∷ recipients))

-- One message of the last loop of `buildDeliveryEffects`
unfoldable pub batched : NotificationMessage → List NotificationMessage
batched message =
    if leb (length message.recipients) part_size
    then message ∷ []
    else parts message (length message.recipients) 1 message.recipients
