-- ===== src/Delivery/Serial.antt =====
-- internal/infrastructure/mysql/delivery_events.go: the numbers at the end of the ids of service items.
use Prim.Native.String.{◌++◌}
use Prim.Native.String.append
use project_management.Base.{
  ℕ, ◌≤◌, ◌<◌, ◌≡◌, refl, ◌≢◌, sym, ap, ◌∙◌, String, List, [], ◌∷◌, none, some, All, All-map, ltb,
  if◌then◌else◌, trim_space, arith,
}
use project_management.Base.Text.Decimal.{padded_decimal, atoi}
use project_management.Base.Text.Serial.{trim_prefix, last_part, serial_read}
use project_management.Delivery.Schema.{ServiceItem}

-- The greatest `int`
abbrev pub max_int : ℕ
max_int = 9223372036854775807

-- `serviceItemIDFor`
unfoldable pub service_item_id_for : String → ℕ → String
service_item_id_for project_id sequence =
    "SI-" ++ (trim_prefix project_id "PJ-" ++ String.◌∷◌ "-" (padded_decimal sequence))

-- `serviceItemSequence`; the last part holds no sign, so the number is not negative.
unfoldable pub service_item_sequence : String → ℕ
service_item_sequence item_id = elim (atoi (last_part (trim_space item_id))) [
  | none ↦ 0
  | some sequence ↦ sequence
]

-- The loop over the old items.
unfoldable pub max_sequence : List ServiceItem → ℕ → ℕ
max_sequence [] highest = highest
max_sequence (old ∷ olds) highest =
    max_sequence olds
      (if ltb highest (service_item_sequence old.id) then service_item_sequence old.id else highest)

id_spread :
    (p t : String) → "SI-" ++ (p ++ t) ≡ String.◌∷◌ "S" (String.◌∷◌ "I" (String.◌∷◌ "-" p) ++ t)
id_spread p t =
    append.cons "S" "I-" (p ++ t)
    ∙ ap (String.◌∷◌ "S") (
        append.cons "I" "-" (p ++ t)
        ∙ ap (String.◌∷◌ "I")
            (append.cons "-" "" (p ++ t) ∙ ap (String.◌∷◌ "-") (append.nil (p ++ t)))
        ∙ sym (append.cons "I" (String.◌∷◌ "-" p) t ∙ ap (String.◌∷◌ "I") (append.cons "-" p t)))

sequence_read :
    (id : String) {n : ℕ} → atoi (last_part (trim_space id)) ≡ some n → service_item_sequence id ≡ n
unfolding service_item_sequence
sequence_read id e = rw (e, service_item_sequence) refl

-- The number of a generated id is read back, while it fits an `int`.
pub service_item_sequence-id_for :
    (project_id : String) (sequence : ℕ)
    → sequence ≤ max_int
    → service_item_sequence (service_item_id_for project_id sequence) ≡ sequence
unfolding service_item_id_for
service_item_sequence-id_for project_id sequence h =
    sequence_read (service_item_id_for project_id sequence) (
      ap (λ x. atoi (last_part (trim_space x)))
        (id_spread (trim_prefix project_id "PJ-") (String.◌∷◌ "-" (padded_decimal sequence)))
      ∙ serial_read (String.◌∷◌ "I" (String.◌∷◌ "-" (trim_prefix project_id "PJ-"))) sequence h)

max_sequence-le :
    (olds : List ServiceItem) (highest : ℕ)
    → (highest ≤ max_sequence olds highest)
      × All (λ old. service_item_sequence old.id ≤ max_sequence olds highest) olds
unfolding max_sequence
max_sequence-le [] highest = (omega arith, tt)
max_sequence-le (old ∷ olds) highest =
    let (kept, rest) = max_sequence-le olds (
      if ltb highest (service_item_sequence old.id)
      then service_item_sequence old.id
      else highest) in
    (ground (arith, kept), (ground (arith, kept), rest))

-- An id that is generated past the old items is none of theirs, whatever their ids look like.
pub service_item_id_for-fresh :
    (project_id : String) (olds : List ServiceItem) (sequence : ℕ)
    → max_sequence olds 0 < sequence
    → sequence ≤ max_int
    → All (λ old. old.id ≢ service_item_id_for project_id sequence) olds
service_item_id_for-fresh project_id olds sequence past h =
    All-map _ _ olds
      (λ old low e.
        let same =
          ap service_item_sequence e ∙ service_item_sequence-id_for project_id sequence h in
        omega (arith, same, low, past))
      (max_sequence-le olds 0).1
