-- ===== src/Delivery/EquipmentLocks.antt =====
-- internal/infrastructure/mysql/delivery_events.go: the devices that a transaction locks before it
-- changes reservations, and how they are found again.
use project_management.Base.{
  String, Bool, ◌||◌, List, [], ◌∷◌, ◌++◌, map, Option, none, some, any, find, if◌then◌else◌,
  is_empty, str_eq, trim_space, filter, Result, ok, err, ◌>>=◌, storage,
}
use project_management.Delivery.Payload.{
  PlanResource, Value, null_value, other_number, text, number, texts, resources, files,
  service_items,
}
use project_management.Delivery.Schema.{ServiceItem, Reservation, Equipment}
use project_management.Delivery.Store.{Store, Platform, plan_of}

-- What the JSON of an equipment list decodes to.
abbrev pub resources_of : Value → Result (List PlanResource)
resources_of (resources rs) = ok rs
resources_of null_value = ok []
resources_of other_number = err storage
resources_of (text _) = err storage
resources_of (number _) = err storage
resources_of (texts []) = ok []
resources_of (texts (_ ∷ _)) = err storage
resources_of (files _) = ok []
resources_of (service_items _) = ok []

abbrev pub stored_resources : Option Value → Result (List PlanResource)
stored_resources none = ok []
stored_resources (some v) = resources_of v

-- The map that `lockEquipmentResources` returns, with its keys
abbrev pub Locked : Type 0
Locked = List (String × Equipment)

abbrev pub equipment_of : Platform → Store → String → Option Equipment
equipment_of platform store id = find (λ m. platform.same_resource m.resource_id id) store.equipment

-- The trimmed ids, each once, without the empty one.
abbrev lock_keys : List String → List String → List String
lock_keys seen [] = []
lock_keys seen (id ∷ ids) =
    let key = trim_space id in
    let skipped = lock_keys seen ids in
    let taken = key ∷ lock_keys (key ∷ seen) ids in
    if is_empty key || any (str_eq key) seen then skipped else taken

-- The key of a device that is locked together with others: its own id in small letters, not the one it
-- was asked for by.
abbrev by_own_id : Platform → Equipment → String × Equipment
by_own_id platform row = (platform.to_lower row.resource_id, row)

abbrev is_asked : Platform → List String → Equipment → Bool
is_asked platform keys row = any (platform.same_resource row.resource_id) keys

abbrev locked_rows : Platform → Store → List String → Locked
locked_rows platform store [] = []
locked_rows platform store (key ∷ []) = elim (equipment_of platform store key) [
  | none ↦ []
  | some row ↦ (platform.to_lower key, row) ∷ []
]
locked_rows platform store (key ∷ other ∷ keys) =
    map (by_own_id platform) (filter (is_asked platform (key ∷ other ∷ keys)) store.equipment)

-- `lockEquipmentResources`; the ids of the devices are a unique key of the table, so that no key of the
-- map is written twice.
unfoldable pub lock_equipment_resources : Platform → Store → List String → Locked
lock_equipment_resources platform store ids = locked_rows platform store (lock_keys [] ids)

abbrev planned_resources : Store → ServiceItem → Result (List PlanResource)
planned_resources store item = elim (plan_of store item.id) [
  | none ↦ ok []
  | some plan ↦ stored_resources plan.equipment
]

-- The ids that are locked: those of the plan, the incoming ones, and those of the reservations.
abbrev lock_ids : ServiceItem → List PlanResource → List Reservation → List String
lock_ids item rs rows =
    map (λ (r : PlanResource). r.resource_id) rs
    ++ map (λ (r : Reservation). r.resource_id)
        (filter (λ r. str_eq r.service_item_id item.id) rows)

-- `lockItemEquipment`
unfoldable pub lock_item_equipment :
    Platform → Store → ServiceItem → List PlanResource → Result Locked
lock_item_equipment platform store item incoming = planned_resources store item >>= λ planned. ok (
    lock_equipment_resources platform store
      (lock_ids item (planned ++ incoming) store.reservations))
