-- ===== src/Delivery/Equipment.antt =====
-- internal/infrastructure/mysql/delivery_events.go: the devices of a plan and their daily
-- reservations (pm_equipment_reservation). Row locks are left out: one transaction runs at a time.
pub mod Schedule
use project_management.Base.{
  ℕ, zero, suc, ◌+◌, ◌-◌, ◌/◌, ◌==◌, String, Bool, true, ◌&&◌, ◌||◌, not, List, [], ◌∷◌, ◌++◌, map,
  Option, none, some, any, find, if◌then◌else◌, is_empty, str_eq, trim_space, filter, ltb,
  update_where, lookup, Result, ok, err, ◌>>=◌, ◌>>◌, refuse_if, validation, conflict, storage,
  not_found,
}
use project_management.Delivery.Payload.{
  PlanResource, Value, null_value, other_number, text, number, texts, resources, files,
  service_items, string_value, json_bytes,
}
use project_management.Delivery.Schema.{ServiceItem, Reservation, Equipment, DeliveryEvent}
use project_management.Delivery.Store.{Store, Platform, plan_of}
use project_management.Delivery.EquipmentLocks.{
  Locked, resources_of, stored_resources, equipment_of, lock_item_equipment,
}

-- `businessclock.CalendarDay`: the day in Beijing (UTC+8) of a time in nanoseconds
abbrev pub calendar_day : ℕ → ℕ
calendar_day t = (t + 28800000000000) / 86400000000000

-- `deleteEquipmentReservationRows`; "" stands for every device
unfoldable pub delete_reservation_rows :
    Platform → ServiceItem → String → List Reservation → List Reservation
delete_reservation_rows platform item resource_id rows =
    filter
      (λ r. not (
        str_eq r.service_item_id item.id
        && (is_empty resource_id || platform.same_resource r.resource_id resource_id)))
      rows

-- `equipmentWindow`: the first and the last day of use
unfoldable pub equipment_window : Platform → ServiceItem → PlanResource → Result (ℕ × ℕ)
equipment_window platform item resource =
    let start_text = trim_space resource.window_start in
    let end_text = trim_space resource.window_end in
    if is_empty start_text || is_empty end_text
    then elim item.planned_start [
      | none ↦ err validation
      | some start ↦ elim item.planned_end [
        | none ↦ err validation
        | some end ↦ ok (calendar_day start, calendar_day end)
      ]
    ]
    else elim (platform.parse_date start_text) [
      | none ↦ err validation
      | some start ↦ elim (platform.parse_date end_text) [
        | none ↦ err validation
        | some end ↦
            refuse_if (ltb end start || ltb 366 (end - start)) validation >> ok (start, end)
      ]
    ]

-- The device is on loan in the days from `start` to `end`: in service, not kept in the company, and
-- valid throughout.
abbrev pub is_lendable : Equipment → ℕ → ℕ → Bool
is_lendable master start end =
    str_eq master.status "ACTIVE"
    && not (str_eq master.usage_scope "COMPANY_ONLY")
    && elim master.valid_from [ none ↦ true | some from ↦ not (ltb start (calendar_day from)) ]
    && elim master.valid_until [ none ↦ true | some until ↦ not (ltb (calendar_day until) end) ]

abbrev pub reserved : Platform → String → ℕ → List Reservation → Bool
reserved platform resource_id day rows =
    any (λ r. platform.same_resource r.resource_id resource_id && r.use_date == day) rows

-- The loop over the days; a day that is taken is a duplicate of the primary key.
unfoldable pub reserve_days :
    Platform
    → ServiceItem
    → DeliveryEvent
    → Equipment
    → ℕ × ℕ
    → ℕ
    → ℕ
    → List Reservation
    → Result (List Reservation)
reserve_days platform item event master window day zero rows = ok rows
reserve_days platform item event master window day (suc left) rows =
    refuse_if (reserved platform master.resource_id day rows) conflict
    >> reserve_days platform item event master window (suc day) left (
        record {
          resource_id = master.resource_id;
          use_date = day;
          service_item_id = item.id;
          window_start = window.0;
          window_end = window.1;
          created_at = event.created_at;
        }
        ∷ rows)

abbrev pub reserve_resource :
    Platform
    → Locked
    → ServiceItem
    → DeliveryEvent
    → PlanResource
    → List Reservation
    → Result (List Reservation)
reserve_resource platform locked item event resource rows =
    equipment_window platform item resource >>= λ (start, end).
    elim (lookup (platform.to_lower (trim_space resource.resource_id)) locked) [
      | none ↦ err conflict
      | some master ↦
          refuse_if (not (is_lendable master start end)) conflict
          >> reserve_days platform item event master (start, end) start (suc end - start) rows
    ]

-- One round of the loop over the devices: what is returned, or names no device, is skipped.
abbrev pub reserve_one :
    Platform
    → Locked
    → ServiceItem
    → DeliveryEvent
    → PlanResource
    → List Reservation
    → Result (List Reservation)
reserve_one platform locked item event resource rows =
    if not (is_empty (trim_space resource.returned_at))
      || is_empty (trim_space resource.resource_id)
    then ok rows
    else reserve_resource platform locked item event resource rows

unfoldable pub reserve_all :
    Platform
    → Locked
    → ServiceItem
    → DeliveryEvent
    → List PlanResource
    → List Reservation
    → Result (List Reservation)
reserve_all platform locked item event [] rows = ok rows
reserve_all platform locked item event (resource ∷ rest) rows =
    reserve_one platform locked item event resource rows >>= λ rows'.
    reserve_all platform locked item event rest rows'

-- `syncEquipmentReservations`
unfoldable pub sync_equipment_reservations :
    Platform → Store → ServiceItem → DeliveryEvent → Result (List Reservation)
sync_equipment_reservations platform store item event =
    elim (json_bytes event.payload "equipment") [
      | none ↦ err validation
      | some v ↦ resources_of v >>= λ rs. lock_item_equipment platform store item rs >>= λ locked.
          reserve_all platform locked item event rs
            (delete_reservation_rows platform item "" store.reservations)
    ]

abbrev pub is_out : Equipment → PlanResource → Bool
is_out master resource =
    str_eq resource.resource_id master.resource_id && is_empty (trim_space resource.returned_at)

abbrev return_resource : Platform → DeliveryEvent → Equipment → PlanResource → PlanResource
return_resource platform event master resource =
    if is_out master resource
    then record resource { returned_at = platform.format_time event.created_at }
    else resource

abbrev pub is_locked : Equipment → Locked → Bool
is_locked master locked = any (λ (_, row). str_eq row.id master.id) locked

abbrev pub return_on_plan :
    Platform
    → Store
    → ServiceItem
    → DeliveryEvent
    → Locked
    → Equipment
    → List PlanResource
    → Result Store
return_on_plan platform store item event locked master rs =
    if not (any (is_out master) rs)
    then ok store
    else refuse_if (not (is_locked master locked)) conflict
      >> ok (record store {
        plans =
            update_where (λ p. str_eq p.service_item_id item.id)
              (λ p. record p {
                equipment = some (resources (map (return_resource platform event master) rs));
                updated_at = event.created_at;
                updated_by = event.actor_user_id;
              })
              store.plans;
        reservations = delete_reservation_rows platform item master.resource_id store.reservations;
      })

-- `markEquipmentReturned`
unfoldable pub mark_equipment_returned :
    Platform → Store → ServiceItem → DeliveryEvent → Result Store
mark_equipment_returned platform store item event =
    let resource_id = trim_space (string_value event.payload "resource_id") in
    refuse_if (is_empty resource_id) validation
    >> lock_item_equipment platform store item []
    >>= λ locked. elim (equipment_of platform store resource_id) [
      | none ↦ ok store
      | some master ↦ elim (plan_of store item.id) [
        | none ↦ err not_found
        | some plan ↦
            stored_resources plan.equipment
            >>= return_on_plan platform store item event locked master
      ]
    ]
