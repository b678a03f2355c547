-- ===== src/Delivery/Equipment/Schedule.antt =====
-- internal/infrastructure/mysql/delivery_events.go `syncEquipmentReservations`: the reservations that a
-- plan of devices leaves.
use project_management.Base.{
  ℕ, zero, suc, ◌+◌, ◌-◌, ◌≡◌, refl, ◌∙◌, true, false, Bool, ◌||◌, ◌&&◌, not, String, List, [], ◌∷◌,
  All, any, filter, inl, inr, Bool-cases, Option, none, some, Option-cases, Result, ok, err,
  Answers, Answers-ok, guard, after, is_empty, trim_space, ◌==◌, leb, ltb, lookup, str_eq,
  str_eq_iff, arith, refused, >>=-eq-ok,
}
use project_management.Delivery.Payload.{PlanResource, Value, json_bytes}
use project_management.Delivery.Schema.{ServiceItem, DeliveryEvent, Reservation, Equipment}
use project_management.Delivery.Store.{Store, Platform}
use project_management.Delivery.EquipmentLocks.{Locked, resources_of, lock_item_equipment}
use project_management.Delivery.Equipment.{
  delete_reservation_rows, reserved, reserve_days, equipment_window, is_lendable, reserve_one,
  reserve_all, sync_equipment_reservations,
}

abbrev pub booked_by : ServiceItem → String → ℕ → Reservation → Bool
booked_by item device day r =
    str_eq r.service_item_id item.id && str_eq r.resource_id device && r.use_date == day

abbrev pub is_other : ServiceItem → Reservation → Bool
is_other item r = not (str_eq r.service_item_id item.id)

-- A device of the plan that is named, and not returned yet.
abbrev pub is_used : PlanResource → Bool
is_used r = is_empty (trim_space r.returned_at) && not (is_empty (trim_space r.resource_id))

abbrev pub locked_device : Platform → Locked → PlanResource → Option Equipment
locked_device platform locked r = lookup (platform.to_lower (trim_space r.resource_id)) locked

abbrev pub is_device : String → Option Equipment → Bool
is_device device none = false
is_device device (some master) = str_eq master.resource_id device

abbrev pub is_within : ℕ → Result (ℕ × ℕ) → Bool
is_within day (err _) = false
is_within day (ok window) = leb window.0 day && leb day window.1

-- The resource asks for the device on the day.
abbrev pub asks : Platform → Locked → ServiceItem → String → ℕ → PlanResource → Bool
asks platform locked item device day r =
    is_used r
    && is_device device (locked_device platform locked r)
    && is_within day (equipment_window platform item r)

-- What is asked of a resource that is used: a window, and a locked device that is on loan throughout it.
abbrev pub Fit : Platform → Locked → ServiceItem → PlanResource → Type 0
Fit platform locked item r =
    is_used r ≡ true
    → (window : ℕ × ℕ) × (master : Equipment) × (equipment_window platform item r ≡ ok window)
      × (locked_device platform locked r ≡ some master)
      × (is_lendable master window.0 window.1 ≡ true)

-- The reservations of the item grow by those of `hits`, and those of other items stay.
record Grew (item : ServiceItem) (hits : String → ℕ → Bool) (before after : List Reservation)
    : Type 0 where
  exact :
      (device : String) (day : ℕ)
      → any (booked_by item device day) after
        ≡ (hits device day || any (booked_by item device day) before)
  others : filter (is_other item) after ≡ filter (is_other item) before

abbrev reservation : ServiceItem → DeliveryEvent → Equipment → ℕ × ℕ → ℕ → Reservation
reservation item event master window day = record {
  resource_id = master.resource_id;
  use_date = day;
  service_item_id = item.id;
  window_start = window.0;
  window_end = window.1;
  created_at = event.created_at;
}

own : (item : ServiceItem) → str_eq item.id item.id ≡ true
own item = (str_eq_iff item.id item.id).1 refl

Answers-map :
    {A : Type 0} (P Q : A → Type 0) (m : Result A)
    → ((a : A) → P a → Q a)
    → Answers P m
    → Answers Q m
Answers-map P Q (ok a) f h = f a h
Answers-map P Q (err e) f h = tt

-- One more day in front of the rows.
day-Grew :
    (item : ServiceItem) (event : DeliveryEvent) (master : Equipment) (window : ℕ × ℕ)
    (day left : ℕ) (rows after : List Reservation)
    → Grew item
        (λ device d. str_eq master.resource_id device && leb (suc day) d && ltb d (suc day + left))
        (reservation item event master window day ∷ rows)
        after
    → Grew item
        (λ device d. str_eq master.resource_id device && leb day d && ltb d (day + suc left))
        rows
        after
day-Grew item event master window day left rows after g = record {
  exact = λ device d. ground (arith, g.exact device d, own item);
  others = ground (arith, g.others, own item);
}

days-Grew :
    (platform : Platform) (item : ServiceItem) (event : DeliveryEvent) (master : Equipment)
    (window : ℕ × ℕ) (day left : ℕ) (rows : List Reservation)
    → Answers
        (Grew item
          (λ device d. str_eq master.resource_id device && leb day d && ltb d (day + left))
          rows)
        (reserve_days platform item event master window day left rows)
unfolding reserve_days
days-Grew platform item event master window day zero rows = record {
  exact = λ device d. ground arith;
  others = refl;
}
days-Grew platform item event master window day (suc left) rows =
    guard _ (reserved platform master.resource_id day rows) _ _ λ free.
      Answers-map _ _
        (reserve_days platform item event master window (suc day) left
          (reservation item event master window day ∷ rows))
        (λ after g. day-Grew item event master window day left rows after g)
        (days-Grew platform item event master window (suc day) left
          (reservation item event master window day ∷ rows))

not-false : {b : Bool} → not b ≡ false → b ≡ true
not-false {b = true} e = refl
not-false {b = false} e = cc

one-Grew :
    (platform : Platform) (locked : Locked) (item : ServiceItem) (event : DeliveryEvent)
    (r : PlanResource) (rows : List Reservation)
    → Answers
        (λ rows'.
          Fit platform locked item r
          × Grew item (λ device d. asks platform locked item device d r) rows rows')
        (reserve_one platform locked item event r rows)
one-Grew platform locked item event r rows =
    elim (Bool-cases
      (not (is_empty (trim_space r.returned_at)) || is_empty (trim_space r.resource_id))) [
        | inl e ↦ rw e (unused-Grew e)
        | inr e ↦ rw e (
            after _ (equipment_window platform item r) _ λ window timed.
              elim (Option-cases (locked_device platform locked r)) [
                | inl absent ↦ rw (absent, Answers) tt
                | inr (master, found) ↦
                    rw (found, Answers)
                      (guard _ (not (is_lendable master window.0 window.1)) _ _ λ lent.
                        Answers-map _ _
                          (reserve_days platform item event master window window.0
                            (suc window.1 - window.0) rows)
                          (λ left g. used-Grew window master left e timed found lent g)
                          (days-Grew platform item event master window window.0
                            (suc window.1 - window.0) rows))
              ])
      ]
  where
    unused-Grew :
        (not (is_empty (trim_space r.returned_at)) || is_empty (trim_space r.resource_id)) ≡ true
        → Fit platform locked item r
          × Grew item (λ device d. asks platform locked item device d r) rows rows
    unused-Grew e =
        (λ used. absurd (ground arith), record { exact = λ device d. ground arith; others = refl })

    used-Grew :
        (window : ℕ × ℕ) (master : Equipment) (left : List Reservation)
        → (not (is_empty (trim_space r.returned_at)) || is_empty (trim_space r.resource_id)) ≡ false
        → equipment_window platform item r ≡ ok window
        → locked_device platform locked r ≡ some master
        → not (is_lendable master window.0 window.1) ≡ false
        → Grew item
            (λ device d.
              str_eq master.resource_id device
              && leb window.0 d
              && ltb d (window.0 + (suc window.1 - window.0)))
            rows
            left
        → Fit platform locked item r
          × Grew item (λ device d. asks platform locked item device d r) rows left
    used-Grew window master left e timed found lent g = (
      λ used. (window, master, timed, found, not-false lent),
      record {
        exact = λ device d. rw (found, timed) (ground (arith, g.exact device d));
        others = g.others;
      },
    )

all-Grew :
    (platform : Platform) (locked : Locked) (item : ServiceItem) (event : DeliveryEvent)
    (rs : List PlanResource) (rows : List Reservation)
    → Answers
        (λ rows'.
          All (Fit platform locked item) rs
          × Grew item (λ device d. any (asks platform locked item device d) rs) rows rows')
        (reserve_all platform locked item event rs rows)
unfolding reserve_all
all-Grew platform locked item event [] rows =
    (tt, record { exact = λ device d. refl; others = refl })
all-Grew platform locked item event (r ∷ rs) rows =
    after _ (reserve_one platform locked item event r rows) _ λ rows' d.
      let one =
        Answers-ok _ (reserve_one platform locked item event r rows) d
          (one-Grew platform locked item event r rows) in
      Answers-map _ _ (reserve_all platform locked item event rs rows')
        (λ left (fits, g). (
          (one.0, fits),
          record {
            exact = λ device day. ground (arith, g.exact device day, one.1.exact device day);
            others = g.others ∙ one.1.others;
          },
        ))
        (all-Grew platform locked item event rs rows')

deleted-none :
    (platform : Platform) (item : ServiceItem) (rows : List Reservation) (device : String) (day : ℕ)
    → any (booked_by item device day) (delete_reservation_rows platform item "" rows) ≡ false
unfolding delete_reservation_rows
deleted-none platform item [] device day = refl
deleted-none platform item (r ∷ rows) device day =
    elim (Bool-cases (str_eq r.service_item_id item.id)) [
      | inl e ↦ rw e (deleted-none platform item rows device day)
      | inr e ↦ rw (e, e) (deleted-none platform item rows device day)
    ]

deleted-others :
    (platform : Platform) (item : ServiceItem) (rows : List Reservation)
    → filter (is_other item) (delete_reservation_rows platform item "" rows)
      ≡ filter (is_other item) rows
unfolding delete_reservation_rows
deleted-others platform item [] = refl
deleted-others platform item (r ∷ rows) = elim (Bool-cases (str_eq r.service_item_id item.id)) [
  | inl e ↦ rw e (deleted-others platform item rows)
  | inr e ↦ rw (e, e) (cc (deleted-others platform item rows))
]

-- What an accepted synchronisation leaves.
pub record Scheduled (platform : Platform) (store : Store) (item : ServiceItem)
    (event : DeliveryEvent) (rows : List Reservation) : Type 0 where
  -- the devices of the event
  pub wanted : List PlanResource
  pub sent :
      (v : Value) × (json_bytes event.payload "equipment" ≡ some v) × (resources_of v ≡ ok wanted)
  pub locked : Locked
  pub taken : lock_item_equipment platform store item wanted ≡ ok locked
  pub fits : All (Fit platform locked item) wanted
  pub exact :
      (device : String) (day : ℕ)
      → any (booked_by item device day) rows ≡ any (asks platform locked item device day) wanted
  pub others : filter (is_other item) rows ≡ filter (is_other item) store.reservations

-- An accepted synchronisation leaves for the item the reservations that the event asks for, and no other:
-- a device is reserved for it on a day exactly if some device of the event, named and not returned, is that
-- one among the locked devices and has the day in its window; each of these has a window and is a locked
-- device that is on loan throughout it; and the reservations of other items are as before.
pub sync_equipment_reservations-Scheduled :
    (platform : Platform) (store : Store) (item : ServiceItem) (event : DeliveryEvent)
    {rows : List Reservation}
    → sync_equipment_reservations platform store item event ≡ ok rows
    → Scheduled platform store item event rows
unfolding sync_equipment_reservations
sync_equipment_reservations-Scheduled platform store item event {rows = rows} h =
    elim (Option-cases (json_bytes event.payload "equipment")) [
      | inl e ↦ refused (rw (e, sync_equipment_reservations) at h)
      | inr (v, e) ↦
          let (wanted, read, h1) =
            >>=-eq-ok (resources_of v) _ (rw (e, sync_equipment_reservations) at h) in
          let (locked, taken, h2) =
            >>=-eq-ok (lock_item_equipment platform store item wanted)
              (λ locked.
                reserve_all platform locked item event wanted
                  (delete_reservation_rows platform item "" store.reservations))
              h1 in
          let before = delete_reservation_rows platform item "" store.reservations in
          let (fits, g) =
            Answers-ok _ (reserve_all platform locked item event wanted before) h2
              (all-Grew platform locked item event wanted before) in
          record {
            wanted = wanted;
            sent = (v, e, read);
            locked = locked;
            taken = taken;
            fits = fits;
            exact = λ device day. ground (
              arith,
              g.exact device day,
              deleted-none platform item store.reservations device day,
            );
            others = g.others ∙ deleted-others platform item store.reservations;
          }
    ]
