-- ===== src/Delivery/Items/Runs.antt =====
-- internal/infrastructure/mysql/delivery_events.go `applyItemEvent`: the life of a service item over
-- any sequence of accepted events.
use project_management.Base.{
  ℕ, suc, ◌≤◌, ◌≡◌, refl, sym, ap, ◌∙◌, subst, ◌≢◌, ◌⊎◌, inl, inr, String, true, false, ◌∷◌, Option,
  some, All-map, Pointwise, Pointwise-refl, Pointwise-update, find-Pointwise, find-alone, str_eq,
  str_eq_iff, arith, ok, suc_ℤ, Option-cases, trim_space,
}
use project_management.Domain.Phase.{report_phase_rank}
use project_management.Domain.Status.{terminated}
use project_management.Delivery.Schema.{
  ServiceItem, DeliveryEvent, EventType, execution_team_assigned,
}
use project_management.Delivery.Store.{Store, Platform, item_of}
use project_management.Delivery.Change.{updated_item, is_same_version}
use project_management.Delivery.Items.{apply_item_event}
use project_management.Delivery.Items.Sound.{left, wrote, apply-Applied, apply_item_event-Ledger}
use project_management.Delivery.Payload.{expected_version_value}
use project_management.Delivery.Moves.{
  Moves, Sound, returns, plans, revokes_plan, prepares, revokes_preparation, starts, completes,
  deviates, reviews, rolls_back, reworks,
}
use project_management.Delivery.Report.Ledger.{Ledger}

-- How the row of the item changes under an event of a type.
pub record Advanced (type : EventType) (old new : ServiceItem) : Type 0 where
  pub same_id : new.id ≡ old.id
  pub next_version : new.version ≡ suc old.version
  pub next_status : (new.status ≡ old.status) ⊎ Moves type old.status new.status
  pub same_codes : type ≢ execution_team_assigned → new.required_codes ≡ old.required_codes
  pub next_phase :
      (new.report_status ≡ old.report_status)
      ⊎ (new.report_status ≡ "NONE")
      ⊎ (report_phase_rank new.report_status ≡ suc_ℤ (report_phase_rank old.report_status))

-- A row of the table under an accepted event on `item`: it stays as it is, unless it is the row of the
-- item itself.
abbrev pub Evolves : EventType → ServiceItem → ServiceItem → ServiceItem → Type 0
Evolves type item old new = (new ≡ old) ⊎ ((old ≡ item) × Advanced type old new)

updated-Advanced :
    (platform : Platform) (store written : Store) (item : ServiceItem) (event : DeliveryEvent)
    (status : Option String) (columns : ServiceItem → ServiceItem)
    → Sound platform event.event_type store item written status columns
    → Advanced event.event_type item (updated_item event status columns item)
unfolding updated_item
updated-Advanced platform store written item event status columns s = record {
  same_id = s.id_kept item;
  next_version = refl;
  next_status = elim (Option-cases status) [
    | inl e ↦ rw e (inl refl)
    | inr (to, e) ↦ rw e (inr (s.moves to e))
  ];
  same_codes = λ n. s.codes_kept n item;
  next_phase = s.phase_step item;
}

same_version : (item : ServiceItem) → is_same_version item item ≡ true
same_version item = let same = (str_eq_iff item.id item.id).1 refl in ground arith

-- An accepted event on a stored service item changes no row but the one of that item: each row of the
-- table stays as it is, or was the row of the item and gets the next version, a status that the state
-- machine allows from the one it had, the same required codes unless an execution team is assigned, and
-- a report phase that is the same, reset, or the next one.
pub apply_item_event-Evolves :
    (platform : Platform) (store : Store) (item : ServiceItem) (event : DeliveryEvent) (now : ℕ)
    {store' : Store}
    → item_of store item.id ≡ some item
    → apply_item_event platform store item event now ≡ ok store'
    → Pointwise (Evolves event.event_type item) store.items store'.items
apply_item_event-Evolves platform store item event now found h =
    let (_, applied) = apply-Applied platform store item event now h in
    elim applied [
      | left e ↦ rw e (Pointwise-refl _ store.items (λ r. inl refl))
      | wrote written status columns rows s e changed once ↦
          rw (e, changed)
            (Pointwise-update _ _ _ store.items (λ r. inl refl)
              (All-map _ _ store.items
                (λ r only t.
                  subst (λ z. Evolves event.event_type item z (updated_item event status columns z))
                    (sym (only t))
                    (inr
                      (refl, updated-Advanced platform store written item event status columns s)))
                (find-alone _ (is_same_version item) store.items found (same_version item) once)))
    ]

-- A sequence of accepted events on service items, each on the item as it is stored then, each stored afterwards.
pub data Run (platform : Platform) : Store → Store → Type 0 where
  done : {store : Store} → Run platform store store
  next :
      {store last : Store} (item : ServiceItem) (event : DeliveryEvent) (now : ℕ) (after : Store)
      → item_of store item.id ≡ some item
      → apply_item_event platform store item event now ≡ ok after
      → Run platform (record after { events = event ∷ after.events }) last
      → Run platform store last

-- Over any sequence of accepted events on service items the ledger of report revisions stays well formed:
-- its keys are apart, who reviewed a revision did not prepare it, who issued it neither prepared nor
-- reviewed it, and no column of prepared, reviewed, issued or archived is signed before the phase that
-- signs it.
pub Run-Ledger :
    (platform : Platform) {store last : Store}
    → Run platform store last
    → Ledger store.revisions
    → Ledger last.revisions
Run-Ledger platform done l = l
Run-Ledger platform (next {store = store} item event now after found h rest) l =
    Run-Ledger platform rest (apply_item_event-Ledger platform store item event now h l)

differ : {a b : String} {X : Type 0} → str_eq a b ≡ false → a ≡ b → X
differ {a = a} {b = b} h e = absurd (ground (arith, str_eq_iff a b))

-- No event leads out of `已终止`.
Moves-terminated : {type : EventType} {a b : String} → a ≡ terminated → Moves type a b → ⊥
unfolding trim_space
Moves-terminated e (returns from to) = differ refl (sym from ∙ e)
Moves-terminated e (plans from to) = differ refl (sym from ∙ ap trim_space e)
Moves-terminated e (revokes_plan from to) = differ refl (sym from ∙ e)
Moves-terminated e (prepares (inl from) to) = differ refl (sym from ∙ e)
Moves-terminated e (prepares (inr from) to) = differ refl (sym from ∙ e)
Moves-terminated e (revokes_preparation from to) = differ refl (sym from ∙ e)
Moves-terminated e (starts from to) = differ refl (sym from ∙ e)
Moves-terminated e (completes from to) = differ refl (sym from ∙ e)
Moves-terminated e (deviates from to) = differ refl (sym from ∙ e)
Moves-terminated e (reviews from to) = differ refl (sym from ∙ e)
Moves-terminated e (rolls_back from to) = differ refl (sym from ∙ e)
Moves-terminated e (reworks from to) = differ refl (sym from ∙ e)

pub Evolves-id :
    {type : EventType} {item : ServiceItem} (a b : ServiceItem)
    → Evolves type item a b
    → b.id ≡ a.id
Evolves-id a b (inl e) = ap (λ i. i.id) e
Evolves-id a b (inr (_, c)) = c.same_id

Evolves-terminated :
    {type : EventType} {item : ServiceItem} (a b : ServiceItem)
    → Evolves type item a b
    → a.status ≡ terminated
    → b.status ≡ terminated
Evolves-terminated a b (inl e) h = ap (λ i. i.status) e ∙ h
Evolves-terminated a b (inr (_, c)) h = elim c.next_status [
  | inl same ↦ same ∙ h
  | inr move ↦ absurd (Moves-terminated h move)
]

Evolves-version :
    {type : EventType} {item : ServiceItem} (a b : ServiceItem)
    → Evolves type item a b
    → a.version ≤ b.version
Evolves-version a b (inl e) = rw e (omega arith)
Evolves-version a b (inr (_, c)) = omega (arith, c.next_version)

-- Over any sequence of accepted events on service items an item stays in the table and its version never
-- falls; once it is terminated it stays so. Events on the project, which may replace its items, are no
-- part of the sequence.
pub Run-terminated :
    (platform : Platform) {store last : Store} (id : String) {item : ServiceItem}
    → Run platform store last
    → item_of store id ≡ some item
    → (item' : ServiceItem) × (item_of last id ≡ some item')
      × (item.version ≤ item'.version)
      × (item.status ≡ terminated → item'.status ≡ terminated)
Run-terminated platform id {item = item} done found = (item, found, omega arith, λ e. e)
Run-terminated platform id {item = item} (next {store = store} moved event now after at h rest)
      found =
    let (item1, found1, step) =
      find-Pointwise _ (λ i. str_eq i.id id) store.items after.items
        (λ a b e. ap (λ x. str_eq x id) (Evolves-id a b e))
        (apply_item_event-Evolves platform store moved event now at h) found in
    let (item2, found2, grown, kept) = Run-terminated platform id {item = item1} rest found1 in
    (
      item2,
      found2,
      omega (arith, Evolves-version item item1 step),
      λ e. kept (Evolves-terminated item item1 step e),
    )

-- Two events that name the same version of an item are not both written: once the first has changed the
-- row, the second is refused on the row as it is then.
pub apply_item_event-no_lost_update :
    (platform : Platform) (store : Store) (item : ServiceItem) (store1 : Store)
    (item1 : ServiceItem) (event1 event2 : DeliveryEvent) (now1 now2 n : ℕ) {store2 : Store}
    → item_of store item.id ≡ some item
    → item_of store1 item.id ≡ some item1
    → apply_item_event platform store item event1 now1 ≡ ok store1
    → n ≢ 0
    → item1 ≢ item
    → expected_version_value event1.payload ≡ n
    → expected_version_value event2.payload ≡ n
    → apply_item_event platform store1 item1 event2 now2 ≢ ok store2
apply_item_event-no_lost_update platform store item store1 item1 event1 event2 now1 now2 n found
      found1 h some_version moved e1 e2 h2 =
    let (fresh1, _) = apply-Applied platform store item event1 now1 h in
    let (fresh2, _) = apply-Applied platform store1 item1 event2 now2 h2 in
    let (item', found', step) =
      find-Pointwise _ (λ i. str_eq i.id item.id) store.items store1.items
        (λ a b e. ap (λ x. str_eq x item.id) (Evolves-id a b e))
        (apply_item_event-Evolves platform store item event1 now1 found h) found in
    let same : item' ≡ item1 = ground arith in
    elim step [
      | inl stayed ↦ moved (sym same ∙ stayed)
      | inr (_, c) ↦ ground (arith, c.next_version)
    ]
