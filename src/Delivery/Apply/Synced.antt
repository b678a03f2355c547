-- ===== src/Delivery/Apply/Synced.antt =====
-- internal/infrastructure/mysql/delivery_events.go `syncProjectStatusColumn`: the columns of a project
-- that are derived from its items.
use project_management.Base.{
  ◌≡◌, refl, sym, ap, ◌∙◌, String, Bool, false, List, [], ◌∷◌, Option, none, some, inl, inr,
  Bool-cases, find, update_where, is_empty, str_eq, ok, Answers, Answers-ok, after, guard,
  >>=-eq-ok, arith, Option-cases, err, ◌>>=◌, any, not_found, ℕ,
}
use project_management.Domain.Status.{derive_project_status, derive_project_progress}
use project_management.Domain.Status.Stored.{derive_project_status_idem}
use project_management.Delivery.Schema.{Project, DeliveryEvent}
use project_management.Delivery.Store.{Store, Platform, project_of, item_of}
use project_management.Delivery.Items.{apply_item_event}
use project_management.Delivery.Projects.{
  status_items, sync_project_status_column, apply_project_event,
}
use project_management.Delivery.Apply.{
  apply_delivery_event, apply_to_project, apply_to_item, create_event, locate_event,
  check_supplement, is_type, beside, reported_of, check_operation, with_package,
}

-- The project is there, and its stored status and progress are what its items give.
abbrev pub Synced : Store → String → Type 0
Synced store id =
    (project : Project) × (project_of store id ≡ some project)
    × (project.status
        ≡ derive_project_status (status_items store id) project.supplement_status project.status)
    × (project.progress ≡ derive_project_progress (status_items store id))

find-update_where :
    {A : Type 0} (test : A → Bool) (f : A → A) (rows : List A) {row : A}
    → ((r : A) → test (f r) ≡ test r)
    → find test rows ≡ some row
    → find test (update_where test f rows) ≡ some (f row)
find-update_where test f [] {row = row} same e = cc
find-update_where test f (r ∷ rows) {row = row} same e = elim (Bool-cases (test r)) [
  | inl hit ↦
      let first : r ≡ row = ground arith in rw (hit, same r, hit) (ap (λ x. some (f x)) first)
  | inr miss ↦ rw (miss, miss) (find-update_where test f rows same (rw miss at e))
]

sync-Synced :
    (store : Store) (id : String)
    → Answers (λ after. Synced after id) (sync_project_status_column store id)
unfolding sync_project_status_column status_items
sync-Synced store id = elim (Option-cases (project_of store id)) [
  | inl absent ↦ rw (absent, Answers) tt
  | inr (project, found) ↦
      rw (found, Answers)
        (
          record project {
            status =
                derive_project_status (status_items store id) project.supplement_status
                  project.status;
            progress = derive_project_progress (status_items store id);
          },
          find-update_where (λ p. str_eq p.id id) _ store.projects (λ r. refl) found,
          sym (
              derive_project_status_idem (status_items store id) project.supplement_status
                project.status),
          refl,
        )
]

project-Synced :
    (store : Store) (event : DeliveryEvent)
    → is_empty event.project_id ≡ false
    → Answers (λ after. Synced after event.project_id) (apply_to_project store event)
unfolding apply_to_project
project-Synced store event named = rw named (at (project_of store event.project_id))
  where
    at :
        (found : Option Project)
        → Answers
            (λ after. Synced after event.project_id)
            (elim found [
              | none ↦ err not_found
              | some project ↦ apply_project_event store project event >>= λ written.
                  sync_project_status_column written event.project_id
            ])
    at none = tt
    at (some project) =
        after _ (apply_project_event store project event) _
          λ written e. sync-Synced written event.project_id

locate-id :
    (store : Store) (event : DeliveryEvent)
    → Answers (λ e. e.id ≡ event.id) (locate_event store event)
unfolding locate_event
locate-id store event = elim (Bool-cases (is_type "DEVIATION_REVIEWED" event.event_type)) [
  | inl review ↦ rw (review, Answers) (at (reported_of store event))
  | inr other ↦ rw (other, Answers) refl
]
  where
    at : (found : Option DeliveryEvent) → Answers (λ e. e.id ≡ event.id) (beside event found)
    at none = tt
    at (some reported) = refl

item-id :
    (platform : Platform) (store : Store) (event : DeliveryEvent) (now : ℕ) (package_id : String)
    → Answers (λ p. p.0.id ≡ event.id) (apply_to_item platform store event now package_id)
unfolding apply_to_item
item-id platform store event now package_id = elim (Bool-cases (is_empty event.service_item_id)) [
  | inl none_named ↦ rw (none_named, Answers) refl
  | inr named ↦ elim (Option-cases (item_of store event.service_item_id)) [
    | inl absent ↦ rw (named, absent, Answers) tt
    | inr (item, found) ↦
        let placed = record event { project_id = item.project_id } in
        rw (named, found)
          (after _ (check_operation store placed) _ λ _ _.
            after _ (apply_item_event platform store item placed now) _
              λ written _. after _ (with_package written item placed package_id) _ λ packed _. refl)
  ]
]

create-Synced :
    (store : Store) (event : DeliveryEvent)
    → (is_empty event.project_id ≡ false → Synced store event.project_id)
    → Answers
        (λ after.
          (after.events ≡ event ∷ store.events)
          × (is_empty event.project_id ≡ false → Synced after event.project_id))
        (create_event store event)
unfolding create_event status_items
create-Synced store event synced =
    guard _ (any (λ e. str_eq e.id event.id) store.events) _ _ λ fresh. (refl, synced)

-- An accepted event is stored, and the project that it is stored under is there, and its stored status and
-- progress are what its items give; deriving them from the stored row again changes nothing.
pub apply_delivery_event-Synced :
    (platform : Platform) (store : Store) (event : DeliveryEvent) (now : ℕ) (package_id : String)
    {store' : Store}
    → apply_delivery_event platform store event now package_id ≡ ok store'
    → (placed : DeliveryEvent) × (rest : List DeliveryEvent) × (store'.events ≡ placed ∷ rest)
      × (placed.id ≡ event.id)
      × (is_empty placed.project_id ≡ false → Synced store' placed.project_id)
unfolding apply_delivery_event
apply_delivery_event-Synced platform store event now package_id h =
    let (_, _, h1) = >>=-eq-ok (check_supplement store event) _ h in
    let (located, e1, h2) = >>=-eq-ok (locate_event store event) _ h1 in
    let (pair, e2, h3) = >>=-eq-ok (apply_to_item platform store located now package_id) _ h2 in
    let (synced, e, h4) = >>=-eq-ok (apply_to_project pair.1 pair.0) _ h3 in
    let (stored, holds) = Answers-ok _ _ h4 (
      create-Synced synced pair.0 λ named. Answers-ok _ _ e (project-Synced pair.1 pair.0 named)) in
    (
      pair.0,
      synced.events,
      stored,
      Answers-ok _ _ e2 (item-id platform store located now package_id)
          ∙ Answers-ok _ _ e1 (locate-id store event),
      holds,
    )
