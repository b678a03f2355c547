-- ===== src/Penetration/Laws.antt =====
-- internal/infrastructure/mysql/penetration.go `mutatePenetrationPackage`: replays and versions.
use project_management.Base.{
  suc, ◌≡◌, refl, sym, ap, ◌∙◌, ◌⊎◌, inl, inr, String, true, ◌||◌, not, List, ◌∷◌, some, arith,
  Bool, Bool-cases, false, [], none, find, Answers, Answers-ok, Pointwise, Pointwise-update,
  Pointwise-refl, find-Pointwise, any, All-map, find-alone, Option-cases, ok, ok_injective, not-not,
  refused, guarded, >>=-eq-ok, update_one, update_one-eq, update_where, conflict, str_eq,
  str_eq_iff, ◌==◌, count,
}
use project_management.Delivery.Schema.{PackageEvent, WorkPackage, ReportRevision}
use project_management.Penetration.Package.{
  Desk, Command, Mutation, create_penetration_event, package_row, prior_event, is_same_package,
  written_package, write_package, replay, run_mutation, mutate_penetration_package,
}

-- A mutation that leaves the keys of a package alone.
abbrev pub KeepsKeys : Mutation → Type 0
KeepsKeys mutate =
    (revisions : List ReportRevision) (row : WorkPackage)
    → Answers
        (λ (w : List ReportRevision × (WorkPackage → WorkPackage)).
          (p : WorkPackage)
          → ((w.1 p).id ≡ p.id) × ((w.1 p).parent_service_item_id ≡ p.parent_service_item_id))
        (mutate revisions row)

abbrev event_of : WorkPackage → Command → PackageEvent
event_of row command = record {
  work_package_id = row.id;
  event_type = command.event_type;
  actor_user_id = command.actor;
  idempotency_key = command.idempotency_key;
  created_at = command.now;
}

-- What an accepted mutation leaves.
record Written (desk : Desk) (command : Command) (row : WorkPackage) (desk' : Desk) : Type 0 where
  pub columns : WorkPackage → WorkPackage
  pub keys :
      (p : WorkPackage)
      → ((columns p).id ≡ p.id) × ((columns p).parent_service_item_id ≡ p.parent_service_item_id)
  pub packages :
      desk'.packages
      ≡ update_where (is_same_package row) (written_package command columns) desk.packages
  pub once : count (is_same_package row) desk.packages ≡ 1
  pub logged : desk'.events ≡ event_of row command ∷ desk.events
  pub fresh : row.version ≡ command.expected_version

write-Written :
    (desk : Desk) (command : Command) (row : WorkPackage)
    (w : List ReportRevision × (WorkPackage → WorkPackage)) {desk' : Desk}
    → ((p : WorkPackage)
        → ((w.1 p).id ≡ p.id) × ((w.1 p).parent_service_item_id ≡ p.parent_service_item_id))
    → row.version ≡ command.expected_version
    → write_package desk row command w ≡ ok desk'
    → Written desk command row desk'
unfolding create_penetration_event
write-Written desk command row w keys fresh h =
    let (packages, e, h1) =
      >>=-eq-ok (update_one (is_same_package row) (written_package command w.1) desk.packages) _
        h in
    let (all_rows, once) = update_one-eq _ _ desk.packages e in
    let (_, logged) =
      guarded {b = any (λ e. str_eq e.idempotency_key command.idempotency_key) desk.events} conflict
        h1 in
    let done = ok_injective logged in
    record {
      columns = w.1;
      keys = keys;
      packages = ap (λ d. d.packages) (sym done) ∙ all_rows;
      once = once;
      logged = ap (λ d. d.events) (sym done);
      fresh = fresh;
    }

run-Written :
    (desk : Desk) (command : Command) (row : WorkPackage) (mutate : Mutation) {desk' : Desk}
    → KeepsKeys mutate
    → run_mutation desk row command mutate ≡ ok desk'
    → Written desk command row desk'
run-Written desk command row mutate keeps h =
    let (fresh, h1) =
      guarded {b = command.expected_version == 0 || not (row.version == command.expected_version)}
        conflict h in
    let (w, e, h2) = >>=-eq-ok (mutate desk.revisions row) (write_package desk row command) h1 in
    write-Written desk command row w (Answers-ok _ _ e (keeps desk.revisions row)) (ground arith) h2

-- An accepted command replays an event of the same kind on the same package, or writes the package.
data Accepted (desk : Desk) (command : Command) (row : WorkPackage) (desk' : Desk) : Type 0 where
  replayed :
      (prior : PackageEvent)
      → desk' ≡ desk
      → prior_event desk command.idempotency_key ≡ some prior
      → str_eq prior.event_type command.event_type ≡ true
      → str_eq row.id prior.work_package_id ≡ true
      → Accepted desk command row desk'
  written : Written desk command row desk' → Accepted desk command row desk'

mutate-Accepted :
    (desk : Desk) (command : Command) (mutate : Mutation) {desk' : Desk}
    → KeepsKeys mutate
    → mutate_penetration_package desk command mutate ≡ ok desk'
    → (row : WorkPackage) × (package_row desk command.item_id ≡ some row)
      × Accepted desk command row desk'
unfolding mutate_penetration_package
mutate-Accepted desk command mutate {desk' = desk'} keeps h =
    elim (Option-cases (package_row desk command.item_id)) [
      | inl e ↦ refused (rw (e, mutate_penetration_package) at h)
      | inr (row, e) ↦ elim (Option-cases (prior_event desk command.idempotency_key)) [
        | inl d ↦
            let h' : run_mutation desk row command mutate ≡ ok desk' =
              (rw (e, d, mutate_penetration_package) at h) in
            (row, e, written (run-Written desk command row mutate keeps h'))
        | inr (prior, d) ↦
            let h' : replay desk row command prior ≡ ok desk' =
              (rw (e, d, mutate_penetration_package) at h) in
            let (type, h1) =
              guarded {b = not (str_eq prior.event_type command.event_type)} conflict h' in
            let (id, h2) = guarded {b = not (str_eq row.id prior.work_package_id)} conflict h1 in
            (row, e, replayed prior (sym (ok_injective h2)) d (not-not type) (not-not id))
      ]
    ]

replay-ok :
    (desk : Desk) (command : Command) (row : WorkPackage) (prior : PackageEvent) (mutate : Mutation)
    → package_row desk command.item_id ≡ some row
    → prior_event desk command.idempotency_key ≡ some prior
    → str_eq prior.event_type command.event_type ≡ true
    → str_eq row.id prior.work_package_id ≡ true
    → mutate_penetration_package desk command mutate ≡ ok desk
unfolding mutate_penetration_package
replay-ok desk command row prior mutate e d type id =
    rw (e, d, type, id, mutate_penetration_package) refl

str_eq_refl : (s : String) → str_eq s s ≡ true
str_eq_refl s = (str_eq_iff s s).1 refl

-- How a package changes under a command on the package `row`: not at all, or, if it is that package, by
-- its next version under the same keys.
abbrev pub Succeeds : WorkPackage → WorkPackage → WorkPackage → Type 0
Succeeds row p q =
    (q ≡ p)
    ⊎ ((p ≡ row)
        × (q.id ≡ p.id)
        × (q.parent_service_item_id ≡ p.parent_service_item_id)
        × (q.version ≡ suc p.version))

same_package : (row : WorkPackage) → is_same_package row row ≡ true
same_package row = let same = str_eq_refl row.id in ground arith

Written-Succeeds :
    (desk : Desk) (command : Command) (row : WorkPackage) {desk' : Desk}
    → package_row desk command.item_id ≡ some row
    → Written desk command row desk'
    → Pointwise (Succeeds row) desk.packages desk'.packages
unfolding written_package
Written-Succeeds desk command row found w = rw w.packages (
    Pointwise-update (Succeeds row) _ _ desk.packages (λ p. inl refl)
      (All-map _ _ desk.packages (λ p only t. inr (only t, (w.keys p).0, (w.keys p).1, refl))
        (find-alone _ (is_same_package row) desk.packages found (same_package row) w.once)))

Succeeds-keys :
    {row : WorkPackage} (p q : WorkPackage)
    → Succeeds row p q
    → (q.id ≡ p.id) × (q.parent_service_item_id ≡ p.parent_service_item_id)
Succeeds-keys p q (inl e) = (ap (λ x. x.id) e, ap (λ x. x.parent_service_item_id) e)
Succeeds-keys p q (inr (_, id, parent, _)) = (id, parent)

pub mutate-replay :
    (desk : Desk) (command : Command) (mutate : Mutation) {desk' : Desk}
    → KeepsKeys mutate
    → mutate_penetration_package desk command mutate ≡ ok desk'
    → mutate_penetration_package desk' command mutate ≡ ok desk'
mutate-replay desk command mutate {desk' = desk'} keeps h =
    let (row, found, accepted) = mutate-Accepted desk command mutate keeps h in
    elim accepted [
      | replayed prior e d type id ↦ rw e (replay-ok desk command row prior mutate found d type id)
      | written w ↦
          let (row', found', step) =
            find-Pointwise (Succeeds row) (λ p. str_eq p.parent_service_item_id command.item_id)
              desk.packages desk'.packages
              (λ a b s. ap (λ x. str_eq x command.item_id) (Succeeds-keys a b s).1)
              (Written-Succeeds desk command row found w) found in
          replay-ok desk' command row' (event_of row command) mutate found'
            (rw (w.logged, str_eq_refl command.idempotency_key) refl)
            (str_eq_refl command.event_type)
            (rw (Succeeds-keys row row' step).0 (str_eq_refl row.id))
    ]

find-written :
    (id : String) (test : WorkPackage → Bool) (f : WorkPackage → WorkPackage)
    (rows : List WorkPackage) {row : WorkPackage}
    → ((p : WorkPackage) → (f p).parent_service_item_id ≡ p.parent_service_item_id)
    → find (λ (p : WorkPackage). str_eq p.parent_service_item_id id) rows ≡ some row
    → test row ≡ true
    → find (λ (p : WorkPackage). str_eq p.parent_service_item_id id) (update_where test f rows)
      ≡ some (f row)
find-written id test f [] same h t = cc
find-written id test f (p ∷ rows) {row = row} same h t =
    elim (Bool-cases (str_eq p.parent_service_item_id id)) [
      | inl e ↦
          let here : p ≡ row = (let q = rw e at h in cc) in
          let reached : test p ≡ true = ap test here ∙ t in
          let hit : str_eq (f p).parent_service_item_id id ≡ true =
            ap (λ z. str_eq z id) (same p) ∙ e in
          rw (reached, hit) (ap (λ z. some (f z)) here)
      | inr e ↦
          let rest = find-written id test f rows {row = row} same (rw e at h) t in
          elim (Bool-cases (test p)) [
            | inl reached ↦
                let miss : str_eq (f p).parent_service_item_id id ≡ false =
                  ap (λ z. str_eq z id) (same p) ∙ e in
                rw (reached, miss) rest
            | inr unreached ↦ rw (unreached, e) rest
          ]
    ]

-- What an accepted command leaves of the packages: at most the row of the item is another, and under a key
-- that is new that row has its next version.
pub record Moved (desk : Desk) (item_id key : String) (desk' : Desk) : Type 0 where
  pub row : WorkPackage
  pub found : package_row desk item_id ≡ some row
  pub changes : Pointwise (Succeeds row) desk.packages desk'.packages
  pub advances :
      prior_event desk key ≡ none
      → (row' : WorkPackage) × (package_row desk' item_id ≡ some row')
        × (row'.version ≡ suc row.version)

Written-advances :
    (desk : Desk) (command : Command) (row : WorkPackage) {desk' : Desk}
    → package_row desk command.item_id ≡ some row
    → Written desk command row desk'
    → (row' : WorkPackage) × (package_row desk' command.item_id ≡ some row')
      × (row'.version ≡ suc row.version)
unfolding written_package
Written-advances desk command row {desk' = desk'} found w = (
  written_package command w.columns row,
  ap (λ rows. find (λ (p : WorkPackage). str_eq p.parent_service_item_id command.item_id) rows)
        w.packages
      ∙ find-written command.item_id (is_same_package row) (written_package command w.columns)
          desk.packages (λ p. (w.keys p).1) found (same_package row),
  refl,
)

pub mutate-Moved :
    (desk : Desk) (command : Command) (mutate : Mutation) {desk' : Desk}
    → KeepsKeys mutate
    → mutate_penetration_package desk command mutate ≡ ok desk'
    → Moved desk command.item_id command.idempotency_key desk'
mutate-Moved desk command mutate keeps h =
    let (row, found, accepted) = mutate-Accepted desk command mutate keeps h in
    elim accepted [
      | replayed prior e known type id ↦ record {
        row = row;
        found = found;
        changes = rw e (Pointwise-refl (Succeeds row) desk.packages (λ p. inl refl));
        advances = λ new. absurd (ground (arith, known));
      }
      | written w ↦ record {
        row = row;
        found = found;
        changes = Written-Succeeds desk command row found w;
        advances = λ new. Written-advances desk command row found w;
      }
    ]
