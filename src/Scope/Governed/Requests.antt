-- ===== src/Scope/Governed/Requests.antt =====
-- internal/infrastructure/mysql/native_scope_change.go: requests that are sent again.
use project_management.Base.{
  ℕ, suc, ◌≡◌, refl, sym, ap, ◌∙◌, String, Bool, true, ◌&&◌, ◌||◌, not, List, [], ◌∷◌, none, some,
  find, any, All-All, arith, find-All, str_eq, str_eq_iff, is_empty, length, trim_space, ok,
  Answers, Answers-ok, after, refuse_if, ◌==◌, conflict, validation, storage,
}
use project_management.Delivery.Payload.{ItemInput}
use project_management.Delivery.Schema.{Project, ServiceItem}
use project_management.Delivery.Gates.{ensure_no_pending_native_scope}
use project_management.Scope.{
  ScopeStore, ScopeChange, ScopeInput, ContractService, Digest, seen, lock_native_project,
}
use project_management.Scope.Catalog.{validate_native_scope_catalog, catalog_fingerprint}
use project_management.Scope.Eligible.{lock_native_scope_eligible, check_native_scope_baseline}
use project_management.Scope.Request.{
  Call, request_native_scope, create_change, new_change, has_operation, name_lines, line_name,
  replay_native_scope, asked, with_event,
}
use project_management.Scope.Governed.{lock-native}

-- The lines that are named differ from those of the request in their names only.
record Named (services : List ContractService) (items named : List ItemInput) : Type 0 where
  pub same : asked services named ≡ asked services items
  pub size : length named ≡ length items

name-Named :
    (active : List ServiceItem) (change : String) (index : ℕ) (before : List String)
    (services : List ContractService) (items : List ItemInput)
    → Answers (Named services items) (name_lines active change index before items)
unfolding name_lines
name-Named active change index before services [] = record { same = refl; size = refl }
name-Named active change index before services (item ∷ items) =
    let line = line_name change (suc index) item in
    let rest = name_lines active change (suc index) (line ∷ before) items in
    after (Named services (item ∷ items))
      (refuse_if
        (not (is_empty item.source_service_id)
          && not
              (any (λ (r : ServiceItem). str_eq r.source_service_id item.source_service_id) active))
        validation)
      _
      λ _ _.
        after (Named services (item ∷ items)) (refuse_if (any (str_eq line) before) validation) _
          λ _ _. after (Named services (item ∷ items)) rest _ λ named e.
            more services line named (λ others.
              Answers-ok (Named others items) rest e
                (name-Named active change (suc index) (line ∷ before) others items))
  where
    more :
        (services : List ContractService) (line : String) (named : List ItemInput)
        → ((others : List ContractService) → Named others items named)
        → Named services (item ∷ items) ((record item { source_service_id = line }) ∷ named)
    more [] line named k = record { same = refl; size = ap suc (k []).size }
    more (s ∷ others) line named k = record {
      same =
          ap (λ z. (record item { id = ""; source_service_id = trim_space s.source_id }) ∷ z)
            (k others).same;
      size = ap suc (k []).size;
    }

abbrev Replayed : Digest → Call → String → ScopeInput → ScopeChange × ScopeStore → Type 0
Replayed digest call id input answer =
    replay_native_scope digest call answer.1 id input ≡ ok (some answer.0)

-- A replay, from what it looks at.
replay-ok :
    (digest : Digest) (call : Call) (store : ScopeStore) (id : String) (input : ScopeInput)
    (row : ScopeChange) (project : Project)
    → lock_native_project call.visible store id ≡ ok project
    → find (has_operation id input.operation_id) store.changes ≡ some row
    → length input.service_items ≡ length row.service_items
    → digest.command call.actor input (asked input.service_items row.service_items)
      ≡ row.fingerprint
    → replay_native_scope digest call store id input ≡ ok (some row)
unfolding replay_native_scope
replay-ok digest call store id input row project locked found size same =
    let sizes : (length input.service_items == length row.service_items) ≡ true =
      ground (arith, size) in
    rw (locked, found, replay_native_scope, sizes, (str_eq_iff _ _).1 same) refl

lock_id :
    (visible : Project → Bool) (store : ScopeStore) (id : String) {project : Project}
    → lock_native_project visible store id ≡ ok project
    → project.id ≡ id
lock_id visible store id {project = project} locked =
    (str_eq_iff project.id id).0
      (find-All (λ _. Unit {0}) (λ (p : Project). str_eq p.id id) store.delivery.projects
        {x = project} (All-All _ store.delivery.projects (λ _. tt))
        (lock-native visible store id locked).0).1

new-Replayed :
    (digest : Digest) (call : Call) (store : ScopeStore) (id : String) (project : Project)
    (input : ScopeInput) (items named : List ItemInput) (catalog : String)
    → lock_native_project call.visible store id ≡ ok project
    → asked input.service_items items ≡ items
    → length items ≡ length input.service_items
    → Named input.service_items items named
    → let change =
        new_change digest call project input named
          (digest.command call.actor input items)
          catalog in
      Replayed digest call id input (
        change,
        with_event call project change "NATIVE_SCOPE_CHANGE_REQUESTED"
            (record store { changes = change ∷ store.changes }),
      )
unfolding lock_native_project
new-Replayed digest call store id project input items named catalog locked normal size n =
    let change =
      new_change digest call project input named (digest.command call.actor input items) catalog in
    let hit : has_operation id input.operation_id change ≡ true = ground (
      arith,
      (str_eq_iff project.id id).1 (lock_id call.visible store id locked),
      (str_eq_iff input.operation_id input.operation_id).1 refl,
    ) in
    replay-ok digest call _ id input change project locked (rw hit refl) (sym size ∙ sym n.size)
      (ap (λ z. digest.command call.actor input z) (n.same ∙ normal))

create-Replayed :
    (digest : Digest) (call : Call) (store : ScopeStore) (id : String) (project : Project)
    (input : ScopeInput) (items : List ItemInput)
    → lock_native_project call.visible store id ≡ ok project
    → asked input.service_items items ≡ items
    → length items ≡ length input.service_items
    → Answers (Replayed digest call id input) (
        create_change digest call store project input items (digest.command call.actor input items))
unfolding create_change
create-Replayed digest call store id project input items locked normal size =
    after P
      (refuse_if
        (not (project.version == input.expected_project_version)
          || not (project.scope_version == input.base_scope_version))
        conflict)
      _
      λ _ _. after P (ensure_no_pending_native_scope (seen store) project) _ λ _ _.
        after P (lock_native_scope_eligible store.delivery project) _ λ active _.
          after P (check_native_scope_baseline digest store project active) _ λ _ _.
            after P (validate_native_scope_catalog store items) _ λ _ _.
              after P (name_lines active call.change_id 0 [] items) _ λ named made.
                after P (catalog_fingerprint digest store named) _ λ catalog _.
                  after P
                    (refuse_if (any (λ (c : ScopeChange). str_eq c.id call.change_id) store.changes)
                      storage)
                    _
                    λ _ _.
                      new-Replayed digest call store id project input items named catalog locked
                        normal size
                        (Answers-ok (Named input.service_items items)
                          (name_lines active call.change_id 0 [] items) made
                          (name-Named active call.change_id 0 [] input.service_items items))
  where
    P : ScopeChange × ScopeStore → Type 0
    P = Replayed digest call id input

-- A request that was accepted under a new operation number is found again when it is sent again: the
-- answer is the same proposal, before the catalogue is read. Its items are normalised, with the names of
-- their lines taken from the request.
pub request_native_scope-replay :
    (digest : Digest) (call : Call) (store : ScopeStore) (id : String) (input : ScopeInput)
    (items : List ItemInput) {change : ScopeChange} {left : ScopeStore}
    → asked input.service_items items ≡ items
    → length items ≡ length input.service_items
    → find (has_operation id input.operation_id) store.changes ≡ none
    → request_native_scope digest call store id input items ≡ ok (change, left)
    → replay_native_scope digest call left id input ≡ ok (some change)
unfolding request_native_scope
request_native_scope-replay digest call store id input items normal size fresh accepted =
    Answers-ok (Replayed digest call id input)
      (request_native_scope digest call store id input items) accepted
      (after (Replayed digest call id input) (lock_native_project call.visible store id) _
        λ project locked.
          rw (fresh, Answers)
            (create-Replayed digest call store id project input items locked normal size))
