-- ===== src/Scope/Governed/Replay.antt =====
-- internal/infrastructure/mysql/native_scope_change.go: decisions that are sent again.
use project_management.Base.{
  ◌≡◌, refl, sym, ◌∙◌, subst, String, Bool, true, false, ◌&&◌, ◌||◌, not, List, [], ◌∷◌, some, find,
  All-All, arith, Bool-cases, Option-cases, inl, inr, update_where, find-All, str_eq, str_eq_iff,
  ok, Answers, Answers-ok, after, guard, refuse_if, ◌==◌, conflict,
}
use project_management.Delivery.Schema.{Project}
use project_management.Scope.{
  ScopeStore, ScopeChange, ScopeDecision, ChangeStatus, Digest, lock_native_project,
}
use project_management.Scope.Request.{Call}
use project_management.Scope.Decide.{
  decide_native_scope, decide_pending, decided_before, decided_row, is_pending, is_change, apply_if,
  saved, check_decider, decision_status, decision_fingerprint,
}
use project_management.Scope.Governed.Deciders.{Kept, apply_if-Kept, decider-status}

-- The row that an update has written is the one that is found.
find-saved :
    (look test : ScopeChange → Bool) (decided : ScopeChange) (xs : List ScopeChange)
    {row : ScopeChange}
    → look decided ≡ true
    → ((x : ScopeChange) → look x ≡ true → test x ≡ true)
    → find look xs ≡ some row
    → find look (update_where test (λ _. decided) xs) ≡ some decided
find-saved look test decided [] good within found = cc
find-saved look test decided (x ∷ xs) {row = row} good within found = elim (Bool-cases (test x)) [
  | inl e ↦ rw (e, good) refl
  | inr e ↦ elim (Bool-cases (look x)) [
    | inl l ↦ absurd (ground (arith, within x l, e))
    | inr l ↦ rw (e, l) (find-saved look test decided xs {row = row} good within (rw l at found))
  ]
]

-- A repeated decision, from what it looks at.
again-ok :
    (digest : Digest) (again : Call) (store : ScopeStore) (project_id id : String)
    (input : ScopeDecision) (row : ScopeChange) {project : Project}
    → lock_native_project again.visible store project_id ≡ ok project
    → find (is_change project_id id) store.changes ≡ some row
    → is_pending row.status ≡ false
    → row.decision_operation ≡ input.operation_id
    → row.decision_fingerprint ≡ decision_fingerprint digest again input
    → decide_native_scope digest again store project_id id input ≡ ok (row, store)
unfolding decide_native_scope
again-ok digest again store project_id id input row locked found closed operation same =
    rw
      (
        locked,
        found,
        decide_native_scope,
        closed,
        (str_eq_iff _ _).1 operation,
        (str_eq_iff _ _).1 same,
      )
      refl

-- The answer is given again to the same person, while the project can be seen.
abbrev Repeats : Digest → Call → String → String → ScopeDecision → ScopeChange × ScopeStore → Type 0
Repeats digest call project_id id input answer =
    (again : Call) (project : Project)
    → again.actor ≡ call.actor
    → lock_native_project again.visible answer.1 project_id ≡ ok project
    → decide_native_scope digest again answer.1 project_id id input ≡ ok answer

same_fingerprint :
    (digest : Digest) (again call : Call) (input : ScopeDecision)
    → again.actor ≡ call.actor
    → decision_fingerprint digest call input ≡ decision_fingerprint digest again input
same_fingerprint digest again call input e = rw e refl

saved-Repeats :
    (digest : Digest) (call : Call) (store : ScopeStore) (project : Project)
    (project_id id : String) (input : ScopeDecision) (status : ChangeStatus) (row : ScopeChange)
    (written : ScopeChange × ScopeStore)
    → is_pending status ≡ false
    → find (is_change project_id id) store.changes ≡ some row
    → Kept row store status written
    → Repeats digest call project_id id input (saved digest call project input status written)
saved-Repeats digest call store project project_id id input status row (next, left) closed found
      kept again other actor locked =
    let decided = decided_row digest call input status next in
    let hit =
      (find-All (λ _. Unit {0}) (is_change project_id id) store.changes {x = row}
        (All-All _ store.changes (λ _. tt)) found).1 in
    let row_id : row.id ≡ id = (str_eq_iff row.id id).0 (ground (arith, hit)) in
    let good : is_change project_id id decided ≡ true =
      subst (λ z. (str_eq z project_id && str_eq next.id id) ≡ true) (sym kept.project)
        (subst (λ z. (str_eq row.project_id project_id && str_eq z id) ≡ true) (sym kept.id) hit) in
    let within : (x : ScopeChange) → is_change project_id id x ≡ true → str_eq x.id next.id ≡ true =
      λ x l. subst (λ z. str_eq x.id z ≡ true) (sym row_id ∙ sym kept.id) (ground (arith, l)) in
    let kept_found =
      subst (λ z. find (is_change project_id id) z ≡ some row) (sym kept.changes) found in
    again-ok digest again (saved digest call project input status (next, left)).1 project_id id
      input decided {project = other} locked
      (find-saved (is_change project_id id) (λ (c : ScopeChange). str_eq c.id next.id) decided
        left.changes {row = row} good within kept_found)
      closed refl (same_fingerprint digest again call input actor)

pending-Repeats :
    (digest : Digest) (call : Call) (store : ScopeStore) (project : Project)
    (project_id id : String) (input : ScopeDecision) (row : ScopeChange)
    → find (is_change project_id id) store.changes ≡ some row
    → Answers
        (Repeats digest call project_id id input)
        (decide_pending digest call store project input row)
unfolding decide_pending
pending-Repeats digest call store project project_id id input row found =
    after (Repeats digest call project_id id input)
      (refuse_if (not (row.version == input.expected_version)) conflict) _
      λ _ _.
        after (Repeats digest call project_id id input)
          (check_decider row call.actor input.decision) _
          λ _ may. elim (Option-cases (decision_status input.decision)) [
            | inl e ↦ rw (e, Answers) tt
            | inr (status, e) ↦
                let (apart, closed) =
                  decider-status row call.actor input.decision {status = status} may e in
                rw (e, Answers)
                  (after (Repeats digest call project_id id input)
                    (apply_if status digest call store project row) _
                    (λ written applied.
                      saved-Repeats digest call store project project_id id input status row written
                        closed found
                        (Answers-ok (Kept row store status)
                          (apply_if status digest call store project row) applied
                          (apply_if-Kept status digest call store project row))))
          ]

closed-Repeats :
    (digest : Digest) (call : Call) (store : ScopeStore) (project_id id : String)
    (input : ScopeDecision) (row : ScopeChange)
    → find (is_change project_id id) store.changes ≡ some row
    → is_pending row.status ≡ false
    → Answers (Repeats digest call project_id id input) (decided_before digest call store input row)
closed-Repeats digest call store project_id id input row found closed =
    guard (Repeats digest call project_id id input)
      (not (str_eq row.decision_operation input.operation_id)
        || not (str_eq row.decision_fingerprint (decision_fingerprint digest call input)))
      conflict (ok (row, store))
      (λ e again project actor locked.
        again-ok digest again store project_id id input row {project = project} locked found closed
          ((str_eq_iff row.decision_operation input.operation_id).0 (ground (arith, e)))
          ((str_eq_iff row.decision_fingerprint (decision_fingerprint digest call input)).0
              (ground (arith, e))
            ∙ same_fingerprint digest again call input actor))

-- A decision that was accepted may be sent again by the same person: the answer is the same, and nothing
-- changes, while the caller can see the project and it stays a native one.
pub decide_native_scope-again :
    (digest : Digest) (call again : Call) (store : ScopeStore) (project_id id : String)
    (input : ScopeDecision) {change : ScopeChange} {left : ScopeStore} {project : Project}
    → decide_native_scope digest call store project_id id input ≡ ok (change, left)
    → again.actor ≡ call.actor
    → lock_native_project again.visible left project_id ≡ ok project
    → decide_native_scope digest again left project_id id input ≡ ok (change, left)
unfolding decide_native_scope
decide_native_scope-again digest call again store project_id id input {project = project} accepted
      actor locked =
    Answers-ok P (decide_native_scope digest call store project_id id input) accepted
      (after P (lock_native_project call.visible store project_id) _ λ first _.
        elim (Option-cases (find (is_change project_id id) store.changes)) [
          | inl e ↦ rw (e, Answers) tt
          | inr (row, e) ↦ elim (Bool-cases (is_pending row.status)) [
            | inl waits ↦
                rw (e, waits, Answers)
                  (pending-Repeats digest call store first project_id id input row e)
            | inr closed ↦
                rw (e, closed, Answers)
                  (closed-Repeats digest call store project_id id input row e closed)
          ]
        ])
      again project actor locked
  where
    P : ScopeChange × ScopeStore → Type 0
    P = Repeats digest call project_id id input
