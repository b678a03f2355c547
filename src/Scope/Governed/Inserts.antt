-- ===== src/Scope/Governed/Inserts.antt =====
-- internal/infrastructure/mysql/native_scope_change.go `applyNativeScope`: the rows that an approval
-- inserts, and the version that it writes.
use project_management.Base.{
  ℕ, suc, ◌≡◌, refl, sym, ap, ◌∙◌, String, true, List, [], ◌∷◌, some, map, find, any, filter, All,
  arith, Bool-cases, inl, inr, update_where, str_eq, str_eq_iff, ok, Answers, Answers-ok, after,
  refuse_if, storage, sort_by,
}
use mathlib.Core.List.{◌++◌}
use project_management.Delivery.Payload.{ItemInput}
use project_management.Delivery.Schema.{Project, ServiceItem}
use project_management.Scope.{
  ScopeStore, NativeScope, Digest, Line, line_of, before_text, scope_fingerprint,
}
use project_management.Scope.Eligible.{
  check_native_scope_baseline, of_project, service_from_record, is_version,
}
use project_management.Scope.Request.{Call}
use project_management.Scope.Approve.{
  insert_items, item_row, numbered, outside, is_project, next_scope,
}

-- The rows that an approval inserts.
pub record Inserted (project : Project) (items : List ItemInput) (rows : List ServiceItem)
    : Type 0 where
  pub lines : map line_of (map service_from_record rows) ≡ map line_of items
  pub own : All (λ r. of_project project.id r ≡ true) rows

pub insert-Inserted :
    (call : Call) (project : Project) (index : ℕ) (taken : List ServiceItem)
    (items : List ItemInput)
    → Answers
        (Inserted project (numbered call index items))
        (insert_items call project index taken items)
unfolding insert_items
insert-Inserted call project index taken [] = record { lines = refl; own = tt }
insert-Inserted call project index taken (item ∷ items) =
    let row = item_row call project (call.item_id index) item in
    let rest = insert_items call project (suc index) (row ∷ taken) items in
    after (Inserted project (numbered call index (item ∷ items)))
      (refuse_if (any (λ (r : ServiceItem). str_eq r.id row.id) taken) storage) _
      λ _ _. after (Inserted project (numbered call index (item ∷ items))) rest _ λ rows e.
        let ih =
          Answers-ok (Inserted project (numbered call (suc index) items)) rest e
            (insert-Inserted call project (suc index) (row ∷ taken) items) in
        record {
          lines = ap (λ z. line_of item ∷ z) ih.lines;
          own = ((str_eq_iff project.id project.id).1 refl, ih.own);
        }

pub filter-own :
    (id : String) (items rows : List ServiceItem)
    → All (λ r. of_project id r ≡ true) rows
    → filter (of_project id) (filter (outside id) items ++ rows) ≡ rows
filter-own id [] [] h = refl
filter-own id [] (r ∷ rows) h = rw h.0 (ap (λ z. r ∷ z) (filter-own id [] rows h.1))
filter-own id (i ∷ items) rows h = elim (Bool-cases (of_project id i)) [
  | inl e ↦ rw e (filter-own id items rows h)
  | inr e ↦ rw (e, e) (filter-own id items rows h)
]

pub find-updated :
    (id : String) (f : Project → Project) (ps : List Project) {project : Project}
    → ((p : Project) → (f p).id ≡ p.id)
    → find (λ (p : Project). str_eq p.id id) ps ≡ some project
    → find (λ (p : Project). str_eq p.id id) (update_where (is_project id) f ps) ≡ some (f project)
find-updated id f [] same h = cc
find-updated id f (p ∷ ps) {project = project} same h = elim (Bool-cases (str_eq p.id id)) [
  | inl e ↦
      let here : p ≡ project = (let q = rw e at h in cc) in
      let hit : str_eq (f p).id id ≡ true = ap (λ z. str_eq z id) (same p) ∙ e in
      rw (e, hit) (ap (λ z. some (f z)) here)
  | inr e ↦ rw (e, e) (find-updated id f ps {project = project} same (rw e at h))
]

-- The new version is the one that the project looks for.
pub finds-next :
    (call : Call) (project changed : Project) (items : List ItemInput) (scopes : List NativeScope)
    → changed.id ≡ project.id
    → changed.scope_version ≡ suc project.scope_version
    → find (is_version changed.id changed.scope_version) (next_scope call project items ∷ scopes)
      ≡ some (next_scope call project items)
finds-next call project changed items scopes same version =
    let own : str_eq project.id changed.id ≡ true =
      (str_eq_iff project.id changed.id).1 (sym same) in
    let hit : is_version changed.id changed.scope_version (next_scope call project items) ≡ true =
      ground (arith, own, version) in
    rw hit refl

same_lines :
    (digest : Digest) (a b : List ItemInput)
    → map line_of a ≡ map line_of b
    → scope_fingerprint digest a ≡ scope_fingerprint digest b
unfolding scope_fingerprint
same_lines digest a b e =
    ap (λ z. digest.lines (sort_by (λ (a b : Line). before_text a.id b.id) z)) e

-- The baseline holds of the items that an approval has inserted.
pub baseline :
    (digest : Digest) (scope : NativeScope) (project changed : Project) (store : ScopeStore)
    (items : List ItemInput) (rows : List ServiceItem)
    → Inserted project items rows
    → scope.service_items ≡ items
    → find (is_version changed.id changed.scope_version) store.scopes ≡ some scope
    → check_native_scope_baseline digest store changed rows ≡ ok tt
unfolding check_native_scope_baseline
baseline digest scope project changed store items rows inserted held found =
    let equal : scope_fingerprint digest scope.service_items
        ≡ scope_fingerprint digest (map service_from_record rows) =
      same_lines digest scope.service_items (map service_from_record rows)
        (ap (λ z. map line_of z) held ∙ sym inserted.lines) in
    rw (found, check_native_scope_baseline, (str_eq_iff _ _).1 equal) refl
