-- ===== src/Domain/Status/Spec.antt =====
-- internal/domain/project_status.go: the documented rules of `DeriveProjectStatus` as a relation.
use project_management.Base.{
  ℕ, ◌≤◌, ◌≡◌, refl, sym, subst, ◌∙◌, ◌≢◌, ◌↔◌, String, true, false, List, [], ◌∷◌, inl, inr, arith,
  Bool-cases, All, any, equal_fold, trim_space,
}
use project_management.Domain.Status.{
  ProjectStatusItem, service_item_lifecycle_rank, scan_status, status_of_items,
  derive_project_status, project_status_nodes, node_at, terminated, fallback_status,
  supplement_required,
}
use project_management.Domain.Status.Derive.{
  is_active, Attains, IsLowest, scan-count, scan-IsLowest, count-lt-length,
}

-- The rules, in the words of the function's comment: the supplement branch first, a project with no
-- items keeps what is stored, one whose items are all terminated is terminated, and any other stands
-- at the node of its most lagging item.
pub data StatusRule (items : List ProjectStatusItem) (supplement stored s : String) : Type 0 where
  in_supplement :
      equal_fold (trim_space supplement) "REQUIRED" ≡ true
      → s ≡ supplement_required
      → StatusRule items supplement stored s
  without_items :
      equal_fold (trim_space supplement) "REQUIRED" ≡ false
      → items ≡ []
      → s ≡ fallback_status stored
      → StatusRule items supplement stored s
  abandoned :
      equal_fold (trim_space supplement) "REQUIRED" ≡ false
      → items ≢ []
      → any is_active items ≡ false
      → s ≡ terminated
      → StatusRule items supplement stored s
  lagging :
      (r : ℕ)
      → equal_fold (trim_space supplement) "REQUIRED" ≡ false
      → any is_active items ≡ true
      → IsLowest items r
      → s ≡ node_at project_status_nodes r
      → StatusRule items supplement stored s

status_of_items-lagging :
    (items : List ProjectStatusItem)
    → any is_active items ≡ true
    → status_of_items items ≡ node_at project_status_nodes (scan_status items 8 0).0
unfolding status_of_items
status_of_items-lagging items h = ground (arith, scan-count items 8 0, (count-lt-length items).0 h)

status_of_items-abandoned :
    (items : List ProjectStatusItem)
    → any is_active items ≡ false
    → status_of_items items ≡ terminated
unfolding status_of_items
status_of_items-abandoned items h =
    ground (arith, scan-count items 8 0, (count-lt-length items).1 h)

items_rule :
    (items : List ProjectStatusItem) (supplement stored : String)
    → equal_fold (trim_space supplement) "REQUIRED" ≡ false
    → items ≢ []
    → StatusRule items supplement stored (status_of_items items)
items_rule items supplement stored e ne = elim (Bool-cases (any is_active items)) [
  | inl h ↦
      lagging (scan_status items 8 0).0 e h (scan-IsLowest items h)
        (status_of_items-lagging items h)
  | inr h ↦ abandoned e ne h (status_of_items-abandoned items h)
]

derive-rule :
    (items : List ProjectStatusItem) (supplement stored : String)
    → StatusRule items supplement stored (derive_project_status items supplement stored)
unfolding derive_project_status
derive-rule [] supplement stored =
    elim (Bool-cases (equal_fold (trim_space supplement) "REQUIRED")) [
      | inl e ↦ in_supplement e (rw e)
      | inr e ↦ without_items e refl (rw e)
    ]
derive-rule (item ∷ items) supplement stored =
    elim (Bool-cases (equal_fold (trim_space supplement) "REQUIRED")) [
      | inl e ↦ in_supplement e (rw e)
      | inr e ↦ rw e (items_rule (item ∷ items) supplement stored e (λ h. cc))
    ]

lowest-le :
    (items : List ProjectStatusItem) (r q : ℕ)
    → All (λ i. is_active i ≡ true → r ≤ service_item_lifecycle_rank i) items
    → Attains q items
    → r ≤ q
lowest-le [] r q low at = absurd at
lowest-le (item ∷ items) r q low (inl (kept, e)) = omega (arith, low.0 kept)
lowest-le (item ∷ items) r q low (inr at) = lowest-le items r q low.1 at

pub IsLowest-unique :
    (items : List ProjectStatusItem) (r q : ℕ) → IsLowest items r → IsLowest items q → r ≡ q
IsLowest-unique items r q h k =
    omega (arith, lowest-le items r q h.bound k.attained, lowest-le items q r k.bound h.attained)

rule-derive :
    (items : List ProjectStatusItem) (supplement stored : String) {s : String}
    → StatusRule items supplement stored s
    → derive_project_status items supplement stored ≡ s
unfolding derive_project_status
rule-derive [] supplement stored (in_supplement e p) = ground arith
rule-derive [] supplement stored (without_items e nil p) = ground arith
rule-derive [] supplement stored (abandoned e ne h p) = absurd (ne refl)
rule-derive [] supplement stored (lagging r e h low p) = cc
rule-derive (item ∷ items) supplement stored (in_supplement e p) = ground arith
rule-derive (item ∷ items) supplement stored (without_items e nil p) = cc
rule-derive (item ∷ items) supplement stored (abandoned e ne h p) =
    rw e (status_of_items-abandoned (item ∷ items) h ∙ sym p)
rule-derive (item ∷ items) supplement stored (lagging r e h low p) =
    let same = IsLowest-unique (item ∷ items) _ r (scan-IsLowest (item ∷ items) h) low in
    rw e (status_of_items-lagging (item ∷ items) h ∙ rw same (sym p))

-- `DeriveProjectStatus` returns a status exactly when the rules give it: every project has one, and
-- the rules contradict one another nowhere.
pub derive-iff-rule :
    (items : List ProjectStatusItem) (supplement stored s : String)
    → (derive_project_status items supplement stored ≡ s) ↔ StatusRule items supplement stored s
derive-iff-rule items supplement stored s = (
  λ e. subst (StatusRule items supplement stored) e (derive-rule items supplement stored),
  rule-derive items supplement stored,
)
