-- ===== src/Domain/Status/Stored.antt =====
-- internal/domain/project_status.go `DeriveProjectStatus`: a status that it has derived, stored and
-- derived again, is the same.
use project_management.Base.{
  String, ◌≡◌, refl, List, [], ◌∷◌, inl, inr, Bool-cases, is_empty, trim_space, equal_fold,
}
use project_management.Base.Text.Normal.{trim_space_idem}
use project_management.Domain.Status.{
  ProjectStatusItem, derive_project_status, fallback_status, pending_decomposition,
}

fallback-pending : fallback_status pending_decomposition ≡ pending_decomposition
unfolding fallback_status trim_space
fallback-pending = refl

fallback_status_idem :
    (stored : String) → fallback_status (fallback_status stored) ≡ fallback_status stored
unfolding fallback_status
fallback_status_idem stored = elim (Bool-cases (is_empty (trim_space stored))) [
  | inl blank ↦ rw blank (unfold fallback_status in fallback-pending)
  | inr given ↦ rw (given, trim_space_idem stored, given) refl
]

pub derive_project_status_idem :
    (items : List ProjectStatusItem) (supplement stored : String)
    → derive_project_status items supplement (derive_project_status items supplement stored)
      ≡ derive_project_status items supplement stored
unfolding derive_project_status
derive_project_status_idem [] supplement stored =
    elim (Bool-cases (equal_fold (trim_space supplement) "REQUIRED")) [
      | inl e ↦ rw e refl
      | inr e ↦ rw e (unfold derive_project_status in fallback_status_idem stored)
    ]
derive_project_status_idem (i ∷ items) supplement stored =
    elim (Bool-cases (equal_fold (trim_space supplement) "REQUIRED")) [
      | inl e ↦ rw e refl
      | inr e ↦ rw e refl
    ]
