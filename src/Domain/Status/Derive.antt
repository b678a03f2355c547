-- ===== src/Domain/Status/Derive.antt =====
-- internal/domain/project_status.go: `DeriveProjectStatus` against its rules.
use project_management.Base.{
  ℕ, suc, ◌+◌, ◌≤◌, ◌<◌, ◌≡◌, refl, Bool, true, false, List, [], ◌∷◌, inl, inr, ◌⊎◌, arith,
  Bool-cases, All, ltb, if◌then◌else◌, length, any, not,
}
use project_management.Domain.Status.{
  ProjectStatusItem, is_terminated, service_item_lifecycle_rank, scan_status,
}
use project_management.Domain.Status.Rank.{rank-le}

-- An item that still counts.
abbrev pub is_active : ProjectStatusItem → Bool
is_active item = not (is_terminated item)

abbrev pub count_terminated : List ProjectStatusItem → ℕ
count_terminated [] = 0
count_terminated (item ∷ items) =
    if is_terminated item then suc (count_terminated items) else count_terminated items

-- Some item counts and has the rank `r`.
abbrev pub Attains : ℕ → List ProjectStatusItem → Type 0
Attains r [] = ⊥
Attains r (item ∷ items) =
    ((is_active item ≡ true) × (service_item_lifecycle_rank item ≡ r)) ⊎ Attains r items

-- `r` is the least rank of the items that count.
pub record IsLowest (items : List ProjectStatusItem) (r : ℕ) : Type 0 where
  pub bound : All (λ i. is_active i ≡ true → r ≤ service_item_lifecycle_rank i) items
  pub attained : Attains r items

abbrev lower : ProjectStatusItem → ℕ → ℕ
lower item lowest =
    if is_terminated item
    then lowest
    else if ltb (service_item_lifecycle_rank item) lowest
    then service_item_lifecycle_rank item
    else lowest

pub scan-count :
    (items : List ProjectStatusItem) (l g : ℕ)
    → (scan_status items l g).1 ≡ g + count_terminated items
unfolding scan_status
scan-count [] l g = omega arith
scan-count (item ∷ items) l g =
    let ih = scan-count items (lower item l) (if is_terminated item then suc g else g) in
    ground (arith, ih)

pub scan-le : (items : List ProjectStatusItem) (l g : ℕ) → (scan_status items l g).0 ≤ l
unfolding scan_status
scan-le [] l g = omega arith
scan-le (item ∷ items) l g =
    let ih = scan-le items (lower item l) (if is_terminated item then suc g else g) in
    ground (arith, ih)

scan_bound :
    (items : List ProjectStatusItem) (l g : ℕ)
    → All
        (λ i. is_active i ≡ true → (scan_status items l g).0 ≤ service_item_lifecycle_rank i)
        items
unfolding scan_status
scan_bound [] l g = tt
scan_bound (item ∷ items) l g =
    let g' = if is_terminated item then suc g else g in
    let ih = scan-le items (lower item l) g' in
    (λ h. ground (arith, ih), scan_bound items (lower item l) g')

scan_attained :
    (items : List ProjectStatusItem) (l g : ℕ)
    → ((scan_status items l g).0 ≡ l) ⊎ Attains (scan_status items l g).0 items
unfolding scan_status
scan_attained [] l g = inl refl
scan_attained (item ∷ items) l g =
    ground (arith, scan_attained items (lower item l) (if is_terminated item then suc g else g))

-- If nothing is below the bound, the bound itself is attained as soon as an item counts.
Attains-top :
    (items : List ProjectStatusItem) (l : ℕ)
    → any is_active items ≡ true
    → All (λ i. service_item_lifecycle_rank i ≤ l) items
    → All (λ i. is_active i ≡ true → l ≤ service_item_lifecycle_rank i) items
    → Attains l items
Attains-top [] l h up down = cc
Attains-top (item ∷ items) l h up down = elim (Bool-cases (is_terminated item)) [
  | inl gone ↦ inr (Attains-top items l (rw gone at h) up.1 down.1)
  | inr kept ↦ inl (rw kept refl, omega (arith, up.0, down.0 (rw kept refl)))
]

ranks-le : (items : List ProjectStatusItem) → All (λ i. service_item_lifecycle_rank i ≤ 8) items
ranks-le [] = tt
ranks-le (item ∷ items) = (rank-le item, ranks-le items)

pub scan-IsLowest :
    (items : List ProjectStatusItem)
    → any is_active items ≡ true
    → IsLowest items (scan_status items 8 0).0
scan-IsLowest items h = record {
  bound = scan_bound items 8 0;
  attained = elim (scan_attained items 8 0) [
    | inl top ↦ rw top (Attains-top items 8 h (ranks-le items) (rw top at (scan_bound items 8 0)))
    | inr found ↦ found
  ];
}

pub count-lt-length :
    (items : List ProjectStatusItem)
    → (any is_active items ≡ true → count_terminated items < length items)
      × (any is_active items ≡ false → count_terminated items ≡ length items)
count-lt-length [] = (λ h. cc, λ h. refl)
count-lt-length (item ∷ items) = ground (arith, count-lt-length items)
