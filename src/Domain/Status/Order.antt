-- ===== src/Domain/Status/Order.antt =====
-- internal/domain/project_status.go: the derived values do not depend on the order in which the
-- database returns the service items.
use mathlib.Core.List.{Permᴰ}
use mathlib.Core.List.Permᴰ
use project_management.Base.{
  ℕ, suc, ◌≤◌, ◌≡◌, refl, sym, ap, subst, ◌∙◌, String, Bool, true, ◌||◌, List, [], ◌∷◌, inl, inr,
  arith, All, any, length,
}
use project_management.Domain.Status.{
  ProjectStatusItem, service_item_lifecycle_rank, derive_project_status,
}
use project_management.Domain.Status.Derive.{is_active, Attains}
use project_management.Domain.Status.Spec.{
  StatusRule, in_supplement, without_items, abandoned, lagging, derive-iff-rule,
}

or_swap : (x y z : Bool) → (x || (y || z)) ≡ (y || (x || z))
or_swap x y z = ground arith

any-perm {ℓ} :
    {A : Type ℓ} (test : A → Bool) {xs ys : List A} → Permᴰ xs ys → any test xs ≡ any test ys
any-perm test Permᴰ.nil = refl
any-perm test (Permᴰ.cons {b = b} e p) = rw (e, any-perm test p)
any-perm test (Permᴰ.swap {a' = a'} {b' = b'} {l = l} e d) =
    rw (e, d) (or_swap (test b') (test a') (any test l))
any-perm test (Permᴰ.trans p q) = any-perm test p ∙ any-perm test q

All-perm {ℓ κ} : {A : Type ℓ} (P : A → Type κ) {xs ys : List A} → Permᴰ xs ys → All P xs → All P ys
All-perm P Permᴰ.nil h = h
All-perm P (Permᴰ.cons e p) h = (subst P e h.0, All-perm P p h.1)
All-perm P (Permᴰ.swap e d) h = (subst P d h.1.0, (subst P e h.0, h.1.1))
All-perm P (Permᴰ.trans p q) h = All-perm P q (All-perm P p h)

abbrev Ranked : ℕ → ProjectStatusItem → Type 0
Ranked r i = (is_active i ≡ true) × (service_item_lifecycle_rank i ≡ r)

Attains-perm : (r : ℕ) {xs ys : List ProjectStatusItem} → Permᴰ xs ys → Attains r xs → Attains r ys
Attains-perm r Permᴰ.nil h = h
Attains-perm r (Permᴰ.cons e p) (inl h) = inl (subst (Ranked r) e h)
Attains-perm r (Permᴰ.cons e p) (inr h) = inr (Attains-perm r p h)
Attains-perm r (Permᴰ.swap e d) (inl h) = inr (inl (subst (Ranked r) e h))
Attains-perm r (Permᴰ.swap e d) (inr (inl h)) = inl (subst (Ranked r) d h)
Attains-perm r (Permᴰ.swap e d) (inr (inr h)) = inr (inr h)
Attains-perm r (Permᴰ.trans p q) h = Attains-perm r q (Attains-perm r p h)

length-perm {ℓ} : {A : Type ℓ} {xs ys : List A} → Permᴰ xs ys → length xs ≡ length ys
length-perm Permᴰ.nil = refl
length-perm (Permᴰ.cons e p) = ap suc (length-perm p)
length-perm (Permᴰ.swap e d) = refl
length-perm (Permᴰ.trans p q) = length-perm p ∙ length-perm q

nil-length : (items : List ProjectStatusItem) → length items ≡ 0 → items ≡ []
nil-length [] h = refl
nil-length (item ∷ items) h = absurd (omega arith)

rule-perm :
    {xs ys : List ProjectStatusItem} {supplement stored s : String}
    → Permᴰ xs ys
    → StatusRule xs supplement stored s
    → StatusRule ys supplement stored s
rule-perm p (in_supplement e q) = in_supplement e q
rule-perm {ys} p (without_items e nil q) =
    without_items e (nil-length ys (sym (length-perm p) ∙ ap length nil)) q
rule-perm {xs} p (abandoned e ne h q) =
    abandoned e (λ nil. ne (nil-length xs (length-perm p ∙ ap length nil)))
      (sym (any-perm is_active p) ∙ h) q
rule-perm p (lagging r e h low q) =
    lagging r e (sym (any-perm is_active p) ∙ h)
      (record {
        bound = All-perm (λ i. is_active i ≡ true → r ≤ service_item_lifecycle_rank i) p low.bound;
        attained = Attains-perm r p low.attained;
      })
      q

-- The derived status does not depend on the order of the items.
pub derive_project_status-perm :
    (xs ys : List ProjectStatusItem) (supplement stored : String)
    → Permᴰ xs ys
    → derive_project_status xs supplement stored ≡ derive_project_status ys supplement stored
derive_project_status-perm xs ys supplement stored p =
    let status = derive_project_status ys supplement stored in
    (derive-iff-rule xs supplement stored status).1
      (rule-perm (Permᴰ.symm p) ((derive-iff-rule ys supplement stored status).0 refl))
