-- ===== src/Split/Spec.antt =====
-- internal/domain/split_rule_config.go and internal/application/split_config.go: when an override hits,
-- and what its settings make of a policy, condition by condition and column by column.
use mathlib.Core.Option
use project_management.Base.{
  ℕ, String, Bool, true, false, List, [], ◌∷◌, Option, none, some, any, is_empty, ◌||◌, str_eq_iff,
  trim_space, to_upper, ltb_ℤ, pos, ◌≡◌, refl, ◌⊎◌, inl, inr, Bool-cases, arith,
}
use project_management.Delivery.Gates.{contains}
use project_management.Split.Policy.{SplitPolicy}
use project_management.Split.Override.{
  SplitOverrideSettings, SplitOverride, no_categories, match_empty, text_misses, category_hit,
  matches,
}
use project_management.Split.Resolve.{apply_split_override, trimmed_or, code_or}

-- Some element of the list is so.
abbrev pub Occurs : {A : Type 0} → (A → Type 0) → List A → Type 0
Occurs P [] = ⊥
Occurs P (x ∷ xs) = P x ⊎ Occurs P xs

any-Occurs :
    {A : Type 0} (test : A → Bool) (P : A → Type 0) (xs : List A)
    → ((x : A) → test x ≡ true → P x)
    → any test xs ≡ true
    → Occurs P xs
any-Occurs test P [] k h = cc
any-Occurs test P (x ∷ xs) k h = elim (Bool-cases (test x)) [
  | inl hit ↦ inl (k x hit)
  | inr miss ↦ inr (any-Occurs test P xs k (rw miss at h))
]

Occurs-any :
    {A : Type 0} (test : A → Bool) (P : A → Type 0) (xs : List A)
    → ((x : A) → P x → test x ≡ true)
    → Occurs P xs
    → any test xs ≡ true
Occurs-any {A = A} test P [] k h = absurd h
Occurs-any test P (x ∷ xs) k (inl h) = rw (k x h) refl
Occurs-any test P (x ∷ xs) k (inr h) = let rest = Occurs-any test P xs k h in ground arith

module _ (to_lower : String → String) (customer contract : String) (count : ℕ)
    (categories : List String) where
  -- The text that is wanted stands in the other one, both in small letters; nothing is wanted of a blank.
  abbrev pub Part : String → String → Type 0
  Part wanted text =
      (is_empty (to_lower (trim_space wanted)) ≡ true)
      ⊎ (contains (to_lower text) (to_lower (trim_space wanted)) ≡ true)

  -- One of the contract's categories is the one that is listed, up to case and blanks.
  abbrev pub Listed : String → Type 0
  Listed category =
      Occurs (λ a. to_lower (trim_space a) ≡ to_lower (trim_space category)) categories

  -- An override hits: it is switched on, it has a condition, and the contract meets every condition that
  -- is given.
  pub record Meets (o : SplitOverride) : Type 0 where
    pub switched_on : o.enabled ≡ true
    pub conditional : match_empty o.conditions ≡ false
    pub customer_named : Part o.conditions.customer_contains customer
    pub contract_named : Part o.conditions.contract_contains contract
    pub enough :
        ltb_ℤ (pos 0) o.conditions.min_service_items ≡ true
        → ltb_ℤ (pos count) o.conditions.min_service_items ≡ false
    pub few :
        ltb_ℤ (pos 0) o.conditions.max_service_items ≡ true
        → ltb_ℤ o.conditions.max_service_items (pos count) ≡ false
    pub category_listed :
        (no_categories o.conditions.categories ≡ true) ⊎ Occurs Listed o.conditions.categories

  Part-misses : (wanted text : String) → text_misses to_lower wanted text ≡ false → Part wanted text
  Part-misses wanted text h = elim (Bool-cases (is_empty (to_lower (trim_space wanted)))) [
    | inl blank ↦ inl blank
    | inr given ↦ inr (ground arith)
  ]

  misses-Part : (wanted text : String) → Part wanted text → text_misses to_lower wanted text ≡ false
  misses-Part wanted text (inl blank) = ground arith
  misses-Part wanted text (inr there) = ground arith

  Listed-hit : (c : String) → category_hit to_lower categories c ≡ true → Listed c
  Listed-hit c h = any-Occurs _ _ categories (λ a e. (str_eq_iff _ _).0 e) h

  hit-Listed : (c : String) → Listed c → category_hit to_lower categories c ≡ true
  hit-Listed c h = Occurs-any _ _ categories (λ a e. (str_eq_iff _ _).1 e) h

  abbrev pub hits : SplitOverride → Bool
  hits o = matches to_lower o customer contract count categories

  pub hits-Meets : (o : SplitOverride) → hits o ≡ true → Meets o
  unfolding matches
  hits-Meets o h = record {
    switched_on = ground arith;
    conditional = ground arith;
    customer_named = Part-misses o.conditions.customer_contains customer (ground arith);
    contract_named = Part-misses o.conditions.contract_contains contract (ground arith);
    enough = λ given. ground arith;
    few = λ given. ground arith;
    category_listed = elim (Bool-cases (no_categories o.conditions.categories)) [
      | inl free ↦ inl free
      | inr given ↦ inr (any-Occurs _ Listed o.conditions.categories Listed-hit (ground arith))
    ];
  }

  Listed-ok :
      (cs : List String)
      → (no_categories cs ≡ true) ⊎ Occurs Listed cs
      → (no_categories cs || any (category_hit to_lower categories) cs) ≡ true
  Listed-ok cs (inl free) = rw free refl
  Listed-ok cs (inr h) =
      let some_hit = Occurs-any (category_hit to_lower categories) Listed cs hit-Listed h in
      ground arith

  pub Meets-hits : (o : SplitOverride) → Meets o → hits o ≡ true
  unfolding matches
  Meets-hits o m =
      let named = misses-Part o.conditions.customer_contains customer m.customer_named in
      let numbered = misses-Part o.conditions.contract_contains contract m.contract_named in
      let listed = Listed-ok o.conditions.categories m.category_listed in
      ground (arith, m.switched_on, m.conditional, m.enough, m.few)

  pub misses-not : (o : SplitOverride) → hits o ≡ false → ¬ Meets o
  misses-not o h m = let hit = Meets-hits o m in ground arith

-- A column under a setting: what it was, or what the setting gives.
abbrev pub Column : {A : Type 0} → (A → A) → Option A → A → A → Type 0
Column read none old new = new ≡ old
Column read (some value) old new = new ≡ read value

-- The policy that an override leaves: each column from its own setting, and whether it is enabled as it
-- was.
pub record LaidOver (to_upper : String → String) (s : SplitOverrideSettings) (old new : SplitPolicy)
    : Type 0 where
  pub primary : Column trim_space s.dimension_primary old.dimension_primary new.dimension_primary
  pub secondary :
      Column trim_space s.dimension_secondary old.dimension_secondary new.dimension_secondary
  pub tertiary :
      Column trim_space s.dimension_tertiary old.dimension_tertiary new.dimension_tertiary
  pub status : Column trim_space s.default_status old.default_status new.default_status
  pub summary :
      Column
        (λ b. b)
        s.generate_requirement_summary
        old.generate_requirement_summary
        new.generate_requirement_summary
  pub locked :
      Column
        (λ b. b)
        s.requirement_summary_locked
        old.requirement_summary_locked
        new.requirement_summary_locked
  pub missing :
      Column
        (λ t. to_upper (trim_space t))
        s.missing_rule_action
        old.missing_rule_action
        new.missing_rule_action
  pub detection :
      Column (λ b. b) s.scope_change_detection old.scope_change_detection new.scope_change_detection
  pub switch : new.enabled ≡ old.enabled

Column-text :
    (value : Option String) (old : String) → Column trim_space value old (trimmed_or value old)
Column-text none old = refl
Column-text (some t) old = refl

Column-code :
    (to_upper : String → String) (value : Option String) (old : String)
    → Column (λ t. to_upper (trim_space t)) value old (code_or to_upper value old)
Column-code to_upper none old = refl
Column-code to_upper (some t) old = refl

Column-flag :
    (value : Option Bool) (old : Bool) → Column (λ b. b) value old (Option.get_or value old)
Column-flag none old = refl
Column-flag (some b) old = refl

pub apply_split_override-LaidOver :
    (to_upper : String → String) (policy : SplitPolicy) (settings : SplitOverrideSettings)
    → LaidOver to_upper settings policy (apply_split_override to_upper policy settings)
unfolding apply_split_override
apply_split_override-LaidOver to_upper policy s = record {
  primary = Column-text s.dimension_primary policy.dimension_primary;
  secondary = Column-text s.dimension_secondary policy.dimension_secondary;
  tertiary = Column-text s.dimension_tertiary policy.dimension_tertiary;
  status = Column-text s.default_status policy.default_status;
  summary = Column-flag s.generate_requirement_summary policy.generate_requirement_summary;
  locked = Column-flag s.requirement_summary_locked policy.requirement_summary_locked;
  missing = Column-code to_upper s.missing_rule_action policy.missing_rule_action;
  detection = Column-flag s.scope_change_detection policy.scope_change_detection;
  switch = refl;
}
