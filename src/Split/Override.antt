-- ===== src/Split/Override.antt =====
-- internal/domain/split_rule_config.go: the override rules, their validation and `Matches`.

use project_management.Base.{
  ℕ, suc, String, Bool, true, false, ◌&&◌, ◌||◌, not, List, [], ◌∷◌, Option, none, some, any,
  is_empty, is_some, str_eq, trim_space, ltb, ltb_ℤ, ℤ, pos, eq_ℤ, Check, ◌>>◌, refuse_if,
  validation,
}
use project_management.Delivery.Gates.{contains}
use project_management.Split.Policy.{
  valid_split_dimension, valid_default_status, valid_missing_rule_action,
}

pub record SplitOverrideMatch : Type 0 where
  pub customer_contains : String
  pub contract_contains : String
  pub min_service_items : ℤ
  pub max_service_items : ℤ
  pub categories : List String

pub record SplitOverrideSettings : Type 0 where
  pub dimension_primary : Option String
  pub dimension_secondary : Option String
  pub dimension_tertiary : Option String
  pub default_status : Option String
  pub generate_requirement_summary : Option Bool
  pub requirement_summary_locked : Option Bool
  pub missing_rule_action : Option String
  pub scope_change_detection : Option Bool

pub record SplitOverride : Type 0 where
  pub id : ℕ
  pub name : String
  pub conditions : SplitOverrideMatch
  pub settings : SplitOverrideSettings
  pub priority : ℤ
  pub enabled : Bool

abbrev pub no_categories : List String → Bool
no_categories [] = true
no_categories (c ∷ cs) = false

-- `SplitOverrideMatch.Empty`
unfoldable pub match_empty : SplitOverrideMatch → Bool
match_empty m =
    is_empty (trim_space m.customer_contains)
    && is_empty (trim_space m.contract_contains)
    && eq_ℤ m.min_service_items (pos 0)
    && eq_ℤ m.max_service_items (pos 0)
    && no_categories m.categories

-- `SplitOverrideSettings.Empty`
unfoldable pub settings_empty : SplitOverrideSettings → Bool
settings_empty s =
    not (is_some s.dimension_primary)
    && not (is_some s.dimension_secondary)
    && not (is_some s.dimension_tertiary)
    && not (is_some s.default_status)
    && not (is_some s.generate_requirement_summary)
    && not (is_some s.requirement_summary_locked)
    && not (is_some s.missing_rule_action)
    && not (is_some s.scope_change_detection)

-- `len([]rune(s))`
rune_count : String → ℕ
rune_count String.[] = 0
rune_count (String.◌∷◌ c s) = suc (rune_count s)

abbrev too_long : ℕ → String → Bool
too_long bound s = ltb bound (rune_count s)

abbrev given_and : (String → Bool) → Option String → Bool
given_and test none = false
given_and test (some s) = test s

-- `ValidateSplitOverride`
unfoldable pub validate_split_override : SplitOverride → Check
unfolding rune_count
validate_split_override item =
    refuse_if (is_empty (trim_space item.name)) validation
    >> refuse_if (too_long 255 item.name) validation
    >> refuse_if (too_long 255 item.conditions.customer_contains) validation
    >> refuse_if (too_long 64 item.conditions.contract_contains) validation
    >> refuse_if (any (too_long 128) item.conditions.categories) validation
    >> refuse_if (match_empty item.conditions) validation
    >> refuse_if (settings_empty item.settings) validation
    >> refuse_if
        (ltb_ℤ item.conditions.min_service_items (pos 0)
          || ltb_ℤ item.conditions.max_service_items (pos 0))
        validation
    >> refuse_if
        (ltb_ℤ (pos 0) item.conditions.max_service_items
          && ltb_ℤ item.conditions.max_service_items item.conditions.min_service_items)
        validation
    >> refuse_if (not (ltb_ℤ (pos 0) item.priority)) validation
    >> refuse_if (given_and (λ s. not (valid_split_dimension s)) item.settings.dimension_primary)
        validation
    >> refuse_if (given_and (λ s. not (valid_split_dimension s)) item.settings.dimension_secondary)
        validation
    >> refuse_if
        (given_and (λ s. not (is_empty (trim_space s)) && not (valid_split_dimension s))
          item.settings.dimension_tertiary)
        validation
    >> refuse_if
        (given_and (λ s. not (valid_default_status (trim_space s))) item.settings.default_status)
        validation
    >> refuse_if
        (given_and (λ s. not (valid_missing_rule_action (trim_space s)))
          item.settings.missing_rule_action)
        validation

-- `strings.ToLower`, as a parameter of the functions that use it.
module _ (to_lower : String → String) where
  abbrev pub text_misses : String → String → Bool
  text_misses condition text =
      let wanted = to_lower (trim_space condition) in
      not (is_empty wanted) && not (contains (to_lower text) wanted)

  abbrev pub category_hit : List String → String → Bool
  category_hit available category =
      any (λ a. str_eq (to_lower (trim_space a)) (to_lower (trim_space category))) available

  -- `SplitOverride.Matches`
  unfoldable pub matches : SplitOverride → String → String → ℕ → List String → Bool
  matches o customer contract service_item_count categories =
      let m = o.conditions in
      o.enabled
      && not (match_empty m)
      && not (text_misses m.customer_contains customer)
      && not (text_misses m.contract_contains contract)
      && not
          (ltb_ℤ (pos 0) m.min_service_items && ltb_ℤ (pos service_item_count) m.min_service_items)
      && not
          (ltb_ℤ (pos 0) m.max_service_items && ltb_ℤ m.max_service_items (pos service_item_count))
      && (no_categories m.categories || any (category_hit categories) m.categories)
