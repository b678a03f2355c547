-- ===== src/Split/Resolve.antt =====
-- internal/application/split_config.go: `resolveSplitPlan` and `applySplitOverride`. The repository
-- answers with the policy and the overrides, ordered by priority, or with an error; one that has no
-- such configuration is none.
use mathlib.Core.Option
use project_management.Base.{
  ℕ, String, false, not, List, Option, none, some, find, if◌then◌else◌, trim_space, Result, ok,
  ◌>>=◌, Bool,
}
use project_management.Split.Policy.{SplitPolicy, default_split_policy}
use project_management.Split.Override.{SplitOverride, SplitOverrideSettings, matches}

pub record SplitPlan : Type 0 where
  pub policy : SplitPolicy
  pub applied_override_id : ℕ
  pub applied_override : String

abbrev pub trimmed_or : Option String → String → String
trimmed_or none s = s
trimmed_or (some t) s = trim_space t

-- `strings.ToUpper` is the first argument
abbrev pub code_or : (String → String) → Option String → String → String
code_or to_upper none s = s
code_or to_upper (some t) s = to_upper (trim_space t)

-- `applySplitOverride`
unfoldable pub apply_split_override :
    (String → String) → SplitPolicy → SplitOverrideSettings → SplitPolicy
apply_split_override to_upper policy settings = record policy {
  dimension_primary = trimmed_or settings.dimension_primary policy.dimension_primary;
  dimension_secondary = trimmed_or settings.dimension_secondary policy.dimension_secondary;
  dimension_tertiary = trimmed_or settings.dimension_tertiary policy.dimension_tertiary;
  default_status = trimmed_or settings.default_status policy.default_status;
  generate_requirement_summary =
      Option.get_or settings.generate_requirement_summary policy.generate_requirement_summary;
  requirement_summary_locked =
      Option.get_or settings.requirement_summary_locked policy.requirement_summary_locked;
  missing_rule_action = code_or to_upper settings.missing_rule_action policy.missing_rule_action;
  scope_change_detection =
      Option.get_or settings.scope_change_detection policy.scope_change_detection;
}

abbrev pub plain_plan : SplitPolicy → SplitPlan
plain_plan policy = record { policy = policy; applied_override_id = 0; applied_override = "" }

-- The two methods of `SplitRuleConfigRepository` that a plan reads.
pub record SplitRuleConfigRepository : Type 0 where
  pub get_split_policy : Result SplitPolicy
  pub list_split_overrides : Result (List SplitOverride)

-- The loop over the overrides, which ends at the first that matches
abbrev pub first_plan :
    (String → String) → (SplitOverride → Bool) → SplitPolicy → List SplitOverride → SplitPlan
first_plan to_upper hits policy overrides = elim (find hits overrides) [
  | none ↦ plain_plan policy
  | some o ↦ record {
    policy = apply_split_override to_upper policy o.settings;
    applied_override_id = o.id;
    applied_override = o.name;
  }
]

-- `resolveSplitPlan`, with `strings.ToLower` and `strings.ToUpper`
unfoldable pub resolve_split_plan :
    (String → String)
    → (String → String)
    → Option SplitRuleConfigRepository
    → String
    → String
    → ℕ
    → List String
    → Result SplitPlan
resolve_split_plan to_lower to_upper none customer contract count categories =
    ok (plain_plan default_split_policy)
resolve_split_plan to_lower to_upper (some repo) customer contract count categories =
    repo.get_split_policy >>= λ policy.
    if not policy.enabled
    then ok (plain_plan (record default_split_policy { enabled = false }))
    else repo.list_split_overrides >>= λ overrides. ok (
        first_plan to_upper (λ o. matches to_lower o customer contract count categories) policy
          overrides)
