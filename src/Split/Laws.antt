-- ===== src/Split/Laws.antt =====
-- internal/application/split_config.go `resolveSplitPlan`: which plan a decomposition runs under.
use project_management.Base.{
  ℕ, String, true, false, List, ◌∷◌, ◌++◌, Option, none, some, ◌≡◌, All, Result, ok, err, AppError,
  Bool,
}
use project_management.Split.Policy.{SplitPolicy, default_split_policy}
use project_management.Split.Override.{SplitOverride}
use project_management.Split.Resolve.{SplitPlan, SplitRuleConfigRepository, plain_plan}
use project_management.Split.Spec.{Meets, hits, LaidOver}

module _ (to_lower to_upper : String → String) (customer contract : String) (count : ℕ)
    (categories : List String) where
  abbrev found_hit : SplitOverride → Bool
  found_hit o = hits to_lower customer contract count categories o

  -- The contract meets what the override asks for.
  abbrev pub Asked : SplitOverride → Type 0
  Asked o = Meets to_lower customer contract count categories o

  -- The plan of a policy that is switched on: the first override whose conditions are all met is laid over
  -- the policy, column by column, and without one the policy stands.
  pub data PlanRule (policy : SplitPolicy) (overrides : List SplitOverride) (plan : SplitPlan)
      : Type 0 where
    unmatched :
        All (λ o. ¬ Asked o) overrides → plan ≡ plain_plan policy → PlanRule policy overrides plan
    first_match :
        (before after : List SplitOverride) (o : SplitOverride)
        → overrides ≡ before ++ o ∷ after
        → All (λ b. ¬ Asked b) before
        → Asked o
        → LaidOver to_upper o.settings policy plan.policy
        → plan.applied_override_id ≡ o.id
        → plan.applied_override ≡ o.name
        → PlanRule policy overrides plan

  -- The answer in every case of the repository: without its configuration the default policy is the plan;
  -- its errors are passed on; a policy that is switched off gives the safe default, and the overrides are
  -- not read.
  pub data AnswerRule : Option SplitRuleConfigRepository → Result SplitPlan → Type 0 where
    unconfigured : AnswerRule none (ok (plain_plan default_split_policy))
    policy_failed :
        {repo : SplitRuleConfigRepository} (e : AppError)
        → repo.get_split_policy ≡ err e
        → AnswerRule (some repo) (err e)
    switched_off :
        {repo : SplitRuleConfigRepository} (policy : SplitPolicy)
        → repo.get_split_policy ≡ ok policy
        → policy.enabled ≡ false
        → AnswerRule (some repo) (ok (plain_plan (record default_split_policy { enabled = false })))
    overrides_failed :
        {repo : SplitRuleConfigRepository} (policy : SplitPolicy) (e : AppError)
        → repo.get_split_policy ≡ ok policy
        → policy.enabled ≡ true
        → repo.list_split_overrides ≡ err e
        → AnswerRule (some repo) (err e)
    planned :
        {repo : SplitRuleConfigRepository} (policy : SplitPolicy) (overrides : List SplitOverride)
        (plan : SplitPlan)
        → repo.get_split_policy ≡ ok policy
        → policy.enabled ≡ true
        → repo.list_split_overrides ≡ ok overrides
        → PlanRule policy overrides plan
        → AnswerRule (some repo) (ok plan)
