-- ===== src/Split/Tests.antt =====
-- One policy with one override.
use project_management.Base.{◌≡◌, refl, trim_space, ok, true, [], ◌∷◌, none, some, pos}
use project_management.Split.Policy.{default_split_policy}
use project_management.Split.Override.{SplitOverride, matches, match_empty}
use project_management.Delivery.Gates.{contains}
use project_management.Split.Resolve.{
  SplitPlan, SplitRuleConfigRepository, apply_split_override, resolve_split_plan,
}

abbrev by_site : SplitOverride
by_site = record {
  id = 7;
  name = "by site";
  conditions = record {
    customer_contains = "bank";
    contract_contains = "";
    min_service_items = pos 0;
    max_service_items = pos 0;
    categories = [];
  };
  settings = record {
    dimension_primary = some "site";
    dimension_secondary = none;
    dimension_tertiary = none;
    default_status = none;
    generate_requirement_summary = none;
    requirement_summary_locked = none;
    missing_rule_action = none;
    scope_change_detection = none;
  };
  priority = pos 10;
  enabled = true;
}

abbrev by_site_plan : SplitPlan
by_site_plan = record {
  policy = record default_split_policy { dimension_primary = "site" };
  applied_override_id = 7;
  applied_override = "by site";
}

abbrev repository : SplitRuleConfigRepository
repository = record {
  get_split_policy = ok default_split_policy;
  list_split_overrides = ok (by_site ∷ []);
}

plans_by_site :
    resolve_split_plan (λ s. s) (λ s. s) (some repository) "a bank" "HT-1" 3 [] ≡ ok by_site_plan
unfolding resolve_split_plan apply_split_override matches contains trim_space match_empty
plans_by_site = refl
