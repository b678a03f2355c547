-- ===== src/Split/Policy.antt =====
-- internal/domain/split_rule_config.go: the default grouping rule of a tenant and its validation. The
-- tenant, the row's id and the time of the update are left out.
use project_management.Base.{
  String, Bool, true, false, ◌&&◌, ◌||◌, not, List, [], ◌∷◌, any, is_empty, str_eq, trim_space,
  Check, ◌>>◌, refuse_if, validation,
}

abbrev pub split_dimension_batch : String
split_dimension_batch = "batch"

abbrev pub split_dimension_category : String
split_dimension_category = "category"

-- The keys of `splitDimensionPrimaryLabels` and of `splitDimensionSecondaryLabels`
abbrev split_dimensions : List String
split_dimensions =
    "batch" ∷ "site" ∷ "customer" ∷ "contract" ∷ "category" ∷ "system_standard" ∷ "test_mode" ∷ []

abbrev pub split_missing_human_confirm : String
split_missing_human_confirm = "HUMAN_CONFIRM"

abbrev pub service_item_status_pending_confirm : String
service_item_status_pending_confirm = "待确认"

-- `validSplitDimension`
unfoldable pub valid_split_dimension : String → Bool
valid_split_dimension value = any (str_eq (trim_space value)) split_dimensions

pub record SplitPolicy : Type 0 where
  pub dimension_primary : String
  pub dimension_secondary : String
  pub dimension_tertiary : String
  pub default_status : String
  pub generate_requirement_summary : Bool
  pub requirement_summary_locked : Bool
  pub missing_rule_action : String
  pub scope_change_detection : Bool
  pub enabled : Bool

-- `DefaultSplitPolicy`
abbrev pub default_split_policy : SplitPolicy
default_split_policy = record {
  dimension_primary = split_dimension_batch;
  dimension_secondary = split_dimension_category;
  dimension_tertiary = "";
  default_status = service_item_status_pending_confirm;
  generate_requirement_summary = true;
  requirement_summary_locked = false;
  missing_rule_action = split_missing_human_confirm;
  scope_change_detection = true;
  enabled = true;
}

abbrev pub valid_default_status : String → Bool
valid_default_status status = str_eq status "待确认" || str_eq status "待分配"

abbrev pub valid_missing_rule_action : String → Bool
valid_missing_rule_action action =
    str_eq action "HUMAN_CONFIRM" || str_eq action "DEFAULT_RULE" || str_eq action "SILENT"

-- A third dimension that is given but unknown, or the same as one of the others.
abbrev pub bad_tertiary : SplitPolicy → Bool
bad_tertiary policy =
    let tertiary = trim_space policy.dimension_tertiary in
    not (is_empty tertiary)
    && (not (valid_split_dimension tertiary)
        || str_eq tertiary policy.dimension_primary
        || str_eq tertiary policy.dimension_secondary)

-- `ValidateSplitPolicy`
unfoldable pub validate_split_policy : SplitPolicy → Check
validate_split_policy policy =
    refuse_if (not (valid_split_dimension policy.dimension_primary)) validation
    >> refuse_if (not (valid_split_dimension policy.dimension_secondary)) validation
    >> refuse_if (bad_tertiary policy) validation
    >> refuse_if (str_eq policy.dimension_primary policy.dimension_secondary) validation
    >> refuse_if (not (valid_default_status policy.default_status)) validation
    >> refuse_if (not (valid_missing_rule_action policy.missing_rule_action)) validation
