-- ===== src/Delivery/Payload.antt =====
-- The payload of a delivery event (internal/infrastructure/mysql/delivery.go, delivery_report.go):
-- `map[string]any`, its readers, and the rows nested in it.
use mathlib.Core.Option
use project_management.Base.{
  ℕ, String, Bool, false, List, Option, none, some, trim_space, lookup, str_eq,
}

-- internal/domain/delivery.go: a person or a device of a plan.
pub record PlanResource : Type 0 where
  pub resource_type : String
  pub resource_id : String
  pub resource_name : String
  pub codes : List String
  pub valid_until : String
  pub window_start : String
  pub window_end : String
  pub note : String
  pub returned_at : String

-- internal/domain/delivery.go: a file that the file service has stored.
pub record ReportArtifactInput : Type 0 where
  pub file_id : String
  pub file_name : String
  pub mime : String
  pub size : ℕ
  pub sha256 : String

-- internal/domain/model.go `ServiceItem`, the fields that a new service item takes over.
pub record ItemInput : Type 0 where
  pub id : String
  pub source_service_id : String
  pub batch : String
  pub site : String
  pub site_code : String
  pub category : String
  pub requirement : String
  pub system : String
  pub system_level : String
  pub system_standard : String
  pub required_codes : List String
  pub special : String
  pub test_mode : String
  pub status : String
  pub tech_review_status : String
  pub conflict_status : String

-- The values that the services put into a payload. `other_number` is a number that is not a whole
-- positive one.
pub data Value : Type 0 where
  null_value other_number : Value
  text : String → Value
  number : ℕ → Value
  texts : List String → Value
  resources : List PlanResource → Value
  files : List ReportArtifactInput → Value
  service_items : List ItemInput → Value

abbrev pub Payload : Type 0
Payload = List (String × Value)

abbrev text_of : Value → String
text_of (text s) = trim_space s
text_of null_value = ""
text_of other_number = ""
text_of (number _) = ""
text_of (texts _) = ""
text_of (resources _) = ""
text_of (files _) = ""
text_of (service_items _) = ""

-- `stringValue`: "" when the key is missing or holds no text
unfoldable pub string_value : Payload → String → String
string_value payload key = elim (lookup key payload) [ none ↦ "" | some v ↦ text_of v ]

abbrev version_of : Value → ℕ
version_of (number n) = n
version_of null_value = 0
version_of other_number = 0
version_of (text _) = 0
version_of (texts _) = 0
version_of (resources _) = 0
version_of (files _) = 0
version_of (service_items _) = 0

-- `expectedVersionValue`: 0 stands for no expectation
unfoldable pub expected_version_value : Payload → ℕ
expected_version_value payload = elim (lookup "expected_version" payload) [
  | none ↦ 0
  | some v ↦ version_of v
]

-- `jsonValue(event.Payload[key])`: a missing key encodes as `null`
pub json_value : Payload → String → Value
json_value payload key = Option.get_or (lookup key payload) null_value

-- `jsonBytes`: nothing when the key is missing or null
unfoldable pub json_bytes : Payload → String → Option Value
json_bytes payload key = elim (lookup key payload) [
  | none ↦ none
  | some null_value ↦ none
  | some v ↦ some v
]

-- `JSON_UNQUOTE(JSON_EXTRACT(payload, '$.key'))=?`, for a key under which only texts are stored: no
-- space is cut off here.
abbrev text_is : Value → String → Bool
text_is (text s) value = str_eq s value
text_is null_value value = false
text_is other_number value = false
text_is (number _) value = false
text_is (texts _) value = false
text_is (resources _) value = false
text_is (files _) value = false
text_is (service_items _) value = false

unfoldable pub has_text : Payload → String → String → Bool
has_text payload key value = elim (lookup key payload) [ none ↦ false | some v ↦ text_is v value ]
