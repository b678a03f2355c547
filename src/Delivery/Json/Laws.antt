-- ===== src/Delivery/Json/Laws.antt =====
-- internal/infrastructure/mysql/delivery_events.go: a payload is semantically equal to itself.
use project_management.Base.{
  ℕ, String, ◌≡◌, refl, Bool, true, List, [], ◌∷◌, Option, none, some, str_eq, str_eq_iff, ==_iff,
  ◌==◌, lookup,
}
use project_management.Delivery.Payload.{
  PlanResource, ReportArtifactInput, ItemInput, Value, null_value, other_number, text, number,
  texts, resources, files, service_items, Payload,
}
use project_management.Delivery.Json.{
  list_eq, resource_eq, file_eq, item_eq, value_eq, found_eq, keys_eq, json_semantically_equal,
}

pub str_eq_refl : (s : String) → str_eq s s ≡ true
str_eq_refl s = (str_eq_iff s s).1 refl

==_refl : (n : ℕ) → (n == n) ≡ true
==_refl n = (==_iff n n).1 refl

list_eq_refl :
    {A : Type 0} (same : A → A → Bool)
    → ((x : A) → same x x ≡ true)
    → (xs : List A) → list_eq same xs xs ≡ true
list_eq_refl same h [] = refl
list_eq_refl same h (x ∷ xs) = rw (h x) (list_eq_refl same h xs)

resource_eq_refl : (x : PlanResource) → resource_eq x x ≡ true
resource_eq_refl x =
    rw
      (
        str_eq_refl x.resource_type,
        str_eq_refl x.resource_id,
        str_eq_refl x.resource_name,
        list_eq_refl str_eq str_eq_refl x.codes,
        str_eq_refl x.valid_until,
        str_eq_refl x.window_start,
        str_eq_refl x.window_end,
        str_eq_refl x.note,
        str_eq_refl x.returned_at,
      )
      refl

file_eq_refl : (x : ReportArtifactInput) → file_eq x x ≡ true
file_eq_refl x =
    rw
      (
        str_eq_refl x.file_id,
        str_eq_refl x.file_name,
        str_eq_refl x.mime,
        ==_refl x.size,
        str_eq_refl x.sha256,
      )
      refl

item_eq_refl : (x : ItemInput) → item_eq x x ≡ true
item_eq_refl x =
    rw
      (
        str_eq_refl x.id,
        str_eq_refl x.source_service_id,
        str_eq_refl x.batch,
        str_eq_refl x.site,
        str_eq_refl x.site_code,
        str_eq_refl x.category,
        str_eq_refl x.requirement,
        str_eq_refl x.system,
        str_eq_refl x.system_level,
        str_eq_refl x.system_standard,
        list_eq_refl str_eq str_eq_refl x.required_codes,
        str_eq_refl x.special,
        str_eq_refl x.test_mode,
        str_eq_refl x.status,
        str_eq_refl x.tech_review_status,
        str_eq_refl x.conflict_status,
      )
      refl

value_eq_refl : (v : Value) → value_eq v v ≡ true
unfolding value_eq
value_eq_refl null_value = refl
value_eq_refl other_number = refl
value_eq_refl (text s) = str_eq_refl s
value_eq_refl (number n) = ==_refl n
value_eq_refl (texts ss) = list_eq_refl str_eq str_eq_refl ss
value_eq_refl (resources rs) = list_eq_refl resource_eq resource_eq_refl rs
value_eq_refl (files fs) = list_eq_refl file_eq file_eq_refl fs
value_eq_refl (service_items is) = list_eq_refl item_eq item_eq_refl is

found_eq_refl : (v : Option Value) → found_eq v v ≡ true
found_eq_refl none = refl
found_eq_refl (some v) = value_eq_refl v

keys_eq_refl : (payload entries : Payload) → keys_eq payload payload entries ≡ true
keys_eq_refl payload [] = refl
keys_eq_refl payload (entry ∷ entries) =
    rw (found_eq_refl (lookup entry.0 payload)) (keys_eq_refl payload entries)

pub json_semantically_equal_refl :
    (payload : Payload) → json_semantically_equal payload payload ≡ true
unfolding json_semantically_equal
json_semantically_equal_refl payload = rw (keys_eq_refl payload payload) refl
