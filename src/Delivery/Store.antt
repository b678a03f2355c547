-- ===== src/Delivery/Store.antt =====
-- The tables of one tenant that the delivery workflow works on, as one value. Every statement of the
-- source carries the tenant's id, so that the rows of other tenants stay out of sight.
use project_management.Base.{String, Bool, List, Option, find, str_eq, ℕ}
use project_management.Delivery.Schema.{
  Project, ServiceItem, ReportRevision, WorkPackage, ImplPlan, EvidenceFile, Reservation, Equipment,
  DeliveryEvent, PackageEvent, ImportBinding,
}

pub record Store : Type 0 where
  pub projects : List Project
  pub items : List ServiceItem
  -- the service items with an `archived_at`, which no query sees
  pub archived : List ServiceItem
  pub revisions : List ReportRevision
  pub packages : List WorkPackage
  pub package_events : List PackageEvent
  pub plans : List ImplPlan
  pub evidence : List EvidenceFile
  pub reservations : List Reservation
  pub equipment : List Equipment
  pub import_bindings : List ImportBinding
  -- in the order of insertion, newest first
  pub events : List DeliveryEvent
  -- the projects with a native scope change that waits for approval
  pub pending_scopes : List String

-- What the source takes from Go's time package and from the collation of the database.
pub record Platform : Type 0 where
  -- `time.Parse(time.RFC3339, _)`
  pub parse_time : String → Option ℕ
  -- `t.Format(time.RFC3339)`
  pub format_time : ℕ → String
  -- `time.Parse("2006-01-02", _)`, as the number of the day
  pub parse_date : String → Option ℕ
  -- `resource_id = ?` under a collation that ignores case and accents
  pub same_resource : String → String → Bool
  -- `strings.ToLower`
  pub to_lower : String → String

abbrev pub project_of : Store → String → Option Project
project_of store id = find (λ p. str_eq p.id id) store.projects

abbrev pub item_of : Store → String → Option ServiceItem
item_of store id = find (λ i. str_eq i.id id) store.items

abbrev pub package_of : Store → String → Option WorkPackage
package_of store item_id = find (λ p. str_eq p.parent_service_item_id item_id) store.packages

abbrev pub plan_of : Store → String → Option ImplPlan
plan_of store item_id = find (λ p. str_eq p.service_item_id item_id) store.plans
