-- ===== src/Delivery/Change.antt =====
-- internal/infrastructure/mysql/delivery_events.go `applyItemEvent`: the frame of the handlers, the
-- `updates` that they fill in and the conditional write at the end.
use mathlib.Core.Option
use project_management.Base.{
  suc, String, Bool, ◌&&◌, Option, some, if◌then◌else◌, is_some, str_eq, ◌==◌, update_one, Result,
  ok, ◌>>=◌,
}
use project_management.Delivery.Schema.{ServiceItem, DeliveryEvent}
use project_management.Delivery.Store.{Store}

-- What a handler leaves: the early `return nil`, or the other tables as written, the status if
-- `updates` names one, and the other columns of `updates`.
pub data Outcome : Type 0 where
  unchanged : Outcome
  changed : Store → Option String → (ServiceItem → ServiceItem) → Outcome

abbrev pub keep_columns : ServiceItem → ServiceItem
keep_columns item = item

abbrev pub move_to : Store → String → Result Outcome
move_to store status = ok (changed store (some status) keep_columns)

-- The row after the update: a status sets the time of its start, and the version grows by one.
unfoldable pub updated_item :
    DeliveryEvent → Option String → (ServiceItem → ServiceItem) → ServiceItem → ServiceItem
updated_item event status columns row = record (columns row) {
  status = Option.get_or status row.status;
  status_changed_at = if is_some status then some event.created_at else row.status_changed_at;
  version = suc row.version;
  updated_at = event.created_at;
  updated_by = event.actor_user_id;
}

-- `tenant_id=? AND id=? AND version=?`
abbrev pub is_same_version : ServiceItem → ServiceItem → Bool
is_same_version item row = str_eq row.id item.id && row.version == item.version

unfoldable pub write_item : Store → ServiceItem → DeliveryEvent → Outcome → Result Store
write_item store item event unchanged = ok store
write_item store item event (changed written status columns) =
    update_one (is_same_version item) (updated_item event status columns) written.items >>= λ items.
    ok (record written { items = items })
