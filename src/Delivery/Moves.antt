-- ===== src/Delivery/Moves.antt =====
-- internal/infrastructure/mysql/delivery_events.go: the state machine of a service item, and what
-- every handler of `applyItemEvent` keeps.
use project_management.Base.{
  String, ◌≡◌, subst, ◌≢◌, ◌⊎◌, Option, none, some, suc_ℤ, trim_space, false, not, str_eq_iff,
  arith,
}
use project_management.Domain.Phase.{report_phase_rank}
use project_management.Domain.Status.{terminated}
use project_management.Delivery.Schema.{
  ServiceItem, EventType, decomposition_returned, implementation_planned,
  implementation_plan_revoked, preparation_started, preparation_revoked, rollback_approved,
  field_started, field_completed, deviation_reported, deviation_reviewed, execution_team_assigned,
}
use project_management.Delivery.Store.{Store, Platform}
use project_management.Delivery.Change.{Outcome, unchanged, changed}
use project_management.Delivery.Report.Ledger.{Ledger}
use project_management.Delivery.Assignment.{status_is}

-- Which event moves an item from which status to which.
pub data Moves : EventType → String → String → Type 0 where
  returns : {a b : String} → a ≡ "待分配" → b ≡ "待确认" → Moves decomposition_returned a b
  plans : {a b : String} → trim_space a ≡ "待分配" → b ≡ "待实施" → Moves implementation_planned a b
  revokes_plan : {a b : String} → a ≡ "待实施" → b ≡ "待分配" → Moves implementation_plan_revoked a b
  prepares :
      {a b : String} → (a ≡ "待实施") ⊎ (a ≡ "实施准备中") → b ≡ "实施准备中" → Moves preparation_started a b
  revokes_preparation : {a b : String} → a ≡ "实施准备中" → b ≡ "待实施" → Moves preparation_revoked a b
  starts : {a b : String} → a ≡ "实施准备中" → b ≡ "实施中" → Moves field_started a b
  completes : {a b : String} → a ≡ "实施中" → b ≡ "现场实施完成" → Moves field_completed a b
  deviates : {a b : String} → a ≡ "实施中" → b ≡ "异常处理中" → Moves deviation_reported a b
  reviews :
      {a b : String} → a ≡ "异常处理中" → (b ≡ "实施中") ⊎ (b ≡ terminated) → Moves deviation_reviewed a b
  rolls_back : {a b : String} → a ≡ "实施中" → b ≡ "实施准备中" → Moves rollback_approved a b
  reworks : {a b : String} → a ≡ "现场实施完成" → b ≡ "实施中" → Moves rollback_approved a b

-- What an accepted event leaves of the tables and of the row.
pub record Sound (platform : Platform) (type : EventType) (store : Store) (item : ServiceItem)
    (written : Store) (status : Option String) (columns : ServiceItem → ServiceItem) : Type 0 where
  pub items_kept : written.items ≡ store.items
  pub events_kept : written.events ≡ store.events
  pub ledger_kept : Ledger store.revisions → Ledger written.revisions
  pub moves : (s : String) → status ≡ some s → Moves type item.status s
  pub id_kept : (r : ServiceItem) → (columns r).id ≡ r.id
  pub codes_kept :
      type ≢ execution_team_assigned
      → (r : ServiceItem) → (columns r).required_codes ≡ r.required_codes
  pub phase_step :
      (r : ServiceItem)
      → ((columns r).report_status ≡ r.report_status)
        ⊎ ((columns r).report_status ≡ "NONE")
        ⊎ (report_phase_rank (columns r).report_status
            ≡ suc_ℤ (report_phase_rank item.report_status))

abbrev pub SoundOutcome : Platform → EventType → Store → ServiceItem → Outcome → Type 0
SoundOutcome platform type store item unchanged = Unit
SoundOutcome platform type store item (changed written status columns) =
    Sound platform type store item written status columns

pub stays : {type : EventType} {a : String} (s : String) → none ≡ some s → Moves type a s
stays s e = cc

pub goes :
    {type : EventType} {a b : String}
    → Moves type a b
    → (s : String) → some b ≡ some s
    → Moves type a s
goes {type = type} {a = a} m s e = subst (Moves type a) (unsome e) m
  where
    unsome : {x y : String} → some x ≡ some y → x ≡ y
    unsome p = cc

pub status_of : (item : ServiceItem) (s : String) → not (status_is item s) ≡ false → item.status ≡ s
status_of item s h = (str_eq_iff item.status s).0 (ground arith)
