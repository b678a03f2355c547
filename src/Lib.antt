-- ===== src/Lib.antt =====
-- A model of the core of the project management service, and the theorems that it keeps.
--
-- The program. A project is made of service items. A service item runs through assignment, plan,
-- preparation, field work and report, moved by delivery events; each event is one database transaction
-- that checks the item as it is stored, writes the tables around it and gives the item its next
-- version. The status, the progress and the report stage of a project are derived from its items. An
-- item of graded protection carries a penetration work package with commands and a report of its own,
-- which gates the item's field completion and report. How a contract is split into items is resolved
-- from a policy and override rules.
--
-- The files.
--   Base and its children: tests and lists over the native numbers, Go maps that are filled in order,
--     tables as lists of rows, texts (strings.TrimSpace, ToUpper, EqualFold), the errors of
--     internal/application/service.go and results that carry one. `refuse_if c e >> rest` is
--     `if c { return e }`, and `m >>= f` is the check of an error that is passed on.
--   Domain.Phase, Domain.Status: internal/domain/project_status.go, function by function but for
--     ReportPhaseLabel and UnknownReportPhases, which return texts in capitals of every script. A loop is
--     a recursion on the list of items with its variables as arguments.
--   Delivery.Payload, Delivery.Schema, Delivery.Store: the payload of an event, the rows
--     (internal/infrastructure/mysql/models.go) and the tables of one tenant. A time is a number of
--     nanoseconds, a null time is `none`. A query is a search in a list, an update rewrites the rows
--     that its condition meets, and an update that must reach one row counts them.
--   Delivery.Report, Delivery.Evidence, Delivery.Rollback, Delivery.Plan, Delivery.EquipmentLocks,
--     Delivery.Equipment, Delivery.Gates: the helpers of internal/infrastructure/mysql/delivery_report.go,
--     delivery.go, delivery_events.go, penetration.go and native_scope_guards.go, by the name of each function.
--   Delivery.Change, Delivery.Assignment, Delivery.Field, Delivery.Reporting, Delivery.Items:
--     `applyItemEvent` of delivery_events.go, one function per case of its switch. A handler returns
--     the other tables as written, the status if it sets one, and the change of the other columns;
--     `write_item` is the conditional update at the end. Their Sound children prove what each
--     case keeps, Delivery.Moves states it, and Delivery.Items.Runs follows sequences of events on
--     service items. Delivery.Equipment.Schedule says what a plan of devices leaves of the reservations.
--   Delivery.Apply: `ApplyDeliveryEvent` of delivery.go, the frame around `applyItemEvent`: the item
--     that a review belongs to, the operations that a client has numbered (Delivery.Json compares
--     payloads), the work package that comes with an execution team, and the project
--     (Delivery.Projects, `applyProjectEvent` and `syncProjectStatusColumn`). Delivery.Serial has the
--     numbers at the end of the ids of items.
--   Penetration: `mutatePenetrationPackage` and the commands of
--     internal/infrastructure/mysql/penetration.go.
--   Split: internal/domain/split_rule_config.go and `resolveSplitPlan` of
--     internal/application/split_config.go. Spec says when an override hits and what it changes.
--   Outbox.Audit: internal/auditoutbox, the table of audit events (gorm_store.go) and one pass of its
--     dispatcher (dispatcher.go). Steps has the steps that any number of workers and operators may take
--     on the table, in whatever order.
--   Outbox.Notice: the table of notifications (internal/infrastructure/mysql/delivery_notification.go)
--     and `DispatchNotificationOutbox` of internal/application/delivery_outbox.go. Life is the
--     specification of one notification, by itself.
--   Outbox.Effects: `deliveryRoleRecipients` of internal/application/delivery_effects.go and the parts of
--     `buildDeliveryEffects`. The pages of a role are read on fuel, the 10000 pages of the source.
--   Scope: the scope of a native project, its versions and the proposals to change it
--     (internal/infrastructure/mysql/native_scope_change.go and native_scope_guards.go). It works on the
--     tables of Delivery.Store; `seen` is how the gate of the delivery workflow sees the proposals.
--     Governed follows sequences of requests and decisions while the workflow writes what it likes;
--     Governed.InForce says what it is for a proposal to be in force.
--
-- A transaction that fails leaves the store as it was: an error carries no store. One transaction runs
-- at a time, which is what the row locks of the source are for. Every recursion is on a list, a text,
-- or the number of days, turns, pages or recipients left, but for the digits of a number: they are
-- written on fuel, one more than the number, and reading them back shows that it is enough. A number
-- of an item stays below the greatest `int`; the count of items and their numbers are not wrapped
-- around, nor are the counters of attempts and the times, which stay far below their bounds. `now -
-- lease` stops at 0, where times begin. A dispatcher meets the clock, the licence and the other system
-- as the answers that each turn is given.
--
-- Parameters. `Platform` holds what is taken from Go's time package and from the collation of the
-- database: nothing is assumed of its functions. `strings.ToLower` is an argument wherever it
-- is used, and so is `strings.ToUpper` in the settings of an override; the capability codes of a native
-- scope are taken to be ASCII text. Keys that the source generates are arguments, and so are SHA-256
-- and the JSON text below it (`Digest`), the JSON codec of a message (`Codec`) and the text of an
-- address. `visible` is the data scope of the caller on the projects: any test.
--
-- Not modelled: the reason texts of errors; failures of the database other than the unique keys that
-- the code meets; the rows of other tenants in the delivery workflow; the notifications, tasks and
-- audit rows that accompany an event; permission checks and the HTTP interface in front; clients of
-- other systems; background work; the license core, which is another project's library.
pub mod Base
pub mod Delivery
pub mod Domain
pub mod Outbox
pub mod Penetration
pub mod Scope
pub mod Split
