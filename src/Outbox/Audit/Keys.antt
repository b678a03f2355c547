-- ===== src/Outbox/Audit/Keys.antt =====
-- internal/auditoutbox/gorm_store.go: `id` is the primary key of prj_audit_outbox.
use project_management.Base.{
  ◌≡◌, sym, ◌∙◌, String, true, List, some, All, All-map, find, find-All, str_eq_iff, Keyed, only,
}
use project_management.Outbox.Audit.{Row, has_id}

abbrev pub KeyedRows : List Row → Type 0
KeyedRows = Keyed (λ (r : Row). r.id)

-- The row that a query by key finds is the only one that an update by the key reaches.
pub find-only :
    (id : String) (table : List Row) {row : Row}
    → KeyedRows table
    → find (has_id id) table ≡ some row
    → All (λ r. has_id id r ≡ true → r ≡ row) table
find-only id table {row = row} u found =
    let (same, hit) =
      find-All (λ (x : Row). All (λ r. x.id ≡ r.id → x ≡ r) table) (has_id id) table {x = row}
        (only (λ (r : Row). r.id) table u) found in
    All-map _ _ table
      (λ r k t. sym (k ((str_eq_iff row.id id).0 hit ∙ sym ((str_eq_iff r.id id).0 t)))) same
