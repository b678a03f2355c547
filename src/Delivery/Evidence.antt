-- ===== src/Delivery/Evidence.antt =====
-- internal/infrastructure/mysql/delivery_report.go: the ledger of evidence files.
use project_management.Base.{
  String, List, map, [], ◌∷◌, none, some, find, if◌then◌else◌, str_eq, lookup, Result, Check, ok,
  err, ◌>>=◌, validation,
}
use project_management.Delivery.Payload.{
  Value, null_value, files, other_number, text, number, texts, resources, service_items,
  ReportArtifactInput,
}
use project_management.Delivery.Schema.{ServiceItem, EvidenceFile, DeliveryEvent}

-- `evidenceFileReuseError`
unfoldable pub evidence_file_reuse_error : String → String → Check
evidence_file_reuse_error existing_item item =
    if str_eq existing_item item then ok tt else err validation

abbrev evidence_row : ServiceItem → DeliveryEvent → String → ReportArtifactInput → EvidenceFile
evidence_row item event kind file = record {
  service_item_id = item.id;
  evidence_kind = kind;
  file_id = file.file_id;
  file_name = file.file_name;
  file_mime = file.mime;
  file_size = file.size;
  file_sha256 = file.sha256;
  created_by = event.actor_user_id;
  created_at = event.created_at;
}

-- The loop of `persistEvidenceFiles`. No other transaction writes between the search and the
-- insertion here, so that the branch for a duplicate key is not reached.
unfoldable pub persist_files :
    ServiceItem
    → DeliveryEvent
    → String
    → List ReportArtifactInput
    → List EvidenceFile
    → Result (List EvidenceFile)
persist_files item event kind [] rows = ok rows
persist_files item event kind (file ∷ rest) rows =
    elim (find (λ r. str_eq r.file_id file.file_id) rows) [
      | some existing ↦ evidence_file_reuse_error existing.service_item_id item.id >>= λ _.
          persist_files item event kind rest rows
      | none ↦ persist_files item event kind rest (evidence_row item event kind file ∷ rows)
    ]

-- An object without any of the fields decodes to their zero values.
abbrev no_file : ReportArtifactInput
no_file = record { file_id = ""; file_name = ""; mime = ""; size = 0; sha256 = "" }

-- What `evidence_files` decodes to.
abbrev files_of : Value → Result (List ReportArtifactInput)
files_of (files fs) = ok fs
files_of null_value = ok []
files_of other_number = err validation
files_of (text _) = err validation
files_of (number _) = err validation
files_of (texts []) = ok []
files_of (texts (_ ∷ _)) = err validation
files_of (resources rs) = ok (map (λ _. no_file) rs)
files_of (service_items is) = ok (map (λ _. no_file) is)

unfoldable pub persist_evidence_files :
    ServiceItem → DeliveryEvent → String → List EvidenceFile → Result (List EvidenceFile)
persist_evidence_files item event kind rows = elim (lookup "evidence_files" event.payload) [
  | none ↦ ok rows
  | some v ↦ files_of v >>= λ fs. persist_files item event kind fs rows
]
