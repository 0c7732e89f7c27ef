-- ===== src/Transfer/Import/Tests.antt =====
-- A batch with a record in a foreign namespace, imported twice.
use total_recall.Base.{
  ◌≡◌, ◌+◌, ◌*◌, ◌/◌, refl, none, [], ◌∷◌, List, String, true, false, All, ok, length, get, put,
  delete,
}
use total_recall.Auth.Levels.{normal, can_access_level, access_level?, level_of_name}
use total_recall.Auth.Levels.Sql.{access_level_sql}
use total_recall.Auth.Keys.{AuthContext}
use total_recall.Transfer.Format.{
  Portable, marker, TransferMemoryRecord, TransferRow, metadata_with_transfer_provenance,
  metadata_without_transfer_provenance, existing_to_record,
}
use total_recall.Transfer.Import.{
  ImportCounts, ImportRun, find_row, judged, source_key_access, has_duplicate_keys, compare_row,
  classify_accessed, classify, classify_all, inserted_row, insert_all, import_pending,
  import_memory_batch,
}
use total_recall.Transfer.Import.Counts.{total, import-total}
use total_recall.Transfer.Import.Again.{IsReplayable}
use total_recall.Transfer.Import.Idempotent.{import-again}

abbrev importer : AuthContext
importer = record {
  key_id = "key";
  name = "importer";
  namespaces = "notes" ∷ [];
  permissions = "import" ∷ [];
  max_access_level = normal;
  requests_per_minute = none;
  requests_per_day = none;
  expires_at = none;
}

abbrev portable : String → Portable
portable namespace = record {
  content = "text";
  source = "cli";
  namespace = namespace;
  tags = [];
  metadata = ("lang", "en") ∷ [];
  access_level = normal;
  created_at = 1_000_000_400;
  event_at = none;
  memory_kind = "semantic";
  valid_from = none;
  valid_to = none;
  expires_at = none;
  origin_namespace = none;
  insight_content_hash = none;
}

abbrev incoming : String → String → TransferMemoryRecord
incoming key namespace = record {
  source_key = key;
  portable = portable namespace;
  updated_at = 2;
  provenance = record { instance_id = "far"; memory_id = "m" };
}

abbrev batch : List TransferMemoryRecord
batch = incoming "k1" "notes" ∷ incoming "k2" "private" ∷ incoming "k3" "notes" ∷ []

abbrev run : ImportRun
run = record {
  local_instance = "here";
  derived = λ p. "derived";
  fingerprint = λ p. p.content;
  accepts = λ r. true;
  provenance_text = λ p. p.memory_id;
  new_id = λ r. r.source_key;
  in_database = λ t. (t + 500) / 1_000 * 1_000;
  dry_run = false;
  embedding_fails = false;
  audit_fails = false;
}

-- With a fingerprint that tells metadata apart.
abbrev own_metadata : ImportRun
own_metadata = record run {
  fingerprint = λ p. elim p.metadata [ [] ↦ "none" | field ∷ fields ↦ field.1 ];
}

abbrev counts : ImportCounts
counts = record { inserted = 2; skipped = 0; conflicted = 0; denied = 1 }

first_import : (import_memory_batch importer run batch []).0 ≡ ok counts
unfolding import_memory_batch import_pending insert_all inserted_row classify_all classify
    classify_accessed compare_row existing_to_record source_key_access judged find_row
    has_duplicate_keys metadata_with_transfer_provenance metadata_without_transfer_provenance
    can_access_level access_level? level_of_name access_level_sql put get delete
first_import = refl

import-total_example :
    (total importer run counts ≡ length batch)
    × (length (import_memory_batch importer run batch []).1 ≡ length {A = TransferRow} [] + 2)
import-total_example = import-total importer run batch [] counts first_import

batch-IsReplayable : All (IsReplayable importer run) batch
unfolding get existing_to_record inserted_row
batch-IsReplayable = (
  (refl, refl, refl, (refl, tt, tt, tt, tt)),
  ((refl, refl, refl, (refl, tt, tt, tt, tt)), ((refl, refl, refl, (refl, tt, tt, tt, tt)), tt)),
)

import-again_example :
    import_memory_batch importer run batch (import_memory_batch importer run batch []).1 ≡ (
      ok (record counts { inserted = 0; skipped = 2 }),
      (import_memory_batch importer run batch []).1,
    )
import-again_example =
    import-again importer run batch [] counts batch-IsReplayable refl first_import

-- A record whose own metadata has the field `_total_recall_transfer`.
abbrev marked : TransferMemoryRecord
marked = record (incoming "k1" "notes") {
  portable = record (portable "notes") { metadata = (marker, "old") ∷ [] };
}

-- It is inserted, and the same batch again finds it divergent.
marked_again :
    ((import_memory_batch importer own_metadata (marked ∷ []) []).0
      ≡ ok (record { inserted = 1; skipped = 0; conflicted = 0; denied = 0 }))
    × ((import_memory_batch importer own_metadata
          (marked ∷ [])
          (import_memory_batch importer own_metadata (marked ∷ []) []).1).0
        ≡ ok (record { inserted = 0; skipped = 0; conflicted = 1; denied = 0 }))
unfolding import_memory_batch import_pending insert_all inserted_row classify_all classify
    classify_accessed compare_row existing_to_record source_key_access judged find_row
    has_duplicate_keys metadata_with_transfer_provenance metadata_without_transfer_provenance
    can_access_level access_level? level_of_name access_level_sql put get delete
marked_again = (refl, refl)
