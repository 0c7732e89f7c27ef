-- ===== src/Transfer/Format.antt =====
-- src/transfer/format.ts: the portable records of memories and the marker of an import; and the rows that
-- src/transfer/import.ts compares them with. Instants are in nanoseconds.
use total_recall.Base.{ℕ, ◌*◌, ◌/◌, Option, none, some, List, String, get_or, put, delete}
use total_recall.Auth.Levels.{AccessLevel}

pub record Provenance : Type 0 where
  pub instance_id : String
  pub memory_id : String

-- The fields that the fingerprint covers.
pub record Portable : Type 0 where
  pub content : String
  pub source : String
  pub namespace : String
  pub tags : List String
  pub metadata : List (String × String)
  pub access_level : AccessLevel
  pub created_at : ℕ
  pub event_at : Option ℕ
  pub memory_kind : String
  pub valid_from : Option ℕ
  pub valid_to : Option ℕ
  pub expires_at : Option ℕ
  pub origin_namespace : Option String
  pub insight_content_hash : Option String

pub record TransferMemoryRecord : Type 0 where
  pub source_key : String
  pub portable : Portable
  pub updated_at : ℕ
  pub provenance : Provenance

-- A row of `memories`; `stored` has the marker of the import among its metadata.
pub record TransferRow : Type 0 where
  pub id : String
  pub client_id : String
  pub source_key : Option String
  pub stored : Portable
  pub updated_at : ℕ

abbrev pub marker : String
marker = "_total_recall_transfer"

unfoldable pub metadata_with_transfer_provenance :
    List (String × String) → String → List (String × String)
unfolding put
metadata_with_transfer_provenance metadata provenance = put marker provenance metadata

unfoldable pub metadata_without_transfer_provenance :
    List (String × String) → List (String × String)
unfolding delete
metadata_without_transfer_provenance metadata = delete marker metadata

-- `new Date(t).toISOString()`, which has milliseconds.
abbrev pub iso_instant : ℕ → ℕ
iso_instant t = t / 1_000_000 * 1_000_000

abbrev pub optional_instant : (ℕ → ℕ) → Option ℕ → Option ℕ
optional_instant f none = none
optional_instant f (some t) = some (f t)

-- The fields with their instants by one function.
abbrev pub with_instants : (ℕ → ℕ) → Portable → Portable
with_instants f p = record p {
  created_at = f p.created_at;
  event_at = optional_instant f p.event_at;
  valid_from = optional_instant f p.valid_from;
  valid_to = optional_instant f p.valid_to;
  expires_at = optional_instant f p.expires_at;
}

-- existingToRecord, before the schema reads it
unfoldable pub existing_to_record : TransferRow → TransferMemoryRecord → TransferMemoryRecord
unfolding metadata_without_transfer_provenance
existing_to_record row incoming = record {
  source_key = get_or row.source_key incoming.source_key;
  portable = record (with_instants iso_instant row.stored) {
    metadata = metadata_without_transfer_provenance row.stored.metadata;
  };
  updated_at = incoming.updated_at;
  provenance = incoming.provenance;
}
