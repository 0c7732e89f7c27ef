-- ===== src/Transfer/Import.antt =====
-- src/transfer/import.ts and format.ts: importMemoryBatch. The records have passed the schema; a
-- metadata value stands by its text. The fingerprint is that of the portable fields, and
-- `accepts` tells whether the schema takes a record that is read back. The access function is that of
-- migrations/034_memory_transfer.sql.
mod Counts
mod Again
mod Settled
mod Idempotent
mod Tests
use total_recall.Base.{
  ℕ, ◌+◌, Bool, true, false, not, ◌&&◌, ◌||◌, Option, none, some, List, [], ◌∷◌, ◌++◌, String,
  str_eq, if◌then◌else◌, includes, get_or, put, delete, length, ltb, Result, ok, err,
}
use total_recall.Auth.Levels.{AccessLevel, Raw, text, level_name, can_access_level}
use total_recall.Auth.Levels.Sql.{access_level_sql}
use total_recall.Auth.Keys.{AuthContext}
use total_recall.Transfer.Format.{
  Provenance, Portable, TransferMemoryRecord, TransferRow, iso_instant, with_instants,
  metadata_with_transfer_provenance, metadata_without_transfer_provenance, existing_to_record,
}

pub data Access : Type 0 where
  absent visible origin denied : Access

pub record ImportCounts : Type 0 where
  pub inserted : ℕ
  pub skipped : ℕ
  pub conflicted : ℕ
  pub denied : ℕ

pub data ImportError : Type 0 where
  import_not_permitted duplicate_source_key invalid_row embedding_failed : ImportError
  concurrent_conflict audit_failed : ImportError

-- `client_id = $1 AND source_key = $2`
abbrev pub has_source_key : String → String → TransferRow → Bool
has_source_key key_id source_key r =
    str_eq r.client_id key_id && (elim r.source_key [ none ↦ false | some k ↦ str_eq k source_key ])

unfoldable pub find_row : (TransferRow → Bool) → List TransferRow → Option TransferRow
find_row test [] = none
find_row test (r ∷ rows) = let rest = find_row test rows in if test r then some r else rest

abbrev pub is_unauthorized : AuthContext → TransferMemoryRecord → Bool
is_unauthorized auth r =
    not (includes auth.namespaces r.portable.namespace)
    || not (can_access_level (text (level_name r.portable.access_level)) auth.max_access_level)

unfoldable pub judged : AuthContext → Access → TransferRow → Access
judged auth granted m =
    if includes auth.namespaces m.stored.namespace
      && access_level_sql (some (level_name m.stored.access_level))
          (level_name auth.max_access_level)
    then granted
    else denied

abbrev pub key_access : AuthContext → Option TransferRow → Access
key_access auth none = absent
key_access auth (some m) = judged auth visible m

-- `memory_source_key = p_source_key`, or the derived key where the row has none
abbrev pub is_origin : (Provenance → String) → TransferMemoryRecord → TransferRow → Bool
is_origin derived r m = elim m.source_key [
  | none ↦ str_eq r.source_key (derived r.provenance)
  | some k ↦ str_eq k r.source_key
]

abbrev pub has_id : String → TransferRow → Bool
has_id id r = str_eq r.id id

-- app_transfer_source_key_access
unfoldable pub source_key_access :
    AuthContext → String → (Provenance → String) → List TransferRow → TransferMemoryRecord → Access
unfolding find_row judged
source_key_access auth local_instance derived rows r =
    let by_key = key_access auth (find_row (has_source_key auth.key_id r.source_key) rows) in
    if str_eq local_instance r.provenance.instance_id
    then elim (find_row (has_id r.provenance.memory_id) rows) [
      | none ↦ by_key
      | some m ↦ if is_origin derived r m then judged auth origin m else by_key
    ]
    else by_key

unfoldable pub has_duplicate_keys : List TransferMemoryRecord → List String → Bool
has_duplicate_keys [] seen = false
has_duplicate_keys (r ∷ records) seen =
    let rest = has_duplicate_keys records (r.source_key ∷ seen) in
    includes seen r.source_key || rest

-- What the import takes from elsewhere: this instance's id, the derived source key, the fingerprint,
-- the schema's answer to a record read back, the text of a provenance, the id of a new row and what an
-- instant is as a timestamptz; and whether the embedding, or the audit record, fails.
pub record ImportRun : Type 0 where
  pub local_instance : String
  pub derived : Provenance → String
  pub fingerprint : Portable → String
  pub accepts : TransferMemoryRecord → Bool
  pub provenance_text : Provenance → String
  pub new_id : TransferMemoryRecord → String
  pub in_database : ℕ → ℕ
  pub dry_run : Bool
  pub embedding_fails : Bool
  pub audit_fails : Bool

pub data Class : Type 0 where
  denies pends skips conflicts : Class

module _ (auth : AuthContext) (w : ImportRun) where
  abbrev pub transfer_record_fingerprint : TransferMemoryRecord → String
  transfer_record_fingerprint r = w.fingerprint (with_instants iso_instant r.portable)

  -- A row that was found, against the record.
  unfoldable pub compare_row : TransferMemoryRecord → Option TransferRow → Result ImportError Class
  unfolding existing_to_record
  compare_row r none = ok denies
  compare_row r (some row) =
      if not (w.accepts (existing_to_record row r))
      then err invalid_row
      else if str_eq (transfer_record_fingerprint (existing_to_record row r))
          (transfer_record_fingerprint r)
      then ok skips
      else ok conflicts

  unfoldable pub classify_accessed :
      List TransferRow → TransferMemoryRecord → Access → Result ImportError Class
  unfolding compare_row
  classify_accessed rows r denied = ok denies
  classify_accessed rows r absent = ok pends
  classify_accessed rows r origin = compare_row r (find_row (has_id r.provenance.memory_id) rows)
  classify_accessed rows r visible =
      compare_row r (find_row (has_source_key auth.key_id r.source_key) rows)

  unfoldable pub classify : List TransferRow → TransferMemoryRecord → Result ImportError Class
  unfolding classify_accessed source_key_access
  classify rows r =
      if is_unauthorized auth r
      then ok denies
      else classify_accessed rows r (source_key_access auth w.local_instance w.derived rows r)

  abbrev pub counted : Class → ImportCounts → ImportCounts
  counted denies n = record n { denied = n.denied + 1 }
  counted pends n = n
  counted skips n = record n { skipped = n.skipped + 1 }
  counted conflicts n = record n { conflicted = n.conflicted + 1 }

  abbrev pub kept_pending :
      Class → TransferMemoryRecord → List TransferMemoryRecord → List TransferMemoryRecord
  kept_pending pends r pending = r ∷ pending
  kept_pending c r pending = pending

  -- The counts and the records that are to be inserted, in the order of the batch.
  unfoldable pub classify_all :
      List TransferRow
      → List TransferMemoryRecord
      → Result ImportError (ImportCounts × List TransferMemoryRecord)
  unfolding classify
  classify_all rows [] = ok (record { inserted = 0; skipped = 0; conflicted = 0; denied = 0 }, [])
  classify_all rows (r ∷ records) = elim (classify rows r) [
    | err e ↦ err e
    | ok c ↦ elim (classify_all rows records) [
      | err e ↦ err e
      | ok rest ↦ ok (counted c rest.0, kept_pending c r rest.1)
    ]
  ]

  unfoldable pub inserted_row : TransferMemoryRecord → TransferRow
  unfolding metadata_with_transfer_provenance
  inserted_row r = record {
    id = w.new_id r;
    client_id = auth.key_id;
    source_key = some r.source_key;
    stored = record (with_instants w.in_database r.portable) {
      metadata =
          metadata_with_transfer_provenance r.portable.metadata (w.provenance_text r.provenance);
    };
    updated_at = w.in_database r.updated_at;
  }

  -- The INSERTs, each with ON CONFLICT DO NOTHING.
  unfoldable pub insert_all :
      List TransferMemoryRecord → List TransferRow → Result ImportError (List TransferRow)
  unfolding inserted_row find_row
  insert_all [] rows = ok rows
  insert_all (r ∷ pending) rows = elim (find_row (has_source_key auth.key_id r.source_key) rows) [
    | some taken ↦ err concurrent_conflict
    | none ↦ insert_all pending (rows ++ inserted_row r ∷ [])
  ]

  unfoldable pub import_pending :
      ImportCounts × List TransferMemoryRecord
      → List TransferRow
      → Result ImportError ImportCounts × List TransferRow
  unfolding insert_all
  import_pending (n, pending) rows =
      if w.dry_run
      then (ok (record n { inserted = length pending }), rows)
      else if ltb 0 (length pending) && w.embedding_fails
      then (err embedding_failed, rows)
      else elim (insert_all pending rows) [
        | err e ↦ (err e, rows)
        | ok rows' ↦
            if w.audit_fails
            then (err audit_failed, rows)
            else (ok (record n { inserted = length pending }), rows')
      ]

  -- importMemoryBatch, whose transaction leaves the table as it was where it throws.
  unfoldable pub import_memory_batch :
      List TransferMemoryRecord
      → List TransferRow
      → Result ImportError ImportCounts × List TransferRow
  unfolding classify_all import_pending has_duplicate_keys
  import_memory_batch records rows =
      if not (includes auth.permissions "import")
      then (err import_not_permitted, rows)
      else if has_duplicate_keys records []
      then (err duplicate_source_key, rows)
      else elim (classify_all rows records) [
        | err e ↦ (err e, rows)
        | ok found ↦ import_pending found rows
      ]
