-- ===== src/Watcher/Sync.antt =====
-- src/watcher/sync.ts: a file's chunks as rows of `memories`, and the guard before a commit. The rows
-- are those that the database's policies let the session see. Metadata is its JSON text, of which
-- `file_of` reads the field `file`; the digest of a content is an argument too.
pub mod Reconcile
pub mod Commit
mod Tests
use Prim.Native.String
use total_recall.Base.{
  ℕ, zero, suc, ◌+◌, Bool, true, false, not, ◌&&◌, ◌||◌, Option, none, some, List, [], ◌∷◌, ◌++◌,
  map, String, str_eq, if◌then◌else◌, includes, put, delete, get_or, is_some, Result, ok, err,
}
use total_recall.Db.{DbScope, Authority, Session, Faults, After}
use total_recall.Db.Scoped.{with_scoped_client}
use total_recall.Watcher.Queue.{Slot, is_current, retry_if_current}

unfoldable pub fingerprint_content : (String → String) → String → String
fingerprint_content sha256 content = String.◌++◌ "watcher:v2:" (sha256 content)

pub record EmbeddingProfile : Type 0 where
  pub provider : String
  pub model : String
  pub dimensions : ℕ

pub record PreparedSyncChunk : Type 0 where
  pub content : String
  pub source_key : String
  pub tags : List String
  pub metadata : String
  pub vector_str : String
  pub embedding_provider : Option String
  pub embedding_model : Option String
  pub embedding_dimensions : Option ℕ

pub record FileSyncInput : Type 0 where
  pub rel_path : String
  pub hash : String
  pub namespace : String
  pub source : String
  pub agent_id : Option String
  pub chunks : List PreparedSyncChunk

pub record MemoryRow : Type 0 where
  pub client_id : String
  pub source_key : Option String
  pub content : String
  pub embedding : String
  pub profile : EmbeddingProfile
  pub source : String
  pub namespace : String
  pub tags : List String
  pub metadata : String
  pub agent_id : Option String
  pub is_deleted : Bool
  pub is_superseded : Bool
  pub is_consolidated : Bool

-- The two tables that are written.
pub record SyncTables : Type 0 where
  pub memories : List MemoryRow
  pub sync_state : List (String × String)

abbrev pub has_key : String → Option String → Bool
has_key j none = false
has_key j (some k) = str_eq k j

-- The row of the unique index on (client_id, source_key).
unfoldable pub is_row_of : String → MemoryRow → Bool
is_row_of j r = str_eq r.client_id "file-sync" && has_key j r.source_key

unfoldable pub find_memory : String → List MemoryRow → Option MemoryRow
find_memory j [] = none
find_memory j (r ∷ rows) = if is_row_of j r then some r else find_memory j rows

module _ (active_profile : EmbeddingProfile) (input : FileSyncInput) where
  abbrev pub profile_of : PreparedSyncChunk → EmbeddingProfile
  profile_of c = record {
    provider = get_or c.embedding_provider active_profile.provider;
    model = get_or c.embedding_model active_profile.model;
    dimensions = get_or c.embedding_dimensions active_profile.dimensions;
  }

  abbrev pub inserted : PreparedSyncChunk → MemoryRow
  inserted c = record {
    client_id = "file-sync";
    source_key = some c.source_key;
    content = c.content;
    embedding = c.vector_str;
    profile = profile_of c;
    source = input.source;
    namespace = input.namespace;
    tags = c.tags;
    metadata = c.metadata;
    agent_id = input.agent_id;
    is_deleted = false;
    is_superseded = false;
    is_consolidated = false;
  }

  -- ON CONFLICT DO UPDATE, with its WHERE.
  unfoldable pub overwritten : PreparedSyncChunk → MemoryRow → MemoryRow
  overwritten c r = if r.is_deleted || (r.is_superseded || r.is_consolidated) then r else record r {
    content = c.content;
    embedding = c.vector_str;
    profile = profile_of c;
    source = input.source;
    namespace = input.namespace;
    tags = c.tags;
    metadata = c.metadata;
    agent_id = input.agent_id;
  }

  unfoldable pub upsert : PreparedSyncChunk → List MemoryRow → List MemoryRow
  upsert c [] = inserted c ∷ []
  upsert c (r ∷ rows) =
      let rest = upsert c rows in
      if is_row_of c.source_key r then overwritten c r ∷ rows else r ∷ rest

  unfoldable pub upsert_all : List PreparedSyncChunk → List MemoryRow → List MemoryRow
  upsert_all [] rows = rows
  upsert_all (c ∷ chunks) rows = upsert_all chunks (upsert c rows)

module _ (file_of : String → Option String) where
  -- The part that the two DELETE statements share.
  unfoldable pub is_live_row_of_file : String → MemoryRow → Bool
  is_live_row_of_file rel_path r =
      str_eq r.client_id "file-sync"
      && (not r.is_deleted && (not r.is_consolidated && has_key rel_path (file_of r.metadata)))

  abbrev pub key_in : List String → Option String → Bool
  key_in keys none = false
  key_in keys (some k) = includes keys k

  unfoldable pub delete_stale : String → List String → List MemoryRow → List MemoryRow
  delete_stale rel_path keys [] = []
  delete_stale rel_path keys (r ∷ rows) =
      let rest = delete_stale rel_path keys rows in
      if is_live_row_of_file rel_path r && not (key_in keys r.source_key) then rest else r ∷ rest

  unfoldable pub delete_file : String → List MemoryRow → List MemoryRow
  delete_file rel_path [] = []
  delete_file rel_path (r ∷ rows) =
      let rest = delete_file rel_path rows in
      if is_live_row_of_file rel_path r then rest else r ∷ rest

  unfoldable pub reconcile_prepared_file :
      EmbeddingProfile → FileSyncInput → SyncTables → SyncTables
  reconcile_prepared_file active_profile input t = record {
    memories =
        delete_stale input.rel_path (map (λ c. c.source_key) input.chunks)
          (upsert_all active_profile input input.chunks t.memories);
    sync_state = put input.rel_path input.hash t.sync_state;
  }

  abbrev pub sync_scope : String → DbScope
  sync_scope namespace = record {
    namespaces = namespace ∷ [];
    key_id = "file-sync";
    is_admin = false;
  }

  -- `statement_fails` says whether a statement of the callback fails.
  unfoldable pub commit_prepared_file :
      Faults
      → Bool
      → EmbeddingProfile
      → FileSyncInput
      → Session SyncTables
      → After SyncTables (Unit {0}) (Unit {0})
  commit_prepared_file f statement_fails active_profile input =
      with_scoped_client f (sync_scope input.namespace) (λ _ t.
        if statement_fails
        then (err tt, t)
        else (ok tt, reconcile_prepared_file active_profile input t))

  unfoldable pub delete_observed_file :
      Faults → Bool → String → String → Session SyncTables → After SyncTables (Unit {0}) (Unit {0})
  delete_observed_file f statement_fails rel_path namespace =
      with_scoped_client f (sync_scope namespace) (λ _ t. if statement_fails then (err tt, t) else (
        ok tt,
        record {
          memories = delete_file rel_path t.memories;
          sync_state = delete rel_path t.sync_state;
        },
      ))

abbrev pub same_fingerprint : Option String → Option String → Bool
same_fingerprint none none = true
same_fingerprint none (some b) = false
same_fingerprint (some a) none = false
same_fingerprint (some a) (some b) = str_eq a b

-- `read` is what happens while the fingerprint is read: what became of the path's state, and the
-- fingerprint. `commit` is called when the answer is not `none`.
unfoldable pub commit_if_current :
    {T : Type 0} → ℕ → Option String → (Slot → Slot × Option String) → T → Slot → Option T × Slot
commit_if_current generation prepared read commit s =
    if not (is_current generation s)
    then (none, s)
    else let (s', current) = read s in
      if not (is_current generation s') || not (same_fingerprint current prepared)
      then (none, retry_if_current generation s')
      else (some commit, s')
