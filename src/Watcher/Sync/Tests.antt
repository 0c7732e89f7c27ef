-- ===== src/Watcher/Sync/Tests.antt =====
-- A file of two chunks over a table with a row of each, one stale row and one of another client.
use total_recall.Base.{
  ℕ, ◌≡◌, ◌≢◌, ◌⊎◌, refl, Bool, true, false, Option, none, some, List, [], ◌∷◌, String, str_eq,
  if◌then◌else◌, includes, Occurs, All, get, put,
}
use total_recall.Watcher.Queue.{Slot, is_current, retry_if_current}
use total_recall.Watcher.Sync.{
  EmbeddingProfile, PreparedSyncChunk, FileSyncInput, MemoryRow, SyncTables, is_row_of, find_memory,
  overwritten, upsert, upsert_all, is_live_row_of_file, delete_stale, reconcile_prepared_file,
  same_fingerprint, commit_if_current,
}
use total_recall.Watcher.Sync.Reconcile.{written, is_stale, reconcile_prepared_file_lem}
use total_recall.Watcher.Sync.Commit.{commit_if_current_lem}

abbrev profile : EmbeddingProfile
profile = record { provider = "p"; model = "m"; dimensions = 3 }

abbrev row : String → String → String → Bool → MemoryRow
row client key content is_deleted = record {
  client_id = client;
  source_key = some key;
  content = content;
  embedding = "[]";
  profile = profile;
  source = "file-sync";
  namespace = "notes";
  tags = [];
  metadata = "a.md";
  agent_id = none;
  is_deleted = is_deleted;
  is_superseded = false;
  is_consolidated = false;
}

abbrev chunk : String → String → PreparedSyncChunk
chunk key content = record {
  content = content;
  source_key = key;
  tags = [];
  metadata = "a.md";
  vector_str = "[]";
  embedding_provider = none;
  embedding_model = none;
  embedding_dimensions = none;
}

abbrev input : FileSyncInput
input = record {
  rel_path = "a.md";
  hash = "h2";
  namespace = "notes";
  source = "file-sync";
  agent_id = none;
  chunks = chunk "k1" "new" ∷ chunk "k2" "kept" ∷ [];
}

abbrev before : SyncTables
before = record {
  memories =
      row "file-sync" "k1" "old" false
      ∷ row "file-sync" "k2" "gone" true
      ∷ row "file-sync" "k0" "stale" false
      ∷ row "other" "k0" "theirs" false
      ∷ [];
  sync_state = ("a.md", "h1") ∷ [];
}

abbrev after : SyncTables
after = record {
  memories =
      row "file-sync" "k1" "new" false
      ∷ row "file-sync" "k2" "gone" true
      ∷ row "other" "k0" "theirs" false
      ∷ [];
  sync_state = ("a.md", "h2") ∷ [];
}

reconciled : reconcile_prepared_file some profile input before ≡ after
unfolding reconcile_prepared_file delete_stale upsert_all upsert overwritten is_row_of
    is_live_row_of_file put
reconciled = refl

abbrev keys : List String
keys = "k1" ∷ "k2" ∷ []

reconcile_prepared_file_lem_example :
    ((j : String)
      → includes keys j ≡ true
      → find_memory j (reconcile_prepared_file some profile input before).memories
        ≡ written profile input j input.chunks (find_memory j before.memories))
    × All
        (λ r. is_stale some "a.md" keys r ≡ false)
        (reconcile_prepared_file some profile input before).memories
    × ((r : MemoryRow)
        → All (λ c. is_row_of c.source_key r ≡ false) input.chunks
        → is_stale some "a.md" keys r ≡ false
        → Occurs r before.memories
        → Occurs r (reconcile_prepared_file some profile input before).memories)
    × ((p : String)
        → get p (reconcile_prepared_file some profile input before).sync_state
          ≡ (if str_eq "a.md" p then some "h2" else get p before.sync_state))
reconcile_prepared_file_lem_example = reconcile_prepared_file_lem some profile input before

abbrev slot : ℕ → Bool → Slot
slot generation dirty = record {
  state = record {
    file_path = "a.md";
    generation = generation;
    timer = false;
    running = true;
    dirty = dirty;
  };
  runs = 4 ∷ [];
}

-- The file has changed on disk, though no event came yet.
commit_if_current_lem_example :
    (◌≢◌ {A = Option ℕ} none none
      → (◌≡◌ {A = ℕ} 4 4) × (◌≡◌ {A = ℕ} 4 4) × (same_fingerprint (some "f2") (some "f1") ≡ true))
    × (◌≡◌ {A = Option ℕ} none none → (◌≢◌ {A = ℕ} 4 4) ⊎ (◌≡◌ {A = Bool} true true))
commit_if_current_lem_example =
    commit_if_current_lem {T = ℕ} 4 (some "f1") (λ s. (s, some "f2")) 7 (slot 4 false) (slot 5 true)
      none (unfold commit_if_current is_current retry_if_current in refl)
