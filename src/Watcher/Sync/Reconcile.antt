-- ===== src/Watcher/Sync/Reconcile.antt =====
-- src/watcher/sync.ts: what reconciling a file makes of the rows.
use total_recall.Base.{
  ◌≡◌, inl, inr, refl, ap, ◌∙◌, Bool, true, false, not, ◌&&◌, Option, none, some, List, [], ◌∷◌,
  map, String, str_eq, eq_iff, Occurs, All, if◌then◌else◌, includes, get, get-put, arith,
  Bool-cases,
}
use total_recall.Watcher.Sync.{
  EmbeddingProfile, PreparedSyncChunk, FileSyncInput, MemoryRow, SyncTables, has_key, is_row_of,
  find_memory, inserted, overwritten, upsert, upsert_all, is_live_row_of_file, key_in, delete_stale,
  reconcile_prepared_file,
}

module _ (profile : EmbeddingProfile) (input : FileSyncInput) where
  -- A row that the watcher may write again: not deleted, superseded or consolidated.
  abbrev pub is_open : MemoryRow → Bool
  is_open r = not r.is_deleted && (not r.is_superseded && not r.is_consolidated)

  -- The row of a key as a chunk says it, with the identity of the row that was there.
  abbrev pub renewed : PreparedSyncChunk → MemoryRow → MemoryRow
  renewed c r = record (inserted profile input c) {
    client_id = r.client_id;
    source_key = r.source_key;
    is_deleted = r.is_deleted;
    is_superseded = r.is_superseded;
    is_consolidated = r.is_consolidated;
  }

  -- What the chunks make of the row with one key: the last chunk with the key is written over an open
  -- row or as a new one, and any other row stays as it is.
  abbrev pub written : String → List PreparedSyncChunk → Option MemoryRow → Option MemoryRow
  written j [] r = r
  written j (c ∷ chunks) none =
      written j chunks (if str_eq c.source_key j then some (inserted profile input c) else none)
  written j (c ∷ chunks) (some r) =
      written j chunks (some (if str_eq c.source_key j && is_open r then renewed c r else r))

  overwritten-key :
      (j : String) (c : PreparedSyncChunk) (r : MemoryRow)
      → is_row_of j (overwritten profile input c r) ≡ is_row_of j r
  unfolding overwritten is_row_of
  overwritten-key j c r = ground arith

  is_row_of_unique :
      (i j : String) (r : MemoryRow) → is_row_of i r ≡ true → is_row_of j r ≡ str_eq i j
  unfolding is_row_of
  is_row_of_unique i j r h =
      elim r.source_key
          as (λ k.
            (str_eq r.client_id "file-sync" && has_key i k) ≡ true
            → (str_eq r.client_id "file-sync" && has_key j k) ≡ str_eq i j) [
              | none ↦ λ e. absurd (ground arith)
              | some k ↦ λ e. ground (arith, eq_iff k i, eq_iff k j, eq_iff i j)
            ]
        h

  inserted-key :
      (j : String) (c : PreparedSyncChunk)
      → is_row_of j (inserted profile input c) ≡ str_eq c.source_key j
  unfolding is_row_of
  inserted-key j c = ground arith

  find_memory-upsert :
      (j : String) (c : PreparedSyncChunk) (rows : List MemoryRow)
      → find_memory j (upsert profile input c rows) ≡ (
          if str_eq c.source_key j
          then (elim (find_memory j rows) [
            | none ↦ some (inserted profile input c)
            | some r ↦ some (overwritten profile input c r)
          ])
          else find_memory j rows)
  unfolding find_memory upsert
  find_memory-upsert j c [] = rw (inserted-key j c) refl
  find_memory-upsert j c (r ∷ rows) = ground (
    arith,
    find_memory-upsert j c rows,
    overwritten-key j c r,
    is_row_of_unique c.source_key j r,
    eq_iff c.source_key j,
  )

  -- One chunk over the row that is found.
  abbrev after_chunk : String → PreparedSyncChunk → Option MemoryRow → Option MemoryRow
  after_chunk j c r =
      if str_eq c.source_key j
      then (elim r [
        | none ↦ some (inserted profile input c)
        | some r ↦ some (overwritten profile input c r)
      ])
      else r

  written-after_chunk :
      (j : String) (c : PreparedSyncChunk) (chunks : List PreparedSyncChunk) (r : Option MemoryRow)
      → written j chunks (after_chunk j c r) ≡ written j (c ∷ chunks) r
  unfolding overwritten
  written-after_chunk j c chunks none = refl
  written-after_chunk j c chunks (some r) = ap (written j chunks) (ground arith)

  find_memory-upsert_all :
      (j : String) (chunks : List PreparedSyncChunk) (rows : List MemoryRow)
      → find_memory j (upsert_all profile input chunks rows) ≡ written j chunks (find_memory j rows)
  unfolding upsert_all
  find_memory-upsert_all j [] rows = refl
  find_memory-upsert_all j (c ∷ chunks) rows =
      find_memory-upsert_all j chunks (upsert profile input c rows)
      ∙ ap (written j chunks) (find_memory-upsert j c rows)
      ∙ written-after_chunk j c chunks (find_memory j rows)

  upsert-Occurs :
      (c : PreparedSyncChunk) (r : MemoryRow) (rows : List MemoryRow)
      → is_row_of c.source_key r ≡ false
      → Occurs r rows
      → Occurs r (upsert profile input c rows)
  unfolding upsert
  upsert-Occurs c r [] n o = absurd o
  upsert-Occurs c r (x ∷ rows) n o = elim (Bool-cases (is_row_of c.source_key x)) [
    | inl here ↦
        simp here (elim o [ inl e ↦ absurd (ground (arith, here, n, e)) | inr later ↦ inr later ])
    | inr other ↦
        simp other (elim o [ inl e ↦ inl e | inr later ↦ inr (upsert-Occurs c r rows n later) ])
  ]

  upsert_all-Occurs :
      (chunks : List PreparedSyncChunk) (r : MemoryRow) (rows : List MemoryRow)
      → All (λ c. is_row_of c.source_key r ≡ false) chunks
      → Occurs r rows
      → Occurs r (upsert_all profile input chunks rows)
  unfolding upsert_all
  upsert_all-Occurs [] r rows n o = o
  upsert_all-Occurs (c ∷ chunks) r rows (n, ns) o =
      upsert_all-Occurs chunks r (upsert profile input c rows) ns (upsert-Occurs c r rows n o)

module _ (file_of : String → Option String) (rel_path : String) (keys : List String) where
  abbrev pub is_stale : MemoryRow → Bool
  is_stale r = is_live_row_of_file file_of rel_path r && not (key_in file_of keys r.source_key)

  delete_stale-All :
      (rows : List MemoryRow)
      → All (λ r. is_stale r ≡ false) (delete_stale file_of rel_path keys rows)
  unfolding delete_stale
  delete_stale-All [] = tt
  delete_stale-All (r ∷ rows) = elim (Bool-cases (is_stale r)) [
    | inl stale ↦ simp stale (delete_stale-All rows)
    | inr kept ↦ simp kept (refl, delete_stale-All rows)
  ]

  delete_stale-Occurs :
      (r : MemoryRow) (rows : List MemoryRow)
      → is_stale r ≡ false
      → Occurs r rows
      → Occurs r (delete_stale file_of rel_path keys rows)
  unfolding delete_stale
  delete_stale-Occurs r [] n o = absurd o
  delete_stale-Occurs r (x ∷ rows) n o = elim (Bool-cases (is_stale x)) [
    | inl stale ↦ simp stale (elim o [
      | inl e ↦ absurd (ground (arith, stale, n, e))
      | inr later ↦ delete_stale-Occurs r rows n later
    ])
    | inr kept ↦
        simp kept (elim o [ inl e ↦ inl e | inr later ↦ inr (delete_stale-Occurs r rows n later) ])
  ]

  row_of_kept_key :
      (j : String) (r : MemoryRow)
      → includes keys j ≡ true
      → is_row_of j r ≡ true
      → is_stale r ≡ false
  unfolding is_row_of
  row_of_kept_key j r i h =
      elim r.source_key
          as (λ k.
            (str_eq r.client_id "file-sync" && has_key j k) ≡ true
            → (is_live_row_of_file file_of rel_path r && not (key_in file_of keys k)) ≡ false) [
              | none ↦ λ e. absurd (ground arith)
              | some k ↦ λ e.
                  let same : k ≡ j = ground (arith, eq_iff k j) in
                  let known : includes keys k ≡ true = rw same i in ground arith
            ]
        h

  find_memory-delete_stale :
      (j : String) (rows : List MemoryRow)
      → includes keys j ≡ true
      → find_memory j (delete_stale file_of rel_path keys rows) ≡ find_memory j rows
  unfolding find_memory delete_stale
  find_memory-delete_stale j [] i = refl
  find_memory-delete_stale j (r ∷ rows) i =
      ground (arith, row_of_kept_key j r i, find_memory-delete_stale j rows i)

module _ (file_of : String → Option String) (profile : EmbeddingProfile) (input : FileSyncInput)
    (t : SyncTables) where
  abbrev keys_of : List String
  keys_of = map (λ c. c.source_key) input.chunks

  abbrev reconciled : SyncTables
  reconciled = reconcile_prepared_file file_of profile input t

  -- After a file is reconciled, the row of each of its chunks is what the chunks make of the row that
  -- was there: written as the last chunk with its key says, unless it is deleted, superseded or consolidated and stays.
  -- No other live row of the file is left; every row that is neither of a chunk's key nor a live row of
  -- the file is still there; and the file's hash is the new one, those of other files as before.
  pub reconcile_prepared_file_lem :
      ((j : String)
        → includes keys_of j ≡ true
        → find_memory j reconciled.memories
          ≡ written profile input j input.chunks (find_memory j t.memories))
      × All (λ r. is_stale file_of input.rel_path keys_of r ≡ false) reconciled.memories
      × ((r : MemoryRow)
          → All (λ c. is_row_of c.source_key r ≡ false) input.chunks
          → is_stale file_of input.rel_path keys_of r ≡ false
          → Occurs r t.memories
          → Occurs r reconciled.memories)
      × ((p : String)
          → get p reconciled.sync_state
            ≡ (if str_eq input.rel_path p then some input.hash else get p t.sync_state))
  unfolding reconcile_prepared_file
  reconcile_prepared_file_lem = (
    λ j i.
        find_memory-delete_stale file_of input.rel_path keys_of j
          (upsert_all profile input input.chunks t.memories) i
        ∙ find_memory-upsert_all profile input j input.chunks t.memories,
    delete_stale-All file_of input.rel_path keys_of
        (upsert_all profile input input.chunks t.memories),
    λ r n s o.
        delete_stale-Occurs file_of input.rel_path keys_of r
          (upsert_all profile input input.chunks t.memories) s
          (upsert_all-Occurs profile input input.chunks r t.memories n o),
    λ p. get-put input.rel_path p input.hash t.sync_state,
  )
