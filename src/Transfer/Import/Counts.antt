-- ===== src/Transfer/Import/Counts.antt =====
-- src/transfer/import.ts: the counts of an import, and what it writes.
use total_recall.Base.{
  ℕ, ◌+◌, ◌≡◌, ap, List, [], ◌∷◌, ◌++◌, arith, length, length-append, ok, Result-cases,
  Option-cases, inl, inr, if◌then◌else◌,
}
use total_recall.Auth.Keys.{AuthContext}
use total_recall.Transfer.Format.{TransferMemoryRecord, TransferRow}
use total_recall.Transfer.Import.{
  ImportCounts, ImportRun, Class, denies, pends, skips, conflicts, classify, classify_all, counted,
  kept_pending, insert_all, import_pending, import_memory_batch, find_row, inserted_row,
  has_source_key,
}

module _ (auth : AuthContext) (w : ImportRun) where
  abbrev pub total : ImportCounts → ℕ
  total n = n.inserted + n.skipped + n.conflicted + n.denied

  counted-total :
      (c : Class) (r : TransferMemoryRecord) (n : ImportCounts)
      (pending : List TransferMemoryRecord)
      → total (counted auth w c n) + length (kept_pending auth w c r pending)
        ≡ total n + length pending + 1
  counted-total denies r n pending = omega arith
  counted-total pends r n pending = omega arith
  counted-total skips r n pending = omega arith
  counted-total conflicts r n pending = omega arith

  classify_all-total :
      (rows : List TransferRow) (records : List TransferMemoryRecord) (n : ImportCounts)
      (pending : List TransferMemoryRecord)
      → classify_all auth w rows records ≡ ok (n, pending)
      → (total n + length pending ≡ length records) × (n.inserted ≡ 0)
  unfolding classify_all
  classify_all-total rows [] n pending e = ground arith
  classify_all-total rows (r ∷ records) n pending e = elim (Result-cases (classify auth w rows r)) [
    | inl (c, is_c) ↦ elim (Result-cases (classify_all auth w rows records)) [
      | inl ((m, later), found) ↦
          ground (arith, classify_all-total rows records m later found, counted-total c r m later)
      | inr (x, failed) ↦ absurd (ground arith)
    ]
    | inr (x, failed) ↦ absurd (ground arith)
  ]

  length-insert_all :
      (pending : List TransferMemoryRecord) (rows rows' : List TransferRow)
      → insert_all auth w pending rows ≡ ok rows'
      → length rows' ≡ length rows + length pending
  unfolding insert_all
  length-insert_all [] rows rows' e =
      let same : rows ≡ rows' = ground arith in omega (arith, ap length same)
  length-insert_all (r ∷ pending) rows rows' e =
      elim (Option-cases (find_row (has_source_key auth.key_id r.source_key) rows)) [
        | inl free ↦
            let rest : insert_all auth w pending (rows ++ inserted_row auth w r ∷ []) ≡ ok rows' =
              ground arith in
            omega (
              arith,
              length-insert_all pending (rows ++ inserted_row auth w r ∷ []) rows' rest,
              length-append rows (inserted_row auth w r ∷ []),
            )
        | inr (taken, found) ↦ absurd (ground arith)
      ]

  -- An import that succeeds has counted each record of the batch once; outside of a dry run the table
  -- has grown by exactly the inserted records, and a dry run has written nothing.
  pub import-total :
      (records : List TransferMemoryRecord) (rows : List TransferRow) (n : ImportCounts)
      → (import_memory_batch auth w records rows).0 ≡ ok n
      → (total n ≡ length records)
        × (length (import_memory_batch auth w records rows).1
            ≡ length rows + (if w.dry_run then 0 else n.inserted))
  unfolding import_memory_batch import_pending
  import-total records rows n e = elim (Result-cases (classify_all auth w rows records)) [
    | inl ((m, pending), found) ↦
        let (counts, none_yet) = classify_all-total rows records m pending found in
        elim (Result-cases (insert_all auth w pending rows)) [
          | inl (rows', stored) ↦ ground (arith, length-insert_all pending rows rows' stored)
          | inr (x, failed) ↦ ground arith
        ]
    | inr (x, failed) ↦ absurd (ground arith)
  ]
