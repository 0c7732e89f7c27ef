-- ===== src/Transfer/Import/Idempotent.antt =====
-- src/transfer/import.ts: importing a batch twice is importing it once.
use total_recall.Base.{
  ◌+◌, ◌≡◌, sym, ◌∙◌, true, false, List, [], arith, length, includes, All, ok, Result-cases, inl,
  inr,
}
use total_recall.Auth.Keys.{AuthContext}
use total_recall.Transfer.Format.{TransferMemoryRecord, TransferRow}
use total_recall.Transfer.Import.{
  ImportCounts, ImportRun, classify_all, insert_all, import_pending, import_memory_batch,
  has_duplicate_keys,
}
use total_recall.Transfer.Import.Again.{IsReplayable, insert_all-keeps, insert_all-Finds}
use total_recall.Transfer.Import.Settled.{again, classify_all-again}

module _ (auth : AuthContext) (w : ImportRun) where
  -- The steps of an import for good that succeeds.
  abbrev Imported :
      List TransferMemoryRecord → List TransferRow → ImportCounts → List TransferRow → Type 0
  Imported records rows n rows' =
      (includes auth.permissions "import" ≡ true)
      × (has_duplicate_keys records [] ≡ false)
      × (w.audit_fails ≡ false)
      × ((m : ImportCounts) × (pending : List TransferMemoryRecord) × (classify_all auth w rows
              records
            ≡ ok (m, pending))
          × (insert_all auth w pending rows ≡ ok rows')
          × (n ≡ record m { inserted = length pending }))

  import-Imported :
      (records : List TransferMemoryRecord) (rows : List TransferRow) (n : ImportCounts)
      → w.dry_run ≡ false
      → (import_memory_batch auth w records rows).0 ≡ ok n
      → Imported records rows n (import_memory_batch auth w records rows).1
  unfolding import_memory_batch import_pending
  import-Imported records rows n for_good e =
      elim (Result-cases (classify_all auth w rows records)) [
        | inl ((m, pending), found) ↦ elim (Result-cases (insert_all auth w pending rows)) [
          | inl (rows', stored) ↦ (
            ground arith,
            ground arith,
            ground arith,
            (m, pending, found, ground arith, ground arith),
          )
          | inr (x, failed) ↦ absurd (ground arith)
        ]
        | inr (x, failed) ↦ absurd (ground arith)
      ]

  -- Where nothing is to be inserted.
  import_nothing :
      (records : List TransferMemoryRecord) (rows : List TransferRow) (n : ImportCounts)
      → includes auth.permissions "import" ≡ true
      → has_duplicate_keys records [] ≡ false
      → w.audit_fails ≡ false
      → w.dry_run ≡ false
      → classify_all auth w rows records ≡ ok (n, [])
      → import_memory_batch auth w records rows ≡ (ok (record n { inserted = 0 }), rows)
  unfolding import_memory_batch import_pending insert_all
  import_nothing records rows n permitted distinct audited for_good found = ground arith

  -- A batch from another instance, whose metadata has no field `_total_recall_transfer`, whose instants
  -- the database keeps to the millisecond and whose rows pass the schema when they are read back,
  -- imported for good with success: the same batch again inserts nothing
  -- and leaves the table as it is; the records that were inserted are found to be the same and are
  -- skipped, all others are counted as before.
  pub import-again :
      (records : List TransferMemoryRecord) (rows : List TransferRow) (n : ImportCounts)
      → All (IsReplayable auth w) records
      → w.dry_run ≡ false
      → (import_memory_batch auth w records rows).0 ≡ ok n
      → import_memory_batch auth w records (import_memory_batch auth w records rows).1 ≡ (
        ok (record n { inserted = 0; skipped = n.skipped + n.inserted }),
        (import_memory_batch auth w records rows).1,
      )
  import-again records rows n foreign for_good e =
      let rows' = (import_memory_batch auth w records rows).1 in
      let (permitted, distinct, audited, (m, pending, found, stored, counts)) =
        import-Imported records rows n for_good e in
      let once_more =
        classify_all-again auth w rows rows' records m pending foreign
          (λ test r h. insert_all-keeps auth w pending rows rows' test r stored h)
          (insert_all-Finds auth w pending rows rows' stored) found in
      import_nothing records rows' (again m pending) permitted distinct audited for_good once_more
      ∙ (λ i. (
        ok (record (sym counts i) {
          inserted = 0;
          skipped = (sym counts i).skipped + (sym counts i).inserted;
        }),
        rows',
      ))
