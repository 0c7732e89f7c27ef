-- ===== src/Transfer/Import/Settled.antt =====
-- src/transfer/import.ts: the classification of a batch after it was imported.
use total_recall.Base.{
  ◌+◌, ◌≡◌, refl, sym, ap, suc, subst, ◌∙◌, Bool, true, false, ◌&&◌, Option, none, some, List, [],
  ◌∷◌, eq_iff, arith, length, includes, All, Result, ok, Result-cases, Option-cases, Bool-cases,
  inl, inr, if◌then◌else◌,
}
use total_recall.Auth.Levels.{level_name}
use total_recall.Auth.Levels.Sql.{access_level_sql}
use total_recall.Auth.Keys.{AuthContext}
use total_recall.Transfer.Format.{existing_to_record, TransferMemoryRecord, TransferRow}
use total_recall.Transfer.Import.{
  ImportCounts, ImportError, ImportRun, transfer_record_fingerprint, Class, denies, pends, skips,
  conflicts, has_source_key, find_row, is_unauthorized, judged, key_access, source_key_access,
  compare_row, classify_accessed, classify, classify_all, counted, kept_pending, inserted_row,
}
use total_recall.Transfer.Import.Again.{IsReplayable, Finds, read_back, level_agrees}

abbrev pub later : Class → Class
later pends = skips
later denies = denies
later skips = skips
later conflicts = conflicts

-- The counts when the batch is classified again.
abbrev pub again : ImportCounts → List TransferMemoryRecord → ImportCounts
again n pending = record n { skipped = n.skipped + length pending }

module _ (auth : AuthContext) (w : ImportRun) where
  abbrev key_of : TransferMemoryRecord → TransferRow → Bool
  key_of r = has_source_key auth.key_id r.source_key

  access_by_key :
      (rows : List TransferRow) (r : TransferMemoryRecord)
      → IsReplayable auth w r
      → source_key_access auth w.local_instance w.derived rows r
        ≡ key_access auth (find_row (key_of r) rows)
  unfolding source_key_access
  access_by_key rows r (foreign, unmarked, accepted, kept) = ground arith

  classify_open :
      (rows : List TransferRow) (r : TransferMemoryRecord)
      → IsReplayable auth w r
      → is_unauthorized auth r ≡ false
      → classify auth w rows r
        ≡ classify_accessed auth w rows r (key_access auth (find_row (key_of r) rows))
  unfolding classify
  classify_open rows r foreign allowed =
      rw allowed (ap (classify_accessed auth w rows r) (access_by_key rows r foreign))

  compare_row_settled :
      (r : TransferMemoryRecord) (o : Option TransferRow) (c : Class)
      → compare_row auth w r o ≡ ok c
      → later c ≡ c
  unfolding compare_row
  compare_row_settled r none c e = ground arith
  compare_row_settled r (some m) c e = ground arith

  abbrev is_visible : TransferRow → Bool
  is_visible m =
      includes auth.namespaces m.stored.namespace
      && access_level_sql (some (level_name m.stored.access_level))
          (level_name auth.max_access_level)

  -- What becomes of a record by the row that has its key.
  abbrev by_row : TransferMemoryRecord → Option TransferRow → Result ImportError Class
  by_row r none = ok pends
  by_row r (some m) = if is_visible m then compare_row auth w r (some m) else ok denies

  classify_accessed-by_row :
      (rows : List TransferRow) (r : TransferMemoryRecord) (o : Option TransferRow)
      → find_row (key_of r) rows ≡ o
      → classify_accessed auth w rows r (key_access auth o) ≡ by_row r o
  unfolding classify_accessed judged
  classify_accessed-by_row rows r none e = refl
  classify_accessed-by_row rows r (some m) e = elim (Bool-cases (is_visible m)) [
    | inl seen ↦ simp seen (ap (compare_row auth w r) e)
    | inr hidden ↦ simp hidden refl
  ]

  classify-by_row :
      (rows : List TransferRow) (r : TransferMemoryRecord) (o : Option TransferRow)
      → IsReplayable auth w r
      → is_unauthorized auth r ≡ false
      → find_row (key_of r) rows ≡ o
      → classify auth w rows r ≡ by_row r o
  classify-by_row rows r o foreign allowed e =
      classify_open rows r foreign allowed
      ∙ (ap (λ x. classify_accessed auth w rows r (key_access auth x)) e
          ∙ classify_accessed-by_row rows r o e)

  by_row_settled :
      (r : TransferMemoryRecord) (m : TransferRow) (c : Class)
      → by_row r (some m) ≡ ok c
      → later c ≡ c
  by_row_settled r m c e = elim (Bool-cases (is_visible m)) [
    | inl seen ↦ compare_row_settled r (some m) c (simp seen at e)
    | inr hidden ↦ ground arith
  ]

  inserted_visible :
      (r : TransferMemoryRecord)
      → is_unauthorized auth r ≡ false
      → is_visible (inserted_row auth w r) ≡ true
  unfolding inserted_row
  inserted_visible r allowed =
      ground (arith, level_agrees r.portable.access_level auth.max_access_level)

  inserted_skips :
      (r : TransferMemoryRecord)
      → IsReplayable auth w r
      → compare_row auth w r (some (inserted_row auth w r)) ≡ ok skips
  unfolding compare_row
  inserted_skips r (foreign, unmarked, accepted, kept) =
      let same = ap w.fingerprint (read_back auth w r unmarked kept) in
      ground (
        arith,
        eq_iff (transfer_record_fingerprint auth w (existing_to_record (inserted_row auth w r) r))
            (transfer_record_fingerprint auth w r),
      )

  -- A record that was to be inserted is skipped from then on, every other is classified as before.
  pub classify-later :
      (rows rows' : List TransferRow) (r : TransferMemoryRecord) (c : Class)
      → IsReplayable auth w r
      → ((m : TransferRow) → find_row (key_of r) rows ≡ some m → find_row (key_of r) rows' ≡ some m)
      → (c ≡ pends → Finds auth w rows' r)
      → classify auth w rows r ≡ ok c
      → classify auth w rows' r ≡ ok (later c)
  unfolding classify
  classify-later rows rows' r c foreign keeps finds e = elim (Bool-cases (is_unauthorized auth r)) [
    | inl refused ↦ ground arith
    | inr allowed ↦ elim (Option-cases (find_row (key_of r) rows)) [
      | inl free ↦
          let fresh : c ≡ pends =
            ground (arith, classify-by_row rows r none foreign allowed free) in
          classify-by_row rows' r (some (inserted_row auth w r)) foreign allowed (finds fresh)
          ∙ simp (inserted_visible r allowed, fresh) (inserted_skips r foreign)
      | inr (m, found) ↦
          let was : by_row r (some m) ≡ ok c =
            sym (classify-by_row rows r (some m) foreign allowed found) ∙ e in
          classify-by_row rows' r (some m) foreign allowed (keeps m found)
          ∙ (was ∙ ap ok (sym (by_row_settled r m c was)))
    ]
  ]

  counted-again :
      (c : Class) (r : TransferMemoryRecord) (n : ImportCounts)
      (pending : List TransferMemoryRecord)
      → (counted auth w (later c) (again n pending)
          ≡ again (counted auth w c n) (kept_pending auth w c r pending))
        × (kept_pending auth w (later c) r [] ≡ [])
  counted-again denies r n pending = (refl, refl)
  counted-again pends r n pending = (λ i. record n { skipped = moved i }, refl)
    where
      moved : n.skipped + length pending + 1 ≡ n.skipped + suc (length pending)
      moved = omega arith
  counted-again skips r n pending = (λ i. record n { skipped = moved i }, refl)
    where
      moved : n.skipped + length pending + 1 ≡ n.skipped + 1 + length pending
      moved = omega arith
  counted-again conflicts r n pending = (refl, refl)

  Finds-kept :
      (rows' : List TransferRow) (c : Class) (r : TransferMemoryRecord)
      (pending : List TransferMemoryRecord)
      → All (Finds auth w rows') (kept_pending auth w c r pending)
      → (c ≡ pends → Finds auth w rows' r) × All (Finds auth w rows') pending
  Finds-kept rows' denies r pending h = (λ e. absurd (ground arith), h)
  Finds-kept rows' pends r pending (this, others) = (λ e. this, others)
  Finds-kept rows' skips r pending h = (λ e. absurd (ground arith), h)
  Finds-kept rows' conflicts r pending h = (λ e. absurd (ground arith), h)

  classify_all_cons :
      (rows : List TransferRow) (r : TransferMemoryRecord) (records : List TransferMemoryRecord)
      (c : Class) (n : ImportCounts) (pending : List TransferMemoryRecord)
      → classify auth w rows r ≡ ok c
      → classify_all auth w rows records ≡ ok (n, pending)
      → classify_all auth w rows (r ∷ records)
        ≡ ok (counted auth w c n, kept_pending auth w c r pending)
  unfolding classify_all
  classify_all_cons rows r records c n pending e h = ground arith

  pub classify_all-again :
      (rows rows' : List TransferRow) (records : List TransferMemoryRecord) (n : ImportCounts)
      (pending : List TransferMemoryRecord)
      → All (IsReplayable auth w) records
      → ((test : TransferRow → Bool) (m : TransferRow)
          → find_row test rows ≡ some m
          → find_row test rows' ≡ some m)
      → All (Finds auth w rows') pending
      → classify_all auth w rows records ≡ ok (n, pending)
      → classify_all auth w rows' records ≡ ok (again n pending, [])
  unfolding classify_all
  classify_all-again rows rows' [] n pending foreign keeps finds e =
      let counts : n ≡ record { inserted = 0; skipped = 0; conflicted = 0; denied = 0 } =
        ground arith in
      let none_left : pending ≡ [] = ground arith in ground arith
  classify_all-again rows rows' (r ∷ records) n pending (this, others) keeps finds e =
      elim (Result-cases (classify auth w rows r)) [
        | inl (c, is_c) ↦ elim (Result-cases (classify_all auth w rows records)) [
          | inl ((m, rest), found) ↦
              let counts : n ≡ counted auth w c m = ground arith in
              let kept : pending ≡ kept_pending auth w c r rest = ground arith in
              let (new, old) =
                Finds-kept rows' c r rest (subst (λ ps. All (Finds auth w rows') ps) kept finds) in
              let first = classify-later rows rows' r c this (keeps (key_of r)) new is_c in
              let ih = classify_all-again rows rows' records m rest others keeps old found in
              let (a, b) = counted-again c r m rest in
              classify_all_cons rows' r records (later c) (again m rest) [] first ih
              ∙ ((λ i. ok (a i, b i)) ∙ (λ i. ok (again (sym counts i) (sym kept i), [])))
          | inr (x, failed) ↦ absurd (ground arith)
        ]
        | inr (x, failed) ↦ absurd (ground arith)
      ]
