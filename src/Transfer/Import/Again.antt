-- ===== src/Transfer/Import/Again.antt =====
-- src/transfer/import.ts: a batch that is imported again.
use total_recall.Base.{
  ℕ, Option, ap, ◌∙◌, ◌≡◌, refl, Bool, true, false, none, some, List, [], ◌∷◌, ◌++◌, String, str_eq,
  eq_iff, arith, get, put, delete, All, ok, Option-cases, inl, inr,
}
use total_recall.Auth.Levels.{
  AccessLevel, normal, sensitive, secret, text, level_name, level_of_name, access_level?,
  can_access_level,
}
use total_recall.Auth.Levels.Sql.{access_level_sql}
use total_recall.Auth.Keys.{AuthContext}
use total_recall.Transfer.Format.{
  Portable, iso_instant, optional_instant, with_instants, TransferMemoryRecord, TransferRow, marker,
  metadata_with_transfer_provenance, metadata_without_transfer_provenance, existing_to_record,
}
use total_recall.Transfer.Import.{ImportRun, has_source_key, find_row, inserted_row, insert_all}

delete_absent : (k : String) (m : List (String × String)) → get k m ≡ none → delete k m ≡ m
unfolding get delete
delete_absent k [] h = refl
delete_absent k ((j, v) ∷ m) h = ground (arith, delete_absent k m)

-- The marker is put on and taken off again.
without-with :
    (k v : String) (m : List (String × String)) → get k m ≡ none → delete k (put k v m) ≡ m
unfolding get put delete
without-with k v [] h = ground (arith, eq_iff k k)
without-with k v ((j, u) ∷ m) h = ground (arith, without-with k v m)

find_row-append :
    (test : TransferRow → Bool) (rows more : List TransferRow) (m : TransferRow)
    → find_row test rows ≡ some m
    → find_row test (rows ++ more) ≡ some m
unfolding find_row
find_row-append test [] more m h = absurd (ground arith)
find_row-append test (r ∷ rows) more m h = ground (arith, find_row-append test rows more m)

find_row-last :
    (test : TransferRow → Bool) (rows : List TransferRow) (m : TransferRow)
    → find_row test rows ≡ none
    → test m ≡ true
    → find_row test (rows ++ m ∷ []) ≡ some m
unfolding find_row
find_row-last test [] m h k = ground arith
find_row-last test (r ∷ rows) m h k = ground (arith, find_row-last test rows m)

-- The level of a record, read by the code and by the access function of the database.
pub level_agrees :
    (l ceiling : AccessLevel)
    → can_access_level (text (level_name l)) ceiling ≡ true
    → access_level_sql (some (level_name l)) (level_name ceiling) ≡ true
unfolding can_access_level access_level_sql level_of_name access_level?
level_agrees normal normal h = refl
level_agrees normal sensitive h = refl
level_agrees normal secret h = refl
level_agrees sensitive normal h = absurd (ground arith)
level_agrees sensitive sensitive h = refl
level_agrees sensitive secret h = refl
level_agrees secret normal h = absurd (ground arith)
level_agrees secret sensitive h = absurd (ground arith)
level_agrees secret secret h = refl

module _ (auth : AuthContext) (w : ImportRun) where
  -- An instant that the database keeps, in milliseconds.
  abbrev pub IsKept : ℕ → Type 0
  IsKept t = iso_instant (w.in_database t) ≡ iso_instant t

  abbrev pub IsKeptOrNone : Option ℕ → Type 0
  IsKeptOrNone none = Unit
  IsKeptOrNone (some t) = IsKept t

  abbrev pub HasKeptInstants : Portable → Type 0
  HasKeptInstants p =
      IsKept p.created_at
      × IsKeptOrNone p.event_at
      × IsKeptOrNone p.valid_from
      × IsKeptOrNone p.valid_to
      × IsKeptOrNone p.expires_at

  -- The metadata has no field of the marker's name.
  abbrev pub IsUnmarked : TransferMemoryRecord → Type 0
  IsUnmarked r = get marker r.portable.metadata ≡ none

  -- What is read back of the record's row passes the schema.
  abbrev pub IsReadable : TransferMemoryRecord → Type 0
  IsReadable r = w.accepts (existing_to_record (inserted_row auth w r) r) ≡ true

  -- A record from another instance that its row gives back.
  abbrev pub IsReplayable : TransferMemoryRecord → Type 0
  IsReplayable r =
      (str_eq w.local_instance r.provenance.instance_id ≡ false)
      × IsUnmarked r
      × IsReadable r
      × HasKeptInstants r.portable

  own_key :
      (r : TransferMemoryRecord)
      → has_source_key auth.key_id r.source_key (inserted_row auth w r) ≡ true
  unfolding inserted_row
  own_key r = ground (arith, eq_iff auth.key_id auth.key_id, eq_iff r.source_key r.source_key)

  iso_twice : (t : ℕ) → iso_instant (iso_instant t) ≡ iso_instant t
  iso_twice t = omega arith

  read_instant : (t : ℕ) → IsKept t → iso_instant (iso_instant (w.in_database t)) ≡ iso_instant t
  read_instant t h = iso_twice (w.in_database t) ∙ h

  read_optional :
      (o : Option ℕ)
      → IsKeptOrNone o
      → optional_instant iso_instant
          (optional_instant iso_instant (optional_instant w.in_database o))
        ≡ optional_instant iso_instant o
  read_optional none h = refl
  read_optional (some t) h = ap some (read_instant t h)

  -- The fields of a row read back are the record's, up to what the fingerprint leaves of instants.
  pub read_back :
      (r : TransferMemoryRecord)
      → IsUnmarked r
      → HasKeptInstants r.portable
      → with_instants iso_instant (existing_to_record (inserted_row auth w r) r).portable
        ≡ with_instants iso_instant r.portable
  unfolding existing_to_record inserted_row metadata_with_transfer_provenance
      metadata_without_transfer_provenance
  read_back r h (created, event, from, until, expires) =
      let same = without-with marker (w.provenance_text r.provenance) r.portable.metadata h in
      λ i. record r.portable {
        metadata = same i;
        created_at = read_instant r.portable.created_at created i;
        event_at = read_optional r.portable.event_at event i;
        valid_from = read_optional r.portable.valid_from from i;
        valid_to = read_optional r.portable.valid_to until i;
        expires_at = read_optional r.portable.expires_at expires i;
      }

  pub insert_all-keeps :
      (pending : List TransferMemoryRecord) (rows rows' : List TransferRow)
      (test : TransferRow → Bool) (m : TransferRow)
      → insert_all auth w pending rows ≡ ok rows'
      → find_row test rows ≡ some m
      → find_row test rows' ≡ some m
  unfolding insert_all
  insert_all-keeps [] rows rows' test m e h = ground arith
  insert_all-keeps (r ∷ pending) rows rows' test m e h =
      elim (Option-cases (find_row (has_source_key auth.key_id r.source_key) rows)) [
        | inl free ↦
            insert_all-keeps pending (rows ++ inserted_row auth w r ∷ []) rows' test m
              (ground arith) (find_row-append test rows (inserted_row auth w r ∷ []) m h)
        | inr (taken, found) ↦ absurd (ground arith)
      ]

  -- The row of a record that was inserted.
  abbrev pub Finds : List TransferRow → TransferMemoryRecord → Type 0
  Finds rows r =
      find_row (has_source_key auth.key_id r.source_key) rows ≡ some (inserted_row auth w r)

  pub insert_all-Finds :
      (pending : List TransferMemoryRecord) (rows rows' : List TransferRow)
      → insert_all auth w pending rows ≡ ok rows'
      → All (Finds rows') pending
  unfolding insert_all
  insert_all-Finds [] rows rows' e = tt
  insert_all-Finds (r ∷ pending) rows rows' e =
      elim (Option-cases (find_row (has_source_key auth.key_id r.source_key) rows)) [
        | inl free ↦
            let next = rows ++ inserted_row auth w r ∷ [] in
            let rest : insert_all auth w pending next ≡ ok rows' = ground arith in
            (
              insert_all-keeps pending next rows' (has_source_key auth.key_id r.source_key)
                  (inserted_row auth w r) rest
                  (find_row-last (has_source_key auth.key_id r.source_key) rows
                    (inserted_row auth w r) free (own_key r)),
              insert_all-Finds pending next rows' rest,
            )
        | inr (taken, found) ↦ absurd (ground arith)
      ]
