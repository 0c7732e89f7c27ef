-- ===== src/Contradictions/Revision/History.antt =====
-- src/contradictions.ts: the history of beliefs through an automatic revision.
use total_recall.Base.{
  ◌≤◌, ◌≡◌, refl, sym, subst, Bool, true, ◌⊎◌, inl, inr, Option, some, List, [], ◌∷◌, ◌++◌, String,
  eq_iff, Result, arith, Occurs, count_where, update_where, count_where-append, count_where-update,
  count_where_found, count_where_none, Occurs-update_where, Occurs-append, count_where-imp,
  update_where_none, count_where_one, if◌then◌else◌,
}
use total_recall.Auth.Keys.{AuthContext}
use total_recall.Db.{db_scope_from_auth, Session, Faults}
use total_recall.Db.Scoped.{with_scoped_client-store}
use total_recall.Memory.Beliefs.{
  BeliefRow, BeliefTables, supersedes, has_id, HasPrimaryKey, HasOneSuccessor, HasNoGap,
}
use total_recall.Contradictions.Revision.{
  SemanticMemoryInsert, RevisionResult, RevisionError, RevisionRun, is_revisable, is_closable,
  closed_at, successor_row, revise_in_transaction, commit_automatic_revision,
}

-- The id of the new row is not in use.
abbrev pub IsFresh : String → List BeliefRow → Type 0
IsFresh id rows = (count_where (has_id id) rows ≡ 0) × (count_where (supersedes id) rows ≡ 0)

-- Ids are unique, no belief is replaced twice, and each replaced one ends where the next begins.
abbrev pub IsHistory : List BeliefRow → Type 0
IsHistory rows = HasPrimaryKey rows × HasOneSuccessor rows × HasNoGap rows

module _ (auth : AuthContext) (memory : SemanticMemoryInsert) (pid : String)
    (run : RevisionRun) where
  abbrev pub revisable : List BeliefRow → BeliefRow → Bool
  revisable rows = is_revisable auth memory.namespace pid run.selected_at rows

  abbrev pub closable : BeliefRow → Bool
  closable = is_closable pid run.closed_at

  abbrev pub revised : List BeliefRow → List BeliefRow
  revised rows =
      update_where closable (closed_at run.revision_at) rows ++ successor_row memory pid run ∷ []

  closable_once : (rows : List BeliefRow) → HasPrimaryKey rows → count_where closable rows ≤ 1
  closable_once rows h =
      let fewer = count_where-imp closable (has_id pid) rows (λ (x : BeliefRow) p. ground arith) in
      omega (arith, fewer, h pid)

  -- Either nothing changes, or one row was revisable and closable, and its successor is new.
  abbrev pub Revises : List BeliefRow → List BeliefRow → Type 0
  Revises rows rows' =
      (count_where (revisable rows) rows ≡ 1)
      × (count_where closable rows ≡ 1)
      × (rows' ≡ revised rows)

  revise-cases :
      (t t' : BeliefTables) (r : Result RevisionError (Option RevisionResult))
      → HasPrimaryKey t.memories
      → revise_in_transaction auth memory pid run t ≡ (r, t')
      → (t'.memories ≡ t.memories) ⊎ Revises t.memories t'.memories
  unfolding revise_in_transaction
  revise-cases t t' r key e = ground (
    arith,
    closable_once t.memories key,
    update_where_none closable (closed_at run.revision_at) t.memories,
  )

  no_successor_yet :
      (rows : List BeliefRow)
      → count_where (revisable rows) rows ≡ 1
      → count_where (supersedes pid) rows ≡ 0
  unfolding is_revisable
  no_successor_yet rows h =
      let (x, o, e) = count_where_found (revisable rows) rows (omega arith) in
      ground (arith, eq_iff x.id pid)

  revised-HasOneSuccessor :
      (rows : List BeliefRow)
      → count_where (supersedes pid) rows ≡ 0
      → HasOneSuccessor rows
      → HasOneSuccessor (revised rows)
  unfolding successor_row
  revised-HasOneSuccessor rows open_end h id =
      let appended =
        count_where-append (supersedes id) (update_where closable (closed_at run.revision_at) rows)
          (successor_row memory pid run ∷ []) in
      let kept =
        count_where-update (supersedes id) closable (closed_at run.revision_at) rows (λ x. refl) in
      ground (arith, eq_iff pid id, h id)

  closed_row :
      (rows : List BeliefRow) (y : BeliefRow)
      → HasPrimaryKey rows
      → count_where closable rows ≡ 1
      → Occurs y rows
      → y.id ≡ pid
      → closable y ≡ true
  closed_row rows y key once o e =
      let (z, p, hit) = count_where_found closable rows (omega arith) in
      let same : y ≡ z =
        count_where_one (has_id pid) rows y z (key pid) o p (ground (arith, eq_iff y.id pid))
          (ground arith) in
      subst (λ (x : BeliefRow). closable x ≡ true) (sym same) hit

  -- The old rows among themselves.
  kept_gap :
      (rows : List BeliefRow) (x y : BeliefRow)
      → count_where (supersedes pid) rows ≡ 0
      → HasNoGap rows
      → Occurs x rows
      → Occurs y rows
      → x.supersedes_id ≡ some y.id
      → ((if closable y then closed_at run.revision_at y else y).superseded_at ≡ x.valid_from)
        × ((if closable y then closed_at run.revision_at y else y).valid_to ≡ x.valid_from)
  kept_gap rows x y open_end h o p e =
      let missed = count_where_none (supersedes pid) rows x open_end o in
      ground (arith, eq_iff y.id pid, h x y o p e)

  revised-HasNoGap :
      (rows : List BeliefRow)
      → HasPrimaryKey rows
      → IsFresh run.new_id rows
      → count_where (supersedes pid) rows ≡ 0
      → count_where closable rows ≡ 1
      → HasNoGap rows
      → HasNoGap (revised rows)
  unfolding successor_row
  revised-HasNoGap rows key fresh open_end once h r q o p e = elim (Occurs-append closed new r o) [
    | inl old ↦
        let (x, ox, ex) = Occurs-update_where closable (closed_at run.revision_at) rows r old in
        elim (Occurs-append closed new q p) [
          | inl old' ↦
              let (y, oy, ey) =
                Occurs-update_where closable (closed_at run.revision_at) rows q old' in
              ground (arith, kept_gap rows x y open_end h ox oy)
          | inr (inl is_new) ↦
              let missed = count_where_none (supersedes run.new_id) rows x fresh.1 ox in
              absurd (ground (arith, eq_iff run.new_id run.new_id))
          | inr (inr none_left) ↦ absurd none_left
        ]
    | inr (inl is_new) ↦ elim (Occurs-append closed new q p) [
      | inl old' ↦
          let (y, oy, ey) = Occurs-update_where closable (closed_at run.revision_at) rows q old' in
          ground (arith, closed_row rows y key once oy)
      | inr (inl is_new') ↦
          let (z, oz, hit) = count_where_found closable rows (omega arith) in
          let missed = count_where_none (has_id run.new_id) rows z fresh.0 oz in
          absurd (ground (arith, eq_iff z.id pid, eq_iff z.id run.new_id))
      | inr (inr none_left) ↦ absurd none_left
    ]
    | inr (inr none_left) ↦ absurd none_left
  ]
    where
      closed : List BeliefRow
      closed = update_where closable (closed_at run.revision_at) rows

      new : List BeliefRow
      new = successor_row memory pid run ∷ []

  revised-HasPrimaryKey :
      (rows : List BeliefRow)
      → IsFresh run.new_id rows
      → HasPrimaryKey rows
      → HasPrimaryKey (revised rows)
  unfolding successor_row
  revised-HasPrimaryKey rows fresh h id =
      let appended =
        count_where-append (has_id id) (update_where closable (closed_at run.revision_at) rows)
          (successor_row memory pid run ∷ []) in
      let kept =
        count_where-update (has_id id) closable (closed_at run.revision_at) rows (λ x. refl) in
      ground (arith, eq_iff run.new_id id, h id)

  revise-IsHistory :
      (t : BeliefTables)
      → IsFresh run.new_id t.memories
      → IsHistory t.memories
      → IsHistory (revise_in_transaction auth memory pid run t).1.memories
  revise-IsHistory t fresh (key, one, gapless) =
      elim (revise-cases t (revise_in_transaction auth memory pid run t).1
        (revise_in_transaction auth memory pid run t).0 key refl) [
          | inl same ↦ subst IsHistory (sym same) (key, one, gapless)
          | inr (found, once, e) ↦
              let open_end = no_successor_yet t.memories found in
              subst IsHistory (sym e) (
                revised-HasPrimaryKey t.memories fresh key,
                revised-HasOneSuccessor t.memories open_end one,
                revised-HasNoGap t.memories key fresh open_end once gapless,
              )
        ]

  -- With an id for the new row that is not in use, an automatic revision keeps the history of beliefs,
  -- whatever it answers and whatever fails: ids stay unique, no belief gets a second successor, and
  -- every belief that has one was closed at the very instant from which its successor is valid.
  pub commit-IsHistory :
      (f : Faults) (s : Session BeliefTables)
      → IsFresh run.new_id s.store.memories
      → IsHistory s.store.memories
      → IsHistory (commit_automatic_revision auth memory pid run f s).store.memories
  unfolding commit_automatic_revision
  commit-IsHistory f s fresh h =
      with_scoped_client-store f (db_scope_from_auth auth)
        (λ _ t. revise_in_transaction auth memory pid run t) (λ t. IsHistory t.memories) s h
        (λ a e. revise-IsHistory s.store fresh h)
