-- ===== src/Memory/Forget/Tombstones.antt =====
-- src/memory-lifecycle.ts: which rows a request changes, and which it may.
use total_recall.Base.{
  some, append_nil, length-zero, includes-append, ◌≡◌, ◌⊎◌, inl, inr, refl, sym, ◌∙◌, subst, Bool,
  true, ◌||◌, List, [], ◌∷◌, ◌++◌, String, str_eq, eq_iff, Occurs, All, includes, ok, arith,
  Bool-cases, filter, map, length, if◌then◌else◌, false, ◌&&◌, ap,
}
use total_recall.Auth.Keys.{AuthContext}
use total_recall.Db.{db_scope_from_auth, Session, Faults}
use total_recall.Db.Scoped.{with_scoped_client, with_scoped_client-ok}
use total_recall.Memory.Forget.{
  ForgetParams, MemoryRow, ForgetTables, refine, is_active, is_selected, select_rows, ids_of,
  canonical_ids, distinct, tombstone, update_rows, keep_ids, ForgetRun, is_tombstoned, audit_of,
  forget_selected, forget_in_transaction, forget_memories, holds_where,
}

includes-distinct : (xs : List String) (y : String) → includes (distinct xs) y ≡ includes xs y
unfolding distinct
includes-distinct [] y = refl
includes-distinct (x ∷ xs) y =
    ground (arith, eq_iff x y, includes-distinct xs y, includes-distinct xs x)

module _ (rows : List MemoryRow) (test : MemoryRow → Bool) where
  -- The id of a row that passes the test.
  abbrev pub IdOf : String → Type 0
  IdOf id = (r : MemoryRow) × Occurs r rows × (r.id ≡ id) × (test r ≡ true)

All-imp :
    {A : Type 0} {P Q : A → Type 0} (xs : List A) → ((x : A) → P x → Q x) → All P xs → All Q xs
All-imp [] f h = tt
All-imp (x ∷ xs) f (h, hs) = (f x h, All-imp xs f hs)

later-IdOf :
    (r : MemoryRow) (rows : List MemoryRow) (test : MemoryRow → Bool) (id : String)
    → IdOf rows test id
    → IdOf (r ∷ rows) test id
later-IdOf r rows test id (x, o, e, h) = (x, inr o, e, h)

select_rows-IdOf :
    (rows : List MemoryRow) (test : MemoryRow → Bool)
    → All (IdOf rows test) (ids_of (select_rows test rows))
unfolding select_rows
select_rows-IdOf [] test = tt
select_rows-IdOf (r ∷ rows) test =
    let rest =
      All-imp (ids_of (select_rows test rows)) (later-IdOf r rows test)
        (select_rows-IdOf rows test) in
    elim (Bool-cases (test r)) [
      | inl yes_test ↦ simp yes_test ((r, inl refl, refl, yes_test), rest)
      | inr no_test ↦ simp no_test rest
    ]

select_rows-filter :
    (test : MemoryRow → Bool) (rows : List MemoryRow) → select_rows test rows ≡ filter test rows
unfolding select_rows
select_rows-filter test [] = refl
select_rows-filter test (r ∷ rows) = ground (arith, select_rows-filter test rows)

filter-cong :
    (p q : MemoryRow → Bool) (rows : List MemoryRow)
    → ((x : MemoryRow) → p x ≡ q x)
    → filter p rows ≡ filter q rows
filter-cong p q [] h = refl
filter-cong p q (r ∷ rows) h = ground (arith, h r, filter-cong p q rows h)

keep_ids-filter : (ids updated : List String) → keep_ids ids updated ≡ filter (includes updated) ids
keep_ids-filter [] updated = refl
keep_ids-filter (id ∷ ids) updated = ground (arith, keep_ids-filter ids updated)

update_rows-map :
    (test test' : MemoryRow → Bool) (f : MemoryRow → MemoryRow) (rows : List MemoryRow)
    → ((x : MemoryRow) → test x ≡ test' x)
    → update_rows test f rows ≡ map (λ x. if test' x then f x else x) rows
unfolding update_rows
update_rows-map test test' f [] h = refl
update_rows-map test test' f (r ∷ rows) h = ground (arith, h r, update_rows-map test test' f rows h)

filter_never :
    (p : MemoryRow → Bool) (rows : List MemoryRow)
    → ((x : MemoryRow) → p x ≡ false)
    → filter p rows ≡ []
filter_never p [] h = refl
filter_never p (r ∷ rows) h = ground (arith, h r, filter_never p rows h)

map_never :
    (p : MemoryRow → Bool) (f : MemoryRow → MemoryRow) (rows : List MemoryRow)
    → ((x : MemoryRow) → p x ≡ false)
    → map (λ x. if p x then f x else x) rows ≡ rows
map_never p f [] h = refl
map_never p f (r ∷ rows) h = ground (arith, h r, map_never p f rows h)

module _ (auth : AuthContext) (p : ForgetParams) (run : ForgetRun) where
  -- The rows that the request selects, and the ids that are to be marked with them.
  abbrev pub selection : List MemoryRow → List MemoryRow
  selection rows = filter (is_selected auth p run.selected_at) rows

  abbrev pub is_hit : List MemoryRow → MemoryRow → Bool
  is_hit selected x =
      is_active run.updated_at x
      && (includes (ids_of selected) x.id || includes (canonical_ids selected) x.id)

  -- What a request does: it answers with the ids of the selected rows that are hit, puts the mark of the
  -- deletion on each row that is hit and on no other, and writes an audit record for each.
  abbrev pub ForgetsRows : List MemoryRow → ForgetTables → List String → ForgetTables → Type 0
  ForgetsRows selected t forgotten t' =
      (forgotten
        ≡ filter (includes (ids_of (filter (is_hit selected) t.memories))) (ids_of selected))
      × (t'.memories
          ≡ map
              (λ x.
                if is_hit selected x
                then record x {
                  deleted_at = some run.updated_at;
                  deleted_by_client_id = some auth.key_id;
                  deletion_reason = p.reason;
                }
                else x)
              t.memories)
      × (t'.audit ≡ t.audit ++ map (audit_of auth) (filter (is_hit selected) t.memories))

  abbrev pub Forgets : ForgetTables → List String → ForgetTables → Type 0
  Forgets t forgotten t' =
      All (IdOf t.memories (is_selected auth p run.selected_at)) forgotten
      × ForgetsRows (selection t.memories) t forgotten t'

  is_hit-distinct :
      (selected : List MemoryRow) (x : MemoryRow)
      → is_tombstoned auth p run (distinct (ids_of selected ++ canonical_ids selected)) x
        ≡ is_hit selected x
  is_hit-distinct selected x = ground (
    arith,
    includes-distinct (ids_of selected ++ canonical_ids selected) x.id,
    includes-append (ids_of selected) (canonical_ids selected) x.id,
  )

  forget_selected-ForgetsRows :
      (selected : List MemoryRow) (t t' : ForgetTables) (forgotten : List String)
      → forget_selected auth p run selected t ≡ (ok forgotten, t')
      → ForgetsRows selected t forgotten t'
  unfolding forget_selected
  forget_selected-ForgetsRows selected t t' forgotten e =
      let test = is_tombstoned auth p run (distinct (ids_of selected ++ canonical_ids selected)) in
      let hits : select_rows test t.memories ≡ filter (is_hit selected) t.memories =
        select_rows-filter test t.memories
        ∙ filter-cong test (is_hit selected) t.memories (is_hit-distinct selected) in
      let kept : forgotten ≡ keep_ids (ids_of selected) (ids_of (select_rows test t.memories)) =
        ground arith in
      let stored : t'.memories ≡ update_rows test (tombstone auth p run.updated_at) t.memories =
        ground arith in
      let noted : t'.audit ≡ t.audit ++ map (audit_of auth) (select_rows test t.memories) =
        ground arith in
      (
        kept
            ∙ (ap (λ l. keep_ids (ids_of selected) (ids_of l)) hits
                ∙ keep_ids-filter (ids_of selected) (ids_of (filter (is_hit selected) t.memories))),
        stored
            ∙ update_rows-map test (is_hit selected) (tombstone auth p run.updated_at) t.memories
                (is_hit-distinct selected),
        noted ∙ ap (λ l. t.audit ++ map (audit_of auth) l) hits,
      )

  never_hit : (x : MemoryRow) → is_hit [] x ≡ false
  unfolding canonical_ids
  never_hit x = ground arith

  nothing-ForgetsRows : (t : ForgetTables) → ForgetsRows [] t [] t
  nothing-ForgetsRows t = (
    refl,
    sym (map_never (is_hit []) (tombstone auth p run.updated_at) t.memories never_hit),
    sym (append_nil t.audit)
        ∙ ap (λ l. t.audit ++ map (audit_of auth) l)
            (sym (filter_never (is_hit []) t.memories never_hit)),
  )

  forget_in_transaction-cases :
      (t t' : ForgetTables) (forgotten : List String)
      → forget_in_transaction auth p run t ≡ (ok forgotten, t')
      → ((forgotten ≡ [])
          × (t' ≡ t)
          × (length (select_rows (is_selected auth p run.selected_at) t.memories) ≡ 0))
        ⊎ (forget_selected auth p run
              (select_rows (is_selected auth p run.selected_at) t.memories)
              t
            ≡ (ok forgotten, t'))
  unfolding forget_in_transaction
  forget_in_transaction-cases t t' forgotten e = ground arith

  forget_in_transaction-ForgetsRows :
      (t t' : ForgetTables) (forgotten : List String)
      → forget_in_transaction auth p run t ≡ (ok forgotten, t')
      → ForgetsRows (selection t.memories) t forgotten t'
  forget_in_transaction-ForgetsRows t t' forgotten e =
      let known = select_rows-filter (is_selected auth p run.selected_at) t.memories in
      elim (forget_in_transaction-cases t t' forgotten e) [
        | inl (nothing, same, empty) ↦
            let none_selected : selection t.memories ≡ [] =
              length-zero (selection t.memories) (sym (ap length known) ∙ empty) in
            subst (λ l. ForgetsRows l t forgotten t') (sym none_selected)
              (subst (λ ids. ForgetsRows [] t ids t') (sym nothing)
                (subst (λ x. ForgetsRows [] t [] x) (sym same) (nothing-ForgetsRows t)))
        | inr ran ↦
            subst (λ l. ForgetsRows l t forgotten t') known
              (forget_selected-ForgetsRows
                (select_rows (is_selected auth p run.selected_at) t.memories) t t' forgotten ran)
      ]

  filter-All :
      (Q : String → Type 0) (test : String → Bool) (ids : List String)
      → All Q ids
      → All Q (filter test ids)
  filter-All Q test [] h = tt
  filter-All Q test (id ∷ ids) (h, hs) = ground (arith, filter-All Q test ids hs)

  forget_in_transaction-Forgets :
      (t t' : ForgetTables) (forgotten : List String)
      → forget_in_transaction auth p run t ≡ (ok forgotten, t')
      → Forgets t forgotten t'
  forget_in_transaction-Forgets t t' forgotten e =
      let (kept, stored, noted) = forget_in_transaction-ForgetsRows t t' forgotten e in
      let is_chosen = is_selected auth p run.selected_at in
      let chosen : All (IdOf t.memories is_chosen) (ids_of (selection t.memories)) =
        subst (λ l. All (IdOf t.memories is_chosen) (ids_of l))
          (select_rows-filter is_chosen t.memories) (select_rows-IdOf t.memories is_chosen) in
      (
        subst (All (IdOf t.memories is_chosen)) (sym kept)
            (filter-All _ _ (ids_of (selection t.memories)) chosen),
        (kept, stored, noted),
      )

  -- A request succeeds only if the schema's refinements hold, the key may delete, and the namespace, if
  -- one is named, is the key's. It then marks as deleted by this key every
  -- memory that is still active and is selected, or is the canonical memory of a selected one, and no
  -- other row; it writes one audit record for each of them, and reports the ids of the selected ones
  -- among them, all of active memories in the key's namespaces, within its access level, that fit
  -- every selector.
  pub forget_memories-Forgets :
      (f : Faults) (s : Session ForgetTables) (forgotten : List String)
      → (forget_memories auth p run f s).answer ≡ ok forgotten
      → (refine run.parsed_at p ≡ true)
        × (includes auth.permissions "delete" ≡ true)
        × (holds_where p.namespace (λ n. str_eq n "" || includes auth.namespaces n) ≡ true)
        × Forgets s.store forgotten (forget_memories auth p run f s).store
  unfolding forget_memories
  forget_memories-Forgets f s forgotten e =
      let after =
        with_scoped_client f (db_scope_from_auth auth) (λ _ t. forget_in_transaction auth p run t)
          s in
      let answered : after.answer ≡ ok forgotten = ground arith in
      let stored : (forget_memories auth p run f s).store ≡ after.store = ground arith in
      let (_, ran) =
        with_scoped_client-ok f (db_scope_from_auth auth)
          (λ _ t. forget_in_transaction auth p run t) s forgotten answered in
      (
        ground arith,
        ground arith,
        ground arith,
        subst (Forgets s.store forgotten) (sym stored)
            (forget_in_transaction-Forgets s.store after.store forgotten ran),
      )
