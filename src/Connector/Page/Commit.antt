-- ===== src/Connector/Page/Commit.antt =====
-- src/connectors/base.ts: what the second transaction of a page stores, and when.
use total_recall.Base.{
  ℕ, ◌≡◌, refl, ap, ◌∙◌, subst, Bool, true, false, not, Option, none, some, List, String, eq_iff,
  Result, ok, err, arith, get_or, includes, if◌then◌else◌, bind-ok, ensure, Option-cases, inl, inr,
}
use total_recall.Db.{DbScope}
use total_recall.Connector.Retry.{Failure, RetryOptions, Run}
use total_recall.Connector.State.{
  RowKey, ConnectorStateRow, ConnectorStoredState, find_row, same_key, lock_connector_state,
  advance_connector_state,
}
use total_recall.Connector.State.Rows.{locked_row, lock_connector_state-rows, advance_after_lock}
use total_recall.Connector.Page.{
  ConnectorPage, ConnectorError, state_error, state_changed, Counts, Store, commit_page, changed,
  persist, page_state, map_error, same_cursor,
}

-- The row is as it was read, where one was.
abbrev pub IsAsRead : Option ConnectorStateRow → ConnectorStateRow → Type 0
IsAsRead none row = Unit
IsAsRead (some b) row = (row.updated_at ≡ b.updated_at) × (row.cursor ≡ b.cursor)

-- The row with a page's cursor.
abbrev pub after_page : {Ev : Type 0} → ConnectorPage Ev → ℕ → ConnectorStateRow → ConnectorStateRow
after_page page now row = record row {
  cursor = page.cursor;
  last_event_at = elim page.last_event_at [ none ↦ row.last_event_at | some t ↦ some t ];
  last_sync_at = some now;
  metadata = get_or page.metadata row.metadata;
  updated_at = now;
}

-- The store with a page's events persisted and the source's row, the stored one or a new one, advanced to
-- the page's cursor; no other row is changed.
abbrev pub Stores :
    {Ev P : Type 0}
    → (P → List Ev → Option (P × Counts))
    → RowKey
    → ℕ
    → ConnectorPage Ev
    → Store P
    → Counts
    → Store P
    → Type 0
Stores persist_page k now page st counts st' =
    (persist_page st.persisted page.events ≡ some (st'.persisted, counts))
    × ((j : RowKey)
        → find_row j st'.rows ≡ (
            if same_key k j
            then some (after_page page now (locked_row k now (find_row k st.rows)))
            else find_row j st.rows))

same_cursor-eq : (c d : Option String) → same_cursor c d ≡ true → c ≡ d
same_cursor-eq none none e = refl
same_cursor-eq none (some d) e = absurd (ground arith)
same_cursor-eq (some c) none e = absurd (ground arith)
same_cursor-eq (some c) (some d) e = ground (arith, eq_iff c d)

not-false : (b : Bool) → not b ≡ true → b ≡ false
not-false true h = absurd (ground arith)
not-false false h = refl

ensure-ok : {E : Type 0} (test : Bool) (e : E) (u : Unit {0}) → ensure test e ≡ ok u → test ≡ true
ensure-ok true e u h = refl
ensure-ok false e u h = absurd (ground arith)

map_error-ok :
    {E F A : Type 0} (f : E → F) (r : Result E A) (a : A) → map_error f r ≡ ok a → r ≡ ok a
map_error-ok f (ok b) a h = ground arith
map_error-ok f (err e) a h = absurd (ground arith)

module _ {Ev P : Type 0} (fetch_page : ConnectorStoredState → ℕ → Result Failure (ConnectorPage Ev))
    (persist_page : P → List Ev → Option (P × Counts)) (retry : RetryOptions) (fetch_run : Run)
    (scope : DbScope) (k : RowKey) where
  changed-IsAsRead :
      (before : Option ConnectorStateRow) (row : ConnectorStateRow)
      → changed fetch_page persist_page retry fetch_run scope k before row ≡ false
      → IsAsRead before row
  changed-IsAsRead none row e = tt
  changed-IsAsRead (some b) row e = ground (arith, same_cursor-eq b.cursor row.cursor)

  persist-some :
      (p : P) (events : List Ev) (r : P × Counts)
      → persist fetch_page persist_page retry fetch_run scope k p events ≡ ok r
      → persist_page p events ≡ some r
  persist-some p events r e = elim (Option-cases (persist_page p events)) [
    | inl failed ↦ absurd (ground arith)
    | inr (q, done) ↦ ground arith
  ]

  stored_page :
      (locked : Bool) (now : ℕ) (before : Option ConnectorStateRow) (page : ConnectorPage Ev)
      (st : Store P) (row : ConnectorStateRow) (rows rows' : List ConnectorStateRow) (p : P)
      (c : Counts)
      → lock_connector_state scope locked k now st.rows ≡ ok (row, rows)
      → IsAsRead before row
      → persist_page st.persisted page.events ≡ some (p, c)
      → advance_connector_state k
          (page_state fetch_page persist_page retry fetch_run scope k page)
          now
          rows
        ≡ ok rows'
      → (includes scope.namespaces k.namespace ≡ true)
        × IsAsRead before (locked_row k now (find_row k st.rows))
        × Stores persist_page k now page st c (record { rows = rows'; persisted = p })
  stored_page locked now before page st row rows rows' p c held as_read done moved =
      let state = page_state fetch_page persist_page retry fetch_run scope k page in
      let (is_row, _, allowed, _) =
        lock_connector_state-rows scope locked k state now st.rows row rows held in
      let (rows'', moved', found) =
        advance_after_lock scope locked k state now st.rows row rows held in
      let same : rows' ≡ rows'' = ground arith in
      (allowed, subst (IsAsRead before) is_row as_read, (done, λ j. ap (find_row j) same ∙ found j))

  pub commit_page-Stores :
      (locked : Bool) (now : ℕ) (before : Option ConnectorStateRow) (page : ConnectorPage Ev)
      (st st' : Store P) (counts : Counts)
      → commit_page fetch_page persist_page retry fetch_run scope k locked now before page st
        ≡ ok (counts, st')
      → (includes scope.namespaces k.namespace ≡ true)
        × IsAsRead before (locked_row k now (find_row k st.rows))
        × Stores persist_page k now page st counts st'
  unfolding commit_page
  commit_page-Stores locked now before page st st' counts e =
      let ((row, rows), held, e₁) =
        bind-ok (map_error state_error (lock_connector_state scope locked k now st.rows)) _ _ e in
      let (u, unchanged, e₂) =
        bind-ok
          (ensure (not (changed fetch_page persist_page retry fetch_run scope k before row))
            state_changed)
          _ _ e₁ in
      let ((persisted, counts'), done, e₃) =
        bind-ok (persist fetch_page persist_page retry fetch_run scope k st.persisted page.events) _
          _ e₂ in
      let (rows', moved, e₄) =
        bind-ok
          (map_error state_error (
            advance_connector_state k
              (page_state fetch_page persist_page retry fetch_run scope k page) now rows))
          _ _ e₃ in
      let as_read =
        changed-IsAsRead before row (not-false _ (ensure-ok _ state_changed u unchanged)) in
      let parts =
        stored_page locked now before page st row rows rows' persisted counts'
          (map_error-ok state_error _ (row, rows) held) as_read
          (persist-some st.persisted page.events (persisted, counts') done)
          (map_error-ok state_error _ rows' moved) in
      let same_counts : counts' ≡ counts = ap answered e₄ in
      let same_store = ap committed e₄ in
      subst (λ c. Goal c st') same_counts (subst (λ x. Goal counts' x) same_store parts)
    where
      Goal : Counts → Store P → Type 0
      Goal c x =
          (includes scope.namespaces k.namespace ≡ true)
          × IsAsRead before (locked_row k now (find_row k st.rows))
          × Stores persist_page k now page st c x

      answered : Result ConnectorError (Counts × Store P) → Counts
      answered (ok (c, x)) = c
      answered (err x) = counts

      committed : Result ConnectorError (Counts × Store P) → Store P
      committed (ok (c, x)) = x
      committed (err x) = st
