-- ===== src/Connector/Sources/Pages.antt =====
-- src/connectors/base.ts: how the loop over the pages of a source ends.
use total_recall.Base.{
  ℕ, zero, suc, ◌+◌, ◌≤◌, ◌≡◌, ◌≢◌, ◌⊎◌, inl, inr, refl, Bool, false, Option, none, some, List, [],
  ◌∷◌, String, str_eq, length, if_lem, includes, Result, ok, err, arith, Bool-cases,
}
use total_recall.Db.{DbScope, Thrown}
use total_recall.Connector.Retry.{Failure, RetryOptions}
use total_recall.Connector.State.{RowKey, ConnectorStoredState, stored_state}
use total_recall.Connector.Page.{ConnectorPage, ConnectorError, Counts, Store}
use total_recall.Connector.Sources.{
  failed, Progress, SourceRun, stuck_cursor, remember, next_page, failed_with, after_page,
  page_loop, start, read_state, run_one_source,
}

-- No cursor stands twice in the list, and none is empty.
abbrev pub Distinct : List String → Type 0
Distinct [] = Unit
Distinct (c ∷ cs) = (str_eq c "" ≡ false) × (includes cs c ≡ false) × Distinct cs

remember-Distinct :
    (c : Option String) (seen : List String)
    → stuck_cursor c seen ≡ false
    → Distinct seen
    → Distinct (remember c seen) × (length (remember c seen) ≡ suc (length seen))
remember-Distinct none seen h d = absurd (ground arith)
remember-Distinct (some c) seen h d = ground arith

-- The loop between two pages: it goes on without an error, and every page so far had a new cursor.
abbrev Going : {P : Type 0} → ℕ → ℕ → Progress P → Type 0
Going n m p =
    (p.outcome.errors ≡ [])
    × (p.outcome.status ≢ failed)
    × Distinct p.seen_cursors
    × (length p.seen_cursors ≡ p.outcome.pages)
    × (p.outcome.pages + n ≡ m)

-- How a source ends: within the pages allowed, and failed with one error or else done after at least
-- one page, each but the last with a cursor of its own.
abbrev pub Ended : {P : Type 0} → ℕ → Progress P → Type 0
Ended m p =
    (p.outcome.pages ≤ m)
    × Distinct p.seen_cursors
    × (length p.seen_cursors ≤ p.outcome.pages)
    × (((p.outcome.status ≡ failed) × (length p.outcome.errors ≡ 1))
        ⊎ ((p.outcome.status ≢ failed)
            × (p.outcome.errors ≡ [])
            × (p.outcome.pages ≡ suc (length p.seen_cursors))))

module _ {Ev P : Type 0}
    (fetch_page : ℕ → ConnectorStoredState → ℕ → Result Failure (ConnectorPage Ev))
    (persist_page : P → List Ev → Option (P × Counts)) (retry : RetryOptions) (scope : DbScope)
    (is_dry : Bool) (max_pages : ℕ) (k : RowKey) (run : SourceRun P) where
  after_page-Ended :
      (n m : ℕ) (rest : Progress P → Progress P) (p : Progress P)
      (r : Result (Thrown ConnectorError) (ConnectorPage Ev × Counts) × Store P)
      → ((q : Progress P) → Going n m q → Ended m (rest q))
      → Going (suc n) m p
      → Ended m (after_page fetch_page persist_page retry scope is_dry max_pages k run rest p r)
  unfolding after_page
  after_page-Ended n m rest p (err t, st) h (e, s, d, l, b) = ground arith
  after_page-Ended n m rest p (ok (page, counts), st) h (e, s, d, l, b) =
      elim (Bool-cases page.done) [
        | inl done ↦ simp done (ground arith)
        | inr more ↦ elim (Bool-cases (stuck_cursor page.cursor p.seen_cursors)) [
          | inl stuck ↦ simp (more, stuck) (ground arith)
          | inr moves ↦
              let (d', l') = remember-Distinct page.cursor p.seen_cursors moves d in
              simp (more, moves) (h _ (e, s, d', omega (arith, l', l), omega (arith, b)))
        ]
      ]

  page_loop-Ended :
      (n : ℕ) (p : Progress P)
      → Going n max_pages p
      → Ended max_pages (page_loop fetch_page persist_page retry scope is_dry max_pages k run n p)
  unfolding page_loop
  page_loop-Ended zero p (e, s, d, l, b) = ground arith
  page_loop-Ended (suc n) p g =
      after_page-Ended n max_pages
        (page_loop fetch_page persist_page retry scope is_dry max_pages k run n) p
        (next_page fetch_page persist_page retry scope is_dry max_pages k run p) (page_loop-Ended n)
        g

  start-Going :
      (state : ConnectorStoredState) (st : Store P)
      → Going max_pages max_pages
          (start fetch_page persist_page retry scope is_dry max_pages k run state st)
  start-Going state st = (refl, ground arith, tt, refl, omega arith)

  started-Ended :
      (state : ConnectorStoredState) (st : Store P)
      → Ended max_pages (
          page_loop fetch_page persist_page retry scope is_dry max_pages k run max_pages
            (start fetch_page persist_page retry scope is_dry max_pages k run state st))
  started-Ended state st = page_loop-Ended max_pages _ (start-Going state st)

  dry-Ended :
      (st : Store P) (r : Result (Thrown ConnectorError) ConnectorStoredState)
      → Ended max_pages (elim r [
        | err t ↦
            failed_with fetch_page persist_page retry scope is_dry max_pages k run
              (start fetch_page persist_page retry scope is_dry max_pages k run
                (stored_state none)
                st)
              t
        | ok state ↦
            page_loop fetch_page persist_page retry scope is_dry max_pages k run max_pages
              (start fetch_page persist_page retry scope is_dry max_pages k run state st)
      ])
  dry-Ended st (err t) = ground arith
  dry-Ended st (ok state) = started-Ended state st

  -- The loop over a source's pages ends within `maxPagesPerSource` pages. It fails with exactly one
  -- error, or it succeeds with none after at least one page, where every page but the last moved on to
  -- a cursor that is not empty and that no page had before.
  pub run_one_source-Ended :
      (st : Store P)
      → Ended max_pages
          (run_one_source fetch_page persist_page retry scope is_dry max_pages k run st)
  unfolding run_one_source
  run_one_source-Ended st =
      if_lem (Ended max_pages) is_dry
        (dry-Ended st (read_state fetch_page persist_page retry scope is_dry max_pages k run st))
        (started-Ended (stored_state none) st)

  after_page-source_id :
      (i : String) (rest : Progress P → Progress P) (p : Progress P)
      (r : Result (Thrown ConnectorError) (ConnectorPage Ev × Counts) × Store P)
      → ((q : Progress P) → q.outcome.source_id ≡ i → (rest q).outcome.source_id ≡ i)
      → p.outcome.source_id ≡ i
      → (after_page fetch_page persist_page retry scope is_dry max_pages k run rest p
          r).outcome.source_id
        ≡ i
  unfolding after_page
  after_page-source_id i rest p (err t, st) h e = e
  after_page-source_id i rest p (ok (page, counts), st) h e =
      let same = λ (q : Progress P). q.outcome.source_id ≡ i in
      if_lem same page.done e (if_lem same (stuck_cursor page.cursor p.seen_cursors) e (h _ e))

  page_loop-source_id :
      (n : ℕ) (p : Progress P)
      → p.outcome.source_id ≡ k.source_id
      → (page_loop fetch_page persist_page retry scope is_dry max_pages k run n p).outcome.source_id
        ≡ k.source_id
  unfolding page_loop
  page_loop-source_id zero p e = e
  page_loop-source_id (suc n) p e =
      after_page-source_id k.source_id
        (page_loop fetch_page persist_page retry scope is_dry max_pages k run n) p
        (next_page fetch_page persist_page retry scope is_dry max_pages k run p)
        (page_loop-source_id n) e

  dry-source_id :
      (st : Store P) (r : Result (Thrown ConnectorError) ConnectorStoredState)
      → (elim r as (λ _. Progress P) [
        | err t ↦
            failed_with fetch_page persist_page retry scope is_dry max_pages k run
              (start fetch_page persist_page retry scope is_dry max_pages k run
                (stored_state none)
                st)
              t
        | ok state ↦
            page_loop fetch_page persist_page retry scope is_dry max_pages k run max_pages
              (start fetch_page persist_page retry scope is_dry max_pages k run state st)
      ]).outcome.source_id
        ≡ k.source_id
  dry-source_id st (err t) = refl
  dry-source_id st (ok state) = page_loop-source_id max_pages _ refl

  pub run_one_source-source_id :
      (st : Store P)
      → (run_one_source fetch_page persist_page retry scope is_dry max_pages k run
          st).outcome.source_id
        ≡ k.source_id
  unfolding run_one_source
  run_one_source-source_id st =
      if_lem (λ (q : Progress P). q.outcome.source_id ≡ k.source_id) is_dry
        (dry-source_id st
          (read_state fetch_page persist_page retry scope is_dry max_pages k run st))
        (page_loop-source_id max_pages _ refl)
