-- ===== src/Connector/Sources/Runs.antt =====
-- src/connectors/base.ts: what a run of several sources reports.
use total_recall.Base.{
  ℕ, ◌∙◌, ◌≤◌, ◌≡◌, ◌≢◌, ◌↔◌, refl, ap, Bool, true, false, Option, List, [], ◌∷◌, map, All, String,
  eq_iff, length, includes, Result, ok, arith,
}
use total_recall.Db.{DbScope, is_blank}
use total_recall.Connector.Retry.{Failure, RetryOptions}
use total_recall.Connector.State.{ConnectorStoredState}
use total_recall.Connector.Page.{ConnectorPage, Counts, Store}
use total_recall.Connector.Sources.Pages.{run_one_source-source_id}
use total_recall.Connector.Sources.{
  ConnectorSource, succeeded, partial_failure, failed, SourceSyncOutcome, Progress, SourceRun,
  run_one_source, source_key, validate_from, validate_sources, is_failed, failures, run_status,
  run_all, run_sources, row_key, run_source_connector, ConnectorRunOutcome,
}

failures-le : (os : List SourceSyncOutcome) → failures os ≤ length os
failures-le [] = omega arith
failures-le (o ∷ os) = ground (arith, failures-le os)

no_failures :
    (os : List SourceSyncOutcome) → (failures os ≡ 0) ↔ All (λ o. is_failed o.status ≡ false) os
no_failures [] = (λ _. tt, λ _. refl)
no_failures (o ∷ os) = ground (arith, no_failures os)

only_failures :
    (os : List SourceSyncOutcome)
    → (failures os ≡ length os) ↔ All (λ o. is_failed o.status ≡ true) os
only_failures [] = (λ _. tt, λ _. refl)
only_failures (o ∷ os) = ground (arith, only_failures os, failures-le os)

-- A run that writes has succeeded exactly if no source failed, has failed exactly if there are sources
-- and all of them failed, and has failed in part exactly if neither is so. A dry run has failed
-- exactly if some source has.
pub run_status_lem :
    (os : List SourceSyncOutcome)
    → ((run_status false os ≡ succeeded) ↔ All (λ o. is_failed o.status ≡ false) os)
      × ((run_status false os ≡ failed) ↔ (os ≢ []) × All (λ o. is_failed o.status ≡ true) os)
      × ((run_status false os ≡ partial_failure)
          ↔ (¬ All (λ o. is_failed o.status ≡ false) os)
            × (¬ All (λ o. is_failed o.status ≡ true) os))
      × ((run_status true os ≡ failed) ↔ (¬ All (λ o. is_failed o.status ≡ false) os))
unfolding run_status
run_status_lem [] = (
  (λ _. tt, λ _. refl),
  (λ e. absurd (ground arith), λ (h, _). absurd (h refl)),
  (λ e. absurd (ground arith), λ (h, _). absurd (h tt)),
  (λ e. absurd (ground arith), λ h. absurd (h tt)),
)
run_status_lem (o ∷ os) = (
  ground (arith, no_failures (o ∷ os)),
  ground (arith, no_failures (o ∷ os), only_failures (o ∷ os)),
  ground (arith, no_failures (o ∷ os), only_failures (o ∷ os)),
  ground (arith, no_failures (o ∷ os)),
)

-- The keys of the sources so far, and those that follow, are all different.
abbrev pub Apart : List ConnectorSource → Type 0
Apart [] = Unit
Apart (s ∷ sources) =
    All (λ t. ¬ ((t.namespace ≡ s.namespace) × (t.source_id ≡ s.source_id))) sources × Apart sources

abbrev pub Allowed : DbScope → ConnectorSource → Type 0
Allowed scope s =
    (includes scope.namespaces s.namespace ≡ true)
    × (is_blank s.source_id ≡ false)
    × (is_blank s.namespace ≡ false)

includes-key :
    (s t : ConnectorSource) (seen : List String)
    → includes (source_key s ∷ seen) (source_key t) ≡ false
    → (¬ ((t.namespace ≡ s.namespace) × (t.source_id ≡ s.source_id)))
      × (includes seen (source_key t) ≡ false)
includes-key s t seen h = (
  λ (a, b).
      let same : source_key s ≡ source_key t = rw (a, b) refl in
      absurd (ground (arith, same, eq_iff (source_key s) (source_key t))),
  ground arith,
)

unseen :
    (sources : List ConnectorSource) (s : ConnectorSource) (seen : List String)
    → All (λ t. includes (source_key s ∷ seen) (source_key t) ≡ false) sources
    → All (λ t. ¬ ((t.namespace ≡ s.namespace) × (t.source_id ≡ s.source_id))) sources
      × All (λ t. includes seen (source_key t) ≡ false) sources
unseen [] s seen h = (tt, tt)
unseen (t ∷ sources) s seen (h, hs) =
    let (a, b) = includes-key s t seen h in
    let (as', bs) = unseen sources s seen hs in ((a, as'), (b, bs))

validate_step :
    (scope : DbScope) (seen : List String) (s : ConnectorSource) (sources : List ConnectorSource)
    → validate_from scope seen (s ∷ sources) ≡ ok tt
    → Allowed scope s
      × (includes seen (source_key s) ≡ false)
      × (validate_from scope (source_key s ∷ seen) sources ≡ ok tt)
unfolding validate_from
validate_step scope seen s sources h = ground arith

validate_from-ok :
    (scope : DbScope) (seen : List String) (sources : List ConnectorSource)
    → validate_from scope seen sources ≡ ok tt
    → All (Allowed scope) sources
      × Apart sources
      × All (λ t. includes seen (source_key t) ≡ false) sources
unfolding validate_from
validate_from-ok scope seen [] h = (tt, tt, tt)
validate_from-ok scope seen (s ∷ sources) h =
    let (allowed, fresh, rest) = validate_step scope seen s sources h in
    let (more, apart, others) = validate_from-ok scope (source_key s ∷ seen) sources rest in
    let (differ, unseen_by) = unseen sources s seen others in
    ((allowed, more), (differ, apart), (fresh, unseen_by))

module _ {P : Type 0} (one : ConnectorSource → Store P → Progress P) where
  run_all-source_ids :
      (sources : List ConnectorSource) (st : Store P)
      → ((s : ConnectorSource) (x : Store P) → (one s x).outcome.source_id ≡ s.source_id)
      → map (λ o. o.source_id) (run_all one sources st).0 ≡ map (λ s. s.source_id) sources
  unfolding run_all
  run_all-source_ids [] st h = refl
  run_all-source_ids (s ∷ sources) st h =
      ground (arith, h s st, run_all-source_ids sources (one s st).store h)

  run_sources-ok :
      (scope : DbScope) (is_dry : Bool) (m : ℕ) (sources : List ConnectorSource) (st st' : Store P)
      (outcome : ConnectorRunOutcome)
      → run_sources one scope is_dry m sources st ≡ ok (outcome, st')
      → (1 ≤ m)
        × (m ≤ 10_000)
        × (validate_sources sources scope ≡ ok tt)
        × (outcome.sources ≡ (run_all one sources st).0)
        × (st' ≡ (run_all one sources st).1)
  unfolding run_sources
  run_sources-ok scope is_dry m sources st st' outcome e = ground arith

module _ {Ev P : Type 0}
    (fetch_page : ConnectorSource
      → ℕ
      → ConnectorStoredState
      → ℕ
      → Result Failure (ConnectorPage Ev))
    (persist_page : ConnectorSource → P → List Ev → Option (P × Counts))
    (runs : ConnectorSource → SourceRun P) (service : String) (retry : RetryOptions)
    (scope : DbScope) where
  -- A run that reports at all was asked for 1 to 10000 pages per source, of sources with names that
  -- are not blank, in namespaces of the scope, no two with the same namespace and name; and it reports
  -- one outcome for every source, in their order, whatever became of the sources before.
  pub run_source_connector-reports :
      (is_dry : Bool) (m : ℕ) (sources : List ConnectorSource) (st st' : Store P)
      (outcome : ConnectorRunOutcome)
      → run_source_connector fetch_page persist_page runs service retry scope is_dry m sources st
        ≡ ok (outcome, st')
      → (1 ≤ m)
        × (m ≤ 10_000)
        × All (Allowed scope) sources
        × Apart sources
        × (map (λ o. o.source_id) outcome.sources ≡ map (λ s. s.source_id) sources)
  unfolding run_source_connector validate_sources
  run_source_connector-reports is_dry m sources st st' outcome e =
      let one : ConnectorSource → Store P → Progress P = λ s.
        run_one_source (fetch_page s) (persist_page s) retry scope is_dry m
          (row_key scope service s) (runs s) in
      let (low, high, valid, same, _) =
        run_sources-ok one scope is_dry m sources st st' outcome e in
      let (allowed, apart, _) = validate_from-ok scope [] sources valid in
      (
        low,
        high,
        allowed,
        apart,
        ap (map (λ o. o.source_id)) same
            ∙ run_all-source_ids one sources st (λ s.
              run_one_source-source_id (fetch_page s) (persist_page s) retry scope is_dry m _
                (runs s)),
      )
