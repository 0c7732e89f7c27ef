-- ===== src/Connector/State/Rows.antt =====
-- src/connectors/state.ts: what locking and advancing a source do to the stored rows.
use total_recall.Base.{
  ℕ, ◌≡◌, ◌↔◌, includes, refl, Bool, true, false, Option, none, some, List, [], ◌∷◌, ◌++◌, eq_iff,
  arith, if◌then◌else◌, ok,
}
use total_recall.Db.{DbScope}
use total_recall.Connector.State.{
  RowKey, ConnectorStateRow, PageState, same_key, find_row, new_row, insert_row,
  lock_connector_state, advanced, update_row, advance_connector_state,
}

same_key-eq : (a b : RowKey) → same_key a b ≡ true → a ≡ b
unfolding same_key
same_key-eq a b h = ground (
  arith,
  eq_iff a.client_id b.client_id,
  eq_iff a.namespace b.namespace,
  eq_iff a.service b.service,
  eq_iff a.source_id b.source_id,
)

same_key_refl : (a : RowKey) → same_key a a ≡ true
unfolding same_key
same_key_refl a = ground (
  arith,
  eq_iff a.client_id a.client_id,
  eq_iff a.namespace a.namespace,
  eq_iff a.service a.service,
  eq_iff a.source_id a.source_id,
)

pub same_key_iff : (a b : RowKey) → (same_key a b ≡ true) ↔ (a ≡ b)
same_key_iff a b = (same_key-eq a b, λ e. rw e (same_key_refl b))

find_row-update_row :
    (k j : RowKey) (f : ConnectorStateRow → ConnectorStateRow) (rows : List ConnectorStateRow)
    → ((r : ConnectorStateRow) → (f r).key ≡ r.key)
    → find_row j (update_row k f rows) ≡ (
        if same_key k j
        then (elim (find_row j rows) [ none ↦ none | some r ↦ some (f r) ])
        else find_row j rows)
unfolding find_row update_row
find_row-update_row k j f [] h = ground arith
find_row-update_row k j f (r ∷ rows) h = ground (
  arith,
  same_key_iff r.key k,
  same_key_iff r.key j,
  same_key_iff k j,
  same_key_iff (f r).key j,
  h r,
  find_row-update_row k j f rows h,
)

find_row-append :
    (j : RowKey) (rows : List ConnectorStateRow) (r : ConnectorStateRow)
    → find_row j (rows ++ r ∷ []) ≡ (elim (find_row j rows) [
      | none ↦ if same_key r.key j then some r else none
      | some x ↦ some x
    ])
unfolding find_row
find_row-append j [] r = refl
find_row-append j (x ∷ rows) r = ground (arith, find_row-append j rows r)

find_row-insert_row :
    (k j : RowKey) (now : ℕ) (rows : List ConnectorStateRow)
    → find_row j (insert_row k now rows) ≡ (elim (find_row j rows) [
      | none ↦ if same_key k j then some (new_row k now) else none
      | some x ↦ some x
    ])
unfolding insert_row
find_row-insert_row k j now rows =
    ground (arith, find_row-append j rows (new_row k now), same_key_iff k j)

-- The row of a source once it is locked: the stored one, or a new one without a cursor.
abbrev pub locked_row : RowKey → ℕ → Option ConnectorStateRow → ConnectorStateRow
locked_row k now none = new_row k now
locked_row k now (some r) = r

module _ (scope : DbScope) (locked : Bool) (k : RowKey) (page : PageState) (now : ℕ)
    (rows : List ConnectorStateRow) where
  pub lock_connector_state-rows :
      (r : ConnectorStateRow) (rows' : List ConnectorStateRow)
      → lock_connector_state scope locked k now rows ≡ ok (r, rows')
      → (r ≡ locked_row k now (find_row k rows))
        × (rows' ≡ insert_row k now rows)
        × (includes scope.namespaces k.namespace ≡ true)
        × (locked ≡ false)
  unfolding lock_connector_state
  lock_connector_state-rows r rows' e =
      ground (arith, find_row-insert_row k k now rows, same_key_iff k k)

  after_advance : (j : RowKey) → Option ConnectorStateRow
  after_advance j =
      if same_key k j
      then some (advanced page now (locked_row k now (find_row k rows)))
      else find_row j rows

  advance_insert : List ConnectorStateRow
  advance_insert = update_row k (advanced page now) (insert_row k now rows)

  advance_insert-rows : (j : RowKey) → find_row j advance_insert ≡ after_advance j
  unfolding advance_insert after_advance
  advance_insert-rows j = ground (
    arith,
    find_row-update_row k j (advanced page now) (insert_row k now rows) (λ r. refl),
    find_row-insert_row k j now rows,
    same_key_iff k j,
  )

  advance_insert-ok : advance_connector_state k page now (insert_row k now rows) ≡ ok advance_insert
  unfolding advance_connector_state advance_insert
  advance_insert-ok = ground (arith, find_row-insert_row k k now rows, same_key_iff k k)

  -- Once a source is locked, advancing it cannot fail; it writes the page's cursor, keeps the time
  -- of the last event and the metadata where the page has none, starts from the stored row or else
  -- from a new one, and changes the row of no other source.
  pub advance_after_lock :
      (r : ConnectorStateRow) (rows' : List ConnectorStateRow)
      → lock_connector_state scope locked k now rows ≡ ok (r, rows')
      → (rows'' : List ConnectorStateRow) × (advance_connector_state k page now rows' ≡ ok rows'')
        × ((j : RowKey)
            → find_row j rows'' ≡ (
                if same_key k j
                then some (advanced page now (locked_row k now (find_row k rows)))
                else find_row j rows))
  unfolding after_advance
  advance_after_lock r rows' e =
      let (_, same, _, _) = lock_connector_state-rows r rows' e in
      (advance_insert, rw same advance_insert-ok, advance_insert-rows)
