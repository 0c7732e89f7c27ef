-- ===== src/Memory/Patch.antt =====
-- src/tools/update.ts: the checks of an update of a memory, and the assignments of its statements. Where
-- the code reads what the world answers, an UpdateRun gives it: the rows at the first reading, the
-- embedding, the columns that the schema has, the instants of the statements.
use total_recall.Base.{
  ℕ, zero, suc, ◌+◌, ◌==◌, ltb, Bool, true, false, not, ◌&&◌, ◌||◌, Option, none, some, List, [],
  ◌∷◌, String, str_eq, if◌then◌else◌, includes, is_some, count_where,
}
use total_recall.Auth.Levels.{level_name}
use total_recall.Auth.Levels.Sql.{access_level_sql}
use total_recall.Auth.Keys.{AuthContext}
use total_recall.Db.{is_blank}
use total_recall.Memory.Beliefs.{BeliefRow, is_live, is_unexpired, supersedes}

pub record UpdateParams : Type 0 where
  pub id : String
  pub content : Option String
  pub tags : Option (List String)
  pub metadata : Option String
  pub supersedes : Option String

pub data UpdateError : Type 0 where
  invalid_request permission_denied not_found changed_since_loaded changed_while_embedding :
      UpdateError
  other_namespace expiring already_linked partial_schema already_succeeded cycle : UpdateError
  predecessor_changed embedding_failed audit_failed : UpdateError

pub record UpdateRun : Type 0 where
  pub before : List BeliefRow
  pub read_at : ℕ
  pub read_fails : Bool
  pub embedding : Option String
  pub locked_at : ℕ
  pub validity_columns : ℕ
  pub timestamp : ℕ
  pub updated_at : ℕ
  pub audit_fails : Bool

-- `superRefine`, and the content that is not blank
unfoldable pub is_valid_update : UpdateParams → Bool
is_valid_update p =
    (elim p.content [ none ↦ true | some c ↦ not (is_blank c) ])
    && ((is_some p.content || (is_some p.tags || (is_some p.metadata || is_some p.supersedes)))
        && (elim p.supersedes [ none ↦ true | some s ↦ not (str_eq s p.id) ]))

-- `consolidated_into_id IS NULL AND memory_kind IS DISTINCT FROM 'consolidation'`
abbrev pub is_own_memory : BeliefRow → Bool
is_own_memory m = not (is_some m.consolidated_into_id) && not (str_eq m.memory_kind "consolidation")

unfoldable pub is_current : AuthContext → ℕ → BeliefRow → Bool
is_current auth now m =
    is_live now m
    && (not (is_some m.superseded_at)
        && (is_own_memory m
            && (includes auth.namespaces m.namespace
                && access_level_sql m.access_level (level_name auth.max_access_level))))

-- The current row with an id.
unfoldable pub current_row : AuthContext → ℕ → String → List BeliefRow → Option BeliefRow
unfolding is_current
current_row auth now id [] = none
current_row auth now id (m ∷ rows) =
    let rest = current_row auth now id rows in
    if str_eq m.id id && is_current auth now m then some m else rest

unfoldable pub row_of : String → List BeliefRow → Option BeliefRow
row_of id [] = none
row_of id (m ∷ rows) = let rest = row_of id rows in if str_eq m.id id then some m else rest

-- assertNoCycle: whether the ancestors of a row, itself included, hold the target or a row too deep; n
-- more rows may be passed.
unfoldable pub finds_cycle : List BeliefRow → String → ℕ → String → Bool
unfolding row_of
finds_cycle rows target zero id = is_some (row_of id rows)
finds_cycle rows target (suc n) id = elim (row_of id rows) [
  | none ↦ false
  | some m ↦
      let up : Bool = elim m.supersedes_id [
        | none ↦ false
        | some p ↦ finds_cycle rows target n p
      ] in
      str_eq m.id target || up
]

-- The guards on the two locked rows, in the order of the code.
abbrev pub changed_revision : Option BeliefRow → BeliefRow → Bool
changed_revision none target = false
changed_revision (some initial) target = not (target.revision == initial.revision)

unfoldable pub check_target : Option ℕ → Option BeliefRow → BeliefRow → Option UpdateError
check_target expected initial target =
    if (elim expected [ none ↦ false | some t ↦ not (target.updated_at == t) ])
    then some changed_since_loaded
    else if changed_revision initial target
    then some changed_while_embedding
    else none

unfoldable pub check_predecessor :
    UpdateRun → List BeliefRow → BeliefRow → BeliefRow → Option UpdateError
unfolding finds_cycle
check_predecessor run rows target predecessor =
    if not (str_eq predecessor.namespace target.namespace)
    then some other_namespace
    else if is_some predecessor.expires_at || is_some target.expires_at
    then some expiring
    else if is_some target.supersedes_id
    then some already_linked
    else if not (run.validity_columns == 0) && not (run.validity_columns == 3)
    then some partial_schema
    else if ltb 0 (count_where (supersedes predecessor.id) rows)
        || is_some predecessor.superseded_at
    then some already_succeeded
    else if finds_cycle rows target.id 100 predecessor.id
    then some cycle
    else none

abbrev pub differs : Option String → String → Bool
differs none old = false
differs (some new) old = not (str_eq new old)

-- `isDeepStrictEqual` on lists of texts
abbrev pub same_texts : List String → List String → Bool
same_texts [] [] = true
same_texts [] (y ∷ ys) = false
same_texts (x ∷ xs) [] = false
same_texts (x ∷ xs) (y ∷ ys) = str_eq x y && same_texts xs ys

abbrev pub tags_differ : Option (List String) → List String → Bool
tags_differ none old = false
tags_differ (some new) old = not (same_texts new old)

abbrev pub or_old : {A : Type 0} → Bool → Option A → A → A
or_old changed none old = old
or_old changed (some new) old = if changed then new else old

-- The assignments of the UPDATE of the target.
unfoldable pub patched :
    UpdateParams → UpdateRun → Option BeliefRow → BeliefRow → BeliefRow → BeliefRow
patched p run predecessor target m = record m {
  content = or_old (differs p.content target.content) p.content m.content;
  embedding = if differs p.content target.content then run.embedding else m.embedding;
  tags = or_old (tags_differ p.tags target.tags) p.tags m.tags;
  metadata = or_old (differs p.metadata target.metadata) p.metadata m.metadata;
  supersedes_id = elim predecessor [ none ↦ m.supersedes_id | some q ↦ some q.id ];
  valid_from = elim predecessor [
    | none ↦ m.valid_from
    | some q ↦ if run.validity_columns == 3 then some run.timestamp else m.valid_from
  ];
  updated_at = run.timestamp;
  revision = m.revision + 1;
}

abbrev pub is_patchable : UpdateRun → String → BeliefRow → Bool
is_patchable run id m = str_eq m.id id && (is_unexpired run.updated_at m && is_own_memory m)

abbrev pub is_closable : String → BeliefRow → Bool
is_closable id m =
    str_eq m.id id
    && (not (is_some m.superseded_at) && (not (is_some m.expires_at) && is_own_memory m))

abbrev pub closed : UpdateRun → BeliefRow → BeliefRow
closed run m = record m {
  superseded_at = some run.timestamp;
  valid_to = if run.validity_columns == 3 then some run.timestamp else m.valid_to;
  updated_at = run.timestamp;
  revision = m.revision + 1;
}
