-- ===== src/Memory/Forget.antt =====
-- src/memory-lifecycle.ts: forgetting memories. The rows of `memories` stand in the order of their ids
-- and are those that the database's policies let the key see; the shapes of the fields (UUIDs, text
-- lengths) have been checked by the schema library, the rest of the schema is `refine`.
pub mod Tombstones
mod Tests
use total_recall.Base.{
  ℕ, ◌+◌, ltb, leb, Bool, true, false, not, ◌&&◌, ◌||◌, Option, none, some, List, [], ◌∷◌, ◌++◌,
  map, String, str_eq, if◌then◌else◌, length, all, includes, is_some, Result, ok, err,
}
use total_recall.Auth.Levels.{level_name}
use total_recall.Auth.Levels.Sql.{access_level_sql}
use total_recall.Auth.Keys.{AuthContext}
use total_recall.Db.{db_scope_from_auth, Session, Faults, After, thrown, callback}
use total_recall.Db.Scoped.{with_scoped_client}

pub record ForgetParams : Type 0 where
  pub ids : Option (List String)
  pub namespace : Option String
  pub before : Option ℕ
  pub tags : Option (List String)
  pub confirm : Bool
  pub reason : Option String

pub record MemoryRow : Type 0 where
  pub id : String
  pub namespace : String
  pub access_level : Option String
  pub created_at : ℕ
  pub tags : List String
  pub consolidated_into_id : Option String
  pub expires_at : Option ℕ
  pub deleted_at : Option ℕ
  pub deleted_by_client_id : Option String
  pub deletion_reason : Option String

pub record AuditRecord : Type 0 where
  pub client_id : String
  pub namespace : String
  pub memory_id : String

pub record ForgetTables : Type 0 where
  pub memories : List MemoryRow
  pub audit : List AuditRecord

pub data ForgetError : Type 0 where
  invalid_request permission_denied namespace_denied limit_exceeded audit_failed : ForgetError

abbrev pub max_forget_rows : ℕ
max_forget_rows = 100

-- `deleted_at IS NULL AND (expires_at IS NULL OR expires_at > statement_timestamp())`
unfoldable pub is_active : ℕ → MemoryRow → Bool
is_active now r = elim r.deleted_at [
  | some t ↦ false
  | none ↦ elim r.expires_at [ none ↦ true | some t ↦ ltb now t ]
]

abbrev pub has_duplicates : List String → Bool
has_duplicates [] = false
has_duplicates (x ∷ xs) = includes xs x || has_duplicates xs

-- The bounds on the number of ids, and `superRefine`.
unfoldable pub refine : ℕ → ForgetParams → Bool
refine now p =
    (elim p.ids [
      | none ↦ (is_some p.namespace || (is_some p.before || is_some p.tags)) && p.confirm
      | some ids ↦ leb 1 (length ids) && (leb (length ids) 100 && not (has_duplicates ids))
    ])
    && (elim p.before [ none ↦ true | some t ↦ leb t now ])

abbrev pub holds_where : {A : Type 0} → Option A → (A → Bool) → Bool
holds_where none test = true
holds_where (some a) test = test a

unfoldable pub is_selected : AuthContext → ForgetParams → ℕ → MemoryRow → Bool
is_selected auth p now r =
    is_active now r
    && (includes auth.namespaces r.namespace
        && (access_level_sql r.access_level (level_name auth.max_access_level)
            && (holds_where p.ids (λ ids. includes ids r.id)
                && (holds_where p.namespace (λ n. str_eq r.namespace n)
                    && (holds_where p.before (λ t. ltb r.created_at t)
                        && holds_where p.tags (λ tags. all (includes r.tags) tags))))))

unfoldable pub select_rows : (MemoryRow → Bool) → List MemoryRow → List MemoryRow
select_rows test [] = []
select_rows test (r ∷ rows) = let rest = select_rows test rows in if test r then r ∷ rest else rest

abbrev pub ids_of : List MemoryRow → List String
ids_of rows = map (λ r. r.id) rows

-- The ids of the canonical memories; an empty text is none.
unfoldable pub canonical_ids : List MemoryRow → List String
canonical_ids [] = []
canonical_ids (r ∷ rows) = elim r.consolidated_into_id [
  | none ↦ canonical_ids rows
  | some id ↦ if str_eq id "" then canonical_ids rows else id ∷ canonical_ids rows
]

-- `[...new Set(ids)]`, up to the order of the list.
unfoldable pub distinct : List String → List String
distinct [] = []
distinct (x ∷ xs) = let rest = distinct xs in if includes xs x then rest else x ∷ rest

abbrev pub tombstone : AuthContext → ForgetParams → ℕ → MemoryRow → MemoryRow
tombstone auth p now r = record r {
  deleted_at = some now;
  deleted_by_client_id = some auth.key_id;
  deletion_reason = p.reason;
}

-- The UPDATE, whose condition is `test`.
unfoldable pub update_rows :
    (MemoryRow → Bool) → (MemoryRow → MemoryRow) → List MemoryRow → List MemoryRow
update_rows test f [] = []
update_rows test f (r ∷ rows) = (if test r then f r else r) ∷ update_rows test f rows

abbrev pub keep_ids : List String → List String → List String
keep_ids [] updated = []
keep_ids (id ∷ ids) updated =
    if includes updated id then id ∷ keep_ids ids updated else keep_ids ids updated

abbrev pub audit_of : AuthContext → MemoryRow → AuditRecord
audit_of auth r = record { client_id = auth.key_id; namespace = r.namespace; memory_id = r.id }

-- The times of the two statements, the time of the schema's check, and whether an audit record fails.
pub record ForgetRun : Type 0 where
  pub parsed_at : ℕ
  pub selected_at : ℕ
  pub updated_at : ℕ
  pub audit_fails : Bool

-- An error before any query.
abbrev pub refused :
    ForgetError → Session ForgetTables → After ForgetTables ForgetError (List String)
refused e s = record { answer = err (thrown (callback e) false); store = s.store; pooled = some s }

module _ (auth : AuthContext) (p : ForgetParams) (run : ForgetRun) where
  abbrev pub is_tombstoned : List String → MemoryRow → Bool
  is_tombstoned ids r = includes ids r.id && is_active run.updated_at r

  -- From the UPDATE on.
  unfoldable pub forget_selected :
      List MemoryRow → ForgetTables → Result ForgetError (List String) × ForgetTables
  forget_selected selected t =
      let ids = distinct (ids_of selected ++ canonical_ids selected) in
      if ltb max_forget_rows (length ids)
      then (err limit_exceeded, t)
      else let updated = select_rows (is_tombstoned ids) t.memories in
        if run.audit_fails && ltb 0 (length updated) then (err audit_failed, t) else (
          ok (keep_ids (ids_of selected) (ids_of updated)),
          record {
            memories = update_rows (is_tombstoned ids) (tombstone auth p run.updated_at) t.memories;
            audit = t.audit ++ map (audit_of auth) updated;
          },
        )

  unfoldable pub forget_in_transaction :
      ForgetTables → Result ForgetError (List String) × ForgetTables
  forget_in_transaction t =
      let selected = select_rows (is_selected auth p run.selected_at) t.memories in
      if ltb max_forget_rows (length selected)
      then (err limit_exceeded, t)
      else if leb (length selected) 0
      then (ok [], t)
      else forget_selected selected t

  unfoldable pub forget_memories :
      Faults → Session ForgetTables → After ForgetTables ForgetError (List String)
  forget_memories f s =
      if not (refine run.parsed_at p)
      then refused invalid_request s
      else if not (includes auth.permissions "delete")
      then refused permission_denied s
      else if not (holds_where p.namespace (λ n. str_eq n "" || includes auth.namespaces n))
      then refused namespace_denied s
      else with_scoped_client f (db_scope_from_auth auth) (λ _ t. forget_in_transaction t) s
