-- ===== src/Memory/Beliefs.antt =====
-- The rows of `memories` as the revision of beliefs reads them (src/contradictions.ts and
-- src/tools/update.ts). Values of metadata stand by their canonical text, instants by a number, and
-- the ids in their order; the policies of the database have left the rows that the key sees.
use total_recall.Base.{
  ℕ, ltb, Bool, true, false, not, ◌&&◌, ◌≡◌, Option, none, some, List, String, str_eq, is_some,
  Occurs, ◌≤◌, count_where,
}

pub record BeliefRow : Type 0 where
  pub id : String
  pub namespace : String
  pub access_level : Option String
  pub memory_kind : String
  pub content : String
  pub tags : List String
  pub metadata : String
  pub embedding : Option String
  pub deleted_at : Option ℕ
  pub expires_at : Option ℕ
  pub superseded_at : Option ℕ
  pub valid_from : Option ℕ
  pub valid_to : Option ℕ
  pub consolidated_into_id : Option String
  pub supersedes_id : Option String
  pub updated_at : ℕ
  pub revision : ℕ

pub record BeliefAudit : Type 0 where
  pub action : String
  pub client_id : String
  pub namespace : String
  pub memory_id : String

pub record BeliefTables : Type 0 where
  pub memories : List BeliefRow
  pub audit : List BeliefAudit

-- `deleted_at IS NULL AND (expires_at IS NULL OR expires_at > statement_timestamp())`
abbrev pub is_unexpired : ℕ → BeliefRow → Bool
is_unexpired now r = elim r.expires_at [ none ↦ true | some t ↦ ltb now t ]

abbrev pub is_live : ℕ → BeliefRow → Bool
is_live now r = not (is_some r.deleted_at) && is_unexpired now r

-- `supersedes_id = id`
abbrev pub supersedes : String → BeliefRow → Bool
supersedes id r = elim r.supersedes_id [ none ↦ false | some p ↦ str_eq p id ]

abbrev pub has_id : String → BeliefRow → Bool
has_id id r = str_eq r.id id

-- The primary key of the table.
abbrev pub HasPrimaryKey : List BeliefRow → Type 0
HasPrimaryKey rows = (id : String) → count_where (has_id id) rows ≤ 1

-- No belief is replaced twice.
abbrev pub HasOneSuccessor : List BeliefRow → Type 0
HasOneSuccessor rows = (id : String) → count_where (supersedes id) rows ≤ 1

-- What a row replaces was closed at the instant from which the row is valid.
abbrev pub HasNoGap : List BeliefRow → Type 0
HasNoGap rows =
    (r q : BeliefRow)
    → Occurs r rows
    → Occurs q rows
    → r.supersedes_id ≡ some q.id
    → (q.superseded_at ≡ r.valid_from) × (q.valid_to ≡ r.valid_from)
