-- ===== src/Memory/Update/Tests.antt =====
-- A memory that is linked to the one it replaces.
use total_recall.Base.{◌≡◌, refl, none, some, [], ◌∷◌, arith, false, ok, eq_iff, inl, inr}
use total_recall.Auth.Levels.{normal}
use total_recall.Auth.Levels.Sql.{access_level_sql}
use total_recall.Auth.Keys.{AuthContext}
use total_recall.Db.{Session, Faults, is_blank, is_valid_scope, db_scope_from_auth}
use total_recall.Db.Scoped.{with_scoped_client, conclude}
use total_recall.Memory.Beliefs.{BeliefRow, BeliefTables, HasPrimaryKey}
use total_recall.Memory.Patch.{
  UpdateParams, UpdateRun, is_valid_update, current_row, is_current, row_of, finds_cycle,
  check_target, check_predecessor, patched,
}
use total_recall.Memory.Update.{
  prepare, patch_target, link_target, update_target, update_in_transaction, memory_update,
}
use total_recall.Memory.Update.Links.{IsAcyclic}
use total_recall.Memory.Update.Safety.{memory_update-IsAcyclic}

abbrev writer : AuthContext
writer = record {
  key_id = "key";
  name = "writer";
  namespaces = "notes" ∷ [];
  permissions = "write" ∷ [];
  max_access_level = normal;
  requests_per_minute = none;
  requests_per_day = none;
  expires_at = none;
}

abbrev belief : BeliefRow
belief = record {
  id = "m1";
  namespace = "notes";
  access_level = some "normal";
  memory_kind = "semantic";
  content = "the office is in Rome";
  tags = [];
  metadata = "{}";
  embedding = some "[1]";
  deleted_at = none;
  expires_at = none;
  superseded_at = none;
  valid_from = some 5;
  valid_to = none;
  consolidated_into_id = none;
  supersedes_id = none;
  updated_at = 5;
  revision = 0;
}

abbrev later : BeliefRow
later = record belief { id = "m2"; content = "the office is in Oslo" }

abbrev links_later : UpdateParams
links_later = record {
  id = "m2";
  content = none;
  tags = none;
  metadata = none;
  supersedes = some "m1";
}

abbrev at_ten : UpdateRun
at_ten = record {
  before = [];
  read_at = 9;
  read_fails = false;
  embedding = none;
  locked_at = 10;
  validity_columns = 3;
  timestamp = 11;
  updated_at = 12;
  audit_fails = false;
}

abbrev two_beliefs : BeliefTables
two_beliefs = record { memories = belief ∷ later ∷ []; audit = [] }

abbrev no_faults : Faults
no_faults = record {
  connect = false;
  deny = false;
  begin = false;
  configure = false;
  commit = false;
  commit_took_effect = false;
  rollback = false;
}

abbrev session : Session BeliefTables
session = record {
  authority = record {
    allowed_namespaces = none;
    current_key_id = "";
    current_key_is_admin = false;
  };
  local = none;
  locks = [];
  store = two_beliefs;
}

linked_once : (memory_update writer links_later at_ten no_faults none session).answer ≡ ok tt
unfolding memory_update with_scoped_client conclude is_valid_update prepare current_row is_current
    row_of finds_cycle check_target check_predecessor patched patch_target link_target update_target
    update_in_transaction is_blank is_valid_scope db_scope_from_auth access_level_sql
linked_once = refl

two_beliefs-HasPrimaryKey : HasPrimaryKey (belief ∷ later ∷ [])
two_beliefs-HasPrimaryKey id = ground (arith, eq_iff "m1" id, eq_iff "m2" id, eq_iff "m1" "m2")

two_beliefs-IsAcyclic : IsAcyclic (belief ∷ later ∷ [])
two_beliefs-IsAcyclic a b (r, inl e, same, up) path = ground arith
two_beliefs-IsAcyclic a b (r, inr (inl e), same, up) path = ground arith
two_beliefs-IsAcyclic a b (r, inr (inr none_left), same, up) path = none_left

memory_update-IsAcyclic_example :
    IsAcyclic (memory_update writer links_later at_ten no_faults none session).store.memories
memory_update-IsAcyclic_example =
    memory_update-IsAcyclic writer links_later at_ten no_faults none session
      two_beliefs-HasPrimaryKey two_beliefs-IsAcyclic
