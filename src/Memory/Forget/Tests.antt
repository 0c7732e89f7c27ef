-- ===== src/Memory/Forget/Tests.antt =====
-- A selected memory with its canonical memory in another namespace, and one that is left alone.
use total_recall.Base.{
  ◌≡◌, refl, true, false, ◌||◌, Option, none, some, [], ◌∷◌, String, str_eq, includes,
}
use total_recall.Auth.Levels.{normal}
use total_recall.Auth.Levels.Sql.{access_level_sql}
use total_recall.Auth.Keys.{AuthContext}
use total_recall.Db.{is_blank, is_valid_scope, db_scope_from_auth, Session, Faults}
use total_recall.Db.Scoped.{conclude, with_scoped_client}
use total_recall.Memory.Forget.{
  ForgetParams, MemoryRow, ForgetTables, refine, is_active, is_selected, select_rows, canonical_ids,
  distinct, update_rows, ForgetRun, holds_where, forget_selected, forget_in_transaction,
  forget_memories,
}
use total_recall.Memory.Forget.Tombstones.{Forgets, forget_memories-Forgets}

abbrev auth : AuthContext
auth = record {
  key_id = "key";
  name = "cron";
  namespaces = "notes" ∷ [];
  permissions = "delete" ∷ [];
  max_access_level = normal;
  requests_per_minute = none;
  requests_per_day = none;
  expires_at = none;
}

abbrev request : ForgetParams
request = record {
  ids = some ("a" ∷ "c" ∷ []);
  namespace = none;
  before = none;
  tags = none;
  confirm = false;
  reason = some "mistaken";
}

abbrev run : ForgetRun
run = record { parsed_at = 8; selected_at = 9; updated_at = 10; audit_fails = false }

abbrev memory : String → String → Option String → MemoryRow
memory id namespace canonical = record {
  id = id;
  namespace = namespace;
  access_level = some "normal";
  created_at = 1;
  tags = [];
  consolidated_into_id = canonical;
  expires_at = none;
  deleted_at = none;
  deleted_by_client_id = none;
  deletion_reason = none;
}

abbrev gone : MemoryRow → MemoryRow
gone r = record r {
  deleted_at = some 10;
  deleted_by_client_id = some "key";
  deletion_reason = some "mistaken";
}

abbrev tables : ForgetTables
tables = record {
  memories =
      memory "a" "notes" (some "b") ∷ memory "b" "shared" none ∷ memory "c" "private" none ∷ [];
  audit = [];
}

abbrev session : Session ForgetTables
session = record {
  authority = record {
    allowed_namespaces = none;
    current_key_id = "";
    current_key_is_admin = false;
  };
  local = none;
  locks = [];
  store = tables;
}

abbrev no_faults : Faults
no_faults = record {
  connect = false;
  deny = false;
  begin = false;
  configure = false;
  commit = false;
  commit_took_effect = false;
  rollback = false;
}

forgotten_tables : (forget_memories auth request run no_faults session).store ≡ record {
  memories =
      gone (memory "a" "notes" (some "b"))
      ∷ gone (memory "b" "shared" none)
      ∷ memory "c" "private" none
      ∷ [];
  audit =
      record { client_id = "key"; namespace = "notes"; memory_id = "a" }
      ∷ record { client_id = "key"; namespace = "shared"; memory_id = "b" }
      ∷ [];
}
unfolding forget_memories forget_in_transaction forget_selected refine is_active is_selected
    select_rows canonical_ids distinct update_rows access_level_sql with_scoped_client conclude
    is_valid_scope is_blank db_scope_from_auth
forgotten_tables = refl

forget_memories-Forgets_example :
    (refine 8 request ≡ true)
    × (includes auth.permissions "delete" ≡ true)
    × (holds_where request.namespace (λ n. str_eq n "" || includes auth.namespaces n) ≡ true)
    × Forgets auth request run tables
        ("a" ∷ [])
        (forget_memories auth request run no_faults session).store
forget_memories-Forgets_example =
    forget_memories-Forgets auth request run no_faults session ("a" ∷ []) (
      unfold forget_memories forget_in_transaction forget_selected refine is_active is_selected
        select_rows canonical_ids distinct update_rows access_level_sql with_scoped_client conclude
        is_valid_scope is_blank db_scope_from_auth in
      refl)
