-- ===== src/Db/Tests.antt =====
-- Calls on a session over a store of one number, with and without faults.
use total_recall.Base.{ℕ, ◌≡◌, ◌⊎◌, refl, Bool, true, false, none, [], ◌∷◌, Result, ok, err}
use total_recall.Db.{
  DbScope, is_blank, is_valid_scope, Authority, authority_of, Session, Faults, IsClean, Thrown,
  thrown, callback,
}
use total_recall.Db.Scoped.{
  conclude, with_scoped_client, with_scoped_client-ok, with_scoped_client-err,
  with_scoped_client-IsClean,
}
use total_recall.Db.CheckedOut.{
  with_scoped_transaction_on_client, Owes, with_scoped_transaction_on_client-Owes,
}

abbrev no_faults : Faults
no_faults = record {
  connect = false;
  deny = false;
  begin = false;
  configure = false;
  commit = false;
  commit_took_effect = false;
  rollback = false;
}

abbrev scope : DbScope
scope = record { namespaces = "life" ∷ "media" ∷ []; key_id = "key"; is_admin = false }

abbrev denied : Authority
denied = record { allowed_namespaces = none; current_key_id = ""; current_key_is_admin = false }

abbrev session : Session ℕ
session = record { authority = denied; local = none; locks = []; store = 3 }

abbrev put_seven : Authority → ℕ → Result Bool ℕ × ℕ
put_seven _ n = (ok n, 7)

abbrev refuse : Authority → ℕ → Result Bool ℕ × ℕ
refuse _ n = (err true, 7)

abbrev rollback_lost : Faults
rollback_lost = record no_faults { rollback = true }

comma_scope : is_valid_scope (record scope { namespaces = "a,b" ∷ [] }) ≡ false
unfolding is_valid_scope is_blank
comma_scope = refl

with_scoped_client-ok_example :
    (is_valid_scope scope ≡ true)
    × (put_seven (authority_of scope) 3
        ≡ (ok 3, (with_scoped_client no_faults scope put_seven session).store))
with_scoped_client-ok_example =
    with_scoped_client-ok no_faults scope put_seven session 3
      (unfold with_scoped_client conclude is_valid_scope is_blank in refl)

with_scoped_client-err_example : (with_scoped_client no_faults scope refuse session).store ≡ 3
with_scoped_client-err_example =
    with_scoped_client-err no_faults scope refuse session (thrown (callback true) false)
      (unfold with_scoped_client conclude is_valid_scope is_blank in refl) refl

with_scoped_client-IsClean_example : (session ≡ session) ⊎ IsClean session
with_scoped_client-IsClean_example =
    with_scoped_client-IsClean no_faults scope refuse session session
      (unfold with_scoped_client conclude is_valid_scope is_blank in refl)

with_scoped_transaction_on_client-Owes_example :
    Owes (with_scoped_transaction_on_client rollback_lost scope refuse session)
with_scoped_transaction_on_client-Owes_example =
    with_scoped_transaction_on_client-Owes rollback_lost scope refuse session (refl, refl)

abbrev answer_seven : Session ℕ → Result (Thrown Bool) ℕ × Session ℕ
answer_seven s = (ok 7, s)
