-- ===== src/Db/CheckedOut.antt =====
-- src/db.ts: `withCheckedOutClient`, which keeps one session over several transactions, and
-- `withScopedTransactionOnClient`.
use total_recall.Base.{
  ◌≡◌, ◌⊎◌, refl, true, false, not, ◌&&◌, none, some, if◌then◌else◌, Result, ok, err, arith,
}
use total_recall.Db.{
  DbScope, is_valid_scope, Authority, authority_of, Session, Faults, callback, invalid_scope,
  connection_failed, query_failed, Thrown, thrown, After, IsClean, begun, ended,
}

module _ {S E A : Type 0} (f : Faults) (scope : DbScope) (fn : Authority → S → Result E A × S) where
  -- COMMIT, or ROLLBACK in the handler; where that fails, the transaction is still open.
  unfoldable pub settle : Session S → Result E A × S → Result (Thrown E) A × Session S
  settle s (ok a, store) =
      if f.commit
      then (
        err (thrown query_failed true),
        record (if f.rollback then s else ended s) {
          store = if f.commit_took_effect then store else s.store;
        },
      )
      else (ok a, record (ended s) { store = store })
  settle s (err e, store) =
      if f.rollback
      then (err (thrown (callback e) true), s)
      else (err (thrown (callback e) false), ended s)

  unfoldable pub with_scoped_transaction_on_client : Session S → Result (Thrown E) A × Session S
  unfolding settle
  with_scoped_transaction_on_client s =
      if not (is_valid_scope scope)
      then (err (thrown invalid_scope false), s)
      else if f.begin
      then (err (thrown query_failed true), s)
      else if f.configure
      then (err (thrown query_failed true), if f.rollback then begun scope s else s)
      else settle (begun scope s) (fn (authority_of scope) s.store)

-- What a program on a session owes: it answers, or throws without the flag, only with a clean session.
abbrev pub Owes : {S E A : Type 0} → Result (Thrown E) A × Session S → Type 0
Owes (ok a, s) = IsClean s
Owes (err t, s) = (t.discard_connection ≡ true) ⊎ IsClean s

module _ {S E A : Type 0} (f : Faults) (scope : DbScope) (fn : Authority → S → Result E A × S) where
  settle-Owes :
      (s : Session S) (r : Result E A × S)
      → s.authority.allowed_namespaces ≡ none
      → Owes (settle f scope fn s r)
  unfolding settle
  settle-Owes s (ok a, store) h = ground arith
  settle-Owes s (err e, store) h = ground arith

  -- A scoped transaction on a clean session answers with the session clean again; and where it throws,
  -- the session is clean or the error is marked for the connection to be discarded.
  pub with_scoped_transaction_on_client-Owes :
      (s : Session S) → IsClean s → Owes (with_scoped_transaction_on_client f scope fn s)
  unfolding with_scoped_transaction_on_client
  with_scoped_transaction_on_client-Owes s (l, a) =
      ground (arith, settle-Owes (begun scope s) (fn (authority_of scope) s.store) a)

  settle-ok :
      (s s' : Session S) (r : Result E A × S) (a : A)
      → settle f scope fn s r ≡ (ok a, s')
      → (r ≡ (ok a, s'.store)) × (s'.locks ≡ s.locks)
  unfolding settle
  settle-ok s s' (ok b, store) a e = ground arith
  settle-ok s s' (err x, store) a e = ground arith

  settle-err :
      (s s' : Session S) (r : Result E A × S) (t : Thrown E)
      → settle f scope fn s r ≡ (err t, s')
      → (f.commit && f.commit_took_effect) ≡ false
      → (s'.store ≡ s.store) × (s'.locks ≡ s.locks)
  unfolding settle
  settle-err s s' (ok b, store) t e c = ground arith
  settle-err s s' (err x, store) t e c = ground arith

  settle-locks : (s : Session S) (r : Result E A × S) → (settle f scope fn s r).1.locks ≡ s.locks
  unfolding settle
  settle-locks s (ok b, store) = ground arith
  settle-locks s (err x, store) = ground arith

  pub with_scoped_transaction_on_client-locks :
      (s : Session S) → (with_scoped_transaction_on_client f scope fn s).1.locks ≡ s.locks
  unfolding with_scoped_transaction_on_client
  with_scoped_transaction_on_client-locks s =
      ground (arith, settle-locks (begun scope s) (fn (authority_of scope) s.store))

  -- A transaction answers only with what its callback answered under the scope's authority, and
  -- commits exactly what the callback wrote.
  pub with_scoped_transaction_on_client-ok :
      (s s' : Session S) (a : A)
      → with_scoped_transaction_on_client f scope fn s ≡ (ok a, s')
      → (fn (authority_of scope) s.store ≡ (ok a, s'.store)) × (s'.locks ≡ s.locks)
  unfolding with_scoped_transaction_on_client
  with_scoped_transaction_on_client-ok s s' a e =
      ground (arith, settle-ok (begun scope s) s' (fn (authority_of scope) s.store) a)

  pub with_scoped_transaction_on_client-err :
      (s s' : Session S) (t : Thrown E)
      → with_scoped_transaction_on_client f scope fn s ≡ (err t, s')
      → (f.commit && f.commit_took_effect) ≡ false
      → (s'.store ≡ s.store) × (s'.locks ≡ s.locks)
  unfolding with_scoped_transaction_on_client
  with_scoped_transaction_on_client-err s s' t e c =
      ground (arith, settle-err (begun scope s) s' (fn (authority_of scope) s.store) t)

module _ {S E A : Type 0} (f : Faults) (fn : Session S → Result (Thrown E) A × Session S) where
  -- The release in `finally`.
  unfoldable pub release : Result (Thrown E) A × Session S → After S E A
  release (ok a, s) = record { answer = ok a; store = s.store; pooled = some s }
  release (err t, s) = record {
    answer = err t;
    store = s.store;
    pooled = if t.discard_connection then none else some s;
  }

  abbrev pub denied_all : Session S → Session S
  denied_all s = record s {
    authority = record {
      allowed_namespaces = none;
      current_key_id = "";
      current_key_is_admin = false;
    };
  }

  unfoldable pub with_checked_out_client : Session S → After S E A
  unfolding release
  with_checked_out_client s =
      if f.connect
      then record {
        answer = err (thrown connection_failed false);
        store = s.store;
        pooled = some s;
      }
      else if f.deny
      then record { answer = err (thrown query_failed false); store = s.store; pooled = none }
      else release (fn (denied_all s))

  release-IsClean :
      (r : Result (Thrown E) A × Session S) (p : Session S)
      → Owes r
      → (release r).pooled ≡ some p
      → IsClean p
  unfolding release
  release-IsClean (ok a, s) p o h = ground arith
  release-IsClean (err t, s) p o h = ground arith

  -- If the callback answers or throws an unmarked error only with a clean session, a connection that
  -- goes back to the pool is clean, or was never taken out.
  pub with_checked_out_client-IsClean :
      (s p : Session S)
      → ((x : Session S) → IsClean x → Owes (fn x))
      → s.local ≡ none
      → (with_checked_out_client s).pooled ≡ some p
      → (p ≡ s) ⊎ IsClean p
  unfolding with_checked_out_client
  with_checked_out_client-IsClean s p owes l h =
      let o = release-IsClean (fn (denied_all s)) p (owes (denied_all s) (l, refl)) in ground arith

  release-ok :
      (r : Result (Thrown E) A × Session S) (a : A)
      → (release r).answer ≡ ok a
      → (r ≡ (ok a, r.1)) × ((release r).store ≡ r.1.store)
  unfolding release
  release-ok (ok b, s) a e = ground arith
  release-ok (err t, s) a e = ground arith

  pub with_checked_out_client-ok :
      (s : Session S) (a : A)
      → (with_checked_out_client s).answer ≡ ok a
      → (s' : Session S) × (fn (denied_all s) ≡ (ok a, s'))
        × ((with_checked_out_client s).store ≡ s'.store)
  unfolding with_checked_out_client
  with_checked_out_client-ok s a e =
      let back = release-ok (fn (denied_all s)) a in
      ((fn (denied_all s)).1, ground arith, ground arith)
