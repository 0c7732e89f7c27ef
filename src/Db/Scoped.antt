-- ===== src/Db/Scoped.antt =====
-- src/db.ts: `withScopedClient`, one transaction on a connection of its own.
use total_recall.Base.{
  ◌≡◌, ◌⊎◌, refl, true, false, not, ◌&&◌, ◌||◌, Option, none, some, if◌then◌else◌, Result, ok, err,
  arith, if_lem,
}
use total_recall.Db.{
  DbScope, is_valid_scope, Authority, authority_of, Session, Faults, Cause, callback, invalid_scope,
  connection_failed, query_failed, Thrown, thrown, After, IsClean, begun, ended,
}

module _ {S E A : Type 0} (f : Faults) (scope : DbScope) (fn : Authority → S → Result E A × S) where
  -- The session after `set_config('app.allowed_namespaces', '', false)`.
  abbrev pub denied : Session S → Session S
  denied s = record s { authority = record s.authority { allowed_namespaces = none } }

  abbrev failed : Cause E → S → Option (Session S) → After S E A
  failed c store pooled = record { answer = err (thrown c false); store = store; pooled = pooled }

  -- From the callback's answer on: COMMIT, or ROLLBACK and a release that discards the connection
  -- unless only the callback failed.
  unfoldable pub conclude : Session S → Result E A × S → After S E A
  conclude s (ok a, store) =
      if f.commit
      then failed query_failed (if f.commit_took_effect then store else s.store) none
      else record {
        answer = ok a;
        store = store;
        pooled = some (record (ended s) { store = store });
      }
  conclude s (err e, store) =
      failed (callback e) s.store (if f.rollback then none else some (ended s))

  unfoldable pub with_scoped_client : Session S → After S E A
  unfolding conclude
  with_scoped_client s =
      if not (is_valid_scope scope)
      then failed invalid_scope s.store (some s)
      else if f.connect
      then failed connection_failed s.store (some s)
      else if f.deny || (f.begin || f.configure)
      then failed query_failed s.store none
      else conclude (begun scope (denied s)) (fn (authority_of scope) s.store)

  conclude-ok :
      (s : Session S) (p : Result E A × S) (a : A)
      → (conclude s p).answer ≡ ok a
      → p ≡ (ok a, (conclude s p).store)
  unfolding conclude
  conclude-ok s (ok b, store) a e = ground arith
  conclude-ok s (err x, store) a e = ground arith

  conclude-err :
      (s : Session S) (p : Result E A × S) (e : Thrown E)
      → (f.commit && f.commit_took_effect) ≡ false
      → (conclude s p).answer ≡ err e
      → (conclude s p).store ≡ s.store
  unfolding conclude
  conclude-err s (ok b, store) e c h = ground arith
  conclude-err s (err x, store) e c h = ground arith

  -- A call succeeds only for a valid scope and with what the callback answered under exactly the
  -- authority of the scope; what the callback wrote is then committed.
  pub with_scoped_client-ok :
      (s : Session S) (a : A)
      → (with_scoped_client s).answer ≡ ok a
      → (is_valid_scope scope ≡ true)
        × (fn (authority_of scope) s.store ≡ (ok a, (with_scoped_client s).store))
  unfolding with_scoped_client
  with_scoped_client-ok s a h =
      ground (arith, conclude-ok (begun scope (denied s)) (fn (authority_of scope) s.store) a)

  -- A call that throws, wherever it failed, leaves the committed data as they were, unless a COMMIT
  -- failed that had taken effect.
  pub with_scoped_client-err :
      (s : Session S) (e : Thrown E)
      → (with_scoped_client s).answer ≡ err e
      → (f.commit && f.commit_took_effect) ≡ false
      → (with_scoped_client s).store ≡ s.store
  unfolding with_scoped_client
  with_scoped_client-err s e h c =
      ground (arith, conclude-err (begun scope (denied s)) (fn (authority_of scope) s.store) e c)

  conclude-IsClean :
      (s p : Session S) (r : Result E A × S)
      → s.authority.allowed_namespaces ≡ none
      → (conclude s r).pooled ≡ some p
      → IsClean p
  unfolding conclude
  conclude-IsClean s p (ok b, store) c h = ground arith
  conclude-IsClean s p (err x, store) c h = ground arith

  -- A connection that goes back to the pool after use carries no authority of the call over to its
  -- next borrower, whatever failed: it has no open transaction and allows no namespace, or it was
  -- never taken out.
  pub with_scoped_client-IsClean :
      (s p : Session S) → (with_scoped_client s).pooled ≡ some p → (p ≡ s) ⊎ IsClean p
  unfolding with_scoped_client
  with_scoped_client-IsClean s p h =
      ground
        (arith, conclude-IsClean (begun scope (denied s)) p (fn (authority_of scope) s.store) refl)

  conclude-store :
      (P : S → Type 0) (s : Session S) (r : Result E A × S)
      → P s.store
      → ((a : A) → r.0 ≡ ok a → P r.1)
      → P (conclude s r).store
  unfolding conclude
  conclude-store P s (ok a, store) before after =
      if_lem (λ (x : After S E A). P x.store) f.commit
        (if_lem P f.commit_took_effect (after a refl) before) (after a refl)
  conclude-store P s (err x, store) before after = before

  -- What holds of the committed data before the call, and of what a callback that succeeds leaves,
  -- holds after the call, whatever fails.
  pub with_scoped_client-store :
      (P : S → Type 0) (s : Session S)
      → P s.store
      → ((a : A)
          → (fn (authority_of scope) s.store).0 ≡ ok a
          → P (fn (authority_of scope) s.store).1)
      → P (with_scoped_client s).store
  unfolding with_scoped_client
  with_scoped_client-store P s before after =
      if_lem (λ (x : After S E A). P x.store) (not (is_valid_scope scope)) before
        (if_lem (λ (x : After S E A). P x.store) f.connect before
          (if_lem (λ (x : After S E A). P x.store) (f.deny || (f.begin || f.configure)) before
            (conclude-store P (begun scope (denied s)) (fn (authority_of scope) s.store) before
              after)))
