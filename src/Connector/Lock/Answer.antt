-- ===== src/Connector/Lock/Answer.antt =====
-- src/connectors/base.ts: the answer of a locked program is its body's.
use total_recall.Base.{◌≡◌, ap, sym, ◌∙◌, String, ok, arith}
use total_recall.Db.{Session, Faults}
use total_recall.Db.CheckedOut.{with_checked_out_client-ok, denied_all}
use total_recall.Connector.State.{RowKey, StateError}
use total_recall.Connector.Lock.{
  Prog, LockRun, acquire_connector_source_lock, release_connector_source_lock, finally_release,
  locked_body, with_connector_session_lock,
}
use total_recall.Connector.Lock.Chain.{next-ok}

module _ {S E : Type 0} (l : LockRun) (lock_name : RowKey → String) (wrap : StateError → E)
    (k : RowKey) where
  acquire-ok :
      (s s' : Session S) (u : Unit {0})
      → acquire_connector_source_lock l lock_name wrap k s ≡ (ok u, s')
      → s'.store ≡ s.store
  unfolding acquire_connector_source_lock
  acquire-ok s s' u e = ground arith

  release-ok :
      (s s' : Session S) (u : Unit {0})
      → release_connector_source_lock l lock_name wrap k s ≡ (ok u, s')
      → s'.store ≡ s.store
  unfolding release_connector_source_lock
  release-ok s s' u e = ground arith

  module _ {A : Type 0} (body : Prog S E A) where
    locked_body-ok :
        (s s'' : Session S) (a : A)
        → locked_body l lock_name wrap k body s ≡ (ok a, s'')
        → (s₁ s₂ : Session S) × (body s₁ ≡ (ok a, s₂))
          × (s₁.store ≡ s.store)
          × (s''.store ≡ s₂.store)
    unfolding locked_body finally_release
    locked_body-ok s s'' a e =
        let (u, s₁, acquired, rest) =
          next-ok (acquire_connector_source_lock l lock_name wrap k s)
            (λ _ x. finally_release l lock_name wrap k (body x)) a s'' e in
        let (v, s₃, released, same) =
          next-ok (release_connector_source_lock l lock_name wrap k (body s₁).1)
            (λ _ x. ((body s₁).0, x)) a s'' rest in
        (
          s₁,
          (body s₁).1,
          ap (λ r. (r, (body s₁).1)) (ap (λ p. p.0) same),
          acquire-ok s s₁ u acquired,
          sym (ap (λ p. p.1.store) same) ∙ release-ok (body s₁).1 s₃ v released,
        )

    -- A locked call answers only what its body answered, and with what the body left stored.
    pub with_connector_session_lock-ok :
        (g : Faults) (s : Session S) (a : A)
        → (with_connector_session_lock l lock_name wrap k g body s).answer ≡ ok a
        → (s₁ s₂ : Session S) × (body s₁ ≡ (ok a, s₂))
          × (s₁.store ≡ s.store)
          × ((with_connector_session_lock l lock_name wrap k g body s).store ≡ s₂.store)
    unfolding with_connector_session_lock
    with_connector_session_lock-ok g s a e =
        let (s', ran, kept) =
          with_checked_out_client-ok g (locked_body l lock_name wrap k body) s a e in
        let (s₁, s₂, done, before, after) =
          locked_body-ok (denied_all g (locked_body l lock_name wrap k body) s) s' a ran in
        (s₁, s₂, done, before, kept ∙ after)
