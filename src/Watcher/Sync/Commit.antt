-- ===== src/Watcher/Sync/Commit.antt =====
-- src/watcher/sync.ts: when a preparation is committed.
use total_recall.Base.{ℕ, ==_iff, ◌≡◌, ◌≢◌, ◌⊎◌, true, Option, none, String, arith}
use total_recall.Watcher.Queue.{Slot, is_current, retry_if_current}
use total_recall.Watcher.Sync.{same_fingerprint, commit_if_current}

-- A preparation is committed only if no event for the path came since its worker was called, neither
-- before the file was read again nor meanwhile, and the file's fingerprint is still the prepared one.
-- Where it is not committed, an event had come before that, or the path is marked to be worked on again.
pub commit_if_current_lem :
    {T : Type 0} (generation : ℕ) (prepared : Option String) (read : Slot → Slot × Option String)
    (commit : T) (s s' : Slot) (answer : Option T)
    → commit_if_current generation prepared read commit s ≡ (answer, s')
    → (answer ≢ none
        → (s.state.generation ≡ generation)
          × ((read s).0.state.generation ≡ generation)
          × (same_fingerprint (read s).1 prepared ≡ true))
      × (answer ≡ none → (s.state.generation ≢ generation) ⊎ (s'.state.dirty ≡ true))
unfolding commit_if_current is_current retry_if_current
commit_if_current_lem generation prepared read commit s s' answer e =
    ground
      (arith, ==_iff s.state.generation generation, ==_iff (read s).0.state.generation generation)
