-- ===== src/Watcher/Queue/Serial.antt =====
-- src/watcher/queue.ts: the state of one path, between two turns of the event loop.
use total_recall.Base.{
  length, length-map, length-put-pos, Bool-cases, ◌==◌, ℕ, zero, suc, ◌≤◌, ◌≡◌, refl, true, false,
  Option, none, some, List, [], ◌∷◌, map, String, ◌⊎◌, inl, inr, arith, All, All-put, All-delete,
  All-get, get, put, delete, Option-cases, get_or,
}
use total_recall.Watcher.Queue.{
  PathState, Slot, Queue, Outcome, returned, threw, hook_threw, fresh_slot, bump, fire, flush_slot,
  retry_if_current, resume, settle_slot, new_queue, on_path, wake, stop_accepting, flush, close,
  drain, accept, enqueue, Event, enqueues, fires, retries, settles, stops, closes, flushes, drains,
  step, run, settle_from, size,
}

-- Either a timer is pending and no worker runs, or one worker runs and no timer is pending. What it
-- was not called with is marked.
abbrev pub Live : PathState → List ℕ → Type 0
Live st [] = (st.timer ≡ true) × (st.running ≡ false) × (st.dirty ≡ true)
Live st (g ∷ []) =
    (st.timer ≡ false)
    × (st.running ≡ true)
    × (g ≤ st.generation)
    × ((g ≡ st.generation) ⊎ (st.dirty ≡ true))
Live st (g ∷ h ∷ gs) = ⊥

abbrev pub IsLive : Slot → Type 0
IsLive s = Live s.state s.runs

abbrev IsLive? : Option Slot → Type 0
IsLive? none = Unit
IsLive? (some s) = IsLive s

bump-Live :
    (st : PathState) (rs : List ℕ) → Live st rs → IsLive (bump (record { state = st; runs = rs }))
unfolding bump
bump-Live st [] h = ground arith
bump-Live st (g ∷ []) h = ground arith
bump-Live st (g ∷ g' ∷ gs) h = absurd h

bump-fresh-IsLive : (key : String) → IsLive (bump (fresh_slot key))
unfolding bump
bump-fresh-IsLive key = (refl, refl, refl)

fire-Live :
    (st : PathState) (rs : List ℕ) → Live st rs → IsLive (fire (record { state = st; runs = rs }))
unfolding fire
fire-Live st [] h = ground arith
fire-Live st (g ∷ []) h = ground arith
fire-Live st (g ∷ g' ∷ gs) h = absurd h

flush_slot-Live :
    (st : PathState) (rs : List ℕ)
    → Live st rs
    → IsLive (flush_slot (record { state = st; runs = rs }))
unfolding flush_slot
flush_slot-Live st [] h = ground arith
flush_slot-Live st (g ∷ []) h = ground arith
flush_slot-Live st (g ∷ g' ∷ gs) h = absurd h

retry-Live :
    (g : ℕ) (st : PathState) (rs : List ℕ)
    → Live st rs
    → IsLive (retry_if_current g (record { state = st; runs = rs }))
unfolding retry_if_current
retry-Live g st [] h = ground arith
retry-Live g st (g' ∷ []) h = ground arith
retry-Live g st (g' ∷ g'' ∷ gs) h = absurd h

resume-Live :
    (o : Outcome) (g : ℕ) (st : PathState)
    → Live st (g ∷ [])
    → IsLive? (resume o g (record { state = st; runs = [] }))
unfolding resume
resume-Live returned g st h = ground arith
resume-Live threw g st h = ground arith
resume-Live hook_threw g st h = ground arith

settle-Live :
    (o : Outcome) (i : ℕ) (st : PathState) (rs : List ℕ)
    → Live st rs
    → IsLive? (settle_slot o i (record { state = st; runs = rs }))
unfolding settle_slot settle_from
settle-Live o i st [] h = h
settle-Live o zero st (g ∷ []) h = resume-Live o g st h
settle-Live o (suc i) st (g ∷ []) h = h
settle-Live o i st (g ∷ g' ∷ gs) h = absurd h

-- Every path is live, and nobody waits for an empty queue to drain.
pub record IsWellFormed (q : Queue) : Type 0 where
  pub live : All (λ e. IsLive e.1) q.states
  pub awaited : length q.states ≡ 0 → q.waiters ≡ 0

new_queue-IsWellFormed : IsWellFormed new_queue
new_queue-IsWellFormed = record { live = tt; awaited = λ _. refl }

put-IsWellFormed :
    (key : String) (s : Slot) (q : Queue)
    → IsLive s
    → IsWellFormed q
    → IsWellFormed (record q { states = put key s q.states })
put-IsWellFormed key s q l w = record {
  live = All-put IsLive key s q.states l w.live;
  awaited = λ e. absurd (omega (arith, length-put-pos key s q.states));
}

delete-IsWellFormed :
    (key : String) (q : Queue)
    → IsWellFormed q
    → IsWellFormed (wake (record q { states = delete key q.states }))
unfolding wake size
delete-IsWellFormed key q w =
    let l = All-delete IsLive key q.states w.live in
    elim (Bool-cases (length (delete key q.states) == 0)) [
      | inl e ↦ rw e (record { live = l; awaited = λ _. refl })
      | inr e ↦ rw e (record { live = l; awaited = λ z. absurd (ground arith) })
    ]

module _ (key : String) (f : Slot → Option Slot)
    (keeps : (s : Slot) → IsLive s → IsLive? (f s)) where
  on_path-IsWellFormed : (q : Queue) → IsWellFormed q → IsWellFormed (on_path key f q)
  unfolding on_path
  on_path-IsWellFormed q w = elim (Option-cases (get key q.states)) [
    | inl e ↦ rw (e, on_path) w
    | inr (s, e) ↦ elim (Option-cases (f s)) [
      | inl d ↦ rw (e, on_path) (rw (d, on_path) (delete-IsWellFormed key q w))
      | inr (s', d) ↦
          rw (e, on_path)
            (rw (d, on_path)
              (put-IsWellFormed key s' q (rw d at (keeps s (All-get IsLive key q.states w.live e)))
                w))
    ]
  ]

abbrev pub AllLive : List (String × Slot) → Type 0
AllLive = All (λ e. IsLive e.1)

flush-live : (m : List (String × Slot)) → AllLive m → AllLive (map (λ e. (e.0, flush_slot e.1)) m)
flush-live [] h = tt
flush-live ((k, s) ∷ m) h = (flush_slot-Live s.state s.runs h.0, flush-live m h.1)

pub flush-IsWellFormed : (q : Queue) → IsWellFormed q → IsWellFormed (flush q)
unfolding flush
flush-IsWellFormed q w = record {
  live = flush-live q.states w.live;
  awaited = rw length-map w.awaited;
}

drain-IsWellFormed : (q : Queue) → IsWellFormed q → IsWellFormed (drain q)
unfolding drain size
drain-IsWellFormed q w =
    let v = flush-IsWellFormed q w in
    elim (Bool-cases (length (flush q).states == 0)) [
      | inl e ↦ rw e v
      | inr e ↦ rw e (record { live = v.live; awaited = λ z. absurd (ground arith) })
    ]

accept-IsWellFormed : (key : String) (q : Queue) → IsWellFormed q → IsWellFormed (accept key q)
unfolding accept
accept-IsWellFormed key q w = put-IsWellFormed key _ q bumped w
  where
    bumped : IsLive (bump (get_or (get key q.states) (fresh_slot key)))
    bumped = elim (Option-cases (get key q.states)) [
      | inl e ↦ rw e (bump-fresh-IsLive key)
      | inr (s, e) ↦ rw e (bump-Live s.state s.runs (All-get IsLive _ q.states w.live e))
    ]

module _ (canonicalize : String → String) where
  enqueue-IsWellFormed :
      (p : String) (q : Queue) → IsWellFormed q → IsWellFormed (enqueue canonicalize p q).0
  unfolding enqueue
  enqueue-IsWellFormed p q w = ground (arith, accept-IsWellFormed (canonicalize p) q w)

  pub step-IsWellFormed :
      (e : Event) (q : Queue) → IsWellFormed q → IsWellFormed (step canonicalize e q)
  unfolding step close stop_accepting
  step-IsWellFormed (enqueues p) q w = enqueue-IsWellFormed p q w
  step-IsWellFormed (fires key) q w =
      on_path-IsWellFormed key (λ s. some (fire s)) (λ s l. fire-Live s.state s.runs l) q w
  step-IsWellFormed (retries key g) q w =
      on_path-IsWellFormed key (λ s. some (retry_if_current g s))
        (λ s l. retry-Live g s.state s.runs l) q w
  step-IsWellFormed (settles key i o) q w =
      on_path-IsWellFormed key _ (λ s l. settle-Live o i s.state s.runs l) q w
  step-IsWellFormed stops q w = record { live = w.live; awaited = w.awaited }
  step-IsWellFormed closes q w =
      flush-IsWellFormed _ (record { live = w.live; awaited = w.awaited })
  step-IsWellFormed flushes q w = flush-IsWellFormed q w
  step-IsWellFormed drains q w = drain-IsWellFormed q w

  pub run-IsWellFormed :
      (q : Queue) (es : List Event) → IsWellFormed q → IsWellFormed (run canonicalize q es)
  unfolding run
  run-IsWellFormed q [] w = w
  run-IsWellFormed q (e ∷ es) w =
      run-IsWellFormed (step canonicalize e q) es (step-IsWellFormed e q w)

  -- After any sequence of events, every path in the queue either has a pending timer, an unseen
  -- change and no worker, or no timer and exactly one running worker, called with the path's newest
  -- generation unless the path is marked dirty; and no `drain` waits on an empty queue.
  pub run-new_queue-IsWellFormed : (es : List Event) → IsWellFormed (run canonicalize new_queue es)
  run-new_queue-IsWellFormed es = run-IsWellFormed new_queue es new_queue-IsWellFormed
