-- ===== src/Watcher/Queue/Lost.antt =====
-- src/watcher/queue.ts: no change of a file is lost between `enqueue` and the worker.
use total_recall.Base.{
  ℕ, ◌<◌, ◌≡◌, refl, true, false, Option, some, List, [], ◌∷◌, String, ◌⊎◌, inl, inr, arith, get,
  get-put, All-get, Option-cases, eq_iff,
}
use total_recall.Watcher.Queue.{
  PathState, Slot, Queue, Outcome, returned, threw, hook_threw, fresh_slot, bump, fire, resume,
  settle_slot, settle_from, new_queue, on_path, accept, enqueue, Event, settles, step, run,
}
use total_recall.Watcher.Queue.Serial.{Live, IsLive, IsWellFormed, run-new_queue-IsWellFormed}

-- The path's state once the worker has been called with its newest generation.
abbrev pub served : Slot → Slot
served s = record {
  state = record s.state { dirty = false; running = true; timer = false };
  runs = s.state.generation ∷ [];
}

resume-served :
    (o : Outcome) (g : ℕ) (st : PathState)
    → Live st (g ∷ [])
    → g < st.generation
    → resume o g (record { state = st; runs = [] })
      ≡ some (served (record { state = st; runs = [] }))
unfolding resume
resume-served returned g st h lt = ground arith
resume-served threw g st h lt = ground arith
resume-served hook_threw g st h lt = ground arith

settle_served :
    (o : Outcome) (g : ℕ) (st : PathState) (rs : List ℕ)
    → Live st rs
    → rs ≡ g ∷ []
    → g < st.generation
    → settle_slot o 0 (record { state = st; runs = rs })
      ≡ some (served (record { state = st; runs = rs }))
unfolding settle_slot settle_from
settle_served o g st [] l e lt = cc
settle_served o g st (g' ∷ []) l e lt =
    let same : g' ≡ g = cc in resume-served o g' st l (omega arith)
settle_served o g st (g' ∷ g'' ∷ gs) l e lt = absurd l

get-on_path :
    (key : String) (f : Slot → Option Slot) (q : Queue) {s s' : Slot}
    → get key q.states ≡ some s
    → f s ≡ some s'
    → get key (on_path key f q).states ≡ some s'
unfolding on_path
get-on_path key f q {s} {s'} e d =
    rw (e, on_path) (rw (d, on_path) (rw get-put (ground (arith, eq_iff key key))))

module _ (canonicalize : String → String) (es : List Event) (key : String) {s : Slot} where
  -- Whatever has happened before, when a worker ends (by returning, by throwing, or with a handler
  -- that throws) and its path was enqueued again meanwhile, so that the path's generation is above
  -- the one the worker was called with, the path stays in the queue and the worker is called at once
  -- with the path's newest generation.
  pub settle_serves_newest :
      (o : Outcome) (g : ℕ)
      → get key (run canonicalize new_queue es).states ≡ some s
      → s.runs ≡ g ∷ []
      → g < s.state.generation
      → get key (step canonicalize (settles key 0 o) (run canonicalize new_queue es)).states
        ≡ some (served s)
  unfolding step
  settle_serves_newest o g e r lt =
      let w = run-new_queue-IsWellFormed canonicalize es in
      get-on_path key (settle_slot o 0) _ e
        (settle_served o g s.state s.runs (All-get IsLive key _ w.live e) r lt)

-- What `enqueue` leaves behind: either the timer is pending and its callback calls the worker with
-- the newest generation, or a worker runs with an older one.
abbrev pub WillServe : Slot → Type 0
WillServe s =
    ((s.runs ≡ []) × (fire s ≡ served s)) ⊎ ((g : ℕ) × (s.runs ≡ g ∷ []) × (g < s.state.generation))

bump_serves :
    (st : PathState) (rs : List ℕ)
    → Live st rs
    → WillServe (bump (record { state = st; runs = rs }))
unfolding bump fire
bump_serves st [] h = inl (ground arith, ground arith)
bump_serves st (g ∷ []) h = inr (g, ground arith, ground arith)
bump_serves st (g ∷ g' ∷ gs) h = absurd h

bump_fresh_serves : (key : String) → WillServe (bump (fresh_slot key))
unfolding bump fire
bump_fresh_serves key = inl (refl, refl)

accept_serves :
    (key : String) (q : Queue)
    → IsWellFormed q
    → (s : Slot) × (get key (accept key q).states ≡ some s) × WillServe s
unfolding accept
accept_serves key q w = elim (Option-cases (get key q.states)) [
  | inl e ↦ (
    bump (fresh_slot key),
    rw (e, get-put) (ground (arith, eq_iff key key)),
    bump_fresh_serves key,
  )
  | inr (s, e) ↦ (
    bump s,
    rw (e, get-put) (ground (arith, eq_iff key key)),
    bump_serves s.state s.runs (All-get IsLive key q.states w.live e),
  )
]

module _ (canonicalize : String → String) where
  enqueue_accepts :
      (p : String) (q : Queue)
      → q.accepting ≡ true
      → enqueue canonicalize p q ≡ (accept (canonicalize p) q, true)
  unfolding enqueue
  enqueue_accepts p q h = ground arith

module _ (canonicalize : String → String) (es : List Event) (p : String) where
  -- Whatever has happened before, `enqueue` on a queue that accepts answers true and leaves the path
  -- in the queue so that either a timer is pending, no worker runs and the timer's callback calls
  -- the worker with the path's newest generation, or one worker runs with an older generation.
  pub enqueue_is_served :
      (run canonicalize new_queue es).accepting ≡ true
      → let r = enqueue canonicalize p (run canonicalize new_queue es) in
        (r.1 ≡ true) × (s : Slot) × (get (canonicalize p) r.0.states ≡ some s) × WillServe s
  enqueue_is_served h =
      let (s, e, v) =
        accept_serves (canonicalize p) _ (run-new_queue-IsWellFormed canonicalize es) in
      rw (enqueue_accepts canonicalize p (run canonicalize new_queue es) h) (refl, s, e, v)
