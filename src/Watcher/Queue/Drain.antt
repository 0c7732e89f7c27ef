-- ===== src/Watcher/Queue/Drain.antt =====
-- src/watcher/queue.ts: `close` and `drain` end.
use total_recall.Base.{
  subst, sym, ℕ, zero, suc, ◌*◌, ◌≤◌, ◌<◌, ◌≡◌, refl, true, Option, none, some, List, [], ◌∷◌, map,
  String, inl, inr, arith, length, sum_by, All, All-put, All-delete, All-get, get, put, delete,
  sum_by-put, sum_by-delete, length-put-pos, length-map, List-cases, is_some, ◌≢◌, Option-cases,
  Bool-cases, ◌==◌, if◌then◌else◌,
}
use total_recall.Watcher.Queue.{
  PathState, Slot, Queue, returned, flush_slot, settle_slot, settle_from, resume, new_queue,
  on_path, wake, size, stop_accepting, flush, close, Event, settles, step, run,
}
use total_recall.Watcher.Queue.Serial.{Live, AllLive, IsWellFormed, run-new_queue-IsWellFormed}

-- A worker runs.
abbrev Busy : PathState → List ℕ → Type 0
Busy st [] = ⊥
Busy st (g ∷ gs) = Live st (g ∷ gs)

abbrev IsBusy : Slot → Type 0
IsBusy s = Busy s.state s.runs

-- How often the worker still has to be called or to end.
abbrev weight : Slot → ℕ
weight s = if s.state.dirty then 2 else 1

abbrev load : Queue → ℕ
load q = sum_by (λ e. weight e.1) q.states

abbrev AllBusy : List (String × Slot) → Type 0
AllBusy = All (λ e. IsBusy e.1)

flush_slot-Busy :
    (st : PathState) (rs : List ℕ)
    → Live st rs
    → IsBusy (flush_slot (record { state = st; runs = rs }))
unfolding flush_slot
flush_slot-Busy st [] h = ground arith
flush_slot-Busy st (g ∷ []) h = ground arith
flush_slot-Busy st (g ∷ g' ∷ gs) h = absurd h

flush-AllBusy :
    (m : List (String × Slot)) → AllLive m → AllBusy (map (λ e. (e.0, flush_slot e.1)) m)
flush-AllBusy [] h = tt
flush-AllBusy ((k, s) ∷ m) h = (flush_slot-Busy s.state s.runs h.0, flush-AllBusy m h.1)

-- The worker's return takes its path a step nearer to its deletion.
abbrev Nearer : ℕ → Option Slot → Type 0
Nearer n none = 0 < n
Nearer n (some s) = IsBusy s × (weight s < n)

resume-Nearer :
    (g : ℕ) (st : PathState)
    → Live st (g ∷ [])
    → Nearer
        (weight (record { state = st; runs = [] }))
        (resume returned g (record { state = st; runs = [] }))
unfolding resume
resume-Nearer g st h = ground arith

settle-Nearer :
    (st : PathState) (rs : List ℕ)
    → Busy st rs
    → Nearer
        (weight (record { state = st; runs = rs }))
        (settle_slot returned 0 (record { state = st; runs = rs }))
unfolding settle_slot settle_from
settle-Nearer st [] h = absurd h
settle-Nearer st (g ∷ []) h = resume-Nearer g st h
settle-Nearer st (g ∷ g' ∷ gs) h = absurd h

-- Every path is busy, and nobody waits for an empty queue.
record IsDraining (q : Queue) : Type 0 where
  busy : AllBusy q.states
  awaited : length q.states ≡ 0 → q.waiters ≡ 0

abbrev Progress : Queue → Queue → Type 0
Progress q q' = IsDraining q' × (load q' < load q)

put_progress :
    (key : String) (s s' : Slot) (q : Queue)
    → get key q.states ≡ some s
    → IsBusy s'
    → weight s' < weight s
    → IsDraining q
    → Progress q (record q { states = put key s' q.states })
put_progress key s s' q e b lt d = (
  record {
    busy = All-put IsBusy key s' q.states b d.busy;
    awaited = λ z. absurd (omega (arith, length-put-pos key s' q.states));
  },
  omega (arith, sum_by-put weight key s s' q.states e),
)

delete_progress :
    (key : String) (s : Slot) (q : Queue)
    → get key q.states ≡ some s
    → 0 < weight s
    → IsDraining q
    → Progress q (wake (record q { states = delete key q.states }))
unfolding wake size
delete_progress key s q e lt d =
    let b = All-delete IsBusy key q.states d.busy in
    let l : sum_by (λ e. weight e.1) (delete key q.states) < load q =
      omega (arith, sum_by-delete weight key s q.states e) in
    elim (Bool-cases (length (delete key q.states) == 0)) [
      | inl z ↦ rw z (record { busy = b; awaited = λ _. refl }, l)
      | inr z ↦ rw z (record { busy = b; awaited = λ y. absurd (ground arith) }, l)
    ]

module _ (key : String) (q : Queue) {s : Slot} (e : get key q.states ≡ some s)
    (d : IsDraining q) where
  settled_progress :
      (o : Option Slot)
      → settle_slot returned 0 s ≡ o
      → Nearer (weight s) o
      → Progress q (on_path key (settle_slot returned 0) q)
  unfolding on_path
  settled_progress none h n = rw (e, on_path) (rw (h, on_path) (delete_progress key s q e n d))
  settled_progress (some s') h n =
      rw (e, on_path) (rw (h, on_path) (put_progress key s s' q e n.0 n.1 d))

  settle_progress : Progress q (on_path key (settle_slot returned 0) q)
  settle_progress =
      settled_progress _ refl (settle-Nearer s.state s.runs (All-get IsBusy key q.states d.busy e))

-- `next` chooses a path whose worker returns.
pub settle_rounds : (String → String) → (Queue → String) → ℕ → Queue → Queue
unfolding step
settle_rounds canonicalize next zero q = q
settle_rounds canonicalize next (suc n) q =
    settle_rounds canonicalize next n (step canonicalize (settles (next q) 0 returned) q)

load-le : (m : List (String × Slot)) → sum_by (λ e. weight e.1) m ≤ 2 * length m
load-le [] = omega arith
load-le ((k, s) ∷ m) = ground (arith, load-le m)

weight-pos : (m : List (String × Slot)) → sum_by (λ e. weight e.1) m ≡ 0 → m ≡ []
weight-pos [] h = refl
weight-pos ((k, s) ∷ m) h = ground arith

on_path-empty :
    (key : String) (f : Slot → Option Slot) (q : Queue) → q.states ≡ [] → on_path key f q ≡ q
unfolding on_path
on_path-empty key f q e =
    let n : get key q.states ≡ none = rw e (unfold get in refl) in rw (n, on_path)

close-IsDraining : (q : Queue) → IsWellFormed q → IsDraining (close q)
unfolding close flush stop_accepting
close-IsDraining q w = record {
  busy = flush-AllBusy q.states w.live;
  awaited = rw length-map w.awaited;
}

load-close : (q : Queue) → load (close q) ≤ 2 * length q.states
unfolding close flush stop_accepting
load-close q = let l = load-le (map (λ e. (e.0, flush_slot e.1)) q.states) in rw length-map at l

-- Whether the path that `next` chooses is in the queue, when the queue is not empty.
abbrev pub Chooses : (Queue → String) → Type 0
Chooses next = (q : Queue) → q.states ≢ [] → is_some (get (next q) q.states) ≡ true

module _ (canonicalize : String → String) (next : Queue → String) (chooses : Chooses next) where
  settle_rounds_end :
      (n : ℕ) (q : Queue)
      → IsDraining q
      → load q ≤ n
      → let q' = settle_rounds canonicalize next n q in (q'.states ≡ []) × (q'.waiters ≡ 0)
  unfolding settle_rounds step
  settle_rounds_end zero q d le =
      let e = weight-pos q.states (omega arith) in (e, d.awaited (rw e refl))
  settle_rounds_end (suc n) q d le = elim (Option-cases (get (next q) q.states)) [
    | inl e ↦
        let z : q.states ≡ [] = empty e in
        let same = on_path-empty (next q) (settle_slot returned 0) q z in
        subst Emptied (sym same) (settle_rounds_end n q d (rw z (omega arith)))
    | inr (s, e) ↦
        let (d', lt) = settle_progress (next q) q e d in settle_rounds_end n _ d' (omega arith)
  ]
    where
      Emptied : Queue → Type 0
      Emptied x =
          let q' = settle_rounds canonicalize next n x in (q'.states ≡ []) × (q'.waiters ≡ 0)

      empty : get (next q) q.states ≡ none → q.states ≡ []
      empty e = elim (List-cases q.states) [
        | inl z ↦ z
        | inr nz ↦ let c = chooses q nz in cc (rw e at c)
      ]

  -- After any events, once the queue is closed and the workers that run return one after the other, in
  -- any order and with nothing else happening, twice as many returns as there were paths are enough
  -- for the queue to be empty, with every `drain` woken.
  pub close_drains :
      (es : List Event) (n : ℕ)
      → let q = run canonicalize new_queue es in
        2 * size q ≤ n
        → let q' = settle_rounds canonicalize next n (close q) in
          (q'.states ≡ []) × (q'.waiters ≡ 0)
  unfolding size
  close_drains es n le =
      let q : Queue = run canonicalize new_queue es in
      settle_rounds_end n (close q)
        (close-IsDraining q (run-new_queue-IsWellFormed canonicalize es))
        (omega (arith, load-close q))
