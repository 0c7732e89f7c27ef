-- ===== src/Watcher/Queue.antt =====
-- src/watcher/queue.ts. One turn of the event loop is one event; a suspended `run` call is kept
-- beside the path's state by its local variable `generation`.
pub mod Serial
pub mod Lost
pub mod Drain
mod Tests
use total_recall.Base.{
  ℕ, zero, suc, ◌+◌, ◌==◌, Bool, true, false, not, ◌||◌, Option, none, some, List, [], ◌∷◌, ◌++◌,
  map, String, length, if◌then◌else◌, get, put, delete, get_or,
}

-- `timer` says whether a debounce timer is pending (`timer !== null`).
pub record PathState : Type 0 where
  pub file_path : String
  pub generation : ℕ
  pub timer : Bool
  pub running : Bool
  pub dirty : Bool

-- A path's state with the `generation` of every `run` call on it that waits for its worker.
pub record Slot : Type 0 where
  pub state : PathState
  pub runs : List ℕ

pub record Queue : Type 0 where
  pub states : List (String × Slot)
  pub accepting : Bool
  pub waiters : ℕ

-- How the call of the worker ends; in the last case `onError` throws too.
pub data Outcome : Type 0 where
  returned threw hook_threw : Outcome

abbrev pub fresh_slot : String → Slot
fresh_slot key = record {
  state = record { file_path = key; generation = 0; timer = false; running = false; dirty = false };
  runs = [];
}

-- The top of the `while` loop with `dirty` set: the worker is called with the current generation.
pub enter : Slot → Slot
enter s = record { state = record s.state { dirty = false }; runs = s.state.generation ∷ s.runs }

pub start : Slot → Slot
unfolding enter
start s =
    if s.state.running || not s.state.dirty
    then s
    else enter (record s { state = record s.state { running = true } })

pub arm : Slot → Slot
arm s = record s { state = record s.state { timer = true } }

-- What `enqueue` does to a path's state.
pub bump : Slot → Slot
unfolding arm
bump s =
    let st : PathState = record s.state { generation = s.state.generation + 1; dirty = true } in
    let s' : Slot = record s { state = st } in if s.state.running then s' else arm s'

-- The callback of the debounce timer.
pub fire : Slot → Slot
unfolding start
fire s = if s.state.timer then start (record s { state = record s.state { timer = false } }) else s

-- The body of the loop in `flush`.
pub flush_slot : Slot → Slot
unfolding start
flush_slot s =
    let s' : Slot = record s { state = record s.state { timer = false } } in
    if not s.state.running then start s' else s'

unfoldable pub is_current : ℕ → Slot → Bool
is_current g s = s.state.generation == g

unfoldable pub retry_if_current : ℕ → Slot → Slot
unfolding is_current
retry_if_current g s =
    let next = if is_current g s then s.state.generation + 1 else s.state.generation in
    record s { state = record s.state { generation = next; dirty = true } }

-- The `finally` of `run`; `none` when the state is deleted.
pub finish : Slot → Option Slot
unfolding start
finish s =
    let s' : Slot = record s { state = record s.state { running = false } } in
    if s.state.dirty then some (start s') else if not s.state.timer then none else some s'

-- The rest of one round of the loop, after the worker and the handler of its error.
pub next_round : ℕ → Slot → Option Slot
unfolding is_current enter finish
next_round g s =
    let st : PathState = if is_current g s then s.state else record s.state { dirty = true } in
    let s' : Slot = record s { state = st } in if st.dirty then some (enter s') else finish s'

-- `run` goes on from the worker that was called with generation `g`.
pub resume : Outcome → ℕ → Slot → Option Slot
unfolding next_round finish
resume returned g s = next_round g s
resume threw g s =
    next_round g
      (if is_current g s then record s { state = record s.state { dirty = false } } else s)
resume hook_threw g s = finish s

-- The `i`-th suspended call of `run` goes on; `before` holds the calls in front of it.
pub settle_from : Outcome → List ℕ → List ℕ → ℕ → Slot → Option Slot
unfolding resume
settle_from o before [] i s = some s
settle_from o before (g ∷ gs) zero s = resume o g (record s { runs = before ++ gs })
settle_from o before (g ∷ gs) (suc i) s = settle_from o (before ++ g ∷ []) gs i s

pub settle_slot : Outcome → ℕ → Slot → Option Slot
unfolding settle_from
settle_slot o i s = settle_from o [] s.runs i s

-- The constructor.
abbrev pub new_queue : Queue
new_queue = record { states = []; accepting = true; waiters = 0 }

pub size : Queue → ℕ
size q = length q.states

-- The callbacks in `waiters` are called when the last state is deleted.
pub wake : Queue → Queue
wake q = if size q == 0 then record q { waiters = 0 } else q

-- A callback that belongs to the path `key` changes its state, or deletes it.
pub on_path : String → (Slot → Option Slot) → Queue → Queue
unfolding wake size
on_path key f q = elim (get key q.states) [
  | none ↦ q
  | some s ↦ elim (f s) [
    | none ↦ wake (record q { states = delete key q.states })
    | some s' ↦ record q { states = put key s' q.states }
  ]
]

pub stop_accepting : Queue → Queue
stop_accepting q = record q { accepting = false }

pub flush : Queue → Queue
unfolding flush_slot
flush q = record q { states = map (λ e. (e.0, flush_slot e.1)) q.states }

pub close : Queue → Queue
unfolding stop_accepting flush
close q = flush (stop_accepting q)

-- `drain` up to its `await`: it returns at once from an empty queue, and waits otherwise.
pub drain : Queue → Queue
unfolding flush size
drain q =
    let q' : Queue = flush q in if size q' == 0 then q' else record q' { waiters = q'.waiters + 1 }

-- What may happen next: a call of a method, a timer, a call on `work` by a running worker, or the
-- end of a worker.
pub data Event : Type 0 where
  enqueues : String → Event
  fires : String → Event
  retries : String → ℕ → Event
  settles : String → ℕ → Outcome → Event
  stops closes flushes drains : Event

-- `enqueue` behind its guard.
pub accept : String → Queue → Queue
unfolding bump
accept key q =
    let s : Slot = get_or (get key q.states) (fresh_slot key) in
    record q { states = put key (bump s) q.states }

module _ (canonicalize : String → String) where
  pub enqueue : String → Queue → Queue × Bool
  unfolding accept
  enqueue file_path q =
      if not q.accepting then (q, false) else (accept (canonicalize file_path) q, true)

  pub step : Event → Queue → Queue
  unfolding enqueue on_path fire retry_if_current settle_slot close flush drain stop_accepting
  step (enqueues p) q = (enqueue p q).0
  step (fires key) q = on_path key (λ s. some (fire s)) q
  step (retries key g) q = on_path key (λ s. some (retry_if_current g s)) q
  step (settles key i o) q = on_path key (settle_slot o i) q
  step stops q = stop_accepting q
  step closes q = close q
  step flushes q = flush q
  step drains q = drain q

  pub run : Queue → List Event → Queue
  unfolding step
  run q [] = q
  run q (e ∷ es) = run (step e q) es
