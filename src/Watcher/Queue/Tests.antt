-- ===== src/Watcher/Queue/Tests.antt =====
-- Runs of the queue, and the theorems at concrete histories.
use total_recall.Base.{
  ◌≡◌, refl, true, false, some, List, [], ◌∷◌, String, eq_iff, ◌≢◌, is_some, get, put, delete,
  arith,
}
use total_recall.Watcher.Queue.{
  Slot, Queue, returned, threw, new_queue, Event, enqueues, fires, settles, step, run, enqueue,
  close, size,
}
use total_recall.Watcher.Queue.Serial.{IsWellFormed, run-new_queue-IsWellFormed}
use total_recall.Watcher.Queue.Lost.{served, settle_serves_newest, WillServe, enqueue_is_served}
use total_recall.Watcher.Queue.Drain.{settle_rounds, close_drains}

abbrev plain : String → String
plain p = p

-- A file that is saved again while its worker runs.
abbrev saved_twice : List Event
saved_twice = enqueues "a" ∷ fires "a" ∷ enqueues "a" ∷ []

abbrev saved_twice_slot : Slot
saved_twice_slot = record {
  state = record { file_path = "a"; generation = 2; timer = false; running = true; dirty = true };
  runs = 1 ∷ [];
}

saved_twice_found : get "a" (run plain new_queue saved_twice).states ≡ some saved_twice_slot
unfolding run get put
saved_twice_found = refl

settles_empty :
    (run plain new_queue (enqueues "a" ∷ fires "a" ∷ settles "a" 0 returned ∷ [])).states ≡ []
unfolding run get put delete
settles_empty = refl

run-new_queue-IsWellFormed_example : IsWellFormed (run plain new_queue saved_twice)
run-new_queue-IsWellFormed_example = run-new_queue-IsWellFormed plain saved_twice

settle_serves_newest_example :
    get "a" (step plain (settles "a" 0 threw) (run plain new_queue saved_twice)).states
    ≡ some (served saved_twice_slot)
settle_serves_newest_example =
    settle_serves_newest plain saved_twice "a" threw 1 saved_twice_found refl (omega arith)

enqueue_is_served_example :
    let r = enqueue plain "b" (run plain new_queue saved_twice) in
    (r.1 ≡ true) × (s : Slot) × (get "b" r.0.states ≡ some s) × WillServe s
enqueue_is_served_example = enqueue_is_served plain saved_twice "b" accepting
  where
    accepting : (run plain new_queue saved_twice).accepting ≡ true
    accepting = unfold run get put in refl

first_key : List (String × Slot) → String
first_key [] = ""
first_key ((k, s) ∷ m) = k

get-first_key : (m : List (String × Slot)) → m ≢ [] → is_some (get (first_key m) m) ≡ true
unfolding first_key get
get-first_key [] h = absurd (h refl)
get-first_key ((k, s) ∷ m) h = ground (arith, eq_iff k k)

abbrev first_path : Queue → String
first_path q = first_key q.states

close_drains_example :
    let q' = settle_rounds plain first_path 2 (close (run plain new_queue saved_twice)) in
    (q'.states ≡ []) × (q'.waiters ≡ 0)
close_drains_example =
    close_drains plain first_path (λ q h. get-first_key q.states h) saved_twice 2
      (unfold run size get put in omega arith)
