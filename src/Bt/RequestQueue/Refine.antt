-- ===== src/Bt/RequestQueue/Refine.antt =====
-- The ring of bt/control_request_queue.c against a bounded first-in first-out queue.
use picow_bt_kb_hid.Base.{
  ◌+◌, ◌%◌, ◌≤◌, ◌<◌, ◌≡◌, refl, Bool, true, false, List, [], ◌∷◌, ◌++◌, Option, none, some,
  if◌then◌else◌, ◌==◌, length, length-set, arith,
}
use picow_bt_kb_hid.Base.Window.{window, length-window, window_front, window_back}
use picow_bt_kb_hid.Bt.Control.{Request}
use picow_bt_kb_hid.Bt.RequestQueue.{
  Queue, capacity, zero_request, control_request_queue_init, control_request_queue_push,
  control_request_queue_pop,
}

pub record IsValid (q : Queue) : Type 0 where
  pub storage : length q.requests ≡ capacity
  pub head_in : q.head < capacity
  pub count_in : q.count ≤ capacity

-- The requests that wait, oldest first.
abbrev pub waiting : Queue → List Request
waiting q = window zero_request capacity q.requests q.head q.count

-- The specification: a list of at most eight requests.
abbrev pub enqueue : List Request → Request → List Request × Bool
enqueue l r = if length l == capacity then (l, false) else (l ++ (r ∷ []), true)

abbrev pub dequeue : List Request → List Request × Option Request
dequeue [] = ([], none)
dequeue (r ∷ l) = (l, some r)

pub init-IsValid : IsValid control_request_queue_init
unfolding control_request_queue_init
init-IsValid = omega arith

pub push-IsValid :
    {q : Queue} (r : Request) → IsValid q → IsValid (control_request_queue_push q r).0
unfolding control_request_queue_push
push-IsValid {q} r v = ground (arith, length-set q.requests ((q.head + q.count) % capacity) r)

pub pop-IsValid : {q : Queue} → IsValid q → IsValid (control_request_queue_pop q).0
unfolding control_request_queue_pop
pop-IsValid v = ground arith

-- On a valid queue, push refuses exactly when eight requests wait, and otherwise appends its request
-- behind those that wait.
pub push_refines :
    {q : Queue} (r : Request)
    → IsValid q
    → let (q', done) = control_request_queue_push q r in (waiting q', done) ≡ enqueue (waiting q) r
unfolding control_request_queue_push
push_refines {q} r v = ground (
  arith,
  length-window zero_request capacity q.requests q.head q.count,
  window_back zero_request capacity q.requests q.head q.count r,
)

-- On a valid queue, pop takes the oldest request, and fails exactly when none waits.
pub pop_refines :
    {q : Queue}
    → IsValid q
    → let (q', out) = control_request_queue_pop q in (waiting q', out) ≡ dequeue (waiting q)
unfolding control_request_queue_pop
pop_refines {q} v = ground (arith, window_front zero_request capacity q.requests q.head q.count)

-- A client's calls, in order, with what each returns.
pub data Call : Type 0 where
  push : Request → Call
  pop : Call

abbrev pub Reply : Type 0
Reply = Bool × Option Request

pub run : Queue → List Call → List Reply
run q [] = []
run q (push r ∷ calls) =
    let (q', done) = control_request_queue_push q r in (done, none) ∷ run q' calls
run q (pop ∷ calls) = let (q', out) = control_request_queue_pop q in (true, out) ∷ run q' calls

pub run_spec : List Request → List Call → List Reply
run_spec l [] = []
run_spec l (push r ∷ calls) = let (l', done) = enqueue l r in (done, none) ∷ run_spec l' calls
run_spec l (pop ∷ calls) = let (l', out) = dequeue l in (true, out) ∷ run_spec l' calls

pub run_refines_from :
    (calls : List Call) {q : Queue} → IsValid q → run q calls ≡ run_spec (waiting q) calls
unfolding run run_spec
run_refines_from [] v = refl
run_refines_from (push r ∷ calls) v =
    rw (run_refines_from calls (push-IsValid r v), ← push_refines r v)
run_refines_from (pop ∷ calls) v = rw (run_refines_from calls (pop-IsValid v), ← pop_refines v)

-- Any sequence of pushes and pops on a fresh queue is answered as by a list of at most eight
-- requests, first in first out.
pub run_refines : (calls : List Call) → run control_request_queue_init calls ≡ run_spec [] calls
unfolding control_request_queue_init
run_refines calls = run_refines_from calls init-IsValid
