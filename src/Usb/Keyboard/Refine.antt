-- ===== src/Usb/Keyboard/Refine.antt =====
-- The report ring of usb/hid_keyboard.c as the list of the reports that USB has yet to see.
use picow_bt_kb_hid.Base.{
  ℕ, ◌+◌, ◌%◌, ◌≤◌, ◌<◌, ◌≡◌, refl, Bool, true, List, [], ◌∷◌, ◌++◌, Option, none, some,
  if◌then◌else◌, ◌==◌, ◌&&◌, length, length-set, arith,
}
use picow_bt_kb_hid.Base.Window.{window, length-window, window_front, window_back}
use picow_bt_kb_hid.Usb.Keyboard.{
  Report, ReportQueue, queue_size, released, start, keyboard_send_report, keyboard_release,
  keyboard_release_all, hid_keyboard_task,
}

pub record IsValid (q : ReportQueue) : Type 0 where
  pub storage : length q.queue ≡ queue_size
  pub head_in : q.head < queue_size
  pub count_in : q.count ≤ queue_size

-- The reports that USB has yet to see, oldest first.
abbrev pub pending : ReportQueue → List Report
pending q = window released queue_size q.queue q.head q.count

pub start-IsValid : IsValid start
unfolding start
start-IsValid = omega arith

pub send-IsValid :
    {q : ReportQueue} (m : ℕ) (keys : List ℕ) → IsValid q → IsValid (keyboard_send_report q m keys)
unfolding keyboard_send_report
send-IsValid {q} m keys v = ground (
  arith,
  length-set q.queue 0 (record { modifier = m; keycodes = keys }),
  length-set q.queue ((q.head + q.count) % queue_size) (record { modifier = m; keycodes = keys }),
)

-- On a valid ring, a report goes behind those that wait; where 64 wait already they are dropped and
-- it alone is left.
pub send_refines :
    {q : ReportQueue} (m : ℕ) (keys : List ℕ)
    → IsValid q
    → pending (keyboard_send_report q m keys)
      ≡ (if length (pending q) == queue_size then [] else pending q)
        ++ (record { modifier = m; keycodes = keys } ∷ [])
unfolding keyboard_send_report
send_refines {q} m keys v = ground (
  arith,
  length-window released queue_size q.queue q.head q.count,
  window_back released queue_size q.queue q.head q.count (record { modifier = m; keycodes = keys }),
  window_back released queue_size q.queue 0 0 (record { modifier = m; keycodes = keys }),
)

pub release_all-IsValid : {q : ReportQueue} → IsValid q → IsValid (keyboard_release_all q)
unfolding keyboard_release_all keyboard_release
release_all-IsValid {q} v =
    send-IsValid {q = record q { head = 0; count = 0 }} 0 released.keycodes (omega arith)

-- Releasing all keys drops every report that waits and leaves the one that releases every key.
pub release_all_lem :
    {q : ReportQueue} → IsValid q → pending (keyboard_release_all q) ≡ released ∷ []
unfolding keyboard_release_all keyboard_release
release_all_lem {q} v =
    send_refines {q = record q { head = 0; count = 0 }} 0 released.keycodes (omega arith)

pub task-IsValid :
    {q : ReportQueue} (ready : Bool) (accepts : Report → Bool)
    → IsValid q
    → IsValid (hid_keyboard_task ready accepts q).0
unfolding hid_keyboard_task
task-IsValid ready accepts v = ground arith

-- What the task should do to the list of the waiting reports.
abbrev pub deliver : Bool → (Report → Bool) → List Report → List Report × Option Report
deliver ready accepts [] = ([], none)
deliver ready accepts (r ∷ l) = if ready && accepts r then (l, some r) else (r ∷ l, none)

-- The task hands over the oldest report if USB is ready and takes it, and keeps it otherwise.
pub task_refines :
    {q : ReportQueue} (ready : Bool) (accepts : Report → Bool)
    → IsValid q
    → let (q', sent) = hid_keyboard_task ready accepts q in
      (pending q', sent) ≡ deliver ready accepts (pending q)
unfolding hid_keyboard_task
task_refines {q} ready accepts v =
    ground (arith, window_front released queue_size q.queue q.head q.count)

-- A round of the main loop: the answers of TinyUSB.
abbrev pub Round : Type 0
Round = Bool × (Report → Bool)

-- The reports that USB sees in some rounds of the task, in order, and the queue behind them.
unfoldable pub rounds : ReportQueue → List Round → ReportQueue × List Report
rounds q [] = (q, [])
rounds q ((ready, accepts) ∷ later) =
    let (q', sent) = hid_keyboard_task ready accepts q in
    let (q'', seen) = rounds q' later in (q'', elim sent [ none ↦ seen | some r ↦ r ∷ seen ])

task_splits :
    {q : ReportQueue} (ready : Bool) (accepts : Report → Bool)
    → IsValid q
    → let (q', sent) = hid_keyboard_task ready accepts q in
      (elim sent [ none ↦ pending q' | some r ↦ r ∷ pending q' ]) ≡ pending q
task_splits {q} ready accepts v = ground (arith, task_refines {q = q} ready accepts v)

-- On a valid ring, whatever TinyUSB answers, the task delivers the waiting reports in order, each
-- once: what USB saw, followed by what still waits, is what waited at first.
pub rounds_deliver :
    (later : List Round) {q : ReportQueue}
    → IsValid q
    → let (q', seen) = rounds q later in (seen ++ pending q') ≡ pending q
unfolding rounds
rounds_deliver [] v = refl
rounds_deliver ((ready, accepts) ∷ later) {q} v = ground (
  arith,
  task_splits {q = q} ready accepts v,
  rounds_deliver later (task-IsValid {q = q} ready accepts v),
)

-- An empty queue shows USB nothing.
rounds_idle :
    (later : List Round) {q : ReportQueue} → IsValid q → pending q ≡ [] → (rounds q later).1 ≡ []
rounds_idle later {q} v e = ground (arith, rounds_deliver later {q = q} v)

-- A single waiting report is seen once, when USB takes it.
rounds_single :
    (earlier : List Round) {q : ReportQueue} (r : Report)
    → IsValid q
    → pending q ≡ r ∷ []
    → (rounds q (earlier ++ ((true, λ _. true) ∷ []))).1 ≡ r ∷ []
unfolding rounds
rounds_single [] {q} r v e = ground (arith, task_refines {q = q} true (λ _. true) v)
rounds_single ((ready, accepts) ∷ earlier) {q} r v e =
    let v' = task-IsValid {q = q} ready accepts v in
    ground (
      arith,
      task_refines {q = q} ready accepts v,
      rounds_single earlier {q = (hid_keyboard_task ready accepts q).0} r v',
      rounds_idle (earlier ++ ((true, λ _. true) ∷ [])) {q = (hid_keyboard_task ready accepts q).0}
          v',
    )

-- After all keys of a valid ring were released, USB sees exactly one report, the one that releases
-- every key, as soon as it is ready once and takes it, whatever it answered before and whatever was
-- queued.
pub release_reaches_host :
    {q : ReportQueue} (earlier : List Round)
    → IsValid q
    → (rounds (keyboard_release_all q) (earlier ++ ((true, λ _. true) ∷ []))).1 ≡ released ∷ []
release_reaches_host {q} earlier v =
    rounds_single earlier released (release_all-IsValid v) (release_all_lem v)
