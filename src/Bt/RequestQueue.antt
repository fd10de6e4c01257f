-- ===== src/Bt/RequestQueue.antt =====
-- bt/control_request_queue.c and bt/control_request_queue.h: a ring of eight control requests.
-- The pointers that the code tests for NULL are arguments here, so those tests have no branch.
pub mod Refine
use picow_bt_kb_hid.Base.{
  ℕ, ◌+◌, ◌-◌, ◌%◌, ◌^◌, Bool, true, false, List, replicate, Option, none, some, if◌then◌else◌,
  ◌==◌, set, get_or, [],
}
use picow_bt_kb_hid.Bt.Control.{Request, help}

-- `CONTROL_REQUEST_QUEUE_CAPACITY`.
abbrev pub capacity : ℕ
capacity = 8

-- `control_request_queue_t`. A `size_t` has 32 bits.
pub record Queue : Type 0 where
  pub requests : List Request
  pub head : ℕ
  pub count : ℕ

-- A request of zero bytes.
abbrev pub zero_request : Request
zero_request = record { action = help; address = replicate 6 0 }

-- `control_request_queue_init`.
unfoldable pub control_request_queue_init : Queue
control_request_queue_init = record {
  requests = replicate capacity zero_request;
  head = 0;
  count = 0;
}

-- `control_request_queue_push`.
unfoldable pub control_request_queue_push : Queue → Request → Queue × Bool
control_request_queue_push q request =
    if q.count == capacity
    then (q, false)
    else let tail = (q.head + q.count) % 2 ^ 32 % capacity in
      (record q { requests = set q.requests tail request; count = (q.count + 1) % 2 ^ 32 }, true)

-- `control_request_queue_pop`; `none` is the result `false`.
unfoldable pub control_request_queue_pop : Queue → Queue × Option Request
control_request_queue_pop q = if q.count == 0 then (q, none) else (
  record q { head = (q.head + 1) % 2 ^ 32 % capacity; count = q.count - 1 },
  some (get_or q.requests q.head zero_request),
)
