-- ===== src/Bt/App/Drain.antt =====
-- bt/bluetooth.c: the loop that executes the queued requests.
use picow_bt_kb_hid.Base.{
  ℕ, zero, suc, ◌≡◌, ◌<◌, refl, sym, List, [], ◌∷◌, length, Option, none, some, arith, option_rule,
}
use mathlib.Core.Path.{subst}
use picow_bt_kb_hid.Bt.Control.{Request}
use picow_bt_kb_hid.Bt.RequestQueue.{control_request_queue_pop}
use picow_bt_kb_hid.Bt.RequestQueue.Refine.{IsValid, waiting, dequeue, pop_refines, pop-IsValid}
use picow_bt_kb_hid.Bt.App.Platform.{Btstack, Answers}
use picow_bt_kb_hid.Bt.App.Model.{App}
use picow_bt_kb_hid.Bt.App.Requests.{execute_control_request}
use picow_bt_kb_hid.Bt.App.Task.{execute_requests}
use picow_bt_kb_hid.Bt.App.Kept.Requests.{execute-KeepsInputs}

-- What a pop says of the requests that wait before and after it.
emptied : (l w : List Request) (out : Option Request) → (w, out) ≡ dequeue l → out ≡ none → w ≡ []
emptied [] w out e h = ground arith
emptied (r ∷ l) w out e h = ground arith

shortened :
    (l w : List Request) (out : Option Request) (r : Request)
    → (w, out) ≡ dequeue l
    → out ≡ some r
    → suc (length w) ≡ length l
shortened [] w out r e h = ground arith
shortened (s ∷ l) w out r e h = let same : w ≡ l = ground arith in rw same refl

module _ (btstack : Btstack) where
  -- The loop over the queued requests, given more rounds than there are requests in a valid queue,
  -- leaves no request waiting, whatever the requests do and whatever BTstack answers.
  pub execute_requests_drain :
      (fuel : ℕ) (later : ℕ → Answers) (a : App)
      → IsValid a.control_requests
      → length (waiting a.control_requests) < fuel
      → waiting (execute_requests btstack fuel later a).control_requests ≡ []
  unfolding execute_requests
  execute_requests_drain zero later a v enough = absurd (omega arith)
  execute_requests_drain (suc fuel) later a v enough =
      let (q, out) = control_request_queue_pop a.control_requests in
      let popped = pop_refines v in
      option_rule (λ (b : App). waiting b.control_requests ≡ []) out
        (λ e. emptied (waiting a.control_requests) (waiting q) out popped e)
        λ r e.
          let next =
            execute_control_request btstack (later fuel) r (record a { control_requests = q }) in
          let held =
            (execute-KeepsInputs btstack (later fuel) r (record a { control_requests = q })).same in
          execute_requests_drain fuel later next (subst IsValid (sym held) (pop-IsValid v)) (
            rw held
              (omega (arith, shortened (waiting a.control_requests) (waiting q) out r popped e)))
