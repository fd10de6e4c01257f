-- ===== src/Usb/Tests.antt =====
-- The theorems on the report ring of usb/hid_keyboard.c at concrete rings.
use picow_bt_kb_hid.Base.{◌≡◌, true, false, List, [], ◌∷◌, ◌++◌}
use picow_bt_kb_hid.Usb.Keyboard.{
  ReportQueue, released, start, keyboard_send_report, keyboard_release_all,
}
use picow_bt_kb_hid.Usb.Keyboard.Refine.{
  IsValid, Round, pending, rounds, start-IsValid, send-IsValid, send_refines, rounds_deliver,
  release_reaches_host,
}

-- A ring with one report, of the key `a`.
abbrev one_report : ReportQueue
one_report = keyboard_send_report start 0 (4 ∷ 0 ∷ 0 ∷ 0 ∷ 0 ∷ 0 ∷ [])

one_report-IsValid : IsValid one_report
one_report-IsValid = send-IsValid 0 (4 ∷ 0 ∷ 0 ∷ 0 ∷ 0 ∷ 0 ∷ []) start-IsValid

-- USB is not ready, then refuses a report, then takes one.
abbrev some_rounds : List Round
some_rounds = (false, λ _. true) ∷ (true, λ _. false) ∷ (true, λ _. true) ∷ []

send_refines_example :
    pending (keyboard_send_report one_report 2 (5 ∷ 0 ∷ 0 ∷ 0 ∷ 0 ∷ 0 ∷ []))
    ≡ record { modifier = 0; keycodes = 4 ∷ 0 ∷ 0 ∷ 0 ∷ 0 ∷ 0 ∷ [] }
      ∷ record { modifier = 2; keycodes = 5 ∷ 0 ∷ 0 ∷ 0 ∷ 0 ∷ 0 ∷ [] }
      ∷ []
unfolding start keyboard_send_report
send_refines_example = send_refines 2 (5 ∷ 0 ∷ 0 ∷ 0 ∷ 0 ∷ 0 ∷ []) one_report-IsValid

rounds_deliver_example :
    (rounds one_report some_rounds).1 ++ pending (rounds one_report some_rounds).0
    ≡ pending one_report
rounds_deliver_example = rounds_deliver some_rounds one_report-IsValid

release_reaches_host_example :
    (rounds (keyboard_release_all one_report) (some_rounds ++ ((true, λ _. true) ∷ []))).1
    ≡ released ∷ []
release_reaches_host_example = release_reaches_host some_rounds one_report-IsValid
