-- ===== src/Usb/Serial/Termination.antt =====
-- usb/usb_serial.c: the loop of the task ends.
use picow_bt_kb_hid.Base.{
  ℕ, zero, suc, ◌≤◌, ◌<◌, ◌≡◌, refl, sym, ap, ◌∙◌, true, false, ◌||◌, List, [], ◌++◌, if◌then◌else◌,
  Bool-cases, inl, inr, ◌==◌, length, take, arith,
}
use picow_bt_kb_hid.Usb.Serial.{Log, drain}
use picow_bt_kb_hid.Usb.Serial.Refine.{IsValid}
use picow_bt_kb_hid.Usb.Serial.Drain

module _ {S : Type 0} (write_available : S → ℕ) (write : List ℕ → S → ℕ × S)
    (takes : (bytes : List ℕ) (port : S) → (write bytes port).0 ≤ length bytes) where
  abbrev bytes_offered : Log → S → List ℕ
  bytes_offered = Drain.bytes_offered write_available write takes

  abbrev written : Log → S → ℕ
  written = Drain.written write_available write takes

  abbrev advanced : Log → S → Log
  advanced = Drain.advanced write_available write takes

  advance-IsValid : (l : Log) (port : S) → IsValid l → IsValid (advanced l port)
  advance-IsValid = Drain.advance-IsValid write_available write takes

  shorter :
      (l : Log) (port : S) (m : ℕ)
      → (written l port == 0) ≡ false
      → l.count ≤ suc m
      → (advanced l port).count ≤ m
  shorter l port m e h = let some_written : 0 < written l port = ground arith in omega arith

  abbrev round : Log → S → Log × S × List ℕ → Log × S × List ℕ
  round l port (l', port', sent) =
      if l.count == 0 || write_available port == 0
      then (l, port, [])
      else if written l port == 0
      then (l, (write (bytes_offered l port) port).1, [])
      else (l', port', take (written l port) (bytes_offered l port) ++ sent)

  drain_empty :
      (n : ℕ) (l : Log) (port : S)
      → l.count ≤ 0
      → drain write_available write n l port ≡ (l, port, [])
  unfolding drain
  drain_empty zero l port h = refl
  drain_empty (suc n) l port h =
      let none_left : (l.count == 0) ≡ true = ground arith in rw none_left refl

  -- Two results of the rest give one result of the round where they are equal as long as the round
  -- writes.
  round_same :
      (l : Log) (port : S) (r r' : Log × S × List ℕ)
      → ((written l port == 0) ≡ false → r ≡ r')
      → round l port r ≡ round l port r'
  round_same l port r r' same = elim (Bool-cases (written l port == 0)) [
    | inl e ↦ rw e refl
    | inr e ↦ ap (round l port) (same e)
  ]

  -- The loop of the task ends within as many rounds as bytes wait: with any fuel from that number
  -- on it gives the same result, on a valid ring and a port that takes no more bytes than it is
  -- offered.
  pub drain-fuel :
      (fuel : ℕ) (l : Log) (port : S)
      → IsValid l
      → l.count ≤ fuel
      → drain write_available write fuel l port ≡ drain write_available write l.count l port
  unfolding drain
  drain-fuel fuel l port v h = more_fuel fuel l.count l port v h (omega arith)
    where
      more_fuel :
          (m n : ℕ) (l : Log) (port : S)
          → IsValid l
          → l.count ≤ m
          → l.count ≤ n
          → drain write_available write m l port ≡ drain write_available write n l port
      more_fuel zero n l port v hm hn = drain_empty zero l port hm ∙ sym (drain_empty n l port hm)
      more_fuel (suc m) zero l port v hm hn = drain_empty (suc m) l port hn
      more_fuel (suc m) (suc n) l port v hm hn = round_same l port _ _ (λ e.
          more_fuel m n (advanced l port) (write (bytes_offered l port) port).1
            (advance-IsValid l port v) (shorter l port m e hm) (shorter l port n e hn))
