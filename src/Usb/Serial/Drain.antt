-- ===== src/Usb/Serial/Drain.antt =====
-- The task of usb/usb_serial.c: the loop that hands the ring to the CDC port, and the notice behind
-- it.
use picow_bt_kb_hid.Base.{
  ℕ, zero, suc, ◌+◌, ◌-◌, ◌%◌, ◌^◌, ◌≤◌, ◌≡◌, refl, sym, ap, ap₂, ◌∙◌, Bool, true, false, ◌&&◌,
  ◌||◌, not, List, [], ◌++◌, some, if◌then◌else◌, if_rule, Bool-cases, inl, inr, ◌==◌, ltb, leb,
  length, take, drop, take-take, length-take_le, arith,
}
use mathlib.Core.List.{append_assoc, append-nil}
use picow_bt_kb_hid.Base.Window.{window_slice, length-window}
use picow_bt_kb_hid.Usb.Serial.{
  Log, log_size, notice, contiguous, offered, advance, drain, report_overflow, usb_serial_task,
}
use picow_bt_kb_hid.Usb.Serial.Refine.{IsValid, pending, printf_refines}

module _ {S : Type 0} (write_available : S → ℕ) (write : List ℕ → S → ℕ × S)
    (takes : (bytes : List ℕ) (port : S) → (write bytes port).0 ≤ length bytes) where
  -- What the loop leaves, against the ring that it began with.
  pub record IsDrained (l : Log) (result : Log × S × List ℕ) : Type 0 where
    pub valid : IsValid (result.0)
    pub bytes : result.2 ++ pending (result.0) ≡ pending l
    pub flag : result.0.overflowed ≡ l.overflowed

  stopped : (l : Log) (port : S) → IsValid l → IsDrained l (l, port, [])
  stopped l port v = record { valid = v; bytes = refl; flag = refl }

  abbrev pub bytes_offered : Log → S → List ℕ
  bytes_offered = offered write_available write

  abbrev pub written : Log → S → ℕ
  written l port = (write (bytes_offered l port) port).0

  -- The bounds on what one round writes.
  contiguous_in :
      (l : Log) (port : S)
      → IsValid l
      → let n = contiguous write_available write l port in (l.head + n ≤ log_size) × (n ≤ l.count)
  contiguous_in l port v = (ground arith, ground arith)

  written_in : (l : Log) (port : S) → written l port ≤ contiguous write_available write l port
  written_in l port = omega (
    arith,
    takes (bytes_offered l port) port,
    length-take_le (contiguous write_available write l port) (drop l.head l.buffer),
  )

  abbrev pub advanced : Log → S → Log
  advanced l port = advance write_available write (written l port) l

  pub advance-IsValid : (l : Log) (port : S) → IsValid l → IsValid (advanced l port)
  advance-IsValid l port v = record {
    storage = v.storage;
    head_in = omega arith;
    count_in = omega (arith, v.count_in);
  }

  -- The bytes taken and those behind the step are the bytes that waited.
  advance_lem :
      (l : Log) (port : S)
      → IsValid l
      → take (written l port) (bytes_offered l port) ++ pending (advanced l port) ≡ pending l
  advance_lem l port v =
      let (space, few) = contiguous_in l port v in
      let w_in = written_in l port in
      let head_is : (l.head + written l port) % log_size % 2 ^ 16
          ≡ (l.head + written l port) % log_size =
        omega arith in
      let count_is : (l.count - written l port) % 2 ^ 16 ≡ l.count - written l port =
        omega (arith, v.count_in) in
      rw
        (
          head_is,
          count_is,
          take-take (written l port) (contiguous write_available write l port)
              (drop l.head l.buffer) w_in,
        )
        (window_slice 0 log_size l.buffer (written l port) l.head l.count (omega (arith, v.storage))
          v.head_in (omega arith) (omega arith))

  pub drain-IsDrained :
      (fuel : ℕ) (l : Log) (port : S)
      → IsValid l
      → IsDrained l (drain write_available write fuel l port)
  unfolding drain
  drain-IsDrained zero l port v = stopped l port v
  drain-IsDrained (suc fuel) l port v =
      let next = (write (bytes_offered l port) port).1 in
      let rest = drain-IsDrained fuel (advanced l port) next (advance-IsValid l port v) in
      if_rule (IsDrained l) (l.count == 0 || write_available port == 0) (λ e. stopped l port v)
        (λ e.
          if_rule (IsDrained l) (written l port == 0) (λ e'. stopped l next v)
            (λ e'. record {
              valid = rest.valid;
              bytes =
                  append_assoc (take (written l port) (bytes_offered l port)) _ _
                  ∙ ap (λ bs. take (written l port) (bytes_offered l port) ++ bs) rest.bytes
                  ∙ advance_lem l port v;
              flag = rest.flag;
            }))

  record IsReported (l l' : Log) : Type 0 where
    valid : IsValid l'
    bytes :
        pending l'
        ≡ pending l ++ (if l.overflowed && ltb l.count (log_size - 48) then notice else [])
    flag : l'.overflowed ≡ (l.overflowed && not (l.overflowed && ltb l.count (log_size - 48)))

  -- The notice has 48 bytes, so it fits where it is printed.
  report_overflow-IsReported :
      (l : Log) → IsValid l → IsReported l (report_overflow write_available write true l)
  unfolding report_overflow
  report_overflow-IsReported l v = elim (Bool-cases (l.overflowed && ltb l.count (log_size - 48))) [
    | inl e ↦
        let clear : Log = record l { overflowed = false } in
        let v' : IsValid clear = record {
          storage = v.storage;
          head_in = v.head_in;
          count_in = v.count_in;
        } in
        let p = printf_refines true (some notice) clear v' in
        let size = length-window 0 log_size l.buffer l.head l.count in
        let fits : leb (length (pending clear) + length notice) log_size ≡ true =
          rw size (ground arith) in
        rw e (record {
          valid = p.valid;
          bytes = p.bytes ∙ rw (e, fits) refl;
          flag = p.flag ∙ rw (e, fits) (ground arith);
        })
    | inr e ↦ rw e (record { valid = v; bytes = rw (e, append-nil) refl; flag = ground arith })
  ]

  -- Whether the task prints the notice about lost messages.
  abbrev pub is_told : Bool → Log → S → Bool
  is_told connected l port =
      connected
      && l.overflowed
      && ltb (length (pending (drain write_available write l.count l port).0)) (log_size - 48)

  pub record IsServed (connected : Bool) (l : Log) (port : S) (result : Log × S × List ℕ)
      : Type 0 where
    pub valid : IsValid (result.0)
    pub bytes :
        result.2 ++ pending (result.0)
        ≡ pending l ++ (if is_told connected l port then notice else [])
    pub flag : result.0.overflowed ≡ (l.overflowed && not (is_told connected l port))

  -- On a valid ring and a port that takes no more bytes than it is offered, the bytes that the task
  -- hands over and those that stay are the bytes that waited, in order, with the notice about lost
  -- messages behind them where it is printed. It is printed, whole, and the overflow flag cleared
  -- exactly if the port is connected, the flag is set and fewer than 8144 bytes stay. The ring
  -- stays valid.
  pub task_delivers :
      (connected : Bool) (l : Log) (port : S)
      → IsValid l
      → IsServed connected l port (usb_serial_task write_available write connected l port)
  unfolding usb_serial_task
  task_delivers false l port v = record {
    valid = v;
    bytes = rw append-nil refl;
    flag = ground arith;
  }
  task_delivers true l port v =
      let d = drain-IsDrained l.count l port v in
      let l' = (drain write_available write l.count l port).0 in
      let sent = (drain write_available write l.count l port).2 in
      let r = report_overflow-IsReported l' d.valid in
      let size = length-window 0 log_size l'.buffer l'.head l'.count in
      record {
        valid = r.valid;
        bytes =
            ap (λ bs. sent ++ bs) r.bytes
            ∙ sym (append_assoc sent (pending l') _)
            ∙ ap₂ (λ xs (b : Bool). xs ++ (if b then notice else [])) d.bytes
                (rw (d.flag, size) refl);
        flag = r.flag ∙ rw (d.flag, size) refl;
      }
