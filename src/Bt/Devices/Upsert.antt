-- ===== src/Bt/Devices/Upsert.antt =====
-- `device_manager_upsert` of bt/device_manager.c.
use picow_bt_kb_hid.Base.{
  ℕ, ◌+◌, ◌≤◌, ◌<◌, ◌≡◌, refl, Bool, true, false, List, [], ◌∷◌, ◌++◌, Option, none, some,
  if◌then◌else◌, ◌==◌, leb, length, take, drop, get_or, length-append, arith, Bool-cases,
  Option-cases, inl, inr, suc, zero, ◌↔◌, ap, ◌∙◌,
}
use native.Mathlib.Numerals.{add-one}
use picow_bt_kb_hid.Base.Bytes.{bytes_eq, bytes_eq_iff}
use picow_bt_kb_hid.Bt.Control.{BdAddr}
use picow_bt_kb_hid.Bt.Devices.{
  Device, DeviceManager, max_devices, name_max_length, blank_device, device_manager_find, modify,
  copy_name, describe, set_name, device_manager_upsert,
}
use picow_bt_kb_hid.Bt.Devices.Laws.{
  IsValid, NameEnds, length-modify, find-modify, modify-IsValid, find-eq-none, find-append,
  Distinct-append, All-append,
}

splice-length :
    (n : ℕ) (src old : List ℕ)
    → n ≤ length src
    → n < length old
    → length (take n src ++ (0 ∷ drop (suc n) old)) ≡ length old
splice-length zero src [] h lt = absurd (omega arith)
splice-length zero src (b ∷ old) h lt = refl
splice-length (suc n) [] old h lt = absurd (omega arith)
splice-length (suc n) (a ∷ src) [] h lt = absurd (omega arith)
splice-length (suc n) (a ∷ src) (b ∷ old) h lt =
    ap suc (splice-length n src old (omega arith) (omega arith))

-- At and behind the copied bytes stands the zero byte, then what stood there before.
splice-get_or :
    (n : ℕ) (src old : List ℕ) (k : ℕ)
    → n ≤ length src
    → n ≤ k
    → get_or old k 1 ≡ 0
    → get_or (take n src ++ (0 ∷ drop (suc n) old)) k 1 ≡ 0
splice-get_or zero src old zero h le e = refl
splice-get_or zero src [] (suc k) h le e = ground arith
splice-get_or zero src (b ∷ old) (suc k) h le e = e
splice-get_or (suc n) [] old k h le e = absurd (omega arith)
splice-get_or (suc n) (a ∷ src) old zero h le e = absurd (omega arith)
splice-get_or (suc n) (a ∷ src) [] (suc k) h le e = ground arith
splice-get_or (suc n) (a ∷ src) (b ∷ old) (suc k) h le e =
    splice-get_or n src old k (omega arith) (omega arith) e

splice_ends :
    (old name : List ℕ) (n : ℕ)
    → length old ≡ name_max_length
    → get_or old 63 1 ≡ 0
    → n ≤ 63
    → n ≤ length name
    → let copy = take n name ++ (0 ∷ drop (n + 1) old) in
      (length copy ≡ name_max_length) × (get_or copy 63 1 ≡ 0)
splice_ends old name n size ends small h =
    rw add-one
      (splice-length n name old h (omega arith) ∙ size, splice-get_or n name old 63 h small ends)

-- A name of at least `name_length` bytes stays within the array and ends in it.
copy_name_ends :
    (old name : List ℕ) (name_length : ℕ)
    → length old ≡ name_max_length
    → get_or old 63 1 ≡ 0
    → name_length ≤ length name
    → (length (copy_name old name name_length) ≡ name_max_length)
      × (get_or (copy_name old name name_length) 63 1 ≡ 0)
unfolding copy_name
copy_name_ends old name name_length size ends h =
    elim (Bool-cases (leb name_max_length name_length)) [
      | inl e ↦ rw e (splice_ends old name 63 size ends (omega arith) (ground arith))
      | inr e ↦ rw e (splice_ends old name name_length size ends (ground arith) h)
    ]

-- The caller's buffer holds the bytes that it announces.
abbrev pub NameFits : Option (List ℕ) → ℕ → Type 0
NameFits none name_length = Unit
NameFits (some name) name_length = name_length ≤ length name

set_name-NameEnds :
    (name : Option (List ℕ)) (name_length : ℕ) (d : Device)
    → NameFits name name_length
    → NameEnds d
    → NameEnds (set_name name name_length d)
set_name-NameEnds none name_length d fits v = v
set_name-NameEnds (some name) name_length d fits v =
    ground (arith, copy_name_ends d.name name name_length)

describe-NameEnds :
    (has_rssi : Bool) (rssi class_of_device : ℕ) (name : Option (List ℕ)) (name_length : ℕ)
    (d : Device)
    → NameFits name name_length
    → NameEnds d
    → NameEnds (describe has_rssi rssi class_of_device name name_length d)
unfolding describe
describe-NameEnds has_rssi rssi class_of_device name name_length d fits v =
    set_name-NameEnds name name_length _ fits v

set_name-address :
    (name : Option (List ℕ)) (name_length : ℕ) (d : Device)
    → (set_name name name_length d).address ≡ d.address
set_name-address none name_length d = refl
set_name-address (some name) name_length d = ground arith

describe-address :
    (has_rssi : Bool) (rssi class_of_device : ℕ) (name : Option (List ℕ)) (name_length : ℕ)
    (d : Device)
    → (describe has_rssi rssi class_of_device name name_length d).address ≡ d.address
unfolding describe
describe-address has_rssi rssi class_of_device name name_length d =
    set_name-address name name_length _

module _ (m : DeviceManager) (address : BdAddr) (has_rssi : Bool) (rssi class_of_device : ℕ)
    (name : Option (List ℕ)) (name_length : ℕ) where
  abbrev update : Device → Device
  update = describe has_rssi rssi class_of_device name name_length

  found-upsert :
      (d : Device)
      → device_manager_find m address ≡ some d
      → device_manager_upsert m address has_rssi rssi class_of_device name name_length
        ≡ (modify address update m, some (update d), false)
  unfolding device_manager_upsert
  found-upsert d e = rw (e, device_manager_upsert)

  full-upsert :
      device_manager_find m address ≡ none
      → (length m == max_devices) ≡ true
      → device_manager_upsert m address has_rssi rssi class_of_device name name_length
        ≡ (m, none, false)
  unfolding device_manager_upsert
  full-upsert e full = rw (e, device_manager_upsert, full)

  new-upsert :
      device_manager_find m address ≡ none
      → (length m == max_devices) ≡ false
      → device_manager_upsert m address has_rssi rssi class_of_device name name_length
        ≡ (m ++ (update (blank_device address) ∷ []), some (update (blank_device address)), true)
  unfolding device_manager_upsert
  new-upsert e room = rw (e, device_manager_upsert, room)

  -- The devices stay at most sixteen, with distinct addresses and names that end within their
  -- arrays, if the name's buffer holds `name_length` bytes.
  pub upsert-IsValid :
      NameFits name name_length
      → IsValid m
      → IsValid (device_manager_upsert m address has_rssi rssi class_of_device name name_length).0
  upsert-IsValid fits v = elim (Option-cases (device_manager_find m address)) [
    | inr (d, e) ↦ rw (found-upsert d e) (
        modify-IsValid address update
          (λ d. describe-address has_rssi rssi class_of_device name name_length d)
          (λ d. describe-NameEnds has_rssi rssi class_of_device name name_length d fits) v)
    | inl e ↦ elim (Bool-cases (length m == max_devices)) [
      | inl full ↦ rw (full-upsert e full) v
      | inr room ↦ rw (new-upsert e room) (record {
        bounded = ground (arith, v.bounded, length-append m (update (blank_device address) ∷ []));
        distinct = Distinct-append m (update (blank_device address)) v.distinct (
            rw
              (describe-address has_rssi rssi class_of_device name name_length
                (blank_device address))
              (find-eq-none m address e));
        names = All-append NameEnds m (update (blank_device address)) v.names (
            describe-NameEnds has_rssi rssi class_of_device name name_length (blank_device address)
              fits (refl, refl));
      })
    ]
  ]

  -- After an update, the search at any address finds what the update returned if that is its address,
  -- and what it found before otherwise.
  pub find-upsert :
      (other : BdAddr)
      → let (m', device, _) =
          device_manager_upsert m address has_rssi rssi class_of_device name name_length in
        device_manager_find m' other
        ≡ (if bytes_eq address other then device else device_manager_find m other)
  find-upsert other = elim (Option-cases (device_manager_find m address)) [
    | inr (d, e) ↦ rw (found-upsert d e) (
        ground (
          arith,
          e,
          find-modify m address other update
              (λ d. describe-address has_rssi rssi class_of_device name name_length d),
        ))
    | inl e ↦ elim (Bool-cases (length m == max_devices)) [
      | inl full ↦ rw (full-upsert e full) (ground (arith, e, bytes_eq_iff address other))
      | inr room ↦ rw (new-upsert e room) (
          ground (
            arith,
            e,
            find-append m (update (blank_device address)) other,
            describe-address has_rssi rssi class_of_device name name_length (blank_device address),
            bytes_eq_iff address other,
          ))
    ]
  ]

  -- With at most sixteen devices known: a device is created exactly if its address is new and fewer
  -- than sixteen are known, and the list then has one more; no device is returned exactly if its
  -- address is new and sixteen are known, and the list is then as before.
  pub upsert_created :
      length m ≤ max_devices
      → let (m', device, created) =
          device_manager_upsert m address has_rssi rssi class_of_device name name_length in
        ((created ≡ true) ↔ ((device_manager_find m address ≡ none) × (length m < max_devices)))
        × (length m' ≡ (if created then length m + 1 else length m))
        × ((device ≡ none) ↔ ((device_manager_find m address ≡ none) × (length m ≡ max_devices)))
        × ((device ≡ none) → m' ≡ m)
  unfolding device_manager_upsert
  upsert_created bounded =
      ground (
        arith,
        length-modify address update m,
        length-append m (update (blank_device address) ∷ []),
      )
