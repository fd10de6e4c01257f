-- ===== src/Bt/Devices/Laws.antt =====
-- The devices of bt/device_manager.c: no address twice, at most sixteen, names that end.
use picow_bt_kb_hid.Base.{
  ◌≤◌, ◌≡◌, refl, false, [], ◌∷◌, ◌++◌, none, some, if◌then◌else◌, length, get_or, All, arith,
  Bool-cases, inl, inr,
}
use picow_bt_kb_hid.Base.Bytes.{bytes_eq, bytes_eq_iff}
use picow_bt_kb_hid.Bt.Control.{BdAddr}
use picow_bt_kb_hid.Bt.Devices.{
  Device, DeviceManager, max_devices, name_max_length, device_manager_find, modify,
}

-- No device of the list has the address.
abbrev pub Absent : BdAddr → DeviceManager → Type 0
Absent address = All (λ d. bytes_eq d.address address ≡ false)

-- No address stands twice.
abbrev pub Distinct : DeviceManager → Type 0
Distinct [] = Unit
Distinct (d ∷ rest) = Absent d.address rest × Distinct rest

-- The array of a name has 64 bytes, the last of them zero, so that it holds a C string.
abbrev pub NameEnds : Device → Type 0
NameEnds d = (length d.name ≡ name_max_length) × (get_or d.name 63 1 ≡ 0)

pub record IsValid (m : DeviceManager) : Type 0 where
  pub bounded : length m ≤ max_devices
  pub distinct : Distinct m
  pub names : All NameEnds m

pub init-IsValid : IsValid []
init-IsValid = record { bounded = omega arith; distinct = tt; names = tt }

-- A write through a pointer to a device is seen at its address alone.
pub find-modify :
    (m : DeviceManager) (address other : BdAddr) (f : Device → Device)
    → ((d : Device) → (f d).address ≡ d.address)
    → device_manager_find (modify address f m) other ≡ (
        if bytes_eq address other
        then elim (device_manager_find m address) [ none ↦ none | some d ↦ some (f d) ]
        else device_manager_find m other)
unfolding device_manager_find modify
find-modify [] address other f keeps = ground arith
find-modify (d ∷ rest) address other f keeps = ground (
  arith,
  keeps d,
  find-modify rest address other f keeps,
  bytes_eq_iff d.address address,
  bytes_eq_iff address other,
  bytes_eq_iff d.address other,
)

pub length-modify :
    (address : BdAddr) (f : Device → Device) (m : DeviceManager)
    → length (modify address f m) ≡ length m
unfolding modify
length-modify address f [] = refl
length-modify address f (d ∷ rest) = ground (arith, length-modify address f rest)

Absent-modify :
    (other address : BdAddr) (f : Device → Device) (m : DeviceManager)
    → ((d : Device) → (f d).address ≡ d.address)
    → Absent other m
    → Absent other (modify address f m)
unfolding modify
Absent-modify other address f [] keeps a = tt
Absent-modify other address f (d ∷ rest) keeps a =
    ground (arith, keeps d, Absent-modify other address f rest keeps)

Distinct-modify :
    (address : BdAddr) (f : Device → Device) (m : DeviceManager)
    → ((d : Device) → (f d).address ≡ d.address)
    → Distinct m
    → Distinct (modify address f m)
unfolding modify
Distinct-modify address f [] keeps v = tt
Distinct-modify address f (d ∷ rest) keeps v = ground (
  arith,
  keeps d,
  Distinct-modify address f rest keeps,
  Absent-modify d.address address f rest keeps,
)

All-modify :
    (P : Device → Type 0) (address : BdAddr) (f : Device → Device) (m : DeviceManager)
    → ((d : Device) → P d → P (f d))
    → All P m
    → All P (modify address f m)
unfolding modify
All-modify P address f [] keeps a = tt
All-modify P address f (d ∷ rest) keeps a = elim (Bool-cases (bytes_eq d.address address)) [
  | inl e ↦ rw e (keeps d a.0, a.1)
  | inr e ↦ rw e (a.0, All-modify P address f rest keeps a.1)
]

-- Writing a device keeps the list valid if it keeps the device's address and its name's end.
pub modify-IsValid :
    (address : BdAddr) (f : Device → Device) {m : DeviceManager}
    → ((d : Device) → (f d).address ≡ d.address)
    → ((d : Device) → NameEnds d → NameEnds (f d))
    → IsValid m
    → IsValid (modify address f m)
modify-IsValid address f {m} keeps ends v = record {
  bounded = omega (arith, v.bounded, length-modify address f m);
  distinct = Distinct-modify address f m keeps v.distinct;
  names = All-modify NameEnds address f m ends v.names;
}

-- Absent is what the search reports.
pub find-eq-none :
    (m : DeviceManager) (address : BdAddr) → device_manager_find m address ≡ none → Absent address m
unfolding device_manager_find
find-eq-none [] address h = tt
find-eq-none (d ∷ rest) address h = ground (arith, find-eq-none rest address)

pub find-append :
    (m : DeviceManager) (d : Device) (other : BdAddr)
    → device_manager_find (m ++ (d ∷ [])) other ≡ (elim (device_manager_find m other) [
      | some e ↦ some e
      | none ↦ if bytes_eq d.address other then some d else none
    ])
unfolding device_manager_find
find-append [] d other = ground arith
find-append (e ∷ rest) d other = ground (arith, find-append rest d other)

Absent-append :
    (a : BdAddr) (m : DeviceManager) (d : Device)
    → Absent a m
    → bytes_eq d.address a ≡ false
    → Absent a (m ++ (d ∷ []))
Absent-append a [] d h e = (e, tt)
Absent-append a (x ∷ m) d h e = (h.0, Absent-append a m d h.1 e)

pub Distinct-append :
    (m : DeviceManager) (d : Device) → Distinct m → Absent d.address m → Distinct (m ++ (d ∷ []))
Distinct-append [] d v a = (tt, tt)
Distinct-append (x ∷ m) d v a = (
  Absent-append x.address m d v.0
      (ground (arith, a.0, bytes_eq_iff x.address d.address, bytes_eq_iff d.address x.address)),
  Distinct-append m d v.1 a.1,
)

pub All-append :
    (P : Device → Type 0) (m : DeviceManager) (d : Device) → All P m → P d → All P (m ++ (d ∷ []))
All-append P [] d a p = (p, tt)
All-append P (x ∷ m) d a p = (a.0, All-append P m d a.1 p)
