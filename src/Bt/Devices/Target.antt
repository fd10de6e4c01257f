-- ===== src/Bt/Devices/Target.antt =====
-- Which keyboard bt/device_manager.c proposes to connect to.
use picow_bt_kb_hid.Base.{
  ◌≡◌, ◌⊎◌, inl, inr, Bool, true, false, ◌&&◌, [], ◌∷◌, Option, none, some, All, arith,
  Option-cases,
}
use picow_bt_kb_hid.Bt.Control.{BdAddr}
use picow_bt_kb_hid.Bt.Devices.{
  Device, DeviceManager, first_address, device_manager_get_connection_target,
}

-- Some device of the list satisfies `P`.
abbrev pub Any : (Device → Type 0) → DeviceManager → Type 0
Any P [] = ⊥
Any P (d ∷ rest) = P d ⊎ Any P rest

first_address-some :
    (test : Device → Bool) (m : DeviceManager) (address : BdAddr)
    → first_address test m ≡ some address
    → Any (λ d. (d.address ≡ address) × (test d ≡ true)) m
unfolding first_address
first_address-some test [] address h = ground arith
first_address-some test (d ∷ rest) address h = ground (arith, first_address-some test rest address)

first_address-none :
    (test : Device → Bool) (m : DeviceManager)
    → first_address test m ≡ none
    → All (λ d. test d ≡ false) m
unfolding first_address
first_address-none test [] h = tt
first_address-none test (d ∷ rest) h = ground (arith, first_address-none test rest)

-- What the choice of a connection target means for a list of devices.
abbrev pub IsChoice : DeviceManager → Option BdAddr → Type 0
IsChoice m none = All (λ d. d.hid_supported ≡ false) m
IsChoice m (some address) =
    Any (λ d. (d.address ≡ address) × (d.hid_supported ≡ true) × (d.bonded ≡ true)) m
    ⊎ (Any (λ d. (d.address ≡ address) × (d.hid_supported ≡ true)) m
        × All (λ d. (d.hid_supported && d.bonded) ≡ false) m)

Any-map :
    (P Q : Device → Type 0) (m : DeviceManager) → ((d : Device) → P d → Q d) → Any P m → Any Q m
Any-map P Q [] f h = h
Any-map P Q (d ∷ rest) f (inl h) = inl (f d h)
Any-map P Q (d ∷ rest) f (inr h) = inr (Any-map P Q rest f h)

-- The connection target is the address of a bonded keyboard of the list if it has one, else of a
-- keyboard; there is none only if the list has no keyboard.
pub get_connection_target-IsChoice :
    (m : DeviceManager) → IsChoice m (device_manager_get_connection_target m)
unfolding device_manager_get_connection_target
get_connection_target-IsChoice m =
    elim (Option-cases (first_address (λ d. d.hid_supported && d.bonded) m)) [
      | inr (address, e) ↦
          rw (e, device_manager_get_connection_target)
            (inl (
              Any-map _ _ m (λ d h. (h.0, ground arith, ground arith))
                (first_address-some (λ d. d.hid_supported && d.bonded) m address e)))
      | inl e ↦ elim (Option-cases (first_address (λ d. d.hid_supported) m)) [
        | inr (address, k) ↦
            rw (e, device_manager_get_connection_target, k)
              (inr (
                first_address-some (λ d. d.hid_supported) m address k,
                first_address-none (λ d. d.hid_supported && d.bonded) m e,
              ))
        | inl k ↦
            rw (e, device_manager_get_connection_target, k)
              (first_address-none (λ d. d.hid_supported) m k)
      ]
    ]
