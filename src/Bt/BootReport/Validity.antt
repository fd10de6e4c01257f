-- ===== src/Bt/BootReport/Validity.antt =====
-- Which boot reports bt/hid_boot_report.c accepts.
use picow_bt_kb_hid.Base.{
  ℕ, ◌≤◌, ◌≡◌, refl, ◌↔◌, ◌⊎◌, inl, inr, Bool, true, false, ◌||◌, not, List, [], ◌∷◌, All, arith,
  Bool-cases,
}
use picow_bt_kb_hid.Bt.BootReport.{is_error_usage, scan_keycodes, hid_boot_keyboard_report_valid}

-- The usages ErrorRollOver, POSTFail and ErrorUndefined.
abbrev pub IsErrorUsage : ℕ → Type 0
IsErrorUsage k = (1 ≤ k) × (k ≤ 3)

abbrev pub NoErrors : List ℕ → Type 0
NoErrors = All (λ k. IsErrorUsage k → ⊥)

abbrev pub AllSame : ℕ → List ℕ → Type 0
AllSame first = All (λ k. k ≡ first)

-- The second flag of the scan stays down, and the first stays up.
scan_contains :
    (first : ℕ) (keys : List ℕ) (same : Bool) → (scan_keycodes first keys true same).0 ≡ true
unfolding scan_keycodes
scan_contains first [] same = refl
scan_contains first (k ∷ keys) same =
    ground (arith, scan_contains first keys same, scan_contains first keys false)

scan_contains_iff :
    (first : ℕ) (keys : List ℕ) (same : Bool)
    → ((scan_keycodes first keys false same).0 ≡ false) ↔ NoErrors keys
unfolding scan_keycodes
scan_contains_iff first [] same = (λ _. tt, λ _. refl)
scan_contains_iff first (k ∷ keys) same = ground (
  arith,
  scan_contains first keys same,
  scan_contains first keys false,
  scan_contains_iff first keys same,
  scan_contains_iff first keys false,
)

scan_different :
    (first : ℕ) (keys : List ℕ) (contains : Bool)
    → (scan_keycodes first keys contains false).1 ≡ false
unfolding scan_keycodes
scan_different first [] contains = refl
scan_different first (k ∷ keys) contains =
    ground (arith, scan_different first keys contains, scan_different first keys true)

scan_same_iff :
    (first : ℕ) (keys : List ℕ) (contains : Bool)
    → ((scan_keycodes first keys contains true).1 ≡ true) ↔ AllSame first keys
unfolding scan_keycodes
scan_same_iff first [] contains = (λ _. tt, λ _. refl)
scan_same_iff first (k ∷ keys) contains = ground (
  arith,
  scan_different first keys contains,
  scan_different first keys true,
  scan_same_iff first keys contains,
  scan_same_iff first keys true,
)

verdict_iff :
    (first : ℕ) (keys : List ℕ)
    → let (contains, same) = scan_keycodes first keys false (is_error_usage first) in
      ((not contains || same) ≡ true) ↔ (NoErrors keys ⊎ (IsErrorUsage first × AllSame first keys))
verdict_iff first keys = elim (Bool-cases (is_error_usage first)) [
  | inl e ↦ rw e (ground (arith, scan_contains_iff first keys true, scan_same_iff first keys false))
  | inr e ↦
      rw e (ground (arith, scan_contains_iff first keys false, scan_different first keys false))
]

-- A boot report of eight bytes is accepted exactly when its reserved byte is 0 and either no key
-- slot holds one of the error usages 1 to 3, or all six slots hold the same error usage.
pub report_valid_iff :
    (modifier reserved k0 k1 k2 k3 k4 k5 : ℕ)
    → let keys = k0 ∷ k1 ∷ k2 ∷ k3 ∷ k4 ∷ k5 ∷ [] in
      (hid_boot_keyboard_report_valid (modifier ∷ reserved ∷ keys) ≡ true)
      ↔ ((reserved ≡ 0) × (NoErrors keys ⊎ (IsErrorUsage k0 × AllSame k0 keys)))
unfolding hid_boot_keyboard_report_valid
report_valid_iff modifier reserved k0 k1 k2 k3 k4 k5 =
    ground (arith, verdict_iff k0 (k0 ∷ k1 ∷ k2 ∷ k3 ∷ k4 ∷ k5 ∷ []))
