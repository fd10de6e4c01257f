-- ===== src/Base/AtMost.antt =====
-- Texts of at most so many bytes.
use picow_bt_kb_hid.Base.Tests.{if◌then◌else◌}
use picow_bt_kb_hid.Base.Lists.{length, length-append}
use picow_bt_kb_hid.Base.Format.{digits, decimal}
use Prim.Native.Nat.{ℕ, zero, suc, ◌+◌, ◌/◌, ◌%◌, ◌≤◌}
use mathlib.Core.Bool.{Bool, true, false}
use mathlib.Core.List.{List, [], ◌∷◌, ◌++◌}
use native.Mathlib.Omega.{arith}

pub record AtMost (n : ℕ) (text : List ℕ) : Type 0 where
  pub bound : length text ≤ n

infixl 2 ◌and◌
pub ◌and◌ : {m n : ℕ} {xs ys : List ℕ} → AtMost m xs → AtMost n ys → AtMost (m + n) (xs ++ ys)
◌and◌ {xs = xs} {ys = ys} hm hn = record {
  bound = omega (arith, length-append xs ys, hm.bound, hn.bound);
}

pub exact : (text : List ℕ) → AtMost (length text) text
exact text = record { bound = omega arith }

pub looser : {m n : ℕ} {xs : List ℕ} → AtMost m xs → m ≤ n → AtMost n xs
looser h le = record { bound = omega (arith, h.bound) }

pub either :
    {n : ℕ} (b : Bool) {xs ys : List ℕ}
    → AtMost n xs
    → AtMost n ys
    → AtMost n (if b then xs else ys)
either true hx hy = hx
either false hx hy = hy

pub digits-AtMost :
    (places n : ℕ) (rest : List ℕ) → AtMost (places + length rest) (digits places n rest)
unfolding digits
digits-AtMost zero n rest = record { bound = omega arith }
digits-AtMost (suc places) n rest = record {
  bound = ground (arith, (digits-AtMost places (n / 10) ((48 + n % 10) ∷ rest)).bound);
}

pub decimal-AtMost : (n : ℕ) → AtMost 10 (decimal n)
unfolding decimal
decimal-AtMost n = digits-AtMost 10 n []
