-- ===== src/Base/Window.antt =====
-- A ring of items in a C array: the items that a head and a count denote, and what a write behind
-- the last of them and a step of the head do to them.
use picow_bt_kb_hid.Base.Lists.{
  length, get_or, set, take, drop, get_or-set_self, get_or-set_ne, take-drop,
}
use Prim.Native.Nat.{ℕ, zero, suc, ◌+◌, ◌%◌, ◌<◌, ◌≤◌, ◌-◌}
use mathlib.Core.Path.{◌≡◌, refl, ap, ap₂, ◌∙◌}
use mathlib.Core.Logic.{◌≢◌}
use mathlib.Core.List.{List, [], ◌∷◌, ◌++◌}
use native.Mathlib.Nat.{mod-add-mod, add-zero, mod-eq_of_lt, mod-eq-sub-mod}
use native.Mathlib.Decide.{dec_lt}
use native.Mathlib.Omega.{arith}

-- Two positions less than a whole turn apart are different slots.
pub slot-ne : (cap h k : ℕ) → h < cap → 0 < k → k < cap → (h + k) % cap ≢ h
slot-ne cap h k hh pos lt = elim (dec_lt (h + k) cap) [
  | yes p ↦ omega (arith, mod-eq_of_lt p)
  | no p ↦ omega (
    arith,
    mod-eq-sub-mod {n = h + k} {m = cap} (omega arith),
    mod-eq_of_lt {n = h + k - cap} {m = cap} (omega arith),
  )
]

module _ {ℓ} {A : Type ℓ} (d : A) (cap : ℕ) where
  -- The `n` items from slot `h` on, oldest first.
  abbrev pub window : List A → ℕ → ℕ → List A
  window buf h zero = []
  window buf h (suc n) = get_or buf h d ∷ window buf ((h + 1) % cap) n

  pub length-window : (buf : List A) (h n : ℕ) → length (window buf h n) ≡ n
  length-window buf h zero = refl
  length-window buf h (suc n) = ap suc (length-window buf ((h + 1) % cap) n)

  -- Taking the oldest item: the code tests `count == 0` and uses `count - 1`.
  pub window_front :
      (buf : List A) (h n : ℕ)
      → 0 < n
      → window buf h n ≡ get_or buf h d ∷ window buf ((h + 1) % cap) (n - 1)
  window_front buf h zero p = absurd (omega arith)
  window_front buf h (suc n) p = ap (λ k. window buf h (suc k)) (omega arith)

  -- Writing the slot behind the last item appends that item.
  pub window_back :
      (buf : List A) (h n : ℕ) (x : A)
      → cap ≤ length buf
      → h < cap
      → n < cap
      → window (set buf ((h + n) % cap) x) h (n + 1) ≡ window buf h n ++ (x ∷ [])
  window_back buf h n x hs hh hn =
      ap (window (set buf ((h + n) % cap) x) h) succ ∙ at_slot n h hh hn ((h + n) % cap) refl
    where
      succ : n + 1 ≡ suc n
      succ = omega arith

      at_slot :
          (m g : ℕ)
          → g < cap
          → m < cap
          → (i : ℕ) → i ≡ (g + m) % cap
          → window (set buf i x) g (suc m) ≡ window buf g m ++ (x ∷ [])
      at_slot zero g hg hm i e =
          ap (λ y. y ∷ [])
            (rw (e, add-zero, mod-eq_of_lt hg) (get_or-set_self buf g x d (omega arith)))
      at_slot (suc m) g hg hm i e =
          ap₂ ◌∷◌ (get_or-set_ne buf x d (rw e (slot-ne cap g (suc m) hg (omega arith) hm)))
            (at_slot m ((g + 1) % cap) (omega arith) (omega arith) i (e ∙ turn))
        where
          turn : (g + suc m) % cap ≡ ((g + 1) % cap + m) % cap
          turn = rw mod-add-mod (ap (λ k. k % cap) (omega arith))

  -- Items that lie in one piece from slot `h` on, and those behind them.
  pub window_slice :
      (buf : List A) (n h c : ℕ)
      → cap ≤ length buf
      → h < cap
      → h + n ≤ cap
      → n ≤ c
      → take n (drop h buf) ++ window buf ((h + n) % cap) (c - n) ≡ window buf h c
  window_slice buf zero h c hs hh hn hc =
      ap₂ (window buf) (rw (add-zero, mod-eq_of_lt hh) refl) (omega arith)
  window_slice buf (suc n) h zero hs hh hn hc = absurd (omega arith)
  window_slice buf (suc n) h (suc c) hs hh hn hc = rw (take-drop buf h n d (omega arith)) (
      ap (λ xs. get_or buf h d ∷ xs)
        (elim (dec_lt (h + 1) cap) [
          | yes p ↦
              let turn : (h + suc n) % cap ≡ (h + 1 + n) % cap = ap (λ k. k % cap) (omega arith) in
              let fewer : suc c - suc n ≡ c - n = omega arith in
              let next : (h + 1) % cap ≡ h + 1 = mod-eq_of_lt p in
              let slot : suc h ≡ h + 1 = omega arith in
              rw (turn, fewer, next, slot)
                (window_slice buf n (h + 1) c hs p (omega arith) (omega arith))
          | no p ↦
              let none_left : n ≡ 0 = omega arith in
              let fewer : suc c - 1 ≡ c = omega arith in rw (none_left, fewer) refl
        ]))
