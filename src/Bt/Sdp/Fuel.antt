-- ===== src/Bt/Sdp/Fuel.antt =====
-- bt/sdp_parser.c: the fuel of the search for a PSM.
use picow_bt_kb_hid.Base.{
  ℕ, zero, suc, ◌-◌, ◌^◌, ◌≡◌, ◌≤◌, ◌<◌, refl, not, List, Option, none, some, if◌then◌else◌, ◌==◌,
  drop, ap, ap₂, Bool-cases, Option-cases, inl, inr, arith,
}
use picow_bt_kb_hid.Bt.Sdp.Element.{de_sequence, read_element}
use picow_bt_kb_hid.Bt.Sdp.Search.{l2cap_entry, find_in_children, find_l2cap_psm}
use picow_bt_kb_hid.Bt.Sdp.Within.{read_element-IsWithin}

-- A child takes a byte at least, and leaves less to go through.
module _ (f g remaining : ℕ) (enough : remaining ≤ suc f) (also : remaining ≤ suc g) where
  left_fits : (n : ℕ) → 0 < n → n ≤ remaining → (remaining - n ≤ f) × (remaining - n ≤ g)
  left_fits n takes fits = (omega arith, omega arith)

find_in_children-fuel :
    (find find' : List ℕ → ℕ → Option ℕ) (bound f g : ℕ) (bytes : List ℕ) (remaining : ℕ)
    → remaining ≤ f
    → remaining ≤ g
    → remaining ≤ bound
    → remaining < 2 ^ 16
    → ((b : List ℕ) (n : ℕ) → n ≤ bound → find b n ≡ find' b n)
    → find_in_children find f bytes remaining ≡ find_in_children find' g bytes remaining
unfolding find_in_children
find_in_children-fuel find find' bound zero zero bytes remaining hf hg hb small agree = refl
find_in_children-fuel find find' bound zero (suc g) bytes remaining hf hg hb small agree =
    let e : remaining ≡ 0 = omega arith in rw e refl
find_in_children-fuel find find' bound (suc f) zero bytes remaining hf hg hb small agree =
    let e : remaining ≡ 0 = omega arith in rw e refl
find_in_children-fuel find find' bound (suc f) (suc g) bytes remaining hf hg hb small agree =
    elim (Bool-cases (remaining == 0)) [
      | inl e ↦ rw e refl
      | inr e ↦ rw e (elim (Option-cases (read_element bytes remaining)) [
        | inl r ↦ rw r refl
        | inr (child, r) ↦
            let w = read_element-IsWithin bytes remaining child small r in
            let fits = left_fits f g remaining hf hg child.total_size w.takes w.fits in
            rw r (
              ap₂
                (λ (later inner : Option ℕ).
                  if not (child.type == de_sequence) then later else elim (l2cap_entry child) [
                    | some psm ↦ some psm
                    | none ↦ elim inner [ some psm ↦ some psm | none ↦ later ]
                  ])
                (find_in_children-fuel find find' bound f g (drop child.total_size bytes)
                  (remaining - child.total_size) fits.0 fits.1 (omega (arith, hb))
                  (omega (arith, small)) agree)
                (agree bytes child.total_size (omega (arith, w.fits, hb))))
      ])
    ]

read_empty : (buffer : List ℕ) → read_element buffer 0 ≡ none
unfolding read_element
read_empty buffer = refl

-- Nesting as deep as the attribute has bytes is enough: on fewer than 2 ^ 16 bytes, any two bounds on
-- the nesting that are at least the number of the bytes give the same PSM.
pub find_l2cap_psm-fuel :
    (m n : ℕ) (buffer : List ℕ) (size : ℕ)
    → size ≤ m
    → size ≤ n
    → size < 2 ^ 16
    → find_l2cap_psm m buffer size ≡ find_l2cap_psm n buffer size
unfolding find_l2cap_psm
find_l2cap_psm-fuel zero zero buffer size hm hn small = refl
find_l2cap_psm-fuel zero (suc n) buffer size hm hn small =
    let e : size ≡ 0 = omega arith in rw (e, find_l2cap_psm, read_empty buffer) refl
find_l2cap_psm-fuel (suc m) zero buffer size hm hn small =
    let e : size ≡ 0 = omega arith in rw (e, find_l2cap_psm, read_empty buffer) refl
find_l2cap_psm-fuel (suc m) (suc n) buffer size hm hn small =
    elim (Option-cases (read_element buffer size)) [
      | inl r ↦ rw (find_l2cap_psm, r) refl
      | inr (root, r) ↦
          let w = read_element-IsWithin buffer size root small r in
          rw (find_l2cap_psm, r)
            (ap (λ (o : Option ℕ). if not (root.type == de_sequence) then none else o)
              (find_in_children-fuel (find_l2cap_psm m) (find_l2cap_psm n) root.data_size
                root.data_size root.data_size root.payload root.data_size (omega arith)
                (omega arith) (omega arith) (omega (arith, w.inside, w.fits))
                (λ b k h.
                  find_l2cap_psm-fuel m n b k (omega (arith, h, w.inside, w.fits, hm))
                    (omega (arith, h, w.inside, w.fits, hn)) (omega (arith, h, w.inside, w.fits)))))
    ]
