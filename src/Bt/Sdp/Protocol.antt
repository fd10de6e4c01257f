-- ===== src/Bt/Sdp/Protocol.antt =====
-- bt/sdp_parser.c: the PSM in the protocol descriptors of an HID service.
use picow_bt_kb_hid.Base.{ℕ, ◌+◌, ◌*◌, ◌/◌, ◌%◌, ◌≡◌, ap, List, [], ◌∷◌, ◌++◌, some, arith}
use picow_bt_kb_hid.Bt.Sdp.Element.{
  read_element, element_uint16, size_index_valid, element_sizes, make_element, read_length,
}
use picow_bt_kb_hid.Bt.Devices.{Device}
use picow_bt_kb_hid.Bt.Sdp.Feed.{
  attr_protocol, attr_additional_protocols, parse_attribute, parse_protocols,
}
use picow_bt_kb_hid.Bt.Sdp.Search.{find_l2cap_psm, find_in_children, l2cap_entry}

-- The protocol descriptors that the HID profile asks for: a sequence of the two protocols L2CAP, with
-- its PSM, and HIDP (0x0011), where `behind` is what else the second one has.
abbrev pub protocol_list : ℕ → List ℕ
protocol_list psm =
    0x35
    ∷ 13
    ∷ 0x35
    ∷ 6
    ∷ 0x19
    ∷ 0x01
    ∷ 0x00
    ∷ 0x09
    ∷ psm / 256
    ∷ psm % 256
    ∷ 0x35
    ∷ 3
    ∷ 0x19
    ∷ 0x00
    ∷ 0x11
    ∷ []

-- The L2CAP PSM is found, whatever follows the list in the buffer.
pub find_l2cap_psm-protocol_list :
    (psm : ℕ) (behind : List ℕ) → find_l2cap_psm 15 (protocol_list psm ++ behind) 15 ≡ some psm
unfolding find_l2cap_psm find_in_children l2cap_entry read_element element_uint16 size_index_valid
    element_sizes make_element read_length
find_l2cap_psm-protocol_list psm behind = ap some (omega arith)

-- The two protocol attributes of a keyboard's record set the two PSMs of the device and nothing
-- else: the descriptor list the control PSM, and the additional list, which wraps such a list in a
-- sequence, the interrupt PSM.
pub parse_attribute-protocol_list :
    (psm : ℕ) (behind : List ℕ) (d : Device)
    → (parse_attribute attr_protocol (protocol_list psm ++ behind) 15 d
        ≡ record d { hid_control_psm = psm })
      × (parse_attribute attr_additional_protocols (0x35 ∷ 15 ∷ (protocol_list psm ++ behind)) 17 d
          ≡ record d { hid_interrupt_psm = psm })
unfolding parse_attribute parse_protocols find_l2cap_psm find_in_children l2cap_entry read_element
    element_uint16 size_index_valid read_length
parse_attribute-protocol_list psm behind d =
    let e : psm / 256 * 256 + psm % 256 ≡ psm = omega arith in
    (
      ap (λ (n : ℕ). record d { hid_control_psm = n }) e,
      ap (λ (n : ℕ). record d { hid_interrupt_psm = n }) e,
    )
