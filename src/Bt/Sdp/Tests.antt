-- ===== src/Bt/Sdp/Tests.antt =====
-- The SDP parser at concrete attributes.
use picow_bt_kb_hid.Base.{◌≡◌, refl, [], ◌∷◌, ◌++◌, replicate, arith}
use picow_bt_kb_hid.Bt.Devices.{blank_device}
use picow_bt_kb_hid.Bt.Sdp.Element.{read_element, size_index_valid}
use picow_bt_kb_hid.Bt.Sdp.Search.{find_l2cap_psm}
use picow_bt_kb_hid.Bt.Sdp.Feed.{
  SdpParser, buffer_size, attr_protocol, attr_additional_protocols, parse_attribute,
}
use picow_bt_kb_hid.Bt.Sdp.Within.{IsWithin, read_element-IsWithin}
use picow_bt_kb_hid.Bt.Sdp.Fuel.{find_l2cap_psm-fuel}
use picow_bt_kb_hid.Bt.Sdp.Reassembly.{feed_from, completed, feed_from_lem}
use picow_bt_kb_hid.Bt.Sdp.Protocol.{protocol_list, parse_attribute-protocol_list}

-- The two bytes of a UUID, as a data element of three bytes, with a byte behind it.
read_element-IsWithin_example :
    IsWithin
      (0x19 ∷ 1 ∷ 0 ∷ 7 ∷ [])
      4
      (record { type = 3; size_index = 1; payload = 1 ∷ 0 ∷ 7 ∷ []; data_size = 2; total_size = 3 })
unfolding read_element size_index_valid
read_element-IsWithin_example =
    read_element-IsWithin (0x19 ∷ 1 ∷ 0 ∷ 7 ∷ []) 4
      (record { type = 3; size_index = 1; payload = 1 ∷ 0 ∷ 7 ∷ []; data_size = 2; total_size = 3 })
      (omega arith) refl

find_l2cap_psm-fuel_example :
    find_l2cap_psm 15 (protocol_list 0x11) 15 ≡ find_l2cap_psm 100 (protocol_list 0x11) 15
find_l2cap_psm-fuel_example =
    find_l2cap_psm-fuel 15 100 (protocol_list 0x11) 15 (omega arith) (omega arith) (omega arith)

parse_attribute-protocol_list_example :
    (parse_attribute attr_protocol (protocol_list 0x11 ++ (9 ∷ [])) 15 (blank_device [])
      ≡ record (blank_device []) { hid_control_psm = 0x11 })
    × (parse_attribute attr_additional_protocols
          (0x35 ∷ 15 ∷ (protocol_list 0x11 ++ (9 ∷ [])))
          17
          (blank_device [])
        ≡ record (blank_device []) { hid_interrupt_psm = 0x11 })
parse_attribute-protocol_list_example =
    parse_attribute-protocol_list 0x11 (9 ∷ []) (blank_device [])

abbrev empty_parser : SdpParser
empty_parser = record { buffer = replicate buffer_size 0; completed_attribute_count = 0 }

feed_from_lem_example :
    feed_from empty_parser attr_protocol 2 0 (0x35 ∷ 0 ∷ []) (blank_device [])
    ≡ completed empty_parser attr_protocol 2 (0x35 ∷ 0 ∷ replicate 254 0) (blank_device [])
feed_from_lem_example =
    feed_from_lem empty_parser attr_protocol 0x35 (0 ∷ []) (replicate 2 0) (replicate 254 0)
      (blank_device []) refl refl (omega arith)
