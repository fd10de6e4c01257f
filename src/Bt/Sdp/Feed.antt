-- ===== src/Bt/Sdp/Feed.antt =====
-- bt/sdp_parser.c: what a complete attribute means for the device, and the reassembly of attributes.
-- A device pointer that is NULL is `none`; the texts that the code prints are left out.
use picow_bt_kb_hid.Base.{
  ℕ, ◌+◌, ◌-◌, ◌%◌, ◌^◌, Bool, true, false, not, ◌&&◌, ◌||◌, List, ◌∷◌, ◌++◌, none, some,
  if◌then◌else◌, ◌==◌, ltb, leb, set, take, drop,
}
use picow_bt_kb_hid.Bt.Devices.{Device, name_max_length}
use picow_bt_kb_hid.Bt.ReportDescriptor.Item.{Info}
use picow_bt_kb_hid.Bt.ReportDescriptor.Parse.{hid_report_descriptor_parse}
use picow_bt_kb_hid.Bt.Sdp.Element.{de_string, read_element}
use picow_bt_kb_hid.Bt.Sdp.Search.{find_report_descriptor, find_l2cap_psm}

-- `SDP_PARSER_BUFFER_SIZE`.
abbrev pub buffer_size : ℕ
buffer_size = 256

-- `SdpParser`.
pub record SdpParser : Type 0 where
  pub buffer : List ℕ
  pub completed_attribute_count : ℕ

-- `SDP_ATTR_PROTOCOL_DESCRIPTOR_LIST` and the others.
abbrev pub attr_protocol : ℕ
attr_protocol = 0x0004

abbrev pub attr_additional_protocols : ℕ
attr_additional_protocols = 0x000d

abbrev pub attr_service_name : ℕ
attr_service_name = 0x0100

abbrev pub attr_hid_descriptor_list : ℕ
attr_hid_descriptor_list = 0x0206

-- `report_descriptor_present` set, and the results of an earlier descriptor cleared.
unfoldable pub clear_report : Bool → Device → Device
clear_report too_large d = record d {
  report_descriptor_present = true;
  report_descriptor_too_large = too_large;
  report_descriptor_valid = false;
  report_has_keyboard = false;
  report_has_consumer_control = false;
  report_has_nkro_keyboard = false;
  report_uses_ids = false;
}

-- The results of the report descriptor parser in the device.
unfoldable pub store_info : Info → Device → Device
store_info info d = record d {
  report_descriptor_valid = info.valid;
  report_has_keyboard = info.has_keyboard;
  report_has_consumer_control = info.has_consumer_control;
  report_has_nkro_keyboard = info.has_nkro_keyboard;
  report_uses_ids = info.uses_report_ids;
}

-- The branch of `parse_attribute` for the HID descriptor list.
unfoldable pub parse_descriptor_list : List ℕ → ℕ → Device → Device
unfolding clear_report store_info
parse_descriptor_list buffer size d =
    let d' = clear_report false d in
    elim (find_report_descriptor buffer size) [
      | none ↦ d'
      | some (descriptor, descriptor_size) ↦
          store_info (hid_report_descriptor_parse (take descriptor_size descriptor)) d'
    ]

-- The branch for the two lists of protocol descriptors.
unfoldable pub parse_protocols : ℕ → List ℕ → ℕ → Device → Device
parse_protocols attribute_id buffer size d = elim (find_l2cap_psm size buffer size) [
  | none ↦ d
  | some psm ↦
      if attribute_id == attr_protocol
      then record d { hid_control_psm = psm }
      else record d { hid_interrupt_psm = psm }
]

-- The branch for the service name, which stands in for a name that the inquiry did not give.
unfoldable pub parse_service_name : List ℕ → ℕ → Device → Device
parse_service_name buffer size d = elim (read_element buffer size) [
  | none ↦ d
  | some text ↦
      let n = if leb name_max_length text.data_size then name_max_length - 1 else text.data_size in
      if not (text.type == de_string)
      then d
      else if not d.has_name && ltb 0 n
      then record d { name = take n text.payload ++ (0 ∷ drop (n + 1) d.name); has_name = true }
      else d
]

-- `parse_attribute`, on a device that is not NULL; on NULL it changes nothing.
unfoldable pub parse_attribute : ℕ → List ℕ → ℕ → Device → Device
unfolding parse_descriptor_list parse_protocols parse_service_name
parse_attribute attribute_id buffer size d =
    if attribute_id == attr_hid_descriptor_list
    then parse_descriptor_list buffer size d
    else if attribute_id == attr_protocol || attribute_id == attr_additional_protocols
    then parse_protocols attribute_id buffer size d
    else if attribute_id == attr_service_name
    then parse_service_name buffer size d
    else d

-- `sdp_parser_reset`.
unfoldable pub sdp_parser_reset : SdpParser → SdpParser
sdp_parser_reset p = record p { completed_attribute_count = 0 }

-- What `sdp_parser_feed` does with the device: a function that is applied to the device if there is
-- one.
unfoldable pub sdp_parser_feed : SdpParser → ℕ → ℕ → ℕ → ℕ → SdpParser × (Device → Device)
unfolding clear_report
sdp_parser_feed p attribute_id attribute_length attribute_offset byte =
    if attribute_length == 0 || leb attribute_length attribute_offset
    then (p, λ d. d)
    else if ltb buffer_size attribute_length
    then (if attribute_id == attr_hid_descriptor_list then (p, clear_report true) else (p, λ d. d))
    else let p' = record p { buffer = set p.buffer attribute_offset byte } in
      if attribute_offset + 1 == attribute_length
      then (
        record p' { completed_attribute_count = (p.completed_attribute_count + 1) % 2 ^ 16 },
        parse_attribute attribute_id p'.buffer attribute_length,
      )
      else (p', λ d. d)
