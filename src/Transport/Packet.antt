-- ===== src/Transport/Packet.antt =====
-- The packets: `build_header`, `build_data_single_packet` and `parse_packet`.
pub mod Laws
use bingle_rust.Base.{
  ℕ, ◌+◌, ◌*◌, ◌/◌, ◌%◌, List, [], ◌∷◌, ◌++◌, Option, none, some, ◌==◌, length, if◌then◌else◌,
}
use bingle_rust.Turn.ChannelData.{Bytes, from_be_bytes}

abbrev pub frpt_version : ℕ
frpt_version = 0x1

abbrev pub packet_type_data_single : ℕ
packet_type_data_single = 0x1

abbrev pub packet_type_ack_complete : ℕ
packet_type_ack_complete = 0x4

abbrev pub frpt_header_len : ℕ
frpt_header_len = 4

pub data ParsedPacket : Type 0 where
  data_single : ℕ → Bytes → ParsedPacket
  ack_complete : ℕ → ParsedPacket
  unsupported_frpt : ParsedPacket

-- The halves of the first byte do not overlap, so `|` is `+`.
unfoldable pub build_header : ℕ → ℕ → Bytes
build_header packet_type tx_id =
    (frpt_version % 16 * 16 + packet_type % 16) ∷ 0 ∷ (tx_id / 256 % 256) ∷ (tx_id % 256) ∷ []

unfoldable pub build_data_single_packet : ℕ → Bytes → Bytes
unfolding build_header
build_data_single_packet tx_id payload = build_header packet_type_data_single tx_id ++ payload

unfoldable pub parse_packet : Bytes → Option ParsedPacket
parse_packet (ver_type ∷ _ ∷ hi ∷ lo ∷ payload) =
    let version = ver_type / 16 in
    let packet_type = ver_type % 16 in
    let tx_id = from_be_bytes hi lo in
    if version == frpt_version
    then if packet_type == packet_type_data_single
      then some (data_single tx_id payload)
      else if packet_type == packet_type_ack_complete
      then if length payload == 0 then some (ack_complete tx_id) else some unsupported_frpt
      else some unsupported_frpt
    else none
parse_packet _ = none
