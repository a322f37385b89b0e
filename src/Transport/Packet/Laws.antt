-- ===== src/Transport/Packet/Laws.antt =====
-- Packets that are built are read back, and every packet falls in one class.
use bingle_rust.Base.{ℕ, ◌+◌, ◌<◌, ◌≡◌, ◌∷◌, none, some, length, arith, All, drop}
use bingle_rust.Turn.ChannelData.{Bytes}
use bingle_rust.Transport.Packet.{
  data_single, ack_complete, build_header, build_data_single_packet, parse_packet,
  packet_type_ack_complete, frpt_header_len,
}

pub length-build_data_single_packet :
    (tx_id : ℕ) (block : Bytes)
    → length (build_data_single_packet tx_id block) ≡ length block + frpt_header_len
unfolding build_data_single_packet
length-build_data_single_packet tx_id block = ground arith

-- A data packet with a 16-bit number is read back with its number and its block, an acknowledgement
-- with its number, and the data packet is four bytes longer than its block.
pub parse_packet-build :
    (tx_id : ℕ) (block : Bytes)
    → tx_id < 65536
    → (parse_packet (build_data_single_packet tx_id block) ≡ some (data_single tx_id block))
      × (parse_packet (build_header packet_type_ack_complete tx_id) ≡ some (ack_complete tx_id))
      × (length (build_data_single_packet tx_id block) ≡ length block + frpt_header_len)
unfolding parse_packet build_data_single_packet
parse_packet-build tx_id block h = ground arith

-- Of a packet of bytes: one that parses as data has a number below 65536 and carries all that
-- follows the header; one that parses as an acknowledgement has such a number and nothing behind
-- the header; and one that is shorter than the header does not parse.
parse_packet_classes :
    (packet : Bytes)
    → All (λ b. b < 256) packet
    → ((tx_id : ℕ) (block : Bytes)
        → parse_packet packet ≡ some (data_single tx_id block)
        → (tx_id < 65536) × (length packet ≡ length block + 4) × (drop 4 packet ≡ block))
      × ((tx_id : ℕ)
          → parse_packet packet ≡ some (ack_complete tx_id)
          → (tx_id < 65536) × (length packet ≡ 4))
      × (length packet < 4 → parse_packet packet ≡ none)
unfolding parse_packet
parse_packet_classes (b0 ∷ b1 ∷ b2 ∷ b3 ∷ rest) v =
    (λ tx_id block e. ground arith, λ tx_id e. ground arith, λ e. ground arith)
parse_packet_classes _ v =
    (λ tx_id block e. ground arith, λ tx_id e. ground arith, λ e. ground arith)
