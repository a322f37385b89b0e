-- ===== src/Turn/ChannelData.antt =====
-- The ChannelData framing of RFC 5766: `parse_channel_data_header` and `build_channel_data`, which
-- turn_handler.rs, turn_relay_handler_impl.rs and turn_client_handler_impl.rs each hold in the
-- same words. A byte is a number below 256.
pub mod Laws
pub mod Examples
use bingle_rust.Base.{
  ℕ, ◌+◌, ◌-◌, ◌*◌, ◌/◌, ◌%◌, List, [], ◌∷◌, ◌++◌, Option, none, some, ◌&&◌, ltb, leb, length, take,
  drop, replicate, if◌then◌else◌,
}

abbrev pub Bytes : Type 0
Bytes = List ℕ

-- `u16::from_be_bytes`.
abbrev pub from_be_bytes : ℕ → ℕ → ℕ
from_be_bytes hi lo = hi * 256 + lo

-- `u16::to_be_bytes`.
abbrev pub to_be_bytes : ℕ → Bytes
to_be_bytes n = (n / 256 % 256) ∷ (n % 256) ∷ []

-- `packet.get(lo..hi)`.
abbrev pub get_range : ℕ → ℕ → Bytes → Option Bytes
get_range lo hi p =
    if leb lo hi && leb hi (length p) then some (take (hi - lo) (drop lo p)) else none

-- `(len + 3) & !3`, which clears the two low bits.
abbrev pub padded : ℕ → ℕ
padded len = (len + 3) / 4 * 4

-- Channel, length of the data and length of the padding.
unfoldable pub parse_channel_data_header : Bytes → Option (ℕ × ℕ × ℕ)
parse_channel_data_header (b0 ∷ b1 ∷ b2 ∷ b3 ∷ rest) =
    let ch = from_be_bytes b0 b1 in
    let len = from_be_bytes b2 b3 in
    let total = 4 + length rest in
    if ltb total (4 + len)
    then none
    else if ltb total (4 + padded len)
    then none
    else some (ch, len, padded len - len)
parse_channel_data_header _ = none

abbrev pub pad : ℕ → ℕ
pad len = (4 - len % 4) % 4

unfoldable pub build_channel_data : ℕ → Bytes → Option Bytes
build_channel_data channel payload =
    if ltb 65535 (length payload)
    then none
    else some (
        to_be_bytes channel
        ++ (to_be_bytes (length payload) ++ (payload ++ replicate (pad (length payload)) 0)))
