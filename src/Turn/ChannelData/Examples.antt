-- ===== src/Turn/ChannelData/Examples.antt =====
-- The theorems about frames at concrete packets.
use bingle_rust.Base.{◌+◌, ◌%◌, ◌≤◌, ◌<◌, ◌≡◌, refl, [], ◌∷◌, none, some, length, take, arith, ◌⊎◌}
use bingle_rust.Turn.ChannelData.{Bytes, parse_channel_data_header, build_channel_data, get_range}
use bingle_rust.Turn.ChannelData.Laws.{
  IsRead, parse_channel_data_header-build_channel_data, parse_channel_data_header-IsFrame,
  build_channel_data-parse_channel_data_header,
}

abbrev pub three_bytes : Bytes
three_bytes = 1 ∷ 2 ∷ 3 ∷ []

abbrev pub framed : Bytes
framed = 64 ∷ 1 ∷ 0 ∷ 3 ∷ 1 ∷ 2 ∷ 3 ∷ 0 ∷ []

pub framed_built : build_channel_data 0x4001 three_bytes ≡ some framed
unfolding build_channel_data
framed_built = refl

parse_channel_data_header-build_channel_data_example :
    ((65535 < length three_bytes) × (build_channel_data 0x4001 three_bytes ≡ none))
    ⊎ ((length three_bytes ≤ 65535)
        × ((packet : Bytes) × (build_channel_data 0x4001 three_bytes ≡ some packet)
            × IsRead 0x4001 three_bytes (9 ∷ 9 ∷ []) packet))
parse_channel_data_header-build_channel_data_example =
    parse_channel_data_header-build_channel_data 0x4001 three_bytes (9 ∷ 9 ∷ []) (omega arith)

parse_channel_data_header-IsFrame_example :
    (4 + 3 + 1 ≤ length framed)
    × (1 < 4)
    × ((3 + 1) % 4 ≡ 0)
    × ((payload : Bytes) × (get_range 4 (4 + 3) framed ≡ some payload) × (length payload ≡ 3))
unfolding parse_channel_data_header
parse_channel_data_header-IsFrame_example = parse_channel_data_header-IsFrame framed 0x4001 3 1 refl

-- The padding of this packet is not zero.
abbrev odd_padding : Bytes
odd_padding = 64 ∷ 1 ∷ 0 ∷ 3 ∷ 1 ∷ 2 ∷ 3 ∷ 77 ∷ 8 ∷ []

build_channel_data-parse_channel_data_header_example :
    (again : Bytes) × (build_channel_data 0x4001 three_bytes ≡ some again)
    × (take (4 + 3) again ≡ take (4 + 3) odd_padding)
    × (length again ≡ 4 + 3 + 1)
unfolding parse_channel_data_header
build_channel_data-parse_channel_data_header_example =
    build_channel_data-parse_channel_data_header odd_padding 0x4001 3 1 three_bytes (omega arith)
      refl refl

too_short : parse_channel_data_header (64 ∷ 1 ∷ 0 ∷ 3 ∷ 1 ∷ 2 ∷ 3 ∷ []) ≡ none
unfolding parse_channel_data_header
too_short = refl
