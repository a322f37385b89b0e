-- ===== src/Turn/ChannelData/Laws.antt =====
-- ChannelData frames: what is built parses back, whatever follows it, and what parses is a frame.
use bingle_rust.Base.{
  ℕ, suc, ◌+◌, ◌-◌, ◌%◌, ◌≤◌, ◌<◌, ◌≡◌, ◌∷◌, ◌++◌, some, length, take, drop, replicate, arith,
  length-append, length-replicate, length-take, take-append, Bool-cases, ltb, inl, inr, ◌⊎◌, none,
  true, ◌/◌, All,
}
use bingle_rust.Turn.ChannelData.{
  Bytes, to_be_bytes, parse_channel_data_header, build_channel_data, get_range, pad, from_be_bytes,
}
use mathlib.Core.List.{append_assoc}

-- The data of a packet that is long enough.
pub get_range_prefix :
    (len : ℕ) (packet : Bytes)
    → 4 + len ≤ length packet
    → get_range 4 (4 + len) packet ≡ some (take len (drop 4 packet))
get_range_prefix len packet h = let e : 4 + len - 4 ≡ len = omega arith in rw e (ground arith)

-- What `build_channel_data` returns.
abbrev frame : ℕ → Bytes → Bytes
frame ch payload =
    to_be_bytes ch
    ++ (to_be_bytes (length payload) ++ (payload ++ replicate (pad (length payload)) 0))

build_channel_data-frame :
    (ch : ℕ) (payload packet : Bytes)
    → build_channel_data ch payload ≡ some packet
    → (length payload ≤ 65535) × (frame ch payload ≡ packet)
unfolding build_channel_data
build_channel_data-frame ch payload packet h = elim (Bool-cases (ltb 65535 (length payload))) [
  | inl big ↦ ground arith
  | inr fits ↦ (ground arith, ground arith)
]

too_long-build_channel_data :
    (ch : ℕ) (payload : Bytes)
    → ltb 65535 (length payload) ≡ true
    → build_channel_data ch payload ≡ none
unfolding build_channel_data
too_long-build_channel_data ch payload h = ground arith

frame-build_channel_data :
    (ch : ℕ) (payload : Bytes)
    → length payload ≤ 65535
    → build_channel_data ch payload ≡ some (frame ch payload)
unfolding build_channel_data
frame-build_channel_data ch payload h = ground arith

length-padded :
    (payload : Bytes)
    → length (payload ++ replicate (pad (length payload)) 0) ≡ length payload + pad (length payload)
length-padded payload = omega (
  arith,
  length-append payload (replicate (pad (length payload)) 0),
  length-replicate {A = ℕ} (pad (length payload)) 0,
)

length-frame :
    (payload rest : Bytes)
    → length ((payload ++ replicate (pad (length payload)) 0) ++ rest)
      ≡ length payload + pad (length payload) + length rest
length-frame payload rest = omega (
  arith,
  length-append (payload ++ replicate (pad (length payload)) 0) rest,
  length-padded payload,
)

take-frame :
    (payload rest : Bytes)
    → take (length payload) ((payload ++ replicate (pad (length payload)) 0) ++ rest) ≡ payload
take-frame payload rest = rw append_assoc (take-append payload _)

-- The statement for the frame itself.
frame_lem :
    (ch : ℕ) (payload rest : Bytes)
    → ch < 65536
    → length payload ≤ 65535
    → (parse_channel_data_header (frame ch payload ++ rest)
        ≡ some (ch, length payload, pad (length payload)))
      × (get_range 4 (4 + length payload) (frame ch payload ++ rest) ≡ some payload)
      × (length (frame ch payload) ≡ 4 + length payload + pad (length payload))
      × (length (frame ch payload) % 4 ≡ 0)
unfolding parse_channel_data_header
frame_lem ch payload rest hc hl =
    let c : from_be_bytes (ch / 256 % 256) (ch % 256) ≡ ch = omega arith in
    let l : from_be_bytes (length payload / 256 % 256) (length payload % 256) ≡ length payload =
      omega arith in
    (
      rw (c, l) (ground (arith, length-frame payload rest)),
      ground (
        arith,
        length-frame payload rest,
        take-frame payload rest,
        get_range_prefix (length payload) (frame ch payload ++ rest),
      ),
      omega (arith, length-padded payload),
      omega (arith, length-padded payload),
    )

-- A frame that is built is read back, also with other bytes behind it.
abbrev pub IsRead : ℕ → Bytes → Bytes → Bytes → Type 0
IsRead ch payload rest packet =
    (parse_channel_data_header (packet ++ rest) ≡ some (ch, length payload, pad (length payload)))
    × (get_range 4 (4 + length payload) (packet ++ rest) ≡ some payload)
    × (length packet ≡ 4 + length payload + pad (length payload))
    × (length packet % 4 ≡ 0)

pub built_parses :
    (ch : ℕ) (payload rest packet : Bytes)
    → ch < 65536
    → build_channel_data ch payload ≡ some packet
    → IsRead ch payload rest packet
built_parses ch payload rest packet hc h =
    let (fits, built) = build_channel_data-frame ch payload packet h in
    rw (← built) (frame_lem ch payload rest hc fits)

-- For a 16-bit channel, either the data is longer than 65535 bytes and no frame is built, or a
-- frame is built: it parses to its channel and the length of the data also with other bytes behind
-- it, the data is read back, and the length is a multiple of four.
pub parse_channel_data_header-build_channel_data :
    (ch : ℕ) (payload rest : Bytes)
    → ch < 65536
    → ((65535 < length payload) × (build_channel_data ch payload ≡ none))
      ⊎ ((length payload ≤ 65535)
          × ((packet : Bytes) × (build_channel_data ch payload ≡ some packet)
              × IsRead ch payload rest packet))
parse_channel_data_header-build_channel_data ch payload rest hc =
    elim (Bool-cases (ltb 65535 (length payload))) [
      | inl big ↦ inl (ground arith, too_long-build_channel_data ch payload big)
      | inr small ↦
          let fits : length payload ≤ 65535 = ground arith in
          let built = frame-build_channel_data ch payload fits in
          inr (
            fits,
            (frame ch payload, built, built_parses ch payload rest (frame ch payload) hc built),
          )
    ]

-- What parses is a frame: the data and its padding to a multiple of four lie inside the packet, so
-- that reading the data never fails, and the data has the length that the header says.
pub parse_channel_data_header-IsFrame :
    (packet : Bytes) (ch len padding : ℕ)
    → parse_channel_data_header packet ≡ some (ch, len, padding)
    → (4 + len + padding ≤ length packet)
      × (padding < 4)
      × ((len + padding) % 4 ≡ 0)
      × ((payload : Bytes) × (get_range 4 (4 + len) packet ≡ some payload) × (length payload ≡ len))
unfolding parse_channel_data_header
parse_channel_data_header-IsFrame (b0 ∷ b1 ∷ b2 ∷ b3 ∷ rest) ch len padding h = (
  ground arith,
  ground arith,
  ground arith,
  (
    take len rest,
    get_range_prefix len (b0 ∷ b1 ∷ b2 ∷ b3 ∷ rest) (ground arith),
    length-take len rest (ground arith),
  ),
)
parse_channel_data_header-IsFrame _ ch len padding h = ground arith

frame_prefix :
    (b0 b1 b2 b3 : ℕ) (rest : Bytes)
    → All (λ b. b < 256) (b0 ∷ b1 ∷ b2 ∷ b3 ∷ rest)
    → (len : ℕ) → from_be_bytes b2 b3 ≡ len
    → len ≤ length rest
    → take (4 + len) (frame (from_be_bytes b0 b1) (take len rest))
      ≡ take (4 + len) (b0 ∷ b1 ∷ b2 ∷ b3 ∷ rest)
frame_prefix b0 b1 b2 b3 rest (v0, (v1, (v2, (v3, v)))) len e h =
    let four : 4 + len ≡ suc (suc (suc (suc len))) = omega arith in
    let l = length-take len rest h in
    rw four
      (ground (arith, l, take-append (take len rest) (replicate (pad (length (take len rest))) 0)))

-- A packet of bytes that parses is the frame of its own data, up to the values of its padding and
-- what follows: building the data again gives the packet's first bytes.
pub build_channel_data-parse_channel_data_header :
    (packet : Bytes) (ch len padding : ℕ) (payload : Bytes)
    → All (λ b. b < 256) packet
    → parse_channel_data_header packet ≡ some (ch, len, padding)
    → get_range 4 (4 + len) packet ≡ some payload
    → (again : Bytes) × (build_channel_data ch payload ≡ some again)
      × (take (4 + len) again ≡ take (4 + len) packet)
      × (length again ≡ 4 + len + padding)
unfolding parse_channel_data_header
build_channel_data-parse_channel_data_header (b0 ∷ b1 ∷ b2 ∷ b3 ∷ rest) ch len padding payload v h
      g =
    let fits : len ≤ length rest = ground arith in
    let l = length-take len rest fits in
    let e : take len rest ≡ payload =
      ground (arith, get_range_prefix len (b0 ∷ b1 ∷ b2 ∷ b3 ∷ rest)) in
    let c : from_be_bytes b0 b1 ≡ ch = ground arith in
    let n : from_be_bytes b2 b3 ≡ len = ground arith in
    rw (← e, ← c)
      (
        frame (from_be_bytes b0 b1) (take len rest),
        frame-build_channel_data (from_be_bytes b0 b1) (take len rest) (omega arith),
        frame_prefix b0 b1 b2 b3 rest v len n fits,
        ground (arith, l, length-padded (take len rest)),
      )
build_channel_data-parse_channel_data_header _ ch len padding payload v h g = ground arith
