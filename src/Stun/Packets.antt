-- ===== src/Stun/Packets.antt =====
-- STUN packets: `build_binding_request` and `parse_xor_mapped_address` of the finder
-- (bingle_core/src/stun/stun_endpoint_finder_impl.rs), and the reply of `SimpleStunServer`
-- (simple_stun_server.rs).
pub mod Xor
pub mod RoundTrip
pub mod Fuel
use bingle_rust.Base.{
  ℕ, zero, suc, ◌+◌, ◌-◌, ◌*◌, ◌/◌, ◌%◌, ◌^◌, Bool, true, false, Option, none, some, List, [], ◌∷◌,
  ◌++◌, ◌&&◌, ◌||◌, ◌==◌, ltb, leb, length, take, drop, if◌then◌else◌, ◌>>=◌,
}
use Prim.Native.Nat.{bit_xor}
use bingle_rust.Base.Str.{str_beq}
use bingle_rust.Net.{SocketAddr, sock4, sock6}
use bingle_rust.Turn.ChannelData.{Bytes, from_be_bytes, to_be_bytes}

abbrev pub magic_cookie : Bytes
magic_cookie = 0x21 ∷ 0x12 ∷ 0xA4 ∷ 0x42 ∷ []

-- `u64::to_be_bytes`, of which the first four are sent.
abbrev pub high_bytes : ℕ → Bytes
high_bytes n =
    (n / 2 ^ 56 % 256) ∷ (n / 2 ^ 48 % 256) ∷ (n / 2 ^ 40 % 256) ∷ (n / 2 ^ 32 % 256) ∷ []

-- `wrapping_mul` and `wrapping_add` on u64.
abbrev pub next_seed : ℕ → ℕ
next_seed seed = (seed * 6364136223846793005 + 1) % 2 ^ 64

unfoldable pub build_binding_request : ℕ → Bytes
build_binding_request tick =
    let s1 = next_seed tick in
    let s2 = next_seed s1 in
    let s3 = next_seed s2 in
    (0x00 ∷ 0x01 ∷ 0x00 ∷ 0x00 ∷ [])
    ++ (magic_cookie ++ (high_bytes s1 ++ (high_bytes s2 ++ high_bytes s3)))

-- The address as octets, and back.
abbrev pub octets : ℕ → Bytes
octets a = (a / 2 ^ 24 % 256) ∷ (a / 2 ^ 16 % 256) ∷ (a / 2 ^ 8 % 256) ∷ (a % 256) ∷ []

abbrev pub from_octets : ℕ → ℕ → ℕ → ℕ → ℕ
from_octets a b c d = ((a * 256 + b) * 256 + c) * 256 + d

abbrev pub read_port : ℕ → ℕ → ℕ
read_port atype xport = if atype == 0x0020 then bit_xor xport 0x2112 else xport

abbrev pub read_octet : ℕ → ℕ → ℕ → ℕ
read_octet atype cookie b = if atype == 0x0020 then bit_xor b cookie else b

-- The value of an address attribute of a length of at least 8 that starts at the bytes given: none
-- where the family is not IPv4.
unfoldable pub read_mapped : ℕ → Bytes → Option SocketAddr
read_mapped atype (reserved ∷ family ∷ p1 ∷ p0 ∷ a ∷ b ∷ c ∷ d ∷ rest) =
    if family == 0x01
    then some (
        sock4
          (from_octets (read_octet atype 0x21 a) (read_octet atype 0x12 b) (read_octet atype 0xA4 c)
            (read_octet atype 0x42 d))
          (read_port atype (from_be_bytes p1 p0)))
    else none
read_mapped atype _ = none

-- What a loop returns: `none` where its fuel runs out, which the source has not, and `some` of what the
-- source returns.
abbrev pub Returned : Type 0
Returned = Option (Option SocketAddr)

-- One attribute of the type and length given, and what the loop returns after it.
unfoldable pub one_attribute : ℕ → ℕ → Bytes → Returned → Returned
one_attribute atype alen value rest =
    if ltb (length value) alen
    then some none
    else if (atype == 0x0020) || (atype == 0x0001)
    then if ltb alen 8
      then some none
      else elim (read_mapped atype value) [ some mapped ↦ some (some mapped) | none ↦ rest ]
    else rest

-- The loop over the attributes. The first argument is the fuel, `idx` the position, `end` where the
-- message says it ends, `here` the bytes from there on.
unfoldable pub attributes : ℕ → ℕ → ℕ → Bytes → Returned
attributes zero idx end here = none
attributes (suc fuel) idx end (t1 ∷ t0 ∷ l1 ∷ l0 ∷ value) =
    let alen = from_be_bytes l1 l0 in
    let step = alen + (4 - alen % 4) % 4 in
    let rest = attributes fuel (idx + 4 + step) end (drop step value) in
    if ltb end (idx + 4) then some none else one_attribute (from_be_bytes t1 t0) alen value rest
attributes (suc fuel) idx end _ = some none

-- The length in the header; nothing is read of a shorter packet.
unfoldable pub message_length : Bytes → ℕ
message_length (b0 ∷ b1 ∷ b2 ∷ b3 ∷ rest) = from_be_bytes b2 b3
message_length _ = 0

unfoldable pub parse_xor_mapped_address : Bytes → Option SocketAddr
parse_xor_mapped_address packet =
    if ltb (length packet) 20
    then none
    else if str_beq (take 4 (drop 4 packet)) magic_cookie
    then elim (attributes (length packet) 20 (20 + message_length packet) (drop 20 packet)) [
      | none ↦ none
      | some found ↦ found
    ]
    else none

-- The octets and the port that the server reports, without its option to break the NAT: the
-- sender's, with the address of `attach_to` where that is IPv4.
unfoldable pub source_address : SocketAddr → ℕ
source_address (sock4 a port) = a
source_address (sock6 a port flowinfo scope) = 0x7F000001

unfoldable pub source_port : SocketAddr → ℕ
source_port (sock4 a port) = port
source_port (sock6 a port flowinfo scope) = port

unfoldable pub reported : Option SocketAddr → SocketAddr → ℕ × ℕ
reported none from = (source_address from, source_port from)
reported (some (sock4 a port)) from = (a, source_port from)
reported (some (sock6 a port flowinfo scope)) from = (source_address from, source_port from)

abbrev pub xor_octets : Bytes → Bytes
xor_octets (a ∷ b ∷ c ∷ d ∷ rest) =
    bit_xor a 0x21 ∷ bit_xor b 0x12 ∷ bit_xor c 0xA4 ∷ bit_xor d 0x42 ∷ []
xor_octets short = short

-- The reply to a packet, where it is a Binding Request.
unfoldable pub respond : Option SocketAddr → SocketAddr → Bytes → Option Bytes
respond attach_to from packet =
    if ltb (length packet) 20
    then none
    else if str_beq (take 2 packet) (0x00 ∷ 0x01 ∷ [])
        && str_beq (take 4 (drop 4 packet)) magic_cookie
    then (let (a, port) = reported attach_to from in
        let attribute =
          (0x00 ∷ 0x20 ∷ 0x00 ∷ 0x08 ∷ 0x00 ∷ 0x01 ∷ [])
          ++ (to_be_bytes (bit_xor port 0x2112) ++ xor_octets (octets a)) in
        some (
          (0x01 ∷ 0x01 ∷ [])
          ++ (to_be_bytes (length attribute)
              ++ (magic_cookie ++ (take 12 (drop 8 packet) ++ attribute)))))
    else none
