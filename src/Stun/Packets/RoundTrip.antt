-- ===== src/Stun/Packets/RoundTrip.antt =====
-- What the server answers is what the finder reads
-- (bingle_core/src/stun/simple_stun_server.rs and stun_endpoint_finder_impl.rs).
use bingle_rust.Base.{
  ℕ, suc, ◌/◌, ◌%◌, ◌^◌, ◌≤◌, ◌<◌, ◌≡◌, refl, ap, subst, ◌∙◌, Option, some, [], ◌∷◌, ◌++◌, length,
  take, drop, ◌>>=◌, arith, length-take, length-drop, length-append, drop-append,
}
use Prim.Native.Nat.{bit_xor}
use bingle_rust.Base.Str.{str_beq}
use bingle_rust.Net.{SocketAddr, sock4}
use bingle_rust.Turn.ChannelData.{Bytes, from_be_bytes, to_be_bytes}
use bingle_rust.Stun.Packets.{
  magic_cookie, attributes, one_attribute, read_mapped, message_length, octets, from_octets,
  xor_octets, reported, respond, parse_xor_mapped_address, build_binding_request,
}
use bingle_rust.Stun.Packets.Xor.{bit_xor_twice, bit_xor-lt}

-- The twelve bytes of a transaction, and the attribute that follows.
abbrev attribute : ℕ → ℕ → Bytes
attribute a port =
    (0x00 ∷ 0x20 ∷ 0x00 ∷ 0x08 ∷ 0x00 ∷ 0x01 ∷ [])
    ++ (to_be_bytes (bit_xor port 0x2112) ++ xor_octets (octets a))

port_back :
    (port : ℕ)
    → port < 65536
    → bit_xor (from_be_bytes (bit_xor port 0x2112 / 256 % 256) (bit_xor port 0x2112 % 256)) 0x2112
      ≡ port
port_back port h =
    let x = bit_xor port 0x2112 in
    let small : x < 65536 = bit_xor-lt 16 port 0x2112 h (omega arith) in
    let back : from_be_bytes (x / 256 % 256) (x % 256) ≡ x = omega arith in
    ap (λ y. bit_xor y 0x2112) back ∙ bit_xor_twice port 0x2112

octets_back :
    (a : ℕ)
    → a < 2 ^ 32
    → from_octets (a / 2 ^ 24 % 256) (a / 2 ^ 16 % 256) (a / 2 ^ 8 % 256) (a % 256) ≡ a
octets_back a h = omega arith

attributes-attribute :
    (fuel a port : ℕ)
    → a < 2 ^ 32
    → port < 65536
    → attributes (suc fuel) 20 32 (attribute a port) ≡ some (some (sock4 a port))
unfolding attributes one_attribute read_mapped
attributes-attribute fuel a port h k = rw (bit_xor_twice (a / 2 ^ 24 % 256) 0x21) (
    rw (bit_xor_twice (a / 2 ^ 16 % 256) 0x12) (
      rw (bit_xor_twice (a / 2 ^ 8 % 256) 0xA4) (
        rw (bit_xor_twice (a % 256) 0x42)
          (rw (port_back port k) (ap (λ x. some (some (sock4 x port))) (octets_back a h))))))

abbrev reply : Bytes → ℕ → ℕ → Bytes
reply transaction a port =
    (0x01 ∷ 0x01 ∷ [])
    ++ (to_be_bytes (length (attribute a port))
        ++ (magic_cookie ++ (transaction ++ attribute a port)))

parse-reply :
    (transaction : Bytes) (a port : ℕ)
    → length transaction ≡ 12
    → a < 2 ^ 32
    → port < 65536
    → parse_xor_mapped_address (reply transaction a port) ≡ some (sock4 a port)
unfolding parse_xor_mapped_address str_beq message_length
parse-reply transaction a port l h k =
    let total : length (transaction ++ attribute a port) ≡ 24 =
      omega (arith, length-append transaction (attribute a port)) in
    rw total (
      rw (drop-append 12 transaction (attribute a port) l)
        (rw (attributes-attribute 31 a port h k) refl))

-- What the server answers.
respond-reply :
    (attach_to : Option SocketAddr) (from : SocketAddr) (packet answer : Bytes)
    → respond attach_to from packet ≡ some answer
    → (20 ≤ length packet)
      × (reply (take 12 (drop 8 packet)) (reported attach_to from).0 (reported attach_to from).1
          ≡ answer)
unfolding respond
respond-reply attach_to from packet answer e = ground arith

-- Every answer of the simple server, where it does not play a broken NAT, is read by the finder as
-- the IPv4 address and the port that the server reports, which are a 32-bit and a 16-bit number;
-- and the server answers each binding request that the finder builds.
pub respond-parse :
    (attach_to : Option SocketAddr) (from : SocketAddr)
    → (reported attach_to from).0 < 2 ^ 32
    → (reported attach_to from).1 < 65536
    → ((packet answer : Bytes)
        → respond attach_to from packet ≡ some answer
        → parse_xor_mapped_address answer
          ≡ some (sock4 (reported attach_to from).0 (reported attach_to from).1))
      × ((tick : ℕ)
          → (respond attach_to from (build_binding_request tick) >>= parse_xor_mapped_address)
            ≡ some (sock4 (reported attach_to from).0 (reported attach_to from).1))
unfolding respond build_binding_request str_beq
respond-parse attach_to from h k =
    let (a, port) = reported attach_to from in
    (
      (λ packet answer e.
          let (long, same) = respond-reply attach_to from packet answer e in
          let transaction = take 12 (drop 8 packet) in
          let twelve : length transaction ≡ 12 =
            length-take 12 (drop 8 packet) (omega (arith, length-drop 8 packet (omega arith))) in
          subst (λ p. parse_xor_mapped_address p ≡ some (sock4 a port)) same
            (parse-reply transaction a port twelve h k)),
      (λ tick. parse-reply (take 12 (drop 8 (build_binding_request tick))) a port refl h k),
    )
