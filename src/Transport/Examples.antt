-- ===== src/Transport/Examples.antt =====
-- The theorems about the transport at small states.
use bingle_rust.Base.{
  ℕ, zero, suc, All, ◌==◌, ◌+◌, ◌<◌, ◌≡◌, ◌≢◌, refl, none, some, List, [], ◌∷◌, arith, length,
  if◌then◌else◌,
}
use bingle_rust.Base.Eq.{nat_eq, pair_eq}
use bingle_rust.Base.Map.{get, contains_key}
use bingle_rust.Base.Lock
use bingle_rust.Base.Str.{Str}
use bingle_rust.Net.{sock4}
use bingle_rust.Net.Endpoint.{NetworkEndpoint, NetworkEndpointKey, new_direct, key, get_key, key_eq}
use bingle_rust.Turn.ChannelData.{Bytes}
use bingle_rust.Turn.ChannelData.Examples.{three_bytes}
use bingle_rust.Transport.Packet.{
  data_single, ack_complete, build_header, build_data_single_packet, parse_packet,
  packet_type_ack_complete, frpt_header_len,
}
use bingle_rust.Transport.Packet.Laws.{parse_packet-build}
use bingle_rust.Transport.State.{Transport, Handler, ok, delivered}
use bingle_rust.Transport.Inbound.{Meets, AnyPacket, Event, packet_from, new_session, run}
use bingle_rust.Transport.Inbound.Delivery.{
  OtherPeer, dispatch_inbound_packet_once, arrive, ack_for,
}
use bingle_rust.Transport.Send.{Schedule, send}
use bingle_rust.Transport.Send.Prefix.{IsSound}
use bingle_rust.Transport.Send.Acked.{send_acked}
use bingle_rust.Transport.Send.Unacked.{send_needs_ack, IsFresh}

parse_packet-build_example :
    (parse_packet (build_data_single_packet 0x1234 three_bytes)
      ≡ some (data_single 0x1234 three_bytes))
    × (parse_packet (build_header packet_type_ack_complete 0x1234) ≡ some (ack_complete 0x1234))
    × (length (build_data_single_packet 0x1234 three_bytes) ≡ length three_bytes + frpt_header_len)
parse_packet-build_example = parse_packet-build 0x1234 three_bytes (omega arith)

abbrev data_packet : Bytes
data_packet = 0x11 ∷ 0 ∷ 0x12 ∷ 0x34 ∷ 9 ∷ []

abbrev peer : NetworkEndpoint
peer = new_direct (sock4 0x0a000002 5000)

abbrev peer_key : NetworkEndpointKey
peer_key = record {
  inet_socket_address = some (sock4 0x0a000002 5000);
  relay_id = none;
  relay_channel = none;
}

peer_keyed : get_key peer ≡ key peer_key
unfolding get_key
peer_keyed = refl

abbrev issuer : Str
issuer = b'I' ∷ []

abbrev echo : Handler
echo from id block = ok (some block)

-- A new transport with two retry delays and a handler.
abbrev fresh : Transport
fresh = record {
  mtu = 1200;
  retry_delays = Lock.new (2 ∷ 4 ∷ []);
  handle_message = Lock.new (some echo);
  next_tx_id = Lock.new 7;
  endpoint_sessions = Lock.new [];
  pending_acks = Lock.new [];
  received_single_blocks = Lock.new [];
  completed = [];
  next_waiter = 0;
  effects = [];
}

fresh-IsSound : IsSound fresh
fresh-IsSound = record {
  delays = refl;
  handlers = refl;
  numbers = refl;
  sessions = refl;
  pending = refl;
  received = refl;
}

fresh-IsFresh : IsFresh fresh
unfolding get contains_key
fresh-IsFresh = record { unset = refl; unused = λ b. λ h. cc }

abbrev stranger : NetworkEndpoint
stranger = new_direct (sock4 0x0a000003 5000)

-- The same packet of another peer, a new session with that peer, and a packet that does not parse.
abbrev others : List Event
others =
    packet_from stranger issuer (build_data_single_packet 5 three_bytes) none
    ∷ new_session stranger
    ∷ packet_from peer issuer three_bytes none
    ∷ []

stranger_apart : get_key stranger ≢ key peer_key
unfolding get_key
stranger_apart e = absurd (ground arith)

abbrev five : 5 < 65536
five = omega arith

abbrev first_five : Transport
first_five = (arrive peer peer_key issuer 5 three_bytes peer_keyed five fresh).1

dispatch_inbound_packet_once_example :
    ((arrive peer peer_key issuer 5 three_bytes peer_keyed five fresh).0 ≡ ok (some three_bytes))
    × (first_five.effects ≡ delivered peer issuer three_bytes ∷ ack_for peer 5 ∷ [])
    × ((arrive peer peer_key issuer 5 three_bytes peer_keyed five (run first_five others)).0
        ≡ ok none)
    × ((arrive peer peer_key issuer 5 three_bytes peer_keyed five (run first_five others)).1.effects
        ≡ ack_for peer 5 ∷ (run first_five others).effects)
unfolding get contains_key
dispatch_inbound_packet_once_example =
    dispatch_inbound_packet_once peer peer_key issuer 5 three_bytes peer_keyed five fresh echo refl
      refl refl refl refl others (tt, (stranger_apart, (tt, tt)))

abbrev seventh : Bytes
seventh = build_data_single_packet 7 three_bytes

-- An acknowledgement of the number from a stranger, and one of another number from the peer.
abbrev wrong_acks : Schedule
wrong_acks = record {
  first = none;
  during = λ i.
      packet_from stranger issuer (build_header packet_type_ack_complete 7) none
      ∷ packet_from peer issuer (build_header packet_type_ack_complete 8) none
      ∷ [];
  resend = λ i. none;
}

eight_apart : parse_packet (build_header packet_type_ack_complete 8) ≢ some (ack_complete 7)
unfolding parse_packet build_header
eight_apart e = absurd (ground arith)

send_needs_ack_example : (send wrong_acks peer three_bytes fresh).0 ≢ ok tt
send_needs_ack_example =
    send_needs_ack wrong_acks peer peer_key three_bytes fresh peer_keyed fresh-IsSound fresh-IsFresh
      (omega arith) (λ i. ((λ e. stranger_apart e.0), ((λ e. eight_apart e.1), tt)))

-- The acknowledgement comes during the second wait, between other packets.
abbrev late_ack : Schedule
late_ack = record {
  first = none;
  during = λ i.
      if i == 0
      then []
      else packet_from stranger issuer three_bytes none
        ∷ packet_from peer issuer (build_header packet_type_ack_complete 7) none
        ∷ new_session peer
        ∷ [];
  resend = λ i. none;
}

seven_acked : parse_packet (build_header packet_type_ack_complete 7) ≡ some (ack_complete 7)
unfolding parse_packet build_header
seven_acked = refl

nothing_before : (j : ℕ) → j < 1 → All (Meets (OtherPeer peer_key) AnyPacket) (late_ack.during j)
nothing_before zero less = tt
nothing_before (suc j) less = absurd (omega arith)

send_acked_example : (send late_ack peer three_bytes fresh).0 ≡ ok tt
send_acked_example =
    send_acked late_ack peer peer_key three_bytes fresh 1
      (packet_from stranger issuer three_bytes none ∷ []) (new_session peer ∷ []) peer issuer
      (build_header packet_type_ack_complete 7) none peer_keyed fresh-IsSound (omega arith) refl
      (omega arith) nothing_before (λ j less. refl) refl (tt, tt) peer_keyed seven_acked
