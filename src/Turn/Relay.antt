-- ===== src/Turn/Relay.antt =====
-- bingle_core/src/turn/turn_relay_handler_impl.rs: the relay's channels and registered peers.
pub mod Channels
pub mod Invariant
pub mod Forward
mod Examples
use bingle_rust.Base.{
  ℕ, zero, suc, ◌+◌, ◌-◌, ◌%◌, ◌^◌, Bool, true, false, not, ◌&&◌, Option, none, some, [], ◌∷◌, ltb,
  leb, ◌==◌, if◌then◌else◌, ◌>>=◌, any,
}
use bingle_rust.Base.Eq.{◌=?◌, nat_eq, pair_eq}
use bingle_rust.Base.Map.{Map, get, insert, contains_key}
use bingle_rust.Base.Lock
use bingle_rust.Base.Lock.{Mutex, lock, lock2, write}
use bingle_rust.Base.Str.{Str, str_eq}
use bingle_rust.Net.{SocketAddr, IpAddr, ip, sock_eq, ip_eq}
use bingle_rust.Net.Endpoint.{NetworkEndpoint, new_direct, new_relay}
use bingle_rust.Turn.ChannelData.{Bytes, parse_channel_data_header, build_channel_data, get_range}
use bingle_rust.Turn.{TurnMessageWithAddress, WrappedMessageWithNetworkEndpoint}

pub record TurnRelayHandlerImpl : Type 0 where
  pub ch_to_pair : Mutex (Map ℕ (SocketAddr × SocketAddr))
  pub pair_to_ch : Mutex (Map (SocketAddr × SocketAddr) ℕ)
  pub allowed_id_to_addr : Mutex (Map Str SocketAddr)
  pub allowed_addr_to_id : Mutex (Map SocketAddr Str)

abbrev pub new : TurnRelayHandlerImpl
new = record {
  ch_to_pair = Lock.new [];
  pair_to_ch = Lock.new [];
  allowed_id_to_addr = Lock.new [];
  allowed_addr_to_id = Lock.new [];
}

pub is_ip_allowed : TurnRelayHandlerImpl → IpAddr → Bool
is_ip_allowed h wanted = elim (lock h.allowed_id_to_addr) [
  | none ↦ false
  | some m ↦ any (λ (entry : Str × SocketAddr). ip entry.1 =? wanted) m
]

unfoldable pub lookup_addr_by_id : TurnRelayHandlerImpl → Str → Option SocketAddr
lookup_addr_by_id h id = do m ← lock h.allowed_id_to_addr; get m id

unfoldable pub lookup_id_by_addr : TurnRelayHandlerImpl → SocketAddr → Option Str
lookup_id_by_addr h addr = do m ← lock h.allowed_addr_to_id; get m addr

abbrev pub min_ch : ℕ
min_ch = 0x4000

abbrev pub max_ch : ℕ
max_ch = 0x7FFE

abbrev pub range : ℕ
range = max_ch - min_ch + 1

-- The loop of `alloc_channel`: at most so many candidates more, from the given one on.
pub probe : ℕ → Map ℕ (SocketAddr × SocketAddr) → ℕ → Option ℕ
probe zero m candidate = none
probe (suc n) m candidate =
    let here = if leb min_ch candidate && leb candidate max_ch then candidate else min_ch in
    let rest = probe n m (if here == max_ch then min_ch else here + 1) in
    if contains_key m here then rest else some here

-- The seed is the random `Uuid::new_v4().as_u128()`, which is cut to 32 bits.
pub alloc_channel : ℕ → TurnRelayHandlerImpl → Option ℕ
alloc_channel seed h = do m ← lock h.ch_to_pair; probe range m (min_ch + seed % 2 ^ 32 % range)

pub handle_listen : TurnRelayHandlerImpl → Str → SocketAddr → TurnRelayHandlerImpl × Bool
handle_listen h source_id source = elim (lock2 h.allowed_id_to_addr h.allowed_addr_to_id) [
  | none ↦ (h, false)
  | some (id2a, a2id) ↦ (
    record h {
      allowed_id_to_addr = write h.allowed_id_to_addr (insert source_id source id2a);
      allowed_addr_to_id = write h.allowed_addr_to_id (insert source source_id a2id);
    },
    true,
  )
]

-- A packet on a channel that has no pair: only a registered sender is heard.
incoming_unmapped :
    TurnRelayHandlerImpl
    → Option SocketAddr
    → ℕ
    → ℕ
    → Bytes
    → Option WrappedMessageWithNetworkEndpoint
incoming_unmapped h sender_address ch len packet = do
  sender_addr ← sender_address
  a2id ← lock h.allowed_addr_to_id
  relay_id ← get a2id sender_addr
  payload ← get_range 4 (4 + len) packet
  some (record {
    ip_address = sender_addr;
    network_endpoint = new_relay relay_id (some sender_addr) (some ch);
    message = payload;
    is_relay_local = false;
  })

-- The endpoint under which the relay hears a sender on a channel that has a pair.
sender_endpoint : Map SocketAddr Str → SocketAddr → Option SocketAddr → ℕ → Option NetworkEndpoint
sender_endpoint a2id sender_addr local_public_address ch = elim (get a2id sender_addr) [
  | some relay_id ↦ (do
    local_pub ← local_public_address
    some (new_relay relay_id (some local_pub) (some ch)))
  | none ↦ some (new_direct sender_addr)
]

is_packet_from_dest : Option SocketAddr → SocketAddr → Bool
is_packet_from_dest sender_address source_addr = elim sender_address [
  | none ↦ false
  | some a ↦ not (a =? source_addr)
]

-- A packet on the channel of a pair.
incoming_mapped :
    TurnRelayHandlerImpl
    → Option SocketAddr
    → Option SocketAddr
    → ℕ
    → ℕ
    → Bytes
    → SocketAddr
    → SocketAddr
    → Option WrappedMessageWithNetworkEndpoint
unfolding sender_endpoint is_packet_from_dest
incoming_mapped h sender_address local_public_address ch len packet source_addr dest_addr = do
  a2id ← lock h.allowed_addr_to_id
  if not (contains_key a2id dest_addr) then none else do
    payload ← get_range 4 (4 + len) packet
    sender_addr ← sender_address
    network_endpoint ← sender_endpoint a2id sender_addr local_public_address ch
    some (record {
      ip_address =
          if is_packet_from_dest sender_address source_addr then source_addr else dest_addr;
      network_endpoint = network_endpoint;
      message = payload;
      is_relay_local = source_addr =? dest_addr;
    })

pub handle_turn_incoming :
    TurnRelayHandlerImpl
    → Option SocketAddr
    → Option SocketAddr
    → Bytes
    → Option WrappedMessageWithNetworkEndpoint
unfolding incoming_unmapped incoming_mapped
handle_turn_incoming h sender_address local_public_address packet = do
  header ← parse_channel_data_header packet
  c2p ← lock h.ch_to_pair
  elim (get c2p header.0) [
    | some (source_addr, dest_addr) ↦
        incoming_mapped h sender_address local_public_address header.0 header.1 packet source_addr
          dest_addr
    | none ↦ incoming_unmapped h sender_address header.0 header.1 packet
  ]

pub send_turn_outgoing :
    TurnRelayHandlerImpl → SocketAddr → SocketAddr → Bytes → Option TurnMessageWithAddress
send_turn_outgoing h source dest packet = do
  p2c ← lock h.pair_to_ch
  ch ← get p2c (source, dest)
  message ← build_channel_data ch packet
  some (record { ip_address = dest; message = message })

pub handle_call_response :
    TurnRelayHandlerImpl → SocketAddr → SocketAddr → ℕ → Str → TurnRelayHandlerImpl
handle_call_response h source dest channel relay_id = elim (lock2 h.ch_to_pair h.pair_to_ch) [
  | none ↦ h
  | some (c2a, p2c) ↦ elim (lock2 h.allowed_id_to_addr h.allowed_addr_to_id) [
    | none ↦ h
    | some (id2a, a2id) ↦ record {
      ch_to_pair = write h.ch_to_pair (insert channel (source, dest) c2a);
      pair_to_ch = write h.pair_to_ch (insert (source, dest) channel p2c);
      allowed_id_to_addr = write h.allowed_id_to_addr (insert relay_id source id2a);
      allowed_addr_to_id = write h.allowed_addr_to_id (insert source relay_id a2id);
    }
  ]
]

-- `if !a2id.contains_key(addr)`: the two maps of the registered peers, with the peer added.
register_if_absent :
    Str
    → SocketAddr
    → Map Str SocketAddr × Map SocketAddr Str
    → Map Str SocketAddr × Map SocketAddr Str
register_if_absent id addr (id2a, a2id) =
    if contains_key a2id addr then (id2a, a2id) else (insert id addr id2a, insert addr id a2id)

-- The second half of `handle_call`, once a channel is allocated.
pub install_call :
    TurnRelayHandlerImpl → ℕ → Str → Str → SocketAddr → SocketAddr → TurnRelayHandlerImpl × Option ℕ
unfolding register_if_absent
install_call h ch source_id dest_id source dest = elim (lock2 h.ch_to_pair h.pair_to_ch) [
  | none ↦ (h, none)
  | some (c2a, p2c) ↦ elim (lock2 h.allowed_id_to_addr h.allowed_addr_to_id) [
    | none ↦ (h, none)
    | some (id2a, a2id) ↦
        let maps =
          register_if_absent dest_id dest (register_if_absent source_id source (id2a, a2id)) in
        (
          record {
            ch_to_pair = write h.ch_to_pair (insert ch (source, dest) c2a);
            pair_to_ch = write h.pair_to_ch (insert (source, dest) ch p2c);
            allowed_id_to_addr = write h.allowed_id_to_addr maps.0;
            allowed_addr_to_id = write h.allowed_addr_to_id maps.1;
          },
          some ch,
        )
  ]
]

allocate_call :
    Option ℕ
    → TurnRelayHandlerImpl
    → Str
    → Str
    → SocketAddr
    → SocketAddr
    → TurnRelayHandlerImpl × Option ℕ
allocate_call none h source_id dest_id source dest = (h, none)
allocate_call (some ch) h source_id dest_id source dest =
    install_call h ch source_id dest_id source dest

-- The result is the channel; `none` is the -1 of the source. The seed is what `alloc_channel` draws.
pub handle_call :
    ℕ → TurnRelayHandlerImpl → Str → Str → SocketAddr → SocketAddr → TurnRelayHandlerImpl × Option ℕ
unfolding allocate_call
handle_call seed h source_id dest_id source dest = elim (lock h.pair_to_ch) [
  | none ↦ (h, none)
  | some p2c ↦ elim (get p2c (source, dest)) [
    | some ch ↦ (h, some ch)
    | none ↦ allocate_call (alloc_channel seed h) h source_id dest_id source dest
  ]
]
