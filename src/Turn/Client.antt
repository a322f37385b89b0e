-- ===== src/Turn/Client.antt =====
-- bingle_core/src/turn/turn_client_handler_impl.rs: the client's channels and relays.
pub mod Laws
mod Examples
use bingle_rust.Base.{ℕ, ◌+◌, Bool, false, Option, none, some, [], ◌>>=◌}
use bingle_rust.Base.Eq.{nat_eq, pair_eq}
use bingle_rust.Base.Map.{Map, get, insert}
use bingle_rust.Base.Lock
use bingle_rust.Base.Lock.{Mutex, lock, lock2, write}
use bingle_rust.Base.Str.{Str, str_eq}
use bingle_rust.Net.{SocketAddr, sock_eq}
use bingle_rust.Net.Endpoint.{new_relay}
use bingle_rust.Turn.ChannelData.{Bytes, parse_channel_data_header, build_channel_data, get_range}
use bingle_rust.Turn.{TurnMessageWithAddress, WrappedMessageWithNetworkEndpoint}

pub record TurnClientHandlerImpl : Type 0 where
  pub ch_to_addr : Mutex (Map ℕ SocketAddr)
  pub pair_to_ch : Mutex (Map (SocketAddr × SocketAddr) ℕ)
  pub allowed_id_to_addr : Mutex (Map Str SocketAddr)
  pub allowed_addr_to_id : Mutex (Map SocketAddr Str)

abbrev pub new : TurnClientHandlerImpl
new = record {
  ch_to_addr = Lock.new [];
  pair_to_ch = Lock.new [];
  allowed_id_to_addr = Lock.new [];
  allowed_addr_to_id = Lock.new [];
}

pub lookup_addr_by_id : TurnClientHandlerImpl → Str → Option SocketAddr
lookup_addr_by_id h id = do m ← lock h.allowed_id_to_addr; get m id

pub lookup_id_by_addr : TurnClientHandlerImpl → SocketAddr → Option Str
lookup_id_by_addr h addr = do m ← lock h.allowed_addr_to_id; get m addr

-- The channel stands for its originator; the pair is entered in both directions.
pub insert_mapping : TurnClientHandlerImpl → SocketAddr → SocketAddr → ℕ → TurnClientHandlerImpl
insert_mapping h source dest ch = elim (lock2 h.ch_to_addr h.pair_to_ch) [
  | none ↦ h
  | some (c2a, p2c) ↦ record h {
    ch_to_addr = write h.ch_to_addr (insert ch source c2a);
    pair_to_ch = write h.pair_to_ch (insert (dest, source) ch (insert (source, dest) ch p2c));
  }
]

-- A client serves no Listen.
pub handle_listen : TurnClientHandlerImpl → Str → SocketAddr → TurnClientHandlerImpl × Bool
handle_listen h source_id source = (h, false)

pub handle_turn_incoming :
    TurnClientHandlerImpl
    → Option SocketAddr
    → Option SocketAddr
    → Bytes
    → Option WrappedMessageWithNetworkEndpoint
handle_turn_incoming h sender_address local_public_address packet = do
  header ← parse_channel_data_header packet
  payload ← get_range 4 (4 + header.1) packet
  relay_addr ← sender_address
  a2id ← lock h.allowed_addr_to_id
  relay_id ← get a2id relay_addr
  some (record {
    ip_address = relay_addr;
    network_endpoint = new_relay relay_id (some relay_addr) (some header.0);
    message = payload;
    is_relay_local = false;
  })

pub send_turn_outgoing :
    TurnClientHandlerImpl → SocketAddr → SocketAddr → Bytes → Option TurnMessageWithAddress
send_turn_outgoing h source dest packet = do
  p2c ← lock h.pair_to_ch
  ch ← get p2c (source, dest)
  message ← build_channel_data ch packet
  some (record { ip_address = dest; message = message })

-- Both addresses are registered under the relay's id, the destination last.
allow_pair : TurnClientHandlerImpl → SocketAddr → SocketAddr → Str → TurnClientHandlerImpl
allow_pair h source dest relay_id = elim (lock2 h.allowed_id_to_addr h.allowed_addr_to_id) [
  | none ↦ h
  | some (id2a, a2id) ↦ record h {
    allowed_id_to_addr =
        write h.allowed_id_to_addr (insert relay_id dest (insert relay_id source id2a));
    allowed_addr_to_id =
        write h.allowed_addr_to_id (insert dest relay_id (insert source relay_id a2id));
  }
]

pub handle_call_response :
    TurnClientHandlerImpl → SocketAddr → SocketAddr → ℕ → Str → TurnClientHandlerImpl
unfolding allow_pair insert_mapping
handle_call_response h source dest channel relay_id =
    insert_mapping (allow_pair h source dest relay_id) source dest channel

pub handle_listen_response : TurnClientHandlerImpl → SocketAddr → Str → TurnClientHandlerImpl
handle_listen_response h relay_address relay_id =
    elim (lock2 h.allowed_id_to_addr h.allowed_addr_to_id) [
      | none ↦ h
      | some (id2a, a2id) ↦ record h {
        allowed_id_to_addr = write h.allowed_id_to_addr (insert relay_id relay_address id2a);
        allowed_addr_to_id = write h.allowed_addr_to_id (insert relay_address relay_id a2id);
      }
    ]

pub handle_called : TurnClientHandlerImpl → SocketAddr → SocketAddr → ℕ → TurnClientHandlerImpl
unfolding insert_mapping
handle_called h source dest channel = insert_mapping h source dest channel
