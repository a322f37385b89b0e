-- ===== src/Net/Endpoint.antt =====
-- bingle_core/src/api/network_endpoint.rs: where to send, directly or through a relay, and the key
-- under which the reliable transport keeps the state of a peer.
pub mod Keys
use bingle_rust.Base.{ℕ, ◌≡◌, ◌↔◌, Bool, true, false, Option, none, some, if◌then◌else◌, arith}
use bingle_rust.Base.Eq.{Eq, ◌=?◌, option_eq, option_beq_iff, nat_eq}
use bingle_rust.Base.Str.{Str, str_eq}
use bingle_rust.Net.{SocketAddr, sock_eq}

pub record NetworkEndpointKey : Type 0 where
  pub inet_socket_address : Option SocketAddr
  pub relay_id : Option Str
  pub relay_channel : Option ℕ

pub record NetworkEndpoint : Type 0 where
  pub inet_socket_address : Option SocketAddr
  pub relay_channel : Option ℕ
  pub relay_address : Option SocketAddr
  pub relay_id : Option Str

abbrev pub new_direct : SocketAddr → NetworkEndpoint
new_direct addr = record {
  inet_socket_address = some addr;
  relay_channel = none;
  relay_address = none;
  relay_id = none;
}

abbrev pub new_unset : NetworkEndpoint
new_unset = record {
  inet_socket_address = none;
  relay_channel = none;
  relay_address = none;
  relay_id = none;
}

abbrev pub new_relay : Str → Option SocketAddr → Option ℕ → NetworkEndpoint
new_relay relay_id relay_address relay_channel = record {
  inet_socket_address = none;
  relay_channel = relay_channel;
  relay_address = relay_address;
  relay_id = some relay_id;
}

unfoldable pub is_relay : NetworkEndpoint → Bool
is_relay e = elim e.relay_id [ none ↦ false | some _ ↦ true ]

pub set_relay_address : NetworkEndpoint → Option SocketAddr → NetworkEndpoint
set_relay_address e addr = record e { relay_address = addr }

pub set_relay_channel : NetworkEndpoint → Option ℕ → NetworkEndpoint
set_relay_channel e ch = record e { relay_channel = ch }

-- The outcome of `get_key`: a key, none where no field is set, or the panic of a relay endpoint
-- that lacks its id or its channel.
pub data KeyOutcome : Type 0 where
  key : NetworkEndpointKey → KeyOutcome
  unset : KeyOutcome
  incomplete : KeyOutcome

unfoldable pub relay_key : Option Str → Option ℕ → KeyOutcome
relay_key (some relay_id) (some ch) =
    key (record { inet_socket_address = none; relay_id = some relay_id; relay_channel = some ch })
relay_key (some relay_id) none = incomplete
relay_key none (some ch) = incomplete
relay_key none none = unset

unfoldable pub get_key : NetworkEndpoint → KeyOutcome
unfolding relay_key
get_key e = elim e.inet_socket_address [
  | some addr ↦
      key (record { inet_socket_address = some addr; relay_id = none; relay_channel = none })
  | none ↦ relay_key e.relay_id e.relay_channel
]

-- `#[derive(PartialEq)]`.
unfoldable pub key_beq : NetworkEndpointKey → NetworkEndpointKey → Bool
key_beq a b =
    if a.inet_socket_address =? b.inet_socket_address
    then if a.relay_id =? b.relay_id then a.relay_channel =? b.relay_channel else false
    else false

pub key_beq_iff : (a b : NetworkEndpointKey) → (key_beq a b ≡ true) ↔ (a ≡ b)
unfolding key_beq
key_beq_iff a b = ground (
  arith,
  option_beq_iff a.inet_socket_address b.inet_socket_address,
  option_beq_iff a.relay_id b.relay_id,
  option_beq_iff a.relay_channel b.relay_channel,
)

instance abbrev pub key_eq : Eq NetworkEndpointKey
key_eq = record { beq = key_beq; beq_iff = key_beq_iff }
