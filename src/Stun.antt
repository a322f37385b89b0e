-- ===== src/Stun.antt =====
-- The search for this node's public endpoint: bingle_core/src/stun. This file holds the state of
-- `StunEndpointFinderImpl` (stun_endpoint_finder_impl.rs) and the operations but the tick.
pub mod Packets
pub mod Poll
pub mod Runs
mod Examples
use bingle_rust.Base.{
  ℕ, ◌/◌, max, ◌≡◌, refl, ◌↔◌, Bool, true, false, not, ◌&&◌, ◌||◌, Option, none, some, List, [],
  ◌∷◌, map, if◌then◌else◌,
}
use bingle_rust.Base.Eq.{Eq, ◌=?◌, option_eq}
use bingle_rust.Net.{SocketAddr, sock_eq}
use bingle_rust.Turn.ChannelData.{Bytes}
use bingle_rust.Stun.Packets.{parse_xor_mapped_address}

pub data StunState : Type 0 where
  nothing : StunState
  single : StunState
  inconsistent : StunState
  consistent : StunState
  blocked : StunState

unfoldable pub state_beq : StunState → StunState → Bool
state_beq nothing nothing = true
state_beq single single = true
state_beq inconsistent inconsistent = true
state_beq consistent consistent = true
state_beq blocked blocked = true
state_beq _ _ = false

pub state_beq_iff : (a b : StunState) → (state_beq a b ≡ true) ↔ (a ≡ b)
unfolding state_beq
state_beq_iff nothing nothing = (λ h. refl, λ h. refl)
state_beq_iff single single = (λ h. refl, λ h. refl)
state_beq_iff inconsistent inconsistent = (λ h. refl, λ h. refl)
state_beq_iff consistent consistent = (λ h. refl, λ h. refl)
state_beq_iff blocked blocked = (λ h. refl, λ h. refl)
state_beq_iff _ _ = (λ h. cc, λ h. cc)

instance abbrev pub state_eq : Eq StunState
state_eq = record { beq = state_beq; beq_iff = state_beq_iff }

-- `matches!(state, Consistent | Inconsistent)`.
unfoldable pub is_stable : StunState → Bool
is_stable nothing = false
is_stable single = false
is_stable inconsistent = true
is_stable consistent = true
is_stable blocked = false

pub record ServerStatus : Type 0 where
  pub addr : SocketAddr
  pub failures : ℕ
  pub responded : Bool
  pub ever_responded : Bool
  pub endpoint : Option SocketAddr
  pub last_polled_tick : Option ℕ

abbrev pub new_server : SocketAddr → ServerStatus
new_server addr = record {
  addr = addr;
  failures = 0;
  responded = false;
  ever_responded = false;
  endpoint = none;
  last_polled_tick = none;
}

-- A handler is whether it is set; what it is called with is a `Call`.
pub record Inner : Type 0 where
  pub servers : List ServerStatus
  pub state : StunState
  pub endpoint : Option SocketAddr
  pub search_ticks : ℕ
  pub repeat_ticks : ℕ
  pub state_change : Bool
  pub error : Bool
  pub send_packet : Bool
  pub intervals_without_two : ℕ
  pub error_reported : Bool
  pub last_response_tick : Option ℕ
  pub last_request_tick : Option ℕ
  pub no_response_ticks : ℕ
  pub current_tick : ℕ
  pub last_poll_tick : Option ℕ

-- The state and endpoint of a change, the error, or the address and the bytes of a packet to send.
pub data Call : Type 0 where
  changed : StunState → Option SocketAddr → Call
  too_few : Call
  sends : SocketAddr → Bytes → Call

abbrev pub tick_ms : ℕ
tick_ms = 100

abbrev pub new : Inner
new = record {
  servers = [];
  state = nothing;
  endpoint = none;
  search_ticks = 1000 / tick_ms;
  repeat_ticks = 10000 / tick_ms;
  state_change = false;
  error = false;
  send_packet = false;
  intervals_without_two = 0;
  error_reported = false;
  last_response_tick = none;
  last_request_tick = none;
  no_response_ticks = 30000 / tick_ms;
  current_tick = 0;
  last_poll_tick = none;
}

-- The override of the time without a response, in milliseconds, where a test has set one.
unfoldable pub init : List SocketAddr → ℕ → ℕ → Option ℕ → Inner → Inner
init servers search_time_ms repeat_time_ms override i = record i {
  servers = map new_server servers;
  search_ticks = max (search_time_ms / tick_ms) 1;
  repeat_ticks = max (repeat_time_ms / tick_ms) 1;
  state = nothing;
  endpoint = none;
  intervals_without_two = 0;
  error_reported = false;
  last_response_tick = none;
  last_request_tick = none;
  current_tick = 0;
  last_poll_tick = none;
  no_response_ticks = elim override [ none ↦ 30000 / tick_ms | some t ↦ max (t / tick_ms) 1 ];
}

abbrev pub set_state_change_handler : Bool → Inner → Inner
set_state_change_handler handler i = record i { state_change = handler }

abbrev pub set_error_handler : Bool → Inner → Inner
set_error_handler handler i = record i { error = handler }

abbrev pub set_send_packet_handler : Bool → Inner → Inner
set_send_packet_handler handler i = record i { send_packet = handler }

unfoldable pub endpoints : List ServerStatus → List SocketAddr
endpoints [] = []
endpoints (s ∷ rest) =
    let others = endpoints rest in elim s.endpoint [ none ↦ others | some e ↦ e ∷ others ]

-- `iter().all(|&e| e == first)`.
unfoldable pub all_same : SocketAddr → List SocketAddr → Bool
all_same first [] = true
all_same first (e ∷ es) = let rest = all_same first es in if e =? first then rest else false

-- The state that the endpoints show, and the endpoint to remember.
unfoldable pub classify : List SocketAddr → StunState × Option SocketAddr
classify [] = (nothing, none)
classify (e ∷ []) = (single, none)
classify (e ∷ f ∷ rest) =
    if all_same e (e ∷ f ∷ rest) then (consistent, some e) else (inconsistent, none)

abbrev pub notify : StunState → Option SocketAddr → Inner → List Call
notify state endpoint i = if i.state_change then changed state endpoint ∷ [] else []

unfoldable pub recompute_state_and_notify : Inner → Inner × List Call
recompute_state_and_notify i =
    let found = classify (endpoints i.servers) in
    let endpoint_changed = (found.0 =? consistent) && not (found.1 =? i.endpoint) in
    if not (found.0 =? i.state) || endpoint_changed
    then (record i { state = found.0; endpoint = found.1 }, notify found.0 found.1 i)
    else (record i { endpoint = found.1 }, [])

abbrev pub answered : Option SocketAddr → ServerStatus → ServerStatus
answered mapped s = record s {
  responded = true;
  ever_responded = true;
  failures = 0;
  endpoint = elim mapped [ none ↦ s.endpoint | some e ↦ some e ];
}

-- `iter_mut().find(|s| s.addr == addr)`: the first server of the address is changed.
unfoldable pub update_first :
    SocketAddr → (ServerStatus → ServerStatus) → List ServerStatus → List ServerStatus
update_first addr f [] = []
update_first addr f (s ∷ rest) =
    let others = update_first addr f rest in if s.addr =? addr then f s ∷ rest else s ∷ others

unfoldable pub process_packet : SocketAddr → Bytes → Inner → Inner × List Call
process_packet from packet i = recompute_state_and_notify (record i {
  servers = update_first from (answered (parse_xor_mapped_address packet)) i.servers;
  last_response_tick = some i.current_tick;
  last_request_tick = none;
})

-- A server that starts a round afresh.
abbrev pub forget_round : ServerStatus → ServerStatus
forget_round s = record s { responded = false; failures = 0; endpoint = none }

unfoldable pub reset_state : Inner → Inner
reset_state i = record i {
  state = nothing;
  endpoint = none;
  intervals_without_two = 0;
  error_reported = false;
  last_response_tick = none;
  last_request_tick = none;
  current_tick = 0;
  servers = map forget_round i.servers;
}
