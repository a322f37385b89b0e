-- ===== src/Transport/Inbound.antt =====
-- `dispatch_inbound_packet`, and the events that reach the transport from DTLS.
pub mod Induction
pub mod Delivery
use bingle_rust.Base.{ℕ, Bool, true, false, Option, none, some, List, [], ◌∷◌, if◌then◌else◌}
use bingle_rust.Base.Lock.{lock}
use bingle_rust.Base.Str.{Str}
use bingle_rust.Net.Endpoint.{NetworkEndpoint, NetworkEndpointKey}
use bingle_rust.Turn.ChannelData.{Bytes}
use bingle_rust.Transport.Packet.{
  ParsedPacket, data_single, ack_complete, unsupported_frpt, build_header, parse_packet,
  packet_type_ack_complete,
}
use bingle_rust.Transport.State.{
  Transport, M, Handler, ◌>>=◌, ◌>>◌, pure, raise, Error, dtls, Effect, sent, delivered, effect,
  endpoint_key, current_session_generation, complete_pending_ack, mark_received,
  handle_new_dtls_session,
}

-- What `Dtls::send` answers is the last argument: an error, or none where it succeeds.
unfoldable pub dtls_send : NetworkEndpoint → Bytes → Option Str → M (Unit {0})
dtls_send to packet none = effect (sent to packet)
dtls_send to packet (some e) = do effect (sent to packet); raise (dtls e)

unfoldable pub send_ack_complete : NetworkEndpoint → ℕ → Option Str → M (Unit {0})
send_ack_complete to tx_id answer =
    dtls_send to (build_header packet_type_ack_complete tx_id) answer

-- The handler is called if there is one; a poisoned lock counts as none.
unfoldable pub call_handler :
    Option (Option Handler) → NetworkEndpoint → Str → Bytes → M (Option Bytes)
call_handler (some (some handler)) from issuer block = do
  effect (delivered from issuer block)
  λ t. (handler from issuer block, t)
call_handler _ from issuer block = pure none

unfoldable pub hand_over : NetworkEndpoint → Str → Bytes → M (Option Bytes)
unfolding call_handler
hand_over from issuer block t = call_handler (lock t.handle_message) from issuer block t

-- The three arms for a packet of the protocol.
unfoldable pub dispatch_parsed :
    NetworkEndpoint
    → Str
    → (Option Str)
    → ParsedPacket
    → (ℕ → M Bool)
    → (ℕ → M Bool)
    → M (Option Bytes)
dispatch_parsed from issuer answer unsupported_frpt complete receive = pure none
dispatch_parsed from issuer answer (ack_complete tx_id) complete receive = do
  matched ← complete tx_id
  pure none
dispatch_parsed from issuer answer (data_single tx_id payload) complete receive = do
  send_ack_complete from tx_id answer
  should_deliver ← receive tx_id
  if should_deliver then hand_over from issuer payload else pure none

-- A packet that does not parse is legacy data, and goes to the handler whole.
unfoldable pub arm :
    Option ParsedPacket
    → NetworkEndpointKey
    → ℕ
    → NetworkEndpoint
    → Str
    → Bytes
    → Option Str
    → M (Option Bytes)
arm none k generation from issuer packet answer = hand_over from issuer packet
arm (some parsed) k generation from issuer packet answer =
    dispatch_parsed from issuer answer parsed
      (λ tx_id. complete_pending_ack (k, (generation, tx_id)))
      (λ tx_id. mark_received (k, (generation, tx_id)))

-- The last argument is what DTLS answers when the acknowledgement is sent.
unfoldable pub dispatch_inbound_packet :
    NetworkEndpoint → Str → Bytes → Option Str → M (Option Bytes)
dispatch_inbound_packet from issuer packet answer = do
  from_key ← endpoint_key from
  from_generation ← current_session_generation from_key
  arm (parse_packet packet) from_key from_generation from issuer packet answer

-- An event from DTLS: a packet, or a new session with a peer. Its result is only logged.
pub data Event : Type 0 where
  packet_from : NetworkEndpoint → Str → Bytes → Option Str → Event
  new_session : NetworkEndpoint → Event

-- What is allowed of an event: of the endpoint of a new session, of the sender and bytes of a packet.
abbrev pub Meets : (NetworkEndpoint → Type 0) → (NetworkEndpoint → Bytes → Type 0) → Event → Type 0
Meets Session Packet (packet_from from issuer packet answer) = Packet from packet
Meets Session Packet (new_session endpoint) = Session endpoint

abbrev pub AnyPacket : NetworkEndpoint → Bytes → Type 0
AnyPacket from packet = Unit {0}

unfoldable pub step : Transport → Event → Transport
step t (packet_from from issuer packet answer) =
    (dispatch_inbound_packet from issuer packet answer t).1
step t (new_session endpoint) = (handle_new_dtls_session endpoint t).1

unfoldable pub run : Transport → List Event → Transport
run t [] = t
run t (e ∷ es) = run (step t e) es
