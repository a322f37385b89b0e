-- ===== src/Transport/Send/Prefix.antt =====
-- The first steps of `send`, up to the entry in the map of the pending acknowledgements.
use bingle_rust.Base.{ℕ, ◌+◌, ◌%◌, ◌≤◌, ◌≡◌, false, none, some, arith, length}
use bingle_rust.Base.Eq.{nat_eq, pair_eq}
use bingle_rust.Base.Map.{Map, get, insert}
use bingle_rust.Base.Lock.{write}
use bingle_rust.Net.Endpoint.{NetworkEndpoint, NetworkEndpointKey, key, get_key, key_eq}
use bingle_rust.Turn.ChannelData.{Bytes}
use bingle_rust.Transport.Packet.{build_data_single_packet}
use bingle_rust.Transport.State.{
  Transport, AckKey, endpoint_key, current_session_generation, take_tx_id, register_pending_ack,
}
use bingle_rust.Transport.Inbound.Delivery.{generation_of}
use bingle_rust.Transport.Send.{Schedule, send, send_registered}

-- No lock of the transport is poisoned.
pub record IsSound (t : Transport) : Type 0 where
  pub delays : t.retry_delays.poisoned ≡ false
  pub handlers : t.handle_message.poisoned ≡ false
  pub numbers : t.next_tx_id.poisoned ≡ false
  pub sessions : t.endpoint_sessions.poisoned ≡ false
  pub pending : t.pending_acks.poisoned ≡ false
  pub received : t.received_single_blocks.poisoned ≡ false

abbrev pub opened : NetworkEndpointKey → Transport → Map NetworkEndpointKey ℕ
opened k t = elim (get t.endpoint_sessions.inner k) [
  | some g ↦ t.endpoint_sessions.inner
  | none ↦ insert k 0 t.endpoint_sessions.inner
]

-- The key under which a send to the peer is registered.
abbrev pub ack_key_of : NetworkEndpointKey → Transport → AckKey
ack_key_of k t = (k, (generation_of t k, t.next_tx_id.inner))

abbrev pub registered : NetworkEndpointKey → Transport → Transport
registered k t = record t {
  endpoint_sessions = write t.endpoint_sessions (opened k t);
  next_tx_id = write t.next_tx_id ((t.next_tx_id.inner + 1) % 65536);
  pending_acks = write t.pending_acks (insert (ack_key_of k t) t.next_waiter t.pending_acks.inner);
  next_waiter = t.next_waiter + 1;
}

pub send-registered :
    (s : Schedule) (to : NetworkEndpoint) (k : NetworkEndpointKey) (block : Bytes) (t : Transport)
    → get_key to ≡ key k
    → IsSound t
    → length block + 4 ≤ t.mtu
    → send s to block t
      ≡ send_registered s to
          (build_data_single_packet t.next_tx_id.inner block)
          (ack_key_of k t)
          t.next_waiter
          (registered k t)
unfolding send endpoint_key current_session_generation take_tx_id register_pending_ack
send-registered s to k block t keyed sound fits = ground arith
