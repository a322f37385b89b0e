-- ===== src/Turn/Client/Laws.antt =====
-- What the client hears and where it sends.
use bingle_rust.Base.{ℕ, ◌<◌, ◌≡◌, ◌↔◌, false, Option, some, [], arith, Option-cases, inl, inr}
use mathlib.Core.List.{append-nil}
use bingle_rust.Base.Eq.{nat_eq, pair_eq, pair_beq_iff}
use bingle_rust.Base.Map.{get, insert, get-insert}
use bingle_rust.Base.Str.{Str, str_eq}
use bingle_rust.Net.{SocketAddr, sock_eq, sock_beq_iff}
use bingle_rust.Net.Endpoint.{new_relay}
use bingle_rust.Turn.{WrappedMessageWithNetworkEndpoint}
use bingle_rust.Turn.ChannelData.{Bytes, parse_channel_data_header, build_channel_data}
use bingle_rust.Turn.ChannelData.Laws.{built_parses, parse_channel_data_header-IsFrame}
use bingle_rust.Turn.Client.{
  TurnClientHandlerImpl, handle_turn_incoming, handle_listen_response, handle_call_response,
  send_turn_outgoing,
}

-- With the lock sound, a packet is accepted exactly when its sender is known and registered and its
-- header parses.
handle_turn_incoming-accepts :
    (h : TurnClientHandlerImpl) (sender : Option SocketAddr) (local : Option SocketAddr)
    (packet : Bytes)
    → h.allowed_addr_to_id.poisoned ≡ false
    → ((w : WrappedMessageWithNetworkEndpoint) × (handle_turn_incoming h sender local packet
          ≡ some w))
      ↔ ((a : SocketAddr) × (id : Str) × (header : ℕ × ℕ × ℕ) × (sender ≡ some a)
          × (get h.allowed_addr_to_id.inner a ≡ some id)
          × (parse_channel_data_header packet ≡ some header))
unfolding handle_turn_incoming
handle_turn_incoming-accepts h sender local packet sound = (
  (λ w. elim (Option-cases (parse_channel_data_header packet)) [
    | inl e ↦ absurd (ground (arith, w.1))
    | inr (header, e) ↦ elim (Option-cases sender) [
      | inl f ↦ absurd (ground (arith, w.1))
      | inr (a, f) ↦ elim (Option-cases (get h.allowed_addr_to_id.inner a)) [
        | inl g ↦ absurd (ground (arith, w.1))
        | inr (id, g) ↦ (a, id, header, f, g, e)
      ]
    ]
  ]),
  (λ r.
      let frame = parse_channel_data_header-IsFrame packet r.2.0 r.2.1 r.2.2 r.5 in
      (
        record {
          ip_address = r.0;
          network_endpoint = new_relay r.1 (some r.0) (some r.2.0);
          message = frame.3.0;
          is_relay_local = false;
        },
        ground (arith, frame.3.1, r.3, r.4, r.5),
      )),
)

-- With the two locks of the registered peers sound: after a relay's response to a Listen, a frame
-- on a 16-bit channel from that relay is heard as coming over that relay and channel, its data
-- unchanged.
pub handle_turn_incoming-handle_listen_response :
    (h : TurnClientHandlerImpl) (relay : SocketAddr) (id : Str) (local : Option SocketAddr) (ch : ℕ)
    (payload packet : Bytes)
    → h.allowed_id_to_addr.poisoned ≡ false
    → h.allowed_addr_to_id.poisoned ≡ false
    → ch < 65536
    → build_channel_data ch payload ≡ some packet
    → handle_turn_incoming (handle_listen_response h relay id) (some relay) local packet
      ≡ some (record {
        ip_address = relay;
        network_endpoint = new_relay id (some relay) (some ch);
        message = payload;
        is_relay_local = false;
      })
unfolding handle_turn_incoming handle_listen_response
handle_turn_incoming-handle_listen_response h relay id local ch payload packet s t small built =
    let frame = built_parses ch payload [] packet small built in
    ground (
      arith,
      append-nil packet,
      frame.0,
      frame.1,
      get-insert relay relay id h.allowed_addr_to_id.inner,
      sock_beq_iff relay relay,
    )

-- With the two channel locks sound: after a CallResponse, data that the framing takes and that is
-- sent from the source to the destination of the call goes out to the destination, framed on the
-- call's channel, and data sent from the destination to the source goes out to the source likewise.
pub send_turn_outgoing-handle_call_response :
    (h : TurnClientHandlerImpl) (source dest : SocketAddr) (ch : ℕ) (id : Str)
    (payload packet : Bytes)
    → h.ch_to_addr.poisoned ≡ false
    → h.pair_to_ch.poisoned ≡ false
    → build_channel_data ch payload ≡ some packet
    → (send_turn_outgoing (handle_call_response h source dest ch id) source dest payload
        ≡ some (record { ip_address = dest; message = packet }))
      × (send_turn_outgoing (handle_call_response h source dest ch id) dest source payload
          ≡ some (record { ip_address = source; message = packet }))
unfolding send_turn_outgoing handle_call_response
send_turn_outgoing-handle_call_response h source dest ch id payload packet s t built =
    let once = insert (source, dest) ch h.pair_to_ch.inner in
    ground (
      arith,
      get-insert (dest, source) (source, dest) ch once,
      get-insert (dest, source) (dest, source) ch once,
      get-insert (source, dest) (source, dest) ch h.pair_to_ch.inner,
      pair_beq_iff (source, dest) (source, dest),
      pair_beq_iff (dest, source) (dest, source),
    )
