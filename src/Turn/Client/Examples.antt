-- ===== src/Turn/Client/Examples.antt =====
-- The theorems about the client at small states.
use bingle_rust.Base.{◌≡◌, refl, false, none, some, [], ◌∷◌, arith}
use bingle_rust.Base.Eq.{nat_eq, pair_eq}
use bingle_rust.Base.Str.{Str, str_eq}
use bingle_rust.Net.{SocketAddr, sock4, sock_eq}
use bingle_rust.Net.Endpoint.{new_relay}
use bingle_rust.Turn.ChannelData.Examples.{three_bytes, framed, framed_built}
use bingle_rust.Turn.Client.{
  new, handle_turn_incoming, handle_listen_response, handle_call_response, send_turn_outgoing,
}
use bingle_rust.Turn.Client.Laws.{
  handle_turn_incoming-handle_listen_response, send_turn_outgoing-handle_call_response,
}

abbrev relay : SocketAddr
relay = sock4 0x0a000009 6000

abbrev peer : SocketAddr
peer = sock4 0x0a000002 5000

abbrev relay_id : Str
relay_id = b'R' ∷ []

handle_turn_incoming-handle_listen_response_example :
    handle_turn_incoming (handle_listen_response new relay relay_id) (some relay) none framed
    ≡ some (record {
      ip_address = relay;
      network_endpoint = new_relay relay_id (some relay) (some 0x4001);
      message = three_bytes;
      is_relay_local = false;
    })
handle_turn_incoming-handle_listen_response_example =
    handle_turn_incoming-handle_listen_response new relay relay_id none 0x4001 three_bytes framed
      refl refl (omega arith) framed_built

send_turn_outgoing-handle_call_response_example :
    (send_turn_outgoing (handle_call_response new relay peer 0x4001 relay_id) relay peer three_bytes
      ≡ some (record { ip_address = peer; message = framed }))
    × (send_turn_outgoing
          (handle_call_response new relay peer 0x4001 relay_id)
          peer
          relay
          three_bytes
        ≡ some (record { ip_address = relay; message = framed }))
send_turn_outgoing-handle_call_response_example =
    send_turn_outgoing-handle_call_response new relay peer 0x4001 relay_id three_bytes framed refl
      refl framed_built
