-- ===== src/Turn/Relay/Examples.antt =====
-- The theorems about the relay at small histories.
use bingle_rust.Base.{
  ℕ, ◌≤◌, ◌≡◌, ◌≢◌, ◌↔◌, refl, true, none, some, List, [], ◌∷◌, ◌++◌, arith, if◌then◌else◌, ◌>>=◌,
}
use bingle_rust.Base.Eq.{nat_eq, pair_eq, ◌=?◌}
use bingle_rust.Base.Map.{get, contains_key}
use bingle_rust.Base.Lock
use bingle_rust.Base.Str.{Str, str_eq}
use bingle_rust.Net.{SocketAddr, sock4, sock_eq, sock_beq}
use bingle_rust.Net.Endpoint.{NetworkEndpoint}
use bingle_rust.Turn.ChannelData.Examples.{three_bytes, framed, framed_built}
use bingle_rust.Turn.Relay.{
  TurnRelayHandlerImpl, new, alloc_channel, handle_call, handle_turn_incoming, min_ch, max_ch,
  probe, install_call,
}
use bingle_rust.Turn.Relay.Channels.{IsFree, alloc_channel_lem}
use bingle_rust.Turn.Relay.Invariant.{
  IsConsistent, IsConsistent-new, Request, listen, call, run, run-new-IsConsistent,
}
use bingle_rust.Turn.Relay.Forward.{
  IsSound, Carries, heard_from, called, handle_turn_incoming-mapped, handle_call-forwards,
}

abbrev alice : SocketAddr
alice = sock4 0x0a000001 4000

abbrev bob : SocketAddr
bob = sock4 0x0a000002 5000

abbrev here : SocketAddr
here = sock4 0x0a000009 6000

abbrev alice_id : Str
alice_id = b'A' ∷ []

abbrev bob_id : Str
bob_id = b'B' ∷ []

alloc_channel_lem_example :
    ((ch : ℕ) → alloc_channel 7 new ≡ some ch → IsFree ch new.ch_to_pair.inner)
    × ((alloc_channel 7 new ≡ none)
        ↔ ((ch : ℕ) → min_ch ≤ ch → ch ≤ max_ch → contains_key new.ch_to_pair.inner ch ≡ true))
alloc_channel_lem_example = alloc_channel_lem 7 new refl

abbrev history : List Request
history =
    listen bob_id bob ∷ call 1 alice_id bob_id alice bob ∷ call 1 bob_id alice_id bob alice ∷ []

run-new-IsConsistent_example :
    IsConsistent (run new history)
    × ((p q : SocketAddr × SocketAddr) (ch : ℕ)
        → get (run new history).pair_to_ch.inner p ≡ some ch
        → get (run new history).pair_to_ch.inner q ≡ some ch
        → p ≡ q)
run-new-IsConsistent_example = run-new-IsConsistent history

apart : alice ≢ bob
apart e = absurd (ground arith)

new-IsSound : IsSound new
new-IsSound = record { channels = refl; pairs = refl; ids = refl; addrs = refl }

call_returns : (handle_call 1 new alice_id bob_id alice bob).1 ≡ some 0x4001
unfolding handle_call alloc_channel probe get contains_key install_call
call_returns = refl

abbrev after_call : TurnRelayHandlerImpl
after_call = called 1 new alice_id bob_id alice bob 0x4001

handle_call-forwards_example :
    Carries after_call alice bob here 0x4001 three_bytes framed
    × Carries after_call bob alice here 0x4001 three_bytes framed
    × ((again : ℕ)
        → handle_call again after_call alice_id bob_id alice bob ≡ (after_call, some 0x4001))
handle_call-forwards_example =
    handle_call-forwards 1 new alice_id bob_id alice bob 0x4001 IsConsistent-new new-IsSound apart
      call_returns here three_bytes framed framed_built

-- A state with one pair and its two peers.
abbrev paired : TurnRelayHandlerImpl
paired = record {
  ch_to_pair = Lock.new ((0x4001, (alice, bob)) ∷ []);
  pair_to_ch = Lock.new (((alice, bob), 0x4001) ∷ []);
  allowed_id_to_addr = Lock.new ((alice_id, alice) ∷ (bob_id, bob) ∷ []);
  allowed_addr_to_id = Lock.new ((alice, alice_id) ∷ (bob, bob_id) ∷ []);
}

-- A stranger's frame on the channel goes to the caller, also where the relay's address is not known.
handle_turn_incoming-mapped_example :
    handle_turn_incoming paired (some here) none (framed ++ []) ≡ (
      heard_from paired here none 0x4001 >>= (λ (e : NetworkEndpoint). some (record {
        ip_address = if here =? alice then bob else alice;
        network_endpoint = e;
        message = three_bytes;
        is_relay_local = alice =? bob;
      })))
unfolding get contains_key sock_beq
handle_turn_incoming-mapped_example =
    handle_turn_incoming-mapped paired 0x4001 alice bob here none three_bytes [] framed
      (record { channels = refl; pairs = refl; ids = refl; addrs = refl }) (omega arith) refl refl
      framed_built
