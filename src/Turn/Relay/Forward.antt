-- ===== src/Turn/Relay/Forward.antt =====
-- Packets through the relay: what `handle_turn_incoming` does with a frame on a channel, and that a
-- channel which `handle_call` returned carries frames both ways.
use bingle_rust.Base.{
  ℕ, ◌<◌, ◌≡◌, ◌≢◌, sym, subst, ◌∙◌, [], true, false, Option, none, some, ◌++◌, if◌then◌else◌,
  arith, ◌>>=◌, refl,
}
use mathlib.Core.List.{append-nil}
use mathlib.Core.Option.{none-ne-some}
use bingle_rust.Base.Eq.{nat_eq, pair_eq, pair_beq_iff, ◌=?◌}
use bingle_rust.Base.Map.{get, contains_key, get-insert}
use bingle_rust.Base.Str.{Str, str_eq}
use bingle_rust.Net.{SocketAddr, sock_eq, sock_beq_iff}
use bingle_rust.Net.Endpoint.{NetworkEndpoint, new_direct, new_relay}
use bingle_rust.Turn.ChannelData.{Bytes, build_channel_data}
use bingle_rust.Turn.ChannelData.Laws.{built_parses}
use bingle_rust.Turn.Relay.{TurnRelayHandlerImpl, install_call, handle_call, handle_turn_incoming}
use bingle_rust.Turn.Relay.Invariant.{
  IsConsistent, handle_call-IsConsistent, handle_call-Answer, refused, known, fresh,
}

-- No lock of the relay is poisoned.
pub record IsSound (h : TurnRelayHandlerImpl) : Type 0 where
  pub channels : h.ch_to_pair.poisoned ≡ false
  pub pairs : h.pair_to_ch.poisoned ≡ false
  pub ids : h.allowed_id_to_addr.poisoned ≡ false
  pub addrs : h.allowed_addr_to_id.poisoned ≡ false

-- How the relay names the sender of a packet to the rest of the program; not at all where the sender
-- is registered and the relay has not been told its own public address.
abbrev pub heard_from :
    TurnRelayHandlerImpl → SocketAddr → Option SocketAddr → ℕ → Option NetworkEndpoint
heard_from h sender local ch = elim (get h.allowed_addr_to_id.inner sender) [
  | some id ↦ elim local [ none ↦ none | some here ↦ some (new_relay id (some here) (some ch)) ]
  | none ↦ some (new_direct sender)
]

-- A frame of data on the channel of the pair (source, dest), with dest registered and the relay's
-- locks sound, is passed on with its data unchanged, to dest if it comes from source, and to source
-- if it comes from any other address, unless its sender is registered and the relay is not given
-- its own public address, when it is dropped; a registered sender is named by its id, that address
-- and the channel, and another one by its own address.
pub handle_turn_incoming-mapped :
    (h : TurnRelayHandlerImpl) (ch : ℕ) (source dest sender : SocketAddr)
    (local : Option SocketAddr) (payload rest packet : Bytes)
    → IsSound h
    → ch < 65536
    → get h.ch_to_pair.inner ch ≡ some (source, dest)
    → contains_key h.allowed_addr_to_id.inner dest ≡ true
    → build_channel_data ch payload ≡ some packet
    → handle_turn_incoming h (some sender) local (packet ++ rest) ≡ (
        heard_from h sender local ch >>= (λ (e : NetworkEndpoint). some (record {
          ip_address = if sender =? source then dest else source;
          network_endpoint = e;
          message = payload;
          is_relay_local = source =? dest;
        })))
unfolding handle_turn_incoming
handle_turn_incoming-mapped h ch source dest sender none payload rest packet s small pair reg
      built =
    let frame = built_parses ch payload rest packet small built in
    ground (arith, frame.0, frame.1, s.channels, s.addrs)
handle_turn_incoming-mapped h ch source dest sender (some here) payload rest packet s small pair reg
      built =
    let frame = built_parses ch payload rest packet small built in
    ground (arith, frame.0, frame.1, s.channels, s.addrs)

-- A frame of a registered peer goes to the other one, if the relay knows its own public address, and
-- is dropped if not.
pub record Carries (h : TurnRelayHandlerImpl) (sender receiver here : SocketAddr) (ch : ℕ)
    (payload packet : Bytes) : Type 0 where
  pub id : Str
  pub is_registered : get h.allowed_addr_to_id.inner sender ≡ some id
  pub passed :
      handle_turn_incoming h (some sender) (some here) packet
      ≡ some (record {
        ip_address = receiver;
        network_endpoint = new_relay id (some here) (some ch);
        message = payload;
        is_relay_local = false;
      })
  pub dropped : handle_turn_incoming h (some sender) none packet ≡ none

of_key {ℓ} :
    {A : Type ℓ} (o : Option A)
    → elim o [ none ↦ false | some a ↦ true ] ≡ true
    → (a : A) × (o ≡ some a)
of_key none h = cc
of_key (some a) h = (a, refl)

known_again :
    (source_id dest_id : Str) (source dest : SocketAddr) {ch : ℕ} (again : ℕ)
    (h : TurnRelayHandlerImpl)
    → get h.pair_to_ch.inner (source, dest) ≡ some ch
    → h.pair_to_ch.poisoned ≡ false
    → handle_call again h source_id dest_id source dest ≡ (h, some ch)
unfolding handle_call
known_again source_id dest_id source dest again h found sound = ground arith

module _ (seed : ℕ) (h : TurnRelayHandlerImpl) (source_id dest_id : Str) (source dest : SocketAddr)
    (ch : ℕ) where
  abbrev pub called : TurnRelayHandlerImpl
  called = (handle_call seed h source_id dest_id source dest).0

  -- What is true of an answer: the channel, if there is one, is the pair's.
  abbrev Installed : TurnRelayHandlerImpl × Option ℕ → Type 0
  Installed r = r.1 ≡ some ch → get r.0.pair_to_ch.inner (source, dest) ≡ some ch

  install_call-Installed : (k : ℕ) → Installed (install_call h k source_id dest_id source dest)
  unfolding install_call
  install_call-Installed k e = ground (
    arith,
    get-insert (source, dest) (source, dest) k h.pair_to_ch.inner,
    pair_beq_iff (source, dest) (source, dest),
  )

  install_call-IsSound :
      (k : ℕ) → IsSound h → IsSound (install_call h k source_id dest_id source dest).0
  unfolding install_call
  install_call-IsSound k s = ground arith

  handle_call-Installed : Installed (handle_call seed h source_id dest_id source dest)
  handle_call-Installed = elim (handle_call-Answer seed h source_id dest_id source dest) [
    | refused r ↦ subst Installed (sym r) (λ e. absurd (none-ne-some ch e))
    | known k found r ↦ subst Installed (sym r) (λ e. found ∙ e)
    | fresh k free miss r ↦ subst Installed (sym r) (install_call-Installed k)
  ]

  handle_call-IsSound : IsSound h → IsSound called
  handle_call-IsSound s = elim (handle_call-Answer seed h source_id dest_id source dest) [
    | refused r ↦ subst (λ t. IsSound t.0) (sym r) s
    | known k found r ↦ subst (λ t. IsSound t.0) (sym r) s
    | fresh k free miss r ↦ subst (λ t. IsSound t.0) (sym r) (install_call-IsSound k s)
  ]

  carried :
      IsSound called
      → ch < 65536
      → get called.ch_to_pair.inner ch ≡ some (source, dest)
      → contains_key called.allowed_addr_to_id.inner dest ≡ true
      → source ≢ dest
      → (sender receiver here : SocketAddr) (payload packet : Bytes)
      → contains_key called.allowed_addr_to_id.inner sender ≡ true
      → (if sender =? source then dest else source) ≡ receiver
      → build_channel_data ch payload ≡ some packet
      → Carries called sender receiver here ch payload packet
  unfolding contains_key
  carried s small pair reg apart sender receiver here payload packet known_sender other built =
      let (id, is) = of_key (get called.allowed_addr_to_id.inner sender) known_sender in
      let passed = λ (local : Option SocketAddr).
        handle_turn_incoming-mapped called ch source dest sender local payload [] packet s small
          pair reg built in
      record {
        id = id;
        is_registered = is;
        passed =
            ground
              (arith, passed (some here), append-nil packet, is, other, sock_beq_iff source dest);
        dropped = ground (arith, passed none, append-nil packet, is);
      }

  -- On a relay in a consistent state with no poisoned lock, after a Call between different
  -- addresses that returns a channel, both peers are registered, and a frame of data on that
  -- channel, from either of them, goes to the other with its data unchanged and named by the
  -- sender's id and the channel if the relay is given its own public address, and is dropped if it
  -- is not; a second Call of the pair returns the same channel and changes nothing.
  pub handle_call-forwards :
      IsConsistent h
      → IsSound h
      → source ≢ dest
      → (handle_call seed h source_id dest_id source dest).1 ≡ some ch
      → (here : SocketAddr) (payload packet : Bytes) → build_channel_data ch payload ≡ some packet
      → Carries called source dest here ch payload packet
        × Carries called dest source here ch payload packet
        × ((again : ℕ) → handle_call again called source_id dest_id source dest ≡ (called, some ch))
  handle_call-forwards c s apart e here payload packet built =
      let c' = handle_call-IsConsistent seed h source_id dest_id source dest c in
      let s' = handle_call-IsSound s in
      let pair = c'.paired (source, dest) ch (handle_call-Installed e) in
      let small : ch < 65536 = omega (arith, (c'.ranged (source, dest) ch pair).1) in
      let reg = c'.registered (source, dest) ch pair in
      (
        carried s' small pair reg.1 apart source dest here payload packet reg.0
            (ground (arith, sock_beq_iff source source)) built,
        carried s' small pair reg.1 apart dest source here payload packet reg.1
            (ground (arith, sock_beq_iff dest source, apart)) built,
        λ again.
            known_again source_id dest_id source dest again called (handle_call-Installed e)
              s'.pairs,
      )
