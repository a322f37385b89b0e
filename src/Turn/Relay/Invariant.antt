-- ===== src/Turn/Relay/Invariant.antt =====
-- What the relay's four maps keep to under any history of Listen and Call requests.
use bingle_rust.Base.{
  ℕ, ◌≤◌, ◌≡◌, sym, ◌∙◌, true, none, some, List, [], ◌∷◌, if◌then◌else◌, arith, Option-cases, inl,
  inr,
}
use mathlib.Core.Option.{some-injective}
use bingle_rust.Base.Eq.{nat_eq, pair_eq, pair_beq_iff, ◌=?◌}
use bingle_rust.Base.Map.{Map, get, contains_key, get-insert, contains_key-insert, not-contains_key}
use bingle_rust.Base.Lock.{lock}
use bingle_rust.Base.Str.{Str, str_eq}
use bingle_rust.Net.{SocketAddr, sock_eq, sock_beq_iff}
use bingle_rust.Turn.Relay.{
  TurnRelayHandlerImpl, new, register_if_absent, install_call, allocate_call, alloc_channel,
  handle_call, handle_listen, min_ch, max_ch,
}
use bingle_rust.Turn.Relay.Channels.{IsFree, alloc_channel-IsFree}

pub record IsConsistent (h : TurnRelayHandlerImpl) : Type 0 where
  pub paired :
      (p : SocketAddr × SocketAddr) (ch : ℕ)
      → get h.pair_to_ch.inner p ≡ some ch
      → get h.ch_to_pair.inner ch ≡ some p
  pub ranged :
      (p : SocketAddr × SocketAddr) (ch : ℕ)
      → get h.ch_to_pair.inner ch ≡ some p
      → (min_ch ≤ ch) × (ch ≤ max_ch)
  pub registered :
      (p : SocketAddr × SocketAddr) (ch : ℕ)
      → get h.ch_to_pair.inner ch ≡ some p
      → (contains_key h.allowed_addr_to_id.inner p.0 ≡ true)
        × (contains_key h.allowed_addr_to_id.inner p.1 ≡ true)

pub IsConsistent-new : IsConsistent new
unfolding get
IsConsistent-new = record {
  paired = λ p ch e. cc;
  ranged = λ p ch e. cc;
  registered = λ p ch e. cc;
}

-- A peer that is registered stays so, and the peer of the call is.
register_if_absent_lem :
    (id : Str) (addr x : SocketAddr) (m : Map Str SocketAddr × Map SocketAddr Str)
    → contains_key (register_if_absent id addr m).1 x
      ≡ (if addr =? x then true else contains_key m.1 x)
unfolding register_if_absent
register_if_absent_lem id addr x (id2a, a2id) =
    ground (arith, contains_key-insert addr x id a2id, sock_beq_iff addr x)

module _ (h : TurnRelayHandlerImpl) (c : IsConsistent h) where
  pub handle_listen-IsConsistent :
      (id : Str) (addr : SocketAddr) → IsConsistent (handle_listen h id addr).0
  unfolding handle_listen
  handle_listen-IsConsistent id addr = record {
    paired = λ p ch e. ground (arith, c.paired p ch);
    ranged = λ p ch e. ground (arith, c.ranged p ch);
    registered = λ p ch e. ground (
      arith,
      c.registered p ch,
      contains_key-insert addr p.0 id h.allowed_addr_to_id.inner,
      contains_key-insert addr p.1 id h.allowed_addr_to_id.inner,
    );
  }

  module _ (ch : ℕ) (source_id dest_id : Str) (source dest : SocketAddr)
      (free : IsFree ch h.ch_to_pair.inner) where
    abbrev called : TurnRelayHandlerImpl
    called = (install_call h ch source_id dest_id source dest).0

    installed_paired :
        (p : SocketAddr × SocketAddr) (k : ℕ)
        → get called.pair_to_ch.inner p ≡ some k
        → get called.ch_to_pair.inner k ≡ some p
    unfolding install_call
    installed_paired p k e = ground (
      arith,
      c.paired p k,
      get-insert (source, dest) p ch h.pair_to_ch.inner,
      get-insert ch k (source, dest) h.ch_to_pair.inner,
      pair_beq_iff (source, dest) p,
      not-contains_key ch h.ch_to_pair.inner,
    )

    installed_ranged :
        (p : SocketAddr × SocketAddr) (k : ℕ)
        → get called.ch_to_pair.inner k ≡ some p
        → (min_ch ≤ k) × (k ≤ max_ch)
    unfolding install_call
    installed_ranged p k e =
        ground (arith, c.ranged p k, get-insert ch k (source, dest) h.ch_to_pair.inner)

    installed_registered :
        (p : SocketAddr × SocketAddr) (k : ℕ)
        → get called.ch_to_pair.inner k ≡ some p
        → (contains_key called.allowed_addr_to_id.inner p.0 ≡ true)
          × (contains_key called.allowed_addr_to_id.inner p.1 ≡ true)
    unfolding install_call
    installed_registered p k e =
        let old : Map Str SocketAddr × Map SocketAddr Str =
          (h.allowed_id_to_addr.inner, h.allowed_addr_to_id.inner) in
        let mid : Map Str SocketAddr × Map SocketAddr Str =
          register_if_absent source_id source old in
        ground (
          arith,
          c.registered p k,
          get-insert ch k (source, dest) h.ch_to_pair.inner,
          register_if_absent_lem dest_id dest p.0 mid,
          register_if_absent_lem dest_id dest p.1 mid,
          register_if_absent_lem source_id source p.0 old,
          register_if_absent_lem source_id source p.1 old,
          sock_beq_iff source source,
          sock_beq_iff dest dest,
          sock_beq_iff source p.0,
          sock_beq_iff dest p.1,
        )

    install_call-IsConsistent : IsConsistent called
    install_call-IsConsistent = record {
      paired = installed_paired;
      ranged = installed_ranged;
      registered = installed_registered;
    }

module _ (seed : ℕ) (h : TurnRelayHandlerImpl) (source_id dest_id : Str)
    (source dest : SocketAddr) where
  -- The three ways in which a Call is answered.
  pub data Answer : Type 0 where
    refused : handle_call seed h source_id dest_id source dest ≡ (h, none) → Answer
    known :
        (ch : ℕ)
        → get h.pair_to_ch.inner (source, dest) ≡ some ch
        → handle_call seed h source_id dest_id source dest ≡ (h, some ch)
        → Answer
    fresh :
        (ch : ℕ)
        → IsFree ch h.ch_to_pair.inner
        → get h.pair_to_ch.inner (source, dest) ≡ none
        → handle_call seed h source_id dest_id source dest
          ≡ install_call h ch source_id dest_id source dest
        → Answer

  pub handle_call-Answer : Answer
  unfolding handle_call allocate_call
  handle_call-Answer = elim (Option-cases (lock h.pair_to_ch)) [
    | inl bad ↦ refused (ground arith)
    | inr (p2c, sound) ↦ elim (Option-cases (get h.pair_to_ch.inner (source, dest))) [
      | inr (ch, e) ↦ known ch e (ground arith)
      | inl miss ↦ elim (Option-cases (alloc_channel seed h)) [
        | inl full ↦ refused (ground arith)
        | inr (ch, e) ↦ fresh ch (alloc_channel-IsFree seed h ch e) miss (ground arith)
      ]
    ]
  ]

  pub handle_call-IsConsistent :
      IsConsistent h → IsConsistent (handle_call seed h source_id dest_id source dest).0
  handle_call-IsConsistent c = elim handle_call-Answer [
    | refused e ↦ rw e c
    | known ch _ e ↦ rw e c
    | fresh ch free _ e ↦ rw e (install_call-IsConsistent h c ch source_id dest_id source dest free)
  ]

-- A request that the relay serves: Listen of a peer, or Call with the seed that is drawn for it.
pub data Request : Type 0 where
  listen : Str → SocketAddr → Request
  call : ℕ → Str → Str → SocketAddr → SocketAddr → Request

abbrev pub serve : TurnRelayHandlerImpl → Request → TurnRelayHandlerImpl
serve h (listen id addr) = (handle_listen h id addr).0
serve h (call seed source_id dest_id source dest) =
    (handle_call seed h source_id dest_id source dest).0

pub run : TurnRelayHandlerImpl → List Request → TurnRelayHandlerImpl
run h [] = h
run h (r ∷ rs) = run (serve h r) rs

serve-IsConsistent :
    (h : TurnRelayHandlerImpl) (r : Request) → IsConsistent h → IsConsistent (serve h r)
serve-IsConsistent h (listen id addr) c = handle_listen-IsConsistent h c id addr
serve-IsConsistent h (call seed source_id dest_id source dest) c =
    handle_call-IsConsistent seed h source_id dest_id source dest c

pub run-IsConsistent :
    (h : TurnRelayHandlerImpl) (rs : List Request) → IsConsistent h → IsConsistent (run h rs)
unfolding run
run-IsConsistent h [] c = c
run-IsConsistent h (r ∷ rs) c = run-IsConsistent (serve h r) rs (serve-IsConsistent h r c)

-- After any history of Listen and Call requests of a new relay, a channel in use lies in the RFC's
-- range, both peers of its pair are registered, and no two pairs share a channel.
pub run-new-IsConsistent :
    (rs : List Request)
    → IsConsistent (run new rs)
      × ((p q : SocketAddr × SocketAddr) (ch : ℕ)
          → get (run new rs).pair_to_ch.inner p ≡ some ch
          → get (run new rs).pair_to_ch.inner q ≡ some ch
          → p ≡ q)
run-new-IsConsistent rs =
    let c = run-IsConsistent new rs IsConsistent-new in
    (c, λ p q ch e f. some-injective p q (sym (c.paired p ch e) ∙ c.paired q ch f))
