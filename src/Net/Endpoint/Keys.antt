-- ===== src/Net/Endpoint/Keys.antt =====
-- When two endpoints have one key, and so share their state in the reliable transport.
use bingle_rust.Base.{ℕ, ◌≡◌, ◌↔◌, inl, inr, Option, none, some, arith, Option-cases}
use bingle_rust.Base.Str.{Str}
use bingle_rust.Net.{SocketAddr}
use bingle_rust.Net.Endpoint.{NetworkEndpoint, NetworkEndpointKey, key, get_key, relay_key}

-- The endpoints lead to one address, or else over one channel of one relay.
data SameRoute (a b : NetworkEndpoint) : Type 0 where
  direct :
      (addr : SocketAddr)
      → a.inet_socket_address ≡ some addr
      → b.inet_socket_address ≡ some addr
      → SameRoute a b
  relayed :
      (id : Str) (ch : ℕ)
      → a.inet_socket_address ≡ none
      → b.inet_socket_address ≡ none
      → (a.relay_id ≡ some id) × (a.relay_channel ≡ some ch)
      → (b.relay_id ≡ some id) × (b.relay_channel ≡ some ch)
      → SameRoute a b

relay_key-key :
    (id : Option Str) (ch : Option ℕ) (k : NetworkEndpointKey)
    → relay_key id ch ≡ key k
    → (id ≡ k.relay_id)
      × (ch ≡ k.relay_channel)
      × (k.inet_socket_address ≡ none)
      × ((i : Str) × (c : ℕ) × (k.relay_id ≡ some i) × (k.relay_channel ≡ some c))
unfolding relay_key
relay_key-key (some id) (some ch) k e =
    (ground arith, ground arith, ground arith, (id, ch, ground arith, ground arith))
relay_key-key (some id) none k e = cc
relay_key-key none (some ch) k e = cc
relay_key-key none none k e = cc

-- Two endpoints have the same key exactly when they lead to the same address, or when neither holds
-- an address and they go over the same channel of the same relay, whatever the relays' addresses.
get_key_same :
    (a b : NetworkEndpoint)
    → ((k : NetworkEndpointKey) × (get_key a ≡ key k) × (get_key b ≡ key k)) ↔ SameRoute a b
unfolding get_key relay_key
get_key_same a b = (
  (λ r. elim (Option-cases a.inet_socket_address) [
    | inr (x, e) ↦ elim (Option-cases b.inet_socket_address) [
      | inr (y, f) ↦ direct x e (ground (arith, r.1, r.2))
      | inl f ↦ absurd (ground (arith, r.1, r.2, relay_key-key b.relay_id b.relay_channel r.0))
    ]
    | inl e ↦ elim (Option-cases b.inet_socket_address) [
      | inr (y, f) ↦ absurd (ground (arith, r.1, r.2, relay_key-key a.relay_id a.relay_channel r.0))
      | inl f ↦
          let p = relay_key-key a.relay_id a.relay_channel r.0 (ground (arith, r.1)) in
          let q = relay_key-key b.relay_id b.relay_channel r.0 (ground (arith, r.2)) in
          relayed p.3.0 p.3.1 e f (ground (arith, p.0, p.3.2), ground (arith, p.1, p.3.3))
            (ground (arith, q.0, p.3.2), ground (arith, q.1, p.3.3))
    ]
  ]),
  (λ s. elim s [
    | direct addr e f ↦ (
      record { inet_socket_address = some addr; relay_id = none; relay_channel = none },
      ground arith,
      ground arith,
    )
    | relayed id ch e f p q ↦ (
      record { inet_socket_address = none; relay_id = some id; relay_channel = some ch },
      ground (arith, p.0, p.1),
      ground (arith, q.0, q.1),
    )
  ]),
)
