-- ===== src/Turn/Relay/Channels.antt =====
-- `alloc_channel`: the channel that it returns is free, and it fails only when none is.
use bingle_rust.Base.{
  ℕ, zero, suc, ◌+◌, ◌-◌, ◌%◌, ◌^◌, ◌≤◌, ◌<◌, ◌≡◌, ◌↔◌, true, false, none, some, ◌==◌,
  if◌then◌else◌, arith, Option-cases, Bool-cases, inl, inr,
}
use mathlib.Core.Option.{some-ne-none}
use bingle_rust.Base.Eq.{nat_eq}
use bingle_rust.Base.Map.{Map, contains_key}
use bingle_rust.Net.{SocketAddr}
use bingle_rust.Turn.Relay.{TurnRelayHandlerImpl, probe, alloc_channel, min_ch, max_ch, range}

abbrev pub IsFree : ℕ → Map ℕ (SocketAddr × SocketAddr) → Type 0
IsFree ch m = (min_ch ≤ ch) × (ch ≤ max_ch) × (contains_key m ch ≡ false)

probe-IsFree :
    (n : ℕ) (m : Map ℕ (SocketAddr × SocketAddr)) (c ch : ℕ) → probe n m c ≡ some ch → IsFree ch m
unfolding probe
probe-IsFree zero m c ch h = ground arith
probe-IsFree (suc n) m c ch h = ground (
  arith,
  probe-IsFree n m (if c == max_ch then min_ch else c + 1) ch,
  probe-IsFree n m (min_ch + 1) ch,
)

-- Every candidate that the loop has passed is taken.
probe_full :
    (n : ℕ) (m : Map ℕ (SocketAddr × SocketAddr)) (c : ℕ)
    → probe n m c ≡ none
    → min_ch ≤ c
    → c ≤ max_ch
    → (k : ℕ) → k < n
    → contains_key m (min_ch + (c - min_ch + k) % range) ≡ true
unfolding probe
probe_full zero m c h lo hi k lt = elim lt [ ]
probe_full (suc n) m c h lo hi zero lt =
    let e : min_ch + (c - min_ch + zero) % range ≡ c = omega arith in rw e (ground arith)
probe_full (suc n) m c h lo hi (suc k) lt =
    let next : ℕ = if c == max_ch then min_ch else c + 1 in
    let e : min_ch + (c - min_ch + suc k) % range ≡ min_ch + (next - min_ch + k) % range =
      ground arith in
    rw e (probe_full n m next (ground arith) (ground arith) (ground arith) k (omega arith))

probe_complete :
    (m : Map ℕ (SocketAddr × SocketAddr)) (seed : ℕ)
    → (probe range m (min_ch + seed % range) ≡ none)
      ↔ ((ch : ℕ) → min_ch ≤ ch → ch ≤ max_ch → contains_key m ch ≡ true)
probe_complete m seed = (
  (λ e ch lo hi.
      let c : ℕ = min_ch + seed % range in
      let k : ℕ = (ch + range - c) % range in
      let meets : min_ch + (c - min_ch + k) % range ≡ ch = omega arith in
      rw meets at (probe_full range m c e (omega arith) (omega arith) k (omega arith))),
  (λ all. elim (Option-cases (probe range m (min_ch + seed % range))) [
    | inl e ↦ e
    | inr (ch, e) ↦ let free = probe-IsFree range m _ ch e in cc (free.2, all ch free.0 free.1)
  ]),
)

pub alloc_channel-IsFree :
    (seed : ℕ) (h : TurnRelayHandlerImpl) (ch : ℕ)
    → alloc_channel seed h ≡ some ch
    → IsFree ch h.ch_to_pair.inner
unfolding alloc_channel
alloc_channel-IsFree seed h ch e = elim (Bool-cases h.ch_to_pair.poisoned) [
  | inl bad ↦ absurd (some-ne-none ch (cc (rw bad at e)))
  | inr sound ↦ probe-IsFree range h.ch_to_pair.inner _ ch (rw sound at e)
]

-- With the lock sound, a channel that is allocated lies in the RFC's range and carries no pair yet,
-- and allocation fails exactly when every channel of the range carries a pair, whatever the seed.
pub alloc_channel_lem :
    (seed : ℕ) (h : TurnRelayHandlerImpl)
    → h.ch_to_pair.poisoned ≡ false
    → ((ch : ℕ) → alloc_channel seed h ≡ some ch → IsFree ch h.ch_to_pair.inner)
      × ((alloc_channel seed h ≡ none)
          ↔ ((ch : ℕ) → min_ch ≤ ch → ch ≤ max_ch → contains_key h.ch_to_pair.inner ch ≡ true))
unfolding alloc_channel
alloc_channel_lem seed h sound = rw sound (
  (λ ch e. probe-IsFree range h.ch_to_pair.inner _ ch e),
  probe_complete h.ch_to_pair.inner (seed % 2 ^ 32),
)
