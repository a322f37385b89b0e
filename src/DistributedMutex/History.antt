-- ===== src/DistributedMutex/History.antt =====
-- What a node does, in any order, and that the requests it puts off stay sorted.
use bingle_rust.Base.{ℕ, ◌≡◌, Bool, not, none, some, List, [], ◌∷◌, retain, All, arith}
use Prim.Native.Nat.{Ordering}
use bingle_rust.Base.Eq.{◌=?◌, nat_eq, pair_eq}
use bingle_rust.Base.Str.{Str, str_eq, cmp-swap, cmp-lt_trans}
use bingle_rust.DistributedMutex.{
  InnerState, Node, update_membership, decide, defer, cmp_entry, grant_next, handle_request,
  handle_reply, handle_release,
}
use bingle_rust.DistributedMutex.Acquire.{
  Received, request_from, reply_from, release_from, receive, begin_request, broadcast_request,
  prune, prune_unreachable, try_enter, leave,
}

-- A step of a node: a message that it receives, or a part of its own `acquire`.
pub data Action : Type 0 where
  received : Received → Action
  begins : Action
  asks : (Str → Bool) → ℕ → Action
  tries : ℕ → ℕ → ℕ → Action
  leaves : ℕ → Action

unfoldable pub act : Node → Action → InnerState → InnerState
act node (received r) st = (receive node r st).0
act node begins st = (begin_request node st).0
act node (asks delivered ts) st = (broadcast_request node delivered ts st).0
act node (tries ts now now2) st = elim (try_enter node ts now now2 st) [ none ↦ st | some t ↦ t ]
act node (leaves now) st = (leave node now st).0

unfoldable pub act_all : Node → List Action → InnerState → InnerState
act_all node [] st = st
act_all node (x ∷ xs) st = act_all node xs (act node x st)

abbrev pub Later : ℕ × Str → ℕ × Str → Type 0
Later p q = cmp_entry p q ≡ Ordering.lt

abbrev pub IsSorted : List (ℕ × Str) → Type 0
IsSorted [] = Unit {0}
IsSorted (p ∷ qs) = All (Later p) qs × IsSorted qs

Later-trans : (p q r : ℕ × Str) → Later p q → Later q r → Later p r
unfolding cmp_entry
Later-trans p q r h k = ground (arith, cmp-lt_trans p.1 q.1 r.1)

Later-swap : (p q : ℕ × Str) → cmp_entry p q ≡ Ordering.gt → Later q p
unfolding cmp_entry
Later-swap p q h = ground (arith, cmp-swap p.1 q.1)

Later-All : (p q : ℕ × Str) (qs : List (ℕ × Str)) → Later p q → All (Later q) qs → All (Later p) qs
Later-All p q [] h a = tt
Later-All p q (r ∷ qs) h a = (Later-trans p q r h a.0, Later-All p q qs h a.1)

All-defer :
    (x p : ℕ × Str) (qs : List (ℕ × Str))
    → Later x p
    → All (Later x) qs
    → All (Later x) (defer p qs)
unfolding defer
All-defer x p [] h a = (h, tt)
All-defer x p (q ∷ qs) h a = ground (arith, All-defer x p qs h a.1)

All-retain :
    (x : ℕ × Str) (t : ℕ × Str → Bool) (qs : List (ℕ × Str))
    → All (Later x) qs
    → All (Later x) (retain t qs)
unfolding retain
All-retain x t [] a = tt
All-retain x t (q ∷ qs) a = ground (arith, All-retain x t qs a.1)

pub defer-IsSorted : (p : ℕ × Str) (qs : List (ℕ × Str)) → IsSorted qs → IsSorted (defer p qs)
unfolding defer
defer-IsSorted p [] s = (tt, tt)
defer-IsSorted p (q ∷ qs) s =
    ground (arith, defer-IsSorted p qs s.1, All-defer q p qs, Later-All p q qs, Later-swap p q)

pub retain-IsSorted :
    (t : ℕ × Str → Bool) (qs : List (ℕ × Str)) → IsSorted qs → IsSorted (retain t qs)
unfolding retain
retain-IsSorted t [] s = tt
retain-IsSorted t (q ∷ qs) s = ground (arith, retain-IsSorted t qs s.1, All-retain q t qs s.0)

module _ (node : Node) where
  decide-IsSorted :
      (id : Str) (ts now : ℕ) (st : InnerState)
      → IsSorted st.deferred
      → IsSorted (decide node id ts now st).0.deferred
  unfolding decide
  decide-IsSorted id ts now st s = ground (
    arith,
    defer-IsSorted (ts, id) st.deferred s,
    retain-IsSorted (λ (p : ℕ × Str). not (p.1 =? id)) st.deferred s,
  )

  grant_next-IsSorted :
      (now : ℕ) (st : InnerState)
      → IsSorted st.deferred
      → IsSorted (grant_next node now st).0.deferred
  unfolding grant_next
  grant_next-IsSorted now st s = ground arith

  prune_unreachable-IsSorted :
      (ids : List Str) (st : InnerState)
      → IsSorted st.deferred
      → IsSorted (prune_unreachable ids st).deferred
  unfolding prune_unreachable prune
  prune_unreachable-IsSorted [] st s = s
  prune_unreachable-IsSorted (id ∷ ids) st s =
      prune_unreachable-IsSorted ids _ (retain-IsSorted _ st.deferred s)

  receive-IsSorted :
      (r : Received) (st : InnerState)
      → IsSorted st.deferred
      → IsSorted (receive node r st).0.deferred
  unfolding receive handle_request handle_reply handle_release update_membership
  receive-IsSorted (request_from id req now) st s = decide-IsSorted id req.lamport_timestamp now _ s
  receive-IsSorted (reply_from id resp) st s = ground arith
  receive-IsSorted (release_from id rel now) st s = grant_next-IsSorted now _ (ground arith)

  act-IsSorted :
      (x : Action) (st : InnerState) → IsSorted st.deferred → IsSorted (act node x st).deferred
  unfolding act begin_request broadcast_request try_enter leave
  act-IsSorted (received r) st s = receive-IsSorted r st s
  act-IsSorted begins st s = s
  act-IsSorted (asks delivered ts) st s = prune_unreachable-IsSorted _ st s
  act-IsSorted (tries ts now now2) st s = ground arith
  act-IsSorted (leaves now) st s = grant_next-IsSorted now st s

  pub act_all-IsSorted :
      (xs : List Action) (st : InnerState)
      → IsSorted st.deferred
      → IsSorted (act_all node xs st).deferred
  unfolding act_all
  act_all-IsSorted [] st s = s
  act_all-IsSorted (x ∷ xs) st s = act_all-IsSorted xs (act node x st) (act-IsSorted x st s)
