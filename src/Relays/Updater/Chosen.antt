-- ===== src/Relays/Updater/Chosen.antt =====
-- What a selection of a relay ends with (bingle_core/src/relay/relay_updater.rs).
use bingle_rust.Base.{
  ℕ, suc, ◌+◌, ◌≤◌, ◌<◌, ◌≡◌, ◌⊎◌, inl, inr, refl, true, false, Option, none, some, List, [], ◌∷◌,
  ◌==◌, leb, length, length-append, Bool-cases, find, arith, ==_iff, leb→le,
}
use bingle_rust.Base.Order.{In}
use bingle_rust.Base.Str.{Str, str_eq}
use bingle_rust.Net.{SocketAddr}
use bingle_rust.Ddb.Record.{InetSocketAddress}
use bingle_rust.Relays.Cache.{RelayInfo, RelayInfoCache, has_id, list_all_relays}
use bingle_rust.Relays.Updater.{
  DdbRelaysStatusResponse, is_available, accept_available, update_cached_relay_state,
  update_cache_from_status, get_at,
}
use bingle_rust.Relays.Updater.Select.{
  Selection, Search, Turn, Turned, goes_on, ends, panicked, fails, accept, take_status, take_result,
  start_next, receive, wait, turn, run, begin,
}

find-has_id :
    (id : Str) (rs : List RelayInfo) (r : RelayInfo) → find (has_id id) rs ≡ some r → r.id ≡ id
unfolding find
find-has_id id [] r h = cc
find-has_id id (q ∷ qs) r h = ground (arith, find-has_id id qs r, str_eq.beq_iff q.id id)

-- A relay that is accepted has the candidate's id.
accept_available-id :
    (parse : InetSocketAddress → Option SocketAddr) (now : ℕ) (candidate : RelayInfo)
    (status : DdbRelaysStatusResponse) (my_id : Str) (c : RelayInfoCache) (relay : RelayInfo)
    → (accept_available parse now candidate status my_id c).1 ≡ some relay
    → relay.id ≡ candidate.id
unfolding accept_available
accept_available-id parse now candidate status my_id c relay h = ground (
  arith,
  find-has_id candidate.id
      (list_all_relays my_id true (update_cache_from_status parse now status my_id c).0) relay,
)

outstanding : (a b : ℕ) → (a == b) ≡ false → a ≤ b → a < b
outstanding a b h k = ground (arith, ==_iff a b)

module _ (u : Search) where
  pub record IsSound (s : Selection) : Type 0 where
    pub resolved_le : s.resolved ≤ s.started
    pub started_le : s.started ≤ length u.probed
    pub failed_are : length s.failed_relay_ids ≡ s.resolved

  start_next-IsSound : (now : ℕ) (s : Selection) → IsSound s → IsSound (start_next u now s)
  unfolding start_next
  start_next-IsSound now s h = ground (arith, h.resolved_le, h.started_le, h.failed_are)

  start_next-all :
      (now : ℕ) (s : Selection)
      → IsSound s
      → (start_next u now s).resolved ≡ (start_next u now s).started
      → (start_next u now s).started ≡ length u.probed
  unfolding start_next
  start_next-all now s h e =
      ground (arith, h.resolved_le, h.started_le, h.failed_are, ==_iff s.resolved s.started)

  -- What came to the loop when a relay was selected: a candidate answered that it is available.
  pub Answered : List Turn → RelayInfo → Type 0
  Answered ts relay =
      (t : Turn) × (rank : ℕ) × (candidate : RelayInfo) × (status : DdbRelaysStatusResponse) × In t
        ts
      × (t.received ≡ some (rank, some status))
      × (get_at u.probed rank ≡ some candidate)
      × (is_available status.responder_state ≡ true)
      × (relay.id ≡ candidate.id)

  pub IsOver : List Turn → Type 0
  IsOver ts = (t : Turn) × In t ts × (u.deadline ≤ t.now)

  pub IsUnknown : List Turn → Type 0
  IsUnknown ts =
      (t : Turn) × (rank : ℕ) × (result : Option DdbRelaysStatusResponse) × In t ts
      × (t.received ≡ some (rank, result))
      × (get_at u.probed rank ≡ none)

  -- What each end of the loop means, after the turns it took.
  unfoldable pub Means : List Turn → Turned → Type 0
  Means ts (goes_on s) = IsSound s
  Means ts (ends (some relay) s) = Answered ts relay × (length s.failed_relay_ids < length u.probed)
  Means ts (ends none s) = (length s.failed_relay_ids ≡ length u.probed) ⊎ IsOver ts
  Means ts panicked = IsUnknown ts

  later : (t : Turn) (ts : List Turn) (r : Turned) → Means ts r → Means (t ∷ ts) r
  unfolding Means Answered IsOver IsUnknown
  later t ts (goes_on s) m = m
  later t ts (ends (some relay) s) ((v, rank, candidate, status, i, a, b, c, d), e) =
      ((v, rank, candidate, status, inr i, a, b, c, d), e)
  later t ts (ends none s) (inl m) = inl m
  later t ts (ends none s) (inr (v, i, o)) = inr (v, inr i, o)
  later t ts panicked (v, rank, result, i, a, b) = (v, rank, result, inr i, a, b)

  accept-Means :
      (ts : List Turn) (p : RelayInfoCache × Option RelayInfo) (candidate : RelayInfo)
      (s : Selection)
      → suc (length s.failed_relay_ids) ≡ s.resolved
      → s.resolved ≤ s.started
      → s.started ≤ length u.probed
      → ((relay : RelayInfo) → p.1 ≡ some relay → Answered ts relay)
      → Means ts (accept u p candidate s)
  unfolding Means accept fails
  accept-Means ts (c, some relay) candidate s h k l f = (f relay refl, omega (arith, h, k, l))
  accept-Means ts (c, none) candidate s h k l f = record {
    resolved_le = k;
    started_le = l;
    failed_are = omega (arith, h, length-append s.failed_relay_ids (candidate.id ∷ []));
  }

  fails-IsSound :
      (candidate : RelayInfo) (c : RelayInfoCache) (s : Selection)
      → suc (length s.failed_relay_ids) ≡ s.resolved
      → s.resolved ≤ s.started
      → s.started ≤ length u.probed
      → IsSound (fails u candidate c s)
  unfolding fails
  fails-IsSound candidate c s h k l = record {
    resolved_le = k;
    started_le = l;
    failed_are = omega (arith, h, length-append s.failed_relay_ids (candidate.id ∷ []));
  }

  take_status-Means :
      (t : Turn) (ts : List Turn) (rank : ℕ) (candidate : RelayInfo)
      (status : DdbRelaysStatusResponse) (s : Selection)
      → t.received ≡ some (rank, some status)
      → get_at u.probed rank ≡ some candidate
      → suc (length s.failed_relay_ids) ≡ s.resolved
      → s.resolved ≤ s.started
      → s.started ≤ length u.probed
      → Means (t ∷ ts) (take_status u t.now candidate status s)
  unfolding take_status Answered Means
  take_status-Means t ts rank candidate status s r g h k l =
      let c = update_cached_relay_state u.my_id candidate.id status.responder_state s.cache in
      elim (Bool-cases (is_available status.responder_state)) [
        | inl is ↦ rw is (
            accept-Means (t ∷ ts) _ candidate s h k l (λ relay e. (
              t,
              rank,
              candidate,
              status,
              inl refl,
              r,
              g,
              is,
              accept_available-id u.parse t.now candidate status u.my_id c relay e,
            )))
        | inr isnt ↦ rw isnt (fails-IsSound candidate c s h k l)
      ]

  take_result-Means :
      (t : Turn) (ts : List Turn) (rank : ℕ) (candidate : RelayInfo)
      (result : Option DdbRelaysStatusResponse) (s : Selection)
      → t.received ≡ some (rank, result)
      → get_at u.probed rank ≡ some candidate
      → suc (length s.failed_relay_ids) ≡ s.resolved
      → s.resolved ≤ s.started
      → s.started ≤ length u.probed
      → Means (t ∷ ts) (take_result u t.now candidate result s)
  unfolding take_result Means
  take_result-Means t ts rank candidate none s r g h k l = fails-IsSound candidate _ s h k l
  take_result-Means t ts rank candidate (some status) s r g h k l =
      take_status-Means t ts rank candidate status s r g h k l

  -- A reply comes while a probe is outstanding.
  candidate-Means :
      (t : Turn) (ts : List Turn) (rank : ℕ) (result : Option DdbRelaysStatusResponse)
      (s : Selection) (o : Option RelayInfo)
      → t.received ≡ some (rank, result)
      → get_at u.probed rank ≡ o
      → IsSound s
      → s.resolved < s.started
      → Means (t ∷ ts) (elim o [
        | none ↦ panicked
        | some candidate ↦
            take_result u t.now candidate result (record s { resolved = s.resolved + 1 })
      ])
  unfolding Means IsUnknown
  candidate-Means t ts rank result s none r g h l = (t, rank, result, inl refl, r, g)
  candidate-Means t ts rank result s (some candidate) r g h l =
      take_result-Means t ts rank candidate result (record s { resolved = s.resolved + 1 }) r g
        (omega (arith, h.failed_are)) (omega arith) h.started_le

  wait-Means :
      (t : Turn) (ts : List Turn) (r : Option (ℕ × Option DdbRelaysStatusResponse)) (s : Selection)
      → t.received ≡ r
      → IsSound s
      → s.resolved < s.started
      → Means (t ∷ ts) (wait u t.now r s)
  unfolding wait receive Means
  wait-Means t ts none s r h l = h
  wait-Means t ts (some (rank, result)) s r h l =
      candidate-Means t ts rank result s (get_at u.probed rank) r refl h l

  turn-Means : (t : Turn) (ts : List Turn) (s : Selection) → IsSound s → Means (t ∷ ts) (turn u t s)
  unfolding turn Means IsOver
  turn-Means t ts s h =
      let s1 = start_next u t.now s in
      let sound = start_next-IsSound t.now s h in
      elim (Bool-cases (s1.resolved == s1.started)) [
        | inl same ↦
            let e = (==_iff s1.resolved s1.started).0 same in
            rw same (inl (omega (arith, sound.failed_are, e, start_next-all t.now s h e)))
        | inr other ↦ rw other (elim (Bool-cases (leb u.deadline t.now)) [
          | inl over ↦ rw over (inr (t, inl refl, leb→le u.deadline t.now over))
          | inr not_yet ↦ rw not_yet (
              wait-Means t ts t.received s1 refl sound
                (outstanding s1.resolved s1.started other sound.resolved_le))
        ])
      ]

  after_turn :
      (t : Turn) (ts : List Turn) (r : Turned)
      → Means (t ∷ ts) r
      → ((s' : Selection) → IsSound s' → Means ts (run u ts s'))
      → Means
          (t ∷ ts)
          (elim r [ goes_on s' ↦ run u ts s' | ends q s' ↦ ends q s' | panicked ↦ panicked ])
  unfolding Means
  after_turn t ts (goes_on s') m f = later t ts (run u ts s') (f s' m)
  after_turn t ts (ends q s') m f = m
  after_turn t ts panicked m f = m

  run-Means : (ts : List Turn) (s : Selection) → IsSound s → Means ts (run u ts s)
  unfolding run Means
  run-Means [] s h = h
  run-Means (t ∷ ts) s h =
      after_turn t ts (turn u t s) (turn-Means t ts s h) (λ s' k. run-Means ts s' k)

  pub run-begin-Means :
      (ts : List Turn) (c : RelayInfoCache) (now : ℕ) → Means ts (run u ts (begin u c now))
  run-begin-Means ts c now =
      run-Means ts (begin u c now)
        (record { resolved_le = omega arith; started_le = omega arith; failed_are = refl })
