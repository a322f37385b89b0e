-- ===== src/Relays/Updater/Select.antt =====
-- The loop of `relay_select_and_query` (bingle_core/src/relay/relay_updater.rs).
use bingle_rust.Base.{
  ℕ, ◌+◌, Bool, ◌&&◌, ◌||◌, Option, none, some, List, [], ◌∷◌, ◌++◌, ◌==◌, ltb, leb, length,
  if◌then◌else◌,
}
use bingle_rust.Base.Str.{Str, str_eq}
use bingle_rust.Net.{SocketAddr}
use bingle_rust.Ddb.Record.{InetSocketAddress}
use bingle_rust.Relays.Cache.{RelayInfo, RelayInfoCache, off, trim_issuer_suffix}
use bingle_rust.Relays.Updater.{
  DdbRelaysStatusResponse, is_available, accept_available, update_cached_relay_state, get_at,
  selectable, ranked, to_probe, selection_order,
}

pub record Selection : Type 0 where
  pub cache : RelayInfoCache
  pub started : ℕ
  pub resolved : ℕ
  pub next_start_at : ℕ
  pub failed_relay_ids : List Str

-- A turn of the loop: the clock, and the rank and the answer of a probe, unless the wait times out.
-- `none` as an answer is an error.
pub record Turn : Type 0 where
  pub now : ℕ
  pub received : Option (ℕ × Option DdbRelaysStatusResponse)

pub data Turned : Type 0 where
  goes_on : Selection → Turned
  ends : Option RelayInfo → Selection → Turned
  panicked : Turned

-- A selection: how addresses are read, the node, the grace, when it gives up, and what it probes.
pub record Search : Type 0 where
  pub parse : InetSocketAddress → Option SocketAddr
  pub my_id : Str
  pub grace : ℕ
  pub deadline : ℕ
  pub probed : List RelayInfo

module _ (u : Search) where
  unfoldable pub fails : RelayInfo → RelayInfoCache → Selection → Selection
  fails candidate c s = record s {
    cache = c;
    failed_relay_ids = s.failed_relay_ids ++ (candidate.id ∷ []);
  }

  unfoldable pub accept : RelayInfoCache × Option RelayInfo → RelayInfo → Selection → Turned
  accept (c, some relay) candidate s = ends (some relay) (record s { cache = c })
  accept (c, none) candidate s = goes_on (fails candidate c s)

  unfoldable pub take_status : ℕ → RelayInfo → DdbRelaysStatusResponse → Selection → Turned
  take_status now candidate status s =
      let c = update_cached_relay_state u.my_id candidate.id status.responder_state s.cache in
      if is_available status.responder_state
      then accept (accept_available u.parse now candidate status u.my_id c) candidate s
      else goes_on (fails candidate c s)

  unfoldable pub take_result : ℕ → RelayInfo → Option DdbRelaysStatusResponse → Selection → Turned
  take_result now candidate none s =
      goes_on (fails candidate (update_cached_relay_state u.my_id candidate.id off s.cache) s)
  take_result now candidate (some status) s = take_status now candidate status s

  -- The next candidate is started, where it is time.
  unfoldable pub start_next : ℕ → Selection → Selection
  start_next now s =
      if ltb s.started (length u.probed) && ((s.resolved == s.started) || leb s.next_start_at now)
      then record s { started = s.started + 1; next_start_at = now + u.grace }
      else s

  unfoldable pub receive : ℕ → ℕ × Option DdbRelaysStatusResponse → Selection → Turned
  receive now (rank, result) s = elim (get_at u.probed rank) [
    | none ↦ panicked
    | some candidate ↦ take_result now candidate result (record s { resolved = s.resolved + 1 })
  ]

  unfoldable pub wait : ℕ → Option (ℕ × Option DdbRelaysStatusResponse) → Selection → Turned
  wait now none s = goes_on s
  wait now (some r) s = receive now r s

  unfoldable pub turn : Turn → Selection → Turned
  turn t s =
      let started = start_next t.now s in
      if started.resolved == started.started
      then ends none started
      else if leb u.deadline t.now
      then ends none started
      else wait t.now t.received started

  unfoldable pub run : List Turn → Selection → Turned
  run [] s = goes_on s
  run (t ∷ ts) s = elim (turn t s) [
    | goes_on s' ↦ run ts s'
    | ends r s' ↦ ends r s'
    | panicked ↦ panicked
  ]

  abbrev pub begin : RelayInfoCache → ℕ → Selection
  begin c now = record {
    cache = c;
    started = 0;
    resolved = 0;
    next_start_at = now;
    failed_relay_ids = [];
  }

-- What is probed of the relays that may be: in their order, but for those that are cooling down.
unfoldable pub search :
    (InetSocketAddress → Option SocketAddr)
    → Str
    → ℕ
    → ℕ
    → (Str → Bool)
    → ℕ
    → List RelayInfo
    → Search
search parse my_id grace deadline cooling bucket relays = record {
  parse = parse;
  my_id = trim_issuer_suffix my_id;
  grace = grace;
  deadline = deadline;
  probed = to_probe cooling (ranked relays (selection_order (length relays) bucket));
}

-- The whole selection, over the turns of its loop; `cooling` is what the cache of failed probes says.
unfoldable pub relay_select_and_query :
    (InetSocketAddress → Option SocketAddr)
    → Str
    → ℕ
    → ℕ
    → (Str → Bool)
    → ℕ
    → List Str
    → RelayInfoCache
    → ℕ
    → List Turn
    → Turned
relay_select_and_query parse my_id grace budget cooling bucket exclude_ids c now turns =
    let relays = selectable (trim_issuer_suffix my_id) exclude_ids c in
    let u = search parse my_id grace (now + budget) cooling bucket relays in
    if length relays == 0 then ends none (begin u c now) else run u turns (begin u c now)
