-- ===== src/Stun/Poll.antt =====
-- The tick of the finder: `stun_process_tick` and `choose_interval` of
-- bingle_core/src/stun/stun_endpoint_finder_impl.rs.
use bingle_rust.Base.{
  ℕ, ◌+◌, ◌-◌, ◌%◌, ◌^◌, min, Bool, true, false, not, ◌&&◌, ◌||◌, Option, none, some, List, [], ◌∷◌,
  ◌++◌, map, retain, length, ◌==◌, ltb, leb, if◌then◌else◌,
}
use bingle_rust.Base.Eq.{◌=?◌}
use bingle_rust.Net.{SocketAddr}
use bingle_rust.Stun.Packets.{build_binding_request}
use bingle_rust.Stun.{
  nothing, single, inconsistent, consistent, blocked, state_eq, is_stable, ServerStatus, Inner,
  Call, sends, too_few, notify, forget_round, update_first, recompute_state_and_notify,
}

unfoldable pub choose_interval : Inner → ℕ
choose_interval i = if is_stable i.state then i.repeat_ticks else i.search_ticks

-- The time since the first request that was not answered is over, and no response came after it.
unfoldable pub silence_too_long : Inner → ℕ → Bool
silence_too_long i now = elim i.last_request_tick [
  | none ↦ false
  | some req_t ↦ elim i.last_response_tick [
    | none ↦ ltb i.no_response_ticks (now - req_t)
    | some resp_t ↦ ltb i.no_response_ticks (now - req_t) && ltb resp_t req_t
  ]
]

-- The first part of a tick: silence takes a stable state back.
unfoldable pub check_silence : Inner → ℕ → Inner × List Call
check_silence i now =
    if is_stable i.state && silence_too_long i now
    then recompute_state_and_notify (record i {
      last_response_tick = none;
      last_request_tick = none;
      intervals_without_two = 0;
      servers = map forget_round i.servers;
    })
    else (i, [])

unfoldable pub is_due : Inner → ℕ → Bool
is_due i now = elim i.last_poll_tick [
  | none ↦ true
  | some last ↦ leb (choose_interval i) (now - last)
]

unfoldable pub addresses : List ServerStatus → List SocketAddr
addresses [] = []
addresses (s ∷ rest) = s.addr ∷ addresses rest

unfoldable pub to_poll : Inner → List SocketAddr
to_poll i = elim i.state [
  | nothing ↦ addresses (retain (λ (s : ServerStatus). not s.responded) i.servers)
  | single ↦ addresses (retain (λ (s : ServerStatus). not s.responded) i.servers)
  | inconsistent ↦ addresses i.servers
  | consistent ↦ addresses i.servers
  | blocked ↦ addresses i.servers
]

-- What a request does to the status of its server; `failures` is a u8 that saturates.
abbrev pub polled : ℕ → ServerStatus → ServerStatus
polled now s = record s {
  last_polled_tick = some now;
  failures = min (s.failures + 1) 255;
  responded = false;
  endpoint = none;
}

unfoldable pub first_request : Inner → ℕ → Option ℕ
first_request i now = elim i.last_request_tick [
  | none ↦ if is_stable i.state then some now else none
  | some t ↦ some t
]

-- One turn of the loop over the servers to poll.
unfoldable pub poll_one : SocketAddr → ℕ → Inner → Inner
poll_one addr now i = record i {
  servers = update_first addr (polled now) i.servers;
  last_request_tick = first_request i now;
}

unfoldable pub poll_each : List SocketAddr → ℕ → Inner → Inner × List Call
poll_each [] now i = (i, [])
poll_each (addr ∷ rest) now i =
    let after = poll_each rest now (poll_one addr now i) in
    (after.0, (if i.send_packet then sends addr (build_binding_request now) ∷ after.1 else after.1))

unfoldable pub responders : List ServerStatus → ℕ
responders l = length (retain (λ (s : ServerStatus). s.responded) l)

abbrev pub not_blocked_yet : Inner → Bool
not_blocked_yet i = not (i.state =? blocked)

-- UDP appears blocked.
abbrev pub give_up : Inner → Inner × List Call
give_up i = (record i { state = blocked; endpoint = none }, notify blocked none i)

abbrev pub report_error : Inner → Inner × List Call
report_error i = (record i { error_reported = true }, (if i.error then too_few ∷ [] else []))

-- No server has answered in the last interval, or too few have.
unfoldable pub judge : Inner → Inner × List Call
judge i =
    let answers = responders i.servers in
    if answers == 0
    then if not_blocked_yet i then give_up i else (i, [])
    else if ltb answers 2 && not i.error_reported
    then report_error i
    else (i, [])

abbrev pub ask_again : ServerStatus → ServerStatus
ask_again s = if s.ever_responded then record s { responded = false } else s

unfoldable pub start_over : Inner → Inner
start_over i =
    if not_blocked_yet i
    then record i { servers = map ask_again i.servers; intervals_without_two = 0 }
    else i

-- The third part of a tick. The counter is a u8 that saturates.
unfoldable pub check_blocked : Inner → Inner × List Call
check_blocked i =
    if is_stable i.state
    then (i, [])
    else let counted = record i { intervals_without_two = min (i.intervals_without_two + 1) 255 } in
      if leb 3 counted.intervals_without_two
      then (let judged = judge counted in (start_over judged.0, judged.1))
      else (counted, [])

abbrev pub no_failures : ServerStatus → ServerStatus
no_failures s = record s { failures = 0 }

abbrev pub is_kept : ServerStatus → Bool
is_kept s = ltb s.failures 3 || s.ever_responded

-- The fourth part of a tick.
unfoldable pub prune : Inner → Inner
prune i = record i {
  servers = if i.state =? blocked then map no_failures i.servers else retain is_kept i.servers;
}

unfoldable pub poll_servers : List SocketAddr → ℕ → Inner → Inner × List Call
poll_servers [] now i = (prune i, [])
poll_servers (addr ∷ rest) now i =
    let asked = poll_each (addr ∷ rest) now i in
    let checked = check_blocked asked.0 in (prune checked.0, asked.1 ++ checked.1)

-- The second to fourth part of a tick, where a poll is due.
unfoldable pub poll : Inner → ℕ → Inner × List Call
poll i now =
    let started = record i { last_poll_tick = some now } in
    poll_servers (to_poll started) now started

unfoldable pub poll_if_due : Inner → ℕ → Inner × List Call
poll_if_due i now = if is_due i now then poll i now else (i, [])

unfoldable pub stun_process_tick : Inner → Inner × List Call
stun_process_tick i =
    let now = (i.current_tick + 1) % 2 ^ 64 in
    let quiet = check_silence (record i { current_tick = now }) now in
    let polled_all = poll_if_due quiet.0 now in (polled_all.0, quiet.1 ++ polled_all.1)
