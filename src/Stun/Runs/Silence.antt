-- ===== src/Stun/Runs/Silence.antt =====
-- A search to which no server answers
-- (bingle_core/src/stun/stun_endpoint_finder_impl.rs).
pub mod Blocked
use bingle_rust.Base.{
  ℕ, zero, suc, ◌+◌, ◌-◌, ◌*◌, ◌/◌, ◌%◌, ◌^◌, ◌≤◌, ◌<◌, max, min, ◌≡◌, refl, sym, ap, subst, ◌∙◌,
  ◌&&◌, not, Bool, true, false, Option, none, some, List, [], ◌∷◌, map, retain, replicate,
  if◌then◌else◌, arith, leb, ltb, length, Bool-cases, inl, inr,
}
use bingle_rust.Base.Eq.{◌=?◌, =?-refl}
use bingle_rust.Base.Sets.{contains, distinct}
use bingle_rust.Net.{SocketAddr, sock_eq, sock_beq_iff}
use bingle_rust.Stun.{
  Inner, ServerStatus, new_server, nothing, blocked, state_eq, is_stable, update_first, init,
}
use bingle_rust.Stun.Poll.{
  stun_process_tick, check_silence, poll_if_due, is_due, choose_interval, poll, poll_servers,
  poll_each, poll_one, polled, first_request, to_poll, addresses, check_blocked, judge, responders,
  start_over, prune, is_kept, no_failures,
}
use bingle_rust.Stun.Runs.{Action, ticks, step, run}

-- The status of a server that was asked `k` times, the last time at a tick, and never answered.
abbrev pub asked : ℕ → Option ℕ → SocketAddr → ServerStatus
asked k last addr = record (new_server addr) { failures = k; last_polled_tick = last }

unfoldable pub polls : List SocketAddr → ℕ → List ServerStatus → List ServerStatus
polls [] now l = l
polls (addr ∷ rest) now l = polls rest now (update_first addr (polled now) l)

polls_skip :
    (addrs : List SocketAddr) (now : ℕ) (s : ServerStatus) (l : List ServerStatus)
    → contains addrs s.addr ≡ false
    → polls addrs now (s ∷ l) ≡ s ∷ polls addrs now l
unfolding polls update_first contains
polls_skip [] now s l h = refl
polls_skip (addr ∷ rest) now s l h =
    let apart : (s.addr =? addr) ≡ false =
      ground (arith, sock_beq_iff s.addr addr, sock_beq_iff addr s.addr) in
    rw apart (polls_skip rest now s (update_first addr (polled now) l) (ground arith))

-- Every server of a list of distinct addresses is asked once more.
pub polls-asked :
    (addrs : List SocketAddr) (now k : ℕ) (last : Option ℕ)
    → k < 255
    → distinct addrs ≡ true
    → polls addrs now (map (asked k last) addrs) ≡ map (asked (suc k) (some now)) addrs
unfolding polls update_first distinct
polls-asked [] now k last b d = refl
polls-asked (addr ∷ rest) now k last b d =
    let more : min (k + 1) 255 ≡ suc k = omega arith in
    rw (=?-refl addr) (
      rw more (
        polls_skip rest now (asked (suc k) (some now) addr) (map (asked k last) rest) (ground arith)
        ∙ ap (◌∷◌ (asked (suc k) (some now) addr)) (polls-asked rest now k last b (ground arith))))

pub poll_each-polls :
    (addrs : List SocketAddr) (now : ℕ) (i : Inner) (l : List ServerStatus)
    → is_stable i.state ≡ false
    → (poll_each addrs now (record i { servers = l; last_request_tick = none })).0
      ≡ record i { servers = polls addrs now l; last_request_tick = none }
unfolding poll_each poll_one polls first_request
poll_each-polls [] now i l stable = refl
poll_each-polls (addr ∷ rest) now i l stable =
    rw stable (poll_each-polls rest now i (update_first addr (polled now) l) stable)

pub addresses-asked :
    (k : ℕ) (last : Option ℕ) (addrs : List SocketAddr)
    → addresses (retain (λ (s : ServerStatus). not s.responded) (map (asked k last) addrs)) ≡ addrs
unfolding addresses retain
addresses-asked k last [] = refl
addresses-asked k last (addr ∷ rest) = ap (◌∷◌ addr) (addresses-asked k last rest)

pub retain-asked :
    (k : ℕ) (last : Option ℕ) (addrs : List SocketAddr)
    → k < 3
    → retain is_kept (map (asked k last) addrs) ≡ map (asked k last) addrs
unfolding retain
retain-asked k last [] h = refl
retain-asked k last (addr ∷ rest) h =
    let low : ltb k 3 ≡ true = ground arith in
    rw low (ap (◌∷◌ (asked k last addr)) (retain-asked k last rest h))

pub responders-asked :
    (k : ℕ) (last : Option ℕ) (addrs : List SocketAddr) → responders (map (asked k last) addrs) ≡ 0
unfolding responders retain
responders-asked k last [] = refl
responders-asked k last (addr ∷ rest) = responders-asked k last rest

pub addresses-no_failures :
    (k : ℕ) (last : Option ℕ) (addrs : List SocketAddr)
    → addresses (map no_failures (map (asked k last) addrs)) ≡ addrs
unfolding addresses
addresses-no_failures k last [] = refl
addresses-no_failures k last (addr ∷ rest) = ap (◌∷◌ addr) (addresses-no_failures k last rest)

-- The last of some ticks.
pub run-replicate_ticks :
    (n : ℕ) (i : Inner)
    → run (replicate (suc n) ticks) i ≡ (stun_process_tick (run (replicate n ticks) i)).0
unfolding run step
run-replicate_ticks zero i = refl
run-replicate_ticks (suc n) i = run-replicate_ticks n (stun_process_tick i).0
