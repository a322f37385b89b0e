-- ===== src/Stun/Runs/Silence/Blocked.antt =====
-- The finder reports UDP as blocked at the third poll without an answer
-- (bingle_core/src/stun/stun_endpoint_finder_impl.rs).
use bingle_rust.Base.{
  ℕ, zero, suc, ◌+◌, ◌-◌, ◌*◌, ◌/◌, ◌%◌, ◌^◌, ◌≤◌, ◌<◌, max, min, ◌≡◌, refl, ap, subst, ◌∙◌, true,
  false, Option, none, some, List, ◌∷◌, map, replicate, arith, leb, Bool-cases, inl, inr,
}
use bingle_rust.Base.Sets.{distinct}
use bingle_rust.Net.{SocketAddr, sock_eq}
use bingle_rust.Stun.{Inner, nothing, blocked, state_eq, state_beq, is_stable, init, tick_ms}
use bingle_rust.Stun.Poll.{
  stun_process_tick, check_silence, poll_if_due, is_due, choose_interval, poll, poll_servers,
  poll_each, to_poll, addresses, check_blocked, judge, start_over, prune,
}
use bingle_rust.Stun.Runs.{ticks, run}
use bingle_rust.Stun.Runs.Silence.{
  asked, polls-asked, poll_each-polls, addresses-asked, retain-asked, responders-asked,
  addresses-no_failures, run-replicate_ticks,
}

module _ (addr : SocketAddr) (rest : List SocketAddr) (search_ms repeat_ms : ℕ)
    (override : Option ℕ) (i : Inner) where
  start : Inner
  start = init (addr ∷ rest) search_ms repeat_ms override i

  pub search : ℕ
  search = max (search_ms / tick_ms) 1

  -- The finder at tick `t`, after `k` polls, the last of them at `last`.
  waiting : ℕ → Option ℕ → ℕ → Inner
  unfolding start
  waiting k last t = record start {
    servers = map (asked k last) (addr ∷ rest);
    intervals_without_two = k;
    last_poll_tick = last;
    current_tick = t;
  }

  waiting-idle :
      (k p t : ℕ)
      → suc t < 2 ^ 64
      → suc t - p < search
      → (stun_process_tick (waiting k (some p) t)).0 ≡ waiting k (some p) (suc t)
  unfolding stun_process_tick check_silence is_stable poll_if_due is_due choose_interval waiting
      start init search
  waiting-idle k p t b early =
      let next : (t + 1) % 2 ^ 64 ≡ suc t = omega arith in
      let not_due : leb search (suc t - p) ≡ false = ground arith in rw next (rw not_due refl)

  -- The finder once its servers are asked.
  asked_all : ℕ → ℕ → Inner
  unfolding start
  asked_all k t = record start {
    servers = map (asked (suc k) (some t)) (addr ∷ rest);
    intervals_without_two = k;
    last_poll_tick = some t;
    current_tick = t;
  }

  poll_each-asked_all :
      (k : ℕ) (last : Option ℕ) (t : ℕ)
      → k < 255
      → distinct (addr ∷ rest) ≡ true
      → (poll_each (addr ∷ rest) t (record (waiting k last t) { last_poll_tick = some t })).0
        ≡ asked_all k t
  unfolding waiting start init asked_all is_stable
  poll_each-asked_all k last t b d =
      let now = record (waiting k last t) { last_poll_tick = some t } in
      poll_each-polls (addr ∷ rest) t now (map (asked k last) (addr ∷ rest)) refl
      ∙ ap (λ l. record now { servers = l; last_request_tick = none })
          (polls-asked (addr ∷ rest) t k last b d)

  -- A tick at which a poll is due.
  tick-due :
      (k : ℕ) (last : Option ℕ) (t : ℕ)
      → k < 255
      → distinct (addr ∷ rest) ≡ true
      → suc t < 2 ^ 64
      → is_due (waiting k last (suc t)) (suc t) ≡ true
      → (stun_process_tick (waiting k last t)).0 ≡ prune (check_blocked (asked_all k (suc t))).0
  unfolding stun_process_tick check_silence is_stable poll_if_due waiting start init search poll
      to_poll poll_servers
  tick-due k last t b d c due =
      let next : (t + 1) % 2 ^ 64 ≡ suc t = omega arith in
      rw next (
        rw due (
          rw (addresses-asked k last (addr ∷ rest))
            (ap (λ j. prune (check_blocked j).0) (poll_each-asked_all k last (suc t) b d))))

  waiting-poll :
      (k : ℕ) (t : ℕ) → k < 2 → prune (check_blocked (asked_all k t)).0 ≡ waiting (suc k) (some t) t
  unfolding waiting start init asked_all check_blocked is_stable prune state_beq
  waiting-poll k t b =
      let more : min (k + 1) 255 ≡ suc k = omega arith in
      let few : leb 3 (suc k) ≡ false = ground arith in
      rw more (
        rw few (
          ap (λ l. record (asked_all k t) { servers = l; intervals_without_two = suc k })
            (retain-asked (suc k) (some t) (addr ∷ rest) (omega arith))))

  blocked-poll :
      (t : ℕ)
      → ((prune (check_blocked (asked_all 2 t)).0).state ≡ blocked)
        × (addresses (prune (check_blocked (asked_all 2 t)).0).servers ≡ addr ∷ rest)
  unfolding start init asked_all check_blocked is_stable prune state_beq judge start_over
  blocked-poll t =
      rw (responders-asked 3 (some t) (addr ∷ rest))
        (refl, addresses-no_failures 3 (some t) (addr ∷ rest))

  module _ (d : distinct (addr ∷ rest) ≡ true) (b : 2 * search + 1 < 2 ^ 64) where
    unasked_due : is_due (waiting 0 none 1) 1 ≡ true
    unfolding is_due waiting start init
    unasked_due = refl

    asked_due :
        (k p t : ℕ) → search ≤ suc t - p → is_due (waiting k (some p) (suc t)) (suc t) ≡ true
    unfolding is_due waiting start init choose_interval is_stable search
    asked_due k p t h = ground arith

    fresh : run (replicate 0 ticks) start ≡ waiting 0 none 0
    unfolding waiting start init run
    fresh = refl

    first_wait : (n : ℕ) → 1 ≤ n → n ≤ search → run (replicate n ticks) start ≡ waiting 1 (some 1) n
    first_wait zero l h = absurd (omega arith)
    first_wait (suc zero) l h =
        run-replicate_ticks 0 start
        ∙ (ap (λ j. (stun_process_tick j).0) fresh
            ∙ (tick-due 0 none 0 (omega arith) d (omega arith) unasked_due
                ∙ waiting-poll 0 1 (omega arith)))
    first_wait (suc (suc m)) l h =
        run-replicate_ticks (suc m) start
        ∙ (ap (λ j. (stun_process_tick j).0) (first_wait (suc m) (omega arith) (omega arith))
            ∙ waiting-idle 1 1 (suc m) (omega arith) (omega arith))

    -- A poll that is due after a wait.
    next_poll :
        (k p t : ℕ)
        → k < 2
        → search ≤ suc t - p
        → suc t < 2 ^ 64
        → run (replicate t ticks) start ≡ waiting k (some p) t
        → run (replicate (suc t) ticks) start ≡ waiting (suc k) (some (suc t)) (suc t)
    next_poll k p t b due c before =
        run-replicate_ticks t start
        ∙ (ap (λ j. (stun_process_tick j).0) before
            ∙ (tick-due k (some p) t (omega arith) d c (asked_due k p t due)
                ∙ waiting-poll k (suc t) b))

    second_wait :
        (m n : ℕ)
        → n ≡ suc search + m
        → m < search
        → run (replicate n ticks) start ≡ waiting 2 (some (suc search)) n
    second_wait zero n e h =
        let same : suc search ≡ n = omega arith in
        subst (λ x. run (replicate x ticks) start ≡ waiting 2 (some (suc search)) x) same
          (next_poll 1 1 search (omega arith) (omega arith) (omega arith)
            (first_wait search (omega arith) (omega arith)))
    second_wait (suc m) n e h =
        let same : suc (suc search + m) ≡ n = omega arith in
        subst (λ x. run (replicate x ticks) start ≡ waiting 2 (some (suc search)) x) same
          (run-replicate_ticks (suc search + m) start
            ∙ (ap (λ j. (stun_process_tick j).0) (second_wait m (suc search + m) refl (omega arith))
                ∙ waiting-idle 2 (suc search) (suc search + m) (omega arith) (omega arith)))

    waits : (n : ℕ) → n ≤ 2 * search → (run (replicate n ticks) start).state ≡ nothing
    unfolding waiting start init
    waits zero h = ap (λ j. j.state) fresh
    waits (suc m) h = elim (Bool-cases (leb (suc m) search)) [
      | inl e ↦ ap (λ j. j.state) (first_wait (suc m) (omega arith) (ground arith))
      | inr e ↦
          let more : search < suc m = ground arith in
          ap (λ j. j.state) (second_wait (m - search) (suc m) (omega arith) (omega arith))
    ]

    third_poll :
        run (replicate (suc (2 * search)) ticks) start
        ≡ prune (check_blocked (asked_all 2 (suc (2 * search)))).0
    unfolding search
    third_poll =
        run-replicate_ticks (2 * search) start
        ∙ (ap (λ j. (stun_process_tick j).0)
              (second_wait (search - 1) (2 * search) (omega arith) (omega arith))
            ∙ tick-due 2 (some (suc search)) (2 * search) (omega arith) d (omega arith)
                (asked_due 2 (suc search) (2 * search) (omega arith)))

-- A finder that is initialized with distinct servers and hears nothing stays in its first state for
-- twice the search interval, and with the tick after that it is blocked, with all its servers still
-- listed; where the tick counter does not wrap.
pub run-init_blocked :
    (addr : SocketAddr) (rest : List SocketAddr) (search_ms repeat_ms : ℕ) (override : Option ℕ)
    (i : Inner)
    → distinct (addr ∷ rest) ≡ true
    → 2 * max (search_ms / tick_ms) 1 + 1 < 2 ^ 64
    → let search = max (search_ms / tick_ms) 1 in
      let start = init (addr ∷ rest) search_ms repeat_ms override i in
      ((n : ℕ) → n ≤ 2 * search → (run (replicate n ticks) start).state ≡ nothing)
      × ((run (replicate (suc (2 * search)) ticks) start).state ≡ blocked)
      × (addresses (run (replicate (suc (2 * search)) ticks) start).servers ≡ addr ∷ rest)
unfolding search start
run-init_blocked addr rest search_ms repeat_ms override i d b =
    let last = third_poll addr rest search_ms repeat_ms override i d b in
    let (found, kept) = blocked-poll addr rest search_ms repeat_ms override i _ in
    (
      waits addr rest search_ms repeat_ms override i d b,
      ap (λ j. j.state) last ∙ found,
      ap (λ j. addresses j.servers) last ∙ kept,
    )
