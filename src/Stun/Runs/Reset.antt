-- ===== src/Stun/Runs/Reset.antt =====
-- A finder that is reset (`reset_state` of bingle_core/src/stun/stun_endpoint_finder_impl.rs).
use bingle_rust.Base.{
  ℕ, zero, suc, ◌+◌, ◌-◌, ◌%◌, ◌^◌, ◌≤◌, ◌<◌, ◌≡◌, refl, ap, ◌∙◌, false, some, [], leb, replicate,
  arith,
}
use bingle_rust.Stun.{Inner, reset_state, is_stable}
use bingle_rust.Stun.Poll.{stun_process_tick, check_silence, poll_if_due, is_due, choose_interval}
use bingle_rust.Stun.Runs.{ticks, run}
use bingle_rust.Stun.Runs.Silence.{run-replicate_ticks}

module _ (i : Inner) (p : ℕ) (polled_at : i.last_poll_tick ≡ some p)
    (patient : 1 ≤ i.search_ticks) where
  -- A tick too early for a poll.
  early_tick :
      (n : ℕ)
      → suc n < p + i.search_ticks
      → suc n < 2 ^ 64
      → stun_process_tick (record (reset_state i) { current_tick = n })
        ≡ (record (reset_state i) { current_tick = suc n }, [])
  unfolding stun_process_tick check_silence is_stable poll_if_due is_due choose_interval reset_state
  early_tick n h b =
      let next : (n + 1) % 2 ^ 64 ≡ suc n = omega arith in
      let not_due : leb i.search_ticks (suc n - p) ≡ false = ground arith in
      rw next (rw polled_at (rw not_due refl))

  early_ticks :
      (n : ℕ)
      → n < p + i.search_ticks
      → n < 2 ^ 64
      → run (replicate n ticks) (reset_state i) ≡ record (reset_state i) { current_tick = n }
  unfolding run reset_state
  early_ticks zero h b = refl
  early_ticks (suc n) h b =
      run-replicate_ticks n (reset_state i)
      ∙ (ap (λ j. (stun_process_tick j).0) (early_ticks n (omega arith) (omega arith))
          ∙ ap (λ r. r.0) (early_tick n h b))

-- A finder that polled last at tick p and is reset sends nothing and changes nothing but its tick
-- counter, which restarts at 0, until that counter reaches p and the search interval; for an
-- interval of at least one tick, where the counter does not wrap.
pub reset_state-late :
    (i : Inner) (p n : ℕ)
    → i.last_poll_tick ≡ some p
    → 1 ≤ i.search_ticks
    → suc n < p + i.search_ticks
    → suc n < 2 ^ 64
    → stun_process_tick (run (replicate n ticks) (reset_state i))
      ≡ (record (reset_state i) { current_tick = suc n }, [])
reset_state-late i p n e s h b =
    ap stun_process_tick (early_ticks i p e s n (omega arith) (omega arith))
    ∙ early_tick i p e s n h b
