-- ===== src/Stun/Runs/Heard/Told.antt =====
-- Whoever listens knows the state, whatever happens.
use bingle_rust.Base.{
  ℕ, ◌+◌, ◌%◌, map, ◌^◌, ◌≡◌, refl, sym, ap, subst, ◌∙◌, ◌⊎◌, inl, inr, any, Bool, true, false,
  ◌||◌, ◌&&◌, none, some, List, [], ◌∷◌, arith,
}
use bingle_rust.Base.Eq.{option_eq}
use bingle_rust.Net.{SocketAddr, sock_eq}
use bingle_rust.Stun.{
  state_eq, nothing, Call, Inner, recompute_state_and_notify, process_packet, reset_state, init,
  is_stable, forget_round, answered, update_first,
}
use bingle_rust.Turn.ChannelData.{Bytes}
use bingle_rust.Stun.Packets.{parse_xor_mapped_address}
use bingle_rust.Stun.Poll.{
  stun_process_tick, check_silence, poll, poll_if_due, is_due, silence_too_long,
}
use bingle_rust.Stun.Runs.{Action, ticks, receives, resets, inits, step, run}
use bingle_rust.Stun.Runs.Heard.{
  View, shown, all_news, hear, hear-either, listen_all, fits, IsTold, IsTold-quiet, IsTold-then,
  IsTold-if, IsTold-starts,
}
use bingle_rust.Stun.Runs.Heard.Recompute.{recompute-IsTold}
use bingle_rust.Stun.Runs.Heard.Tick.{poll-IsTold}

-- No step tells what the finder showed before.
unfoldable pub only_news : List Action → Inner → Bool
only_news [] i = true
only_news (a ∷ rest) i =
    let after = step a i in all_news (shown i) after.1 && only_news rest after.0

unfoldable pub is_restart : Action → Bool
is_restart ticks = false
is_restart (receives from packet) = false
is_restart resets = true
is_restart (inits servers search_ms repeat_ms override) = true

-- A listener knows the finder's state and endpoint, or they have been reset and it was not told.
abbrev pub Knows : Bool → View → Inner → Type 0
Knows restarted v i = (v ≡ shown i) ⊎ ((restarted ≡ true) × (shown i ≡ (nothing, none)))

check_silence-IsTold :
    (i : Inner) (now : ℕ)
    → fits i.state i.endpoint ≡ true
    → i.state_change ≡ true
    → IsTold i (check_silence i now).0 (check_silence i now).1
unfolding check_silence
check_silence-IsTold i now f h =
    let afresh = record i {
      last_response_tick = none;
      last_request_tick = none;
      intervals_without_two = 0;
      servers = map forget_round i.servers;
    } in
    let again = recompute_state_and_notify afresh in
    IsTold-if i (is_stable i.state && silence_too_long i now) again (i, [])
      (λ e. IsTold-starts i afresh again.0 again.1 refl (recompute-IsTold afresh f h))
      (λ e. IsTold-quiet i i f h refl refl)

stun_process_tick-IsTold :
    (i : Inner)
    → fits i.state i.endpoint ≡ true
    → i.state_change ≡ true
    → IsTold i (stun_process_tick i).0 (stun_process_tick i).1
unfolding stun_process_tick poll_if_due
stun_process_tick-IsTold i f h =
    let now = (i.current_tick + 1) % 2 ^ 64 in
    let started = record i { current_tick = now } in
    let quiet = check_silence started now in
    let told = check_silence-IsTold started now f h in
    let polled_all = poll_if_due quiet.0 now in
    IsTold-then i quiet.0 polled_all.0 quiet.1 polled_all.1
      (IsTold-starts i started quiet.0 quiet.1 refl told)
      (IsTold-if quiet.0 (is_due quiet.0 now) (poll quiet.0 now) (quiet.0, [])
        (λ e. poll-IsTold quiet.0 now told.fitting told.handled)
        (λ e. IsTold-quiet quiet.0 quiet.0 told.fitting told.handled refl refl))

process_packet-IsTold :
    (from : SocketAddr) (packet : Bytes) (i : Inner)
    → fits i.state i.endpoint ≡ true
    → i.state_change ≡ true
    → IsTold i (process_packet from packet i).0 (process_packet from packet i).1
unfolding process_packet
process_packet-IsTold from packet i f h =
    let taken = record i {
      servers = update_first from (answered (parse_xor_mapped_address packet)) i.servers;
      last_response_tick = some i.current_tick;
      last_request_tick = none;
    } in
    let again = recompute_state_and_notify taken in
    IsTold-starts i taken again.0 again.1 refl (recompute-IsTold taken f h)

-- Who knew what is shown before a step that tells all that has changed knows it afterwards.
IsTold-Knows :
    (restarted : Bool) (v : View) (i after : Inner) (calls : List Call)
    → IsTold i after calls
    → Knows restarted v i
    → Knows restarted (hear v calls) after
IsTold-Knows restarted v i after calls t (inl same) = inl (ap (λ w. hear w calls) same ∙ t.heard)
IsTold-Knows restarted v i after calls t (inr (so, unset)) = elim (hear-either v (shown i) calls) [
  | inl alike ↦ inl (alike ∙ t.heard)
  | inr (stale, silent) ↦ inr (so, sym t.heard ∙ (silent ∙ unset))
]

-- What a step leaves to the next one.
record IsFollowed (restarted : Bool) (a : Action) (v : View) (i : Inner) : Type 0 where
  known : Knows (restarted || is_restart a) (hear v (step a i).1) (step a i).0
  news : all_news (shown i) (step a i).1 ≡ true
  fitting : fits (step a i).0.state (step a i).0.endpoint ≡ true
  handled : (step a i).0.state_change ≡ true

or_false : (b : Bool) → b ≡ (b || false)
or_false true = refl
or_false false = refl

or_true : (b : Bool) → (b || true) ≡ true
or_true true = refl
or_true false = refl

told-IsFollowed :
    (restarted : Bool) (a : Action) (v : View) (i : Inner)
    → is_restart a ≡ false
    → Knows restarted v i
    → IsTold i (step a i).0 (step a i).1
    → IsFollowed restarted a v i
told-IsFollowed restarted a v i keeps k t = record {
  known =
      subst (λ b. Knows b (hear v (step a i).1) (step a i).0)
        (or_false restarted ∙ ap (λ b. restarted || b) (sym keeps))
        (IsTold-Knows restarted v i (step a i).0 (step a i).1 t k);
  news = t.news;
  fitting = t.fitting;
  handled = t.handled;
}

step-IsFollowed :
    (restarted : Bool) (a : Action) (v : View) (i : Inner)
    → Knows restarted v i
    → fits i.state i.endpoint ≡ true
    → i.state_change ≡ true
    → IsFollowed restarted a v i
unfolding step reset_state init fits all_news is_restart hear
step-IsFollowed restarted ticks v i k f h =
    told-IsFollowed restarted ticks v i refl k (stun_process_tick-IsTold i f h)
step-IsFollowed restarted (receives from packet) v i k f h =
    told-IsFollowed restarted (receives from packet) v i refl k
      (process_packet-IsTold from packet i f h)
step-IsFollowed restarted resets v i k f h = record {
  known = inr (or_true restarted, refl);
  news = refl;
  fitting = refl;
  handled = h;
}
step-IsFollowed restarted (inits servers search_ms repeat_ms override) v i k f h = record {
  known = inr (or_true restarted, refl);
  news = refl;
  fitting = refl;
  handled = h;
}

or_assoc : (a b c : Bool) → ((a || b) || c) ≡ (a || (b || c))
or_assoc true b c = refl
or_assoc false b c = refl

or_any :
    (a : Action) (rest : List Action)
    → (is_restart a || any is_restart rest) ≡ any is_restart (a ∷ rest)
unfolding any
or_any a rest = ground arith

-- The same for one who knows what is shown, or was not told of a restart.
listen_all-Knows :
    (actions : List Action) (restarted : Bool) (v : View) (i : Inner)
    → Knows restarted v i
    → fits i.state i.endpoint ≡ true
    → i.state_change ≡ true
    → Knows (restarted || any is_restart actions) (listen_all actions v i) (run actions i)
      × (only_news actions i ≡ true)
      × (fits (run actions i).state (run actions i).endpoint ≡ true)
unfolding listen_all only_news run any
listen_all-Knows [] restarted v i k f h = (subst (λ b. Knows b v i) (or_false restarted) k, refl, f)
listen_all-Knows (a ∷ rest) restarted v i k f h =
    let t = step-IsFollowed restarted a v i k f h in
    let (known, news, fitting) =
      listen_all-Knows rest (restarted || is_restart a) (hear v (step a i).1) (step a i).0 t.known
        t.fitting t.handled in
    (
      subst
          (λ b.
            Knows b (listen_all rest (hear v (step a i).1) (step a i).0) (run rest (step a i).0))
          (or_assoc restarted (is_restart a) (any is_restart rest)
            ∙ ap (λ b. restarted || b) (or_any a rest))
          known,
      ground (arith, t.news, news),
      fitting,
    )

-- Whatever ticks, packets, resets and initializations a finder goes through that has a handler for
-- changes, and whose endpoint is set exactly in the consistent state: a listener who knows its
-- state and endpoint at first, and then only the last change that the handler is told of, knows
-- them at the end, unless there was a reset or an initialization, neither of which tells the
-- handler, and the finder is in its first state with no endpoint at the end; no call tells what the
-- finder showed before the action or told last in it; and an endpoint is remembered exactly in the
-- consistent state.
pub listen_all_lem :
    (actions : List Action) (i : Inner)
    → fits i.state i.endpoint ≡ true
    → i.state_change ≡ true
    → Knows (any is_restart actions) (listen_all actions (shown i) i) (run actions i)
      × (only_news actions i ≡ true)
      × (fits (run actions i).state (run actions i).endpoint ≡ true)
listen_all_lem actions i f h = listen_all-Knows actions false (shown i) i (inl refl) f h
