-- ===== src/Stun/Runs/Heard/Tick.antt =====
-- Polling tells the handler of every change.
use bingle_rust.Base.{
  ℕ, ◌+◌, ◌==◌, ltb, leb, min, ◌≡◌, refl, inl, inr, Bool, true, false, not, ◌&&◌, some, List, [],
  ◌∷◌, if◌then◌else◌, arith, Bool-cases,
}
use bingle_rust.Base.Eq.{option_eq}
use bingle_rust.Net.{SocketAddr, sock_eq}
use bingle_rust.Stun.{state_eq, Inner, too_few, is_stable}
use bingle_rust.Stun.Packets.{build_binding_request}
use bingle_rust.Stun.Poll.{
  poll, poll_each, poll_one, check_blocked, judge, start_over, prune, poll_servers, give_up,
  report_error, not_blocked_yet, responders, to_poll,
}
use bingle_rust.Stun.Runs.Heard.{
  shown, hear, all_news, fits, IsTold, IsTold-quiet, IsTold-then, IsTold-sends, IsTold-if,
  IsTold-ends, IsTold-starts,
}

poll_each-IsTold :
    (l : List SocketAddr) (now : ℕ) (i : Inner)
    → fits i.state i.endpoint ≡ true
    → i.state_change ≡ true
    → IsTold i (poll_each l now i).0 (poll_each l now i).1
unfolding poll_each poll_one
poll_each-IsTold [] now i f h = IsTold-quiet i i f h refl refl
poll_each-IsTold (addr ∷ rest) now i f h =
    let told = poll_each-IsTold rest now (poll_one addr now i) f h in
    IsTold-sends i (poll_each rest now (poll_one addr now i)).0 i.send_packet addr
      (build_binding_request now) (poll_each rest now (poll_one addr now i)).1
      (record {
        heard = told.heard;
        news = told.news;
        fitting = told.fitting;
        handled = told.handled;
      })

IsTold-error :
    (i j : Inner) (b : Bool) → IsTold i j [] → IsTold i j (if b then too_few ∷ [] else [])
unfolding hear all_news
IsTold-error i j true t = record {
  heard = t.heard;
  news = t.news;
  fitting = t.fitting;
  handled = t.handled;
}
IsTold-error i j false t = t

give_up-IsTold :
    (i : Inner)
    → i.state_change ≡ true
    → not_blocked_yet i ≡ true
    → IsTold i (give_up i).0 (give_up i).1
unfolding hear all_news fits
give_up-IsTold i h new = record {
  heard = rw h refl;
  news = rw h (ground arith);
  fitting = refl;
  handled = h;
}

judge-IsTold :
    (i : Inner)
    → fits i.state i.endpoint ≡ true
    → i.state_change ≡ true
    → IsTold i (judge i).0 (judge i).1
unfolding judge
judge-IsTold i f h =
    let stay = IsTold-quiet i i f h refl refl in
    let marked = record i { error_reported = true } in
    let few = ltb (responders i.servers) 2 && not i.error_reported in
    IsTold-if i (responders i.servers == 0) (if not_blocked_yet i then give_up i else (i, []))
      (if few then report_error i else (i, []))
      (λ none_answered.
        IsTold-if i (not_blocked_yet i) (give_up i) (i, []) (give_up-IsTold i h) (λ e. stay))
      (λ some_answered.
        IsTold-if i few (report_error i) (i, [])
          (λ e. IsTold-error i marked i.error (IsTold-quiet i marked f h refl refl)) (λ e. stay))

-- The last parts of a poll keep what is shown.
start_over-shown :
    (i : Inner) → (shown (start_over i) ≡ shown i) × ((start_over i).state_change ≡ i.state_change)
unfolding start_over
start_over-shown i = elim (Bool-cases (not_blocked_yet i)) [
  | inl e ↦ rw e (refl, refl)
  | inr e ↦ rw e (refl, refl)
]

check_blocked-IsTold :
    (i : Inner)
    → fits i.state i.endpoint ≡ true
    → i.state_change ≡ true
    → IsTold i (check_blocked i).0 (check_blocked i).1
unfolding check_blocked
check_blocked-IsTold i f h =
    let counted = record i { intervals_without_two = min (i.intervals_without_two + 1) 255 } in
    let t = judge-IsTold counted f h in
    let e = start_over-shown (judge counted).0 in
    IsTold-if i (is_stable i.state) (i, []) _ (λ e. IsTold-quiet i i f h refl refl)
      (λ g.
        IsTold-if i (leb 3 counted.intervals_without_two)
          (start_over (judge counted).0, (judge counted).1) (counted, [])
          (λ k.
            IsTold-ends i (judge counted).0 (start_over (judge counted).0) (judge counted).1
              (IsTold-starts i counted (judge counted).0 (judge counted).1 refl t) e.0 e.1)
          (λ k. IsTold-quiet i counted f h refl refl))

poll_servers-IsTold :
    (l : List SocketAddr) (now : ℕ) (i : Inner)
    → fits i.state i.endpoint ≡ true
    → i.state_change ≡ true
    → IsTold i (poll_servers l now i).0 (poll_servers l now i).1
unfolding poll_servers prune
poll_servers-IsTold [] now i f h = IsTold-quiet i (prune i) f h refl refl
poll_servers-IsTold (addr ∷ rest) now i f h =
    let asked = poll_each (addr ∷ rest) now i in
    let told = poll_each-IsTold (addr ∷ rest) now i f h in
    let checked = check_blocked asked.0 in
    IsTold-then i asked.0 (prune checked.0) asked.1 checked.1 told (
      IsTold-ends asked.0 checked.0 (prune checked.0) checked.1
        (check_blocked-IsTold asked.0 told.fitting told.handled) refl refl)

pub poll-IsTold :
    (i : Inner) (now : ℕ)
    → fits i.state i.endpoint ≡ true
    → i.state_change ≡ true
    → IsTold i (poll i now).0 (poll i now).1
unfolding poll
poll-IsTold i now f h =
    let started = record i { last_poll_tick = some now } in
    IsTold-starts i started (poll i now).0 (poll i now).1 refl
      (poll_servers-IsTold (to_poll started) now started f h)
