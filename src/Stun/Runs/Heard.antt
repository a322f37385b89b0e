-- ===== src/Stun/Runs/Heard.antt =====
-- Who listens to the changes of the finder (bingle_core/src/stun/stun_endpoint_finder_impl.rs).
pub mod Recompute
pub mod Tick
pub mod Told
use bingle_rust.Base.{
  ℕ, ◌+◌, ◌%◌, ◌==◌, ltb, leb, min, map, ◌^◌, ◌≡◌, refl, sym, ap, subst, ◌∙◌, ◌||◌, ◌⊎◌, inl, inr,
  Bool, true, false, not, ◌&&◌, Option, none, some, List, [], ◌∷◌, ◌++◌, if◌then◌else◌, arith,
  Bool-cases,
}
use bingle_rust.Base.Eq.{◌=?◌, option_eq, option_beq_iff}
use bingle_rust.Net.{SocketAddr, sock_eq}
use bingle_rust.Stun.{
  StunState, nothing, single, inconsistent, consistent, blocked, state_eq, state_beq_iff, Inner,
  Call, changed, too_few, sends, classify, endpoints, recompute_state_and_notify, process_packet,
  reset_state, init, is_stable,
}
use bingle_rust.Turn.ChannelData.{Bytes}
use bingle_rust.Stun.Packets.{build_binding_request}
use bingle_rust.Stun.Poll.{
  stun_process_tick, check_silence, poll, poll_each, poll_one, check_blocked, judge, start_over,
  prune, give_up, report_error, not_blocked_yet, responders, silence_too_long, to_poll,
}
use bingle_rust.Stun.Runs.{Action, ticks, receives, resets, inits, step, run}

-- What a listener knows: the state and the endpoint.
abbrev pub View : Type 0
View = StunState × Option SocketAddr

abbrev pub shown : Inner → View
shown i = (i.state, i.endpoint)

-- A listener keeps the last change that it is told of.
unfoldable pub hear : View → List Call → View
hear v [] = v
hear v (changed state endpoint ∷ calls) = hear (state, endpoint) calls
hear v (too_few ∷ calls) = hear v calls
hear v (sends addr packet ∷ calls) = hear v calls

abbrev pub same_view : View → View → Bool
same_view v w = (v.0 =? w.0) && (v.1 =? w.1)

-- No call tells it what it knows.
unfoldable pub all_news : View → List Call → Bool
all_news v [] = true
all_news v (changed state endpoint ∷ calls) =
    not (same_view v (state, endpoint)) && all_news (state, endpoint) calls
all_news v (too_few ∷ calls) = all_news v calls
all_news v (sends addr packet ∷ calls) = all_news v calls

-- The listener hears what each action makes the finder call; a reset and an initialization call no one.
unfoldable pub listen_all : List Action → View → Inner → View
listen_all [] v i = v
listen_all (a ∷ rest) v i = let (after, calls) = step a i in listen_all rest (hear v calls) after

-- An endpoint is remembered exactly in the consistent state.
unfoldable pub fits : StunState → Option SocketAddr → Bool
fits consistent none = false
fits consistent (some e) = true
fits _ none = true
fits _ (some e) = false

-- A step tells a listener who knew the state all that has changed, and nothing else.
pub record IsTold (i : Inner) (after : Inner) (calls : List Call) : Type 0 where
  pub heard : hear (shown i) calls ≡ shown after
  pub news : all_news (shown i) calls ≡ true
  pub fitting : fits after.state after.endpoint ≡ true
  pub handled : after.state_change ≡ true

-- Two listeners hear the same, unless no change is told.
pub hear-either :
    (v w : View) (calls : List Call)
    → (hear v calls ≡ hear w calls) ⊎ ((hear v calls ≡ v) × (hear w calls ≡ w))
unfolding hear
hear-either v w [] = inr (refl, refl)
hear-either v w (changed s e ∷ calls) = inl refl
hear-either v w (too_few ∷ calls) = hear-either v w calls
hear-either v w (sends addr packet ∷ calls) = hear-either v w calls

hear-append : (v : View) (xs ys : List Call) → hear v (xs ++ ys) ≡ hear (hear v xs) ys
unfolding hear
hear-append v [] ys = refl
hear-append v (changed s e ∷ xs) ys = hear-append (s, e) xs ys
hear-append v (too_few ∷ xs) ys = hear-append v xs ys
hear-append v (sends addr packet ∷ xs) ys = hear-append v xs ys

all_news-append :
    (v : View) (xs ys : List Call)
    → all_news v (xs ++ ys) ≡ (all_news v xs && all_news (hear v xs) ys)
unfolding hear all_news
all_news-append v [] ys = refl
all_news-append v (changed s e ∷ xs) ys = ground (arith, all_news-append (s, e) xs ys)
all_news-append v (too_few ∷ xs) ys = all_news-append v xs ys
all_news-append v (sends addr packet ∷ xs) ys = all_news-append v xs ys

pub IsTold-then :
    (i j k : Inner) (xs ys : List Call) → IsTold i j xs → IsTold j k ys → IsTold i k (xs ++ ys)
IsTold-then i j k xs ys first second = record {
  heard = hear-append (shown i) xs ys ∙ (ap (λ v. hear v ys) first.heard ∙ second.heard);
  news = ground (arith, all_news-append (shown i) xs ys, first.heard, first.news, second.news);
  fitting = second.fitting;
  handled = second.handled;
}

-- A step that calls no one and keeps what is shown.
pub IsTold-quiet :
    (i j : Inner)
    → fits i.state i.endpoint ≡ true
    → i.state_change ≡ true
    → (shown i ≡ shown j)
    → j.state_change ≡ i.state_change
    → IsTold i j []
unfolding hear all_news
IsTold-quiet i j f h same handler = record {
  heard = same;
  news = refl;
  fitting = subst (λ v. fits v.0 v.1 ≡ true) same f;
  handled = handler ∙ h;
}

-- Packets that are sent tell a listener nothing.
pub IsTold-sends :
    (i j : Inner) (b : Bool) (addr : SocketAddr) (packet : Bytes) (calls : List Call)
    → IsTold i j calls
    → IsTold i j (if b then sends addr packet ∷ calls else calls)
unfolding hear all_news
IsTold-sends i j true addr packet calls t = record {
  heard = t.heard;
  news = t.news;
  fitting = t.fitting;
  handled = t.handled;
}
IsTold-sends i j false addr packet calls t = t

pub IsTold-if :
    (i : Inner) (b : Bool) (x y : Inner × List Call)
    → (b ≡ true → IsTold i x.0 x.1)
    → (b ≡ false → IsTold i y.0 y.1)
    → IsTold i (if b then x else y).0 (if b then x else y).1
IsTold-if i true x y t u = t refl
IsTold-if i false x y t u = u refl

pub IsTold-ends :
    (i j k : Inner) (calls : List Call)
    → IsTold i j calls
    → shown k ≡ shown j
    → k.state_change ≡ j.state_change
    → IsTold i k calls
IsTold-ends i j k calls t same handler = record {
  heard = t.heard ∙ sym same;
  news = t.news;
  fitting = subst (λ v. fits v.0 v.1 ≡ true) (sym same) t.fitting;
  handled = handler ∙ t.handled;
}

-- What is told to one who knows the same.
pub IsTold-starts :
    (i j k : Inner) (calls : List Call) → shown i ≡ shown j → IsTold j k calls → IsTold i k calls
IsTold-starts i j k calls same t = record {
  heard = ap (λ v. hear v calls) same ∙ t.heard;
  news = ap (λ v. all_news v calls) same ∙ t.news;
  fitting = t.fitting;
  handled = t.handled;
}
