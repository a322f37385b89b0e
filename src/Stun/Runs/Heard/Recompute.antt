-- ===== src/Stun/Runs/Heard/Recompute.antt =====
-- `recompute_state_and_notify` tells its handler of every change.
use bingle_rust.Base.{
  ◌≡◌, refl, ap, subst, ◌||◌, inl, inr, Bool, true, false, not, ◌&&◌, List, [], ◌∷◌, arith,
  Bool-cases,
}
use bingle_rust.Base.Eq.{◌=?◌, option_eq, option_beq_iff}
use bingle_rust.Net.{SocketAddr, sock_eq}
use bingle_rust.Stun.{
  consistent, state_eq, state_beq_iff, Inner, classify, endpoints, recompute_state_and_notify,
}
use bingle_rust.Stun.Runs.Heard.{View, shown, hear, same_view, all_news, fits, IsTold}

pub classify-fits : (l : List SocketAddr) → fits (classify l).0 (classify l).1 ≡ true
unfolding classify fits
classify-fits [] = refl
classify-fits (e ∷ []) = refl
classify-fits (e ∷ f ∷ rest) = ground arith

abbrev moves : View → View → Bool
moves v w = not (w.0 =? v.0) || ((w.0 =? consistent) && not (w.1 =? v.1))

-- The test of the code is whether the view has changed.
moves_lem :
    (v w : View)
    → fits v.0 v.1 ≡ true
    → fits w.0 w.1 ≡ true
    → (moves v w ≡ not (same_view v w)) × ((moves v w ≡ false) → v ≡ w)
unfolding fits
moves_lem (s, e) (c, d) f g = ground (
  arith,
  state_beq_iff c s,
  state_beq_iff s c,
  state_beq_iff c consistent,
  option_beq_iff d e,
  option_beq_iff e d,
)

pub recompute-IsTold :
    (i : Inner)
    → fits i.state i.endpoint ≡ true
    → i.state_change ≡ true
    → IsTold i (recompute_state_and_notify i).0 (recompute_state_and_notify i).1
unfolding recompute_state_and_notify hear all_news
recompute-IsTold i f h =
    let w = classify (endpoints i.servers) in
    let g = classify-fits (endpoints i.servers) in
    let m = moves_lem (shown i) w f g in
    elim (Bool-cases (moves (shown i) w)) [
      | inl e ↦ rw e (record {
        heard = rw h refl;
        news = rw h (ground (arith, m.0));
        fitting = g;
        handled = h;
      })
      | inr e ↦ rw e (record {
        heard = ap (λ v. (i.state, v.1)) (m.1 e);
        news = refl;
        fitting = subst (λ v. fits i.state v.1 ≡ true) (m.1 e) f;
        handled = h;
      })
    ]
