-- ===== src/SendRetry/Examples.antt =====
-- The theorem about offline recipients at one history.
use bingle_rust.Base.{◌+◌, ◌≡◌, List, [], ◌∷◌, ltb, arith}
use bingle_rust.Base.Str.{Str, str_beq}
use bingle_rust.SendRetry.{new, is_offline}
use bingle_rust.SendRetry.Offline.{
  Sending, fails, answers, after_all, latest_failure, is_offline_lem,
}

abbrev bob : Str
bob = b'b' ∷ []

abbrev carol : Str
carol = b'c' ∷ []

abbrev sendings : List Sending
sendings = fails carol 130 ∷ fails bob 90 ∷ answers bob ∷ fails bob 10 ∷ []

is_offline_lem_example : is_offline bob 140 (after_all sendings (new 60)) ≡ ltb 140 (90 + 60)
unfolding latest_failure str_beq
is_offline_lem_example =
    is_offline_lem 60 sendings bob 140 (omega arith, (omega arith, (omega arith, tt)))
