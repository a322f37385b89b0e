-- ===== src/Stun/Runs.antt =====
-- What reaches the finder of bingle_core/src/stun/stun_endpoint_finder_impl.rs, in any order.
pub mod Heard
pub mod Agreement
pub mod Retained
pub mod Silence
pub mod Reset
use bingle_rust.Base.{ℕ, Option, List, [], ◌∷◌, ◌++◌}
use bingle_rust.Net.{SocketAddr}
use bingle_rust.Turn.ChannelData.{Bytes}
use bingle_rust.Stun.{Inner, Call, init, process_packet, reset_state}
use bingle_rust.Stun.Poll.{stun_process_tick}

pub data Action : Type 0 where
  ticks : Action
  receives : SocketAddr → Bytes → Action
  resets : Action
  inits : List SocketAddr → ℕ → ℕ → Option ℕ → Action

unfoldable pub step : Action → Inner → Inner × List Call
step ticks i = stun_process_tick i
step (receives from packet) i = process_packet from packet i
step resets i = (reset_state i, [])
step (inits servers search_ms repeat_ms override) i =
    (init servers search_ms repeat_ms override i, [])

unfoldable pub run : List Action → Inner → Inner
run [] i = i
run (a ∷ rest) i = run rest (step a i).0
