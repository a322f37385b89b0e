-- ===== src/Stun/Examples.antt =====
-- The theorems about STUN at concrete inputs, and tests.
use bingle_rust.Base.{
  any, ℕ, ◌*◌, ◌/◌, ◌≤◌, max, suc, ◌≡◌, refl, true, none, some, List, [], ◌∷◌, replicate, ◌>>=◌,
  arith, drop, Option,
}
use bingle_rust.Base.Sets.{distinct, contains}
use bingle_rust.Net.{SocketAddr, sock4, sock_eq, sock_beq}
use bingle_rust.Turn.ChannelData.{Bytes}
use bingle_rust.Stun.Packets.{
  parse_xor_mapped_address, attributes, one_attribute, read_mapped, message_length, respond,
  reported, source_address, source_port, build_binding_request,
}
use bingle_rust.Stun.Packets.Fuel.{attributes_enough}
use bingle_rust.Stun.Packets.RoundTrip.{respond-parse}
use bingle_rust.Base.Str.{str_beq}
use bingle_rust.Stun.{
  Inner, new, init, process_packet, reset_state, set_state_change_handler, tick_ms, nothing,
  blocked,
}
use bingle_rust.Stun.Poll.{addresses, stun_process_tick}
use bingle_rust.Stun.Runs.Reset.{reset_state-late}
use bingle_rust.Stun.Runs.{Action, ticks, receives, resets, inits, run}
use bingle_rust.Stun.Runs.Heard.{shown, listen_all, fits}
use bingle_rust.Stun.Runs.Heard.Told.{Knows, is_restart, only_news, listen_all_lem}
use bingle_rust.Stun.Runs.Agreement.{Verdict, process_packet-Verdict}
use bingle_rust.Stun.Runs.Retained.{knows, run-process_packet-knows}
use bingle_rust.Stun.Runs.Silence.Blocked.{run-init_blocked}

abbrev first : SocketAddr
first = sock4 0x0a000001 3478

abbrev second : SocketAddr
second = sock4 0x0a000002 3478

-- A reply that says 203.0.113.5:4321.
abbrev answer : Bytes
answer =
    0x01 ∷ 0x01 ∷ 0x00 ∷ 0x0c ∷ 0x21 ∷ 0x12 ∷ 0xa4 ∷ 0x42 ∷ 1 ∷ 2 ∷ 3 ∷ 4 ∷ 5 ∷ 6 ∷ 7 ∷ 8 ∷ 9 ∷ 10
    ∷ 11 ∷ 12 ∷ 0x00 ∷ 0x20 ∷ 0x00 ∷ 0x08 ∷ 0x00 ∷ 0x01 ∷ 0x31 ∷ 0xf3 ∷ 0xea ∷ 0x12 ∷ 0xd5 ∷ 0x47
    ∷ []

answer_read : parse_xor_mapped_address answer ≡ some (sock4 0xcb007105 4321)
unfolding parse_xor_mapped_address str_beq message_length attributes one_attribute read_mapped
answer_read = refl

abbrev finder : Inner
finder = set_state_change_handler true new

abbrev actions : List Action
actions =
    inits (first ∷ second ∷ []) 1000 10000 none
    ∷ ticks
    ∷ receives first answer
    ∷ receives second answer
    ∷ ticks
    ∷ resets
    ∷ ticks
    ∷ []

listen_all_lem_example :
    Knows (any is_restart actions) (listen_all actions (shown finder) finder) (run actions finder)
    × (only_news actions finder ≡ true)
    × (fits (run actions finder).state (run actions finder).endpoint ≡ true)
unfolding fits
listen_all_lem_example = listen_all_lem actions finder refl refl

process_packet-Verdict_example :
    Verdict
      (process_packet first answer finder).0.state
      (process_packet first answer finder).0.endpoint
      (process_packet first answer finder).0.servers
process_packet-Verdict_example = process_packet-Verdict first answer finder

abbrev started : Inner
started = init (first ∷ second ∷ []) 1000 10000 none finder

run-process_packet-knows_example :
    knows first (
      run
        (ticks ∷ ticks ∷ receives second answer ∷ resets ∷ [])
        (process_packet first answer started).0)
    ≡ true
unfolding init sock_beq any
run-process_packet-knows_example =
    run-process_packet-knows first answer (ticks ∷ ticks ∷ receives second answer ∷ resets ∷ [])
      started refl (tt, (tt, (tt, (tt, tt))))

run-init_blocked_example :
    ((n : ℕ) → n ≤ 2 * max (1000 / tick_ms) 1 → (run (replicate n ticks) started).state ≡ nothing)
    × ((run (replicate (suc (2 * max (1000 / tick_ms) 1)) ticks) started).state ≡ blocked)
    × (addresses (run (replicate (suc (2 * max (1000 / tick_ms) 1)) ticks) started).servers
        ≡ first ∷ second ∷ [])
unfolding distinct contains sock_beq
run-init_blocked_example =
    run-init_blocked first (second ∷ []) 1000 10000 none finder refl (omega arith)

respond-parse_example :
    ((packet reply : Bytes)
      → respond none first packet ≡ some reply
      → parse_xor_mapped_address reply
        ≡ some (sock4 (reported none first).0 (reported none first).1))
    × ((tick : ℕ)
        → (respond none first (build_binding_request tick) >>= parse_xor_mapped_address)
          ≡ some (sock4 (reported none first).0 (reported none first).1))
unfolding reported source_address source_port
respond-parse_example = respond-parse none first (omega arith) (omega arith)

-- Twelve bytes follow the header, so that four turns do.
attributes_enough_example :
    (r : Option SocketAddr) × (attributes 4 20 32 (drop 20 answer) ≡ some r)
    × (attributes 40 20 32 (drop 20 answer) ≡ some r)
attributes_enough_example =
    attributes_enough 4 40 20 32 (drop 20 answer) (omega arith) (omega arith)

-- A finder whose last poll was at tick 5000.
abbrev long_running : Inner
long_running = record started { last_poll_tick = some 5000; current_tick = 5003 }

reset_state-late_example :
    stun_process_tick (run (replicate 100 ticks) (reset_state long_running))
    ≡ (record (reset_state long_running) { current_tick = 101 }, [])
unfolding init
reset_state-late_example =
    reset_state-late long_running 5000 100 refl (omega arith) (omega arith) (omega arith)
