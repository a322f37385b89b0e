-- ===== src/Transport/Send/Silence.antt =====
-- `send` when nothing arrives: every packet goes out, and the peer is forgotten.
use bingle_rust.Base.{none, []}
use bingle_rust.Base.Eq.{nat_eq, pair_eq}
use bingle_rust.Net.Endpoint.{key_eq}
use bingle_rust.Transport.State.{Transport}
use bingle_rust.Transport.Send.{Schedule}

-- Nothing arrives, and DTLS takes every packet.
abbrev pub silence : Schedule
silence = record { first = none; during = λ i. []; resend = λ i. none }
