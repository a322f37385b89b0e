-- ===== src/Relays/Updater/Whole.antt =====
-- A selection from its candidates to its end (bingle_core/src/relay/relay_updater.rs).
use bingle_rust.Base.Str.{Str, str_eq}
