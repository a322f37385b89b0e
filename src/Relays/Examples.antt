-- ===== src/Relays/Examples.antt =====
-- The theorems about relays at concrete inputs.
use bingle_rust.Base.{inl, inr, refl, true, some, none, ◌-◌, ◌≡◌, List, [], ◌∷◌, ltb, arith}
use bingle_rust.Base.Str.{Str, str_beq}
use bingle_rust.Net.{SocketAddr, sock4}
use bingle_rust.Relays.ProbeFailures.{
  new, is_cooling_down, use_all, Use, fails, answers, asks, latest_failure, is_cooling_down_lem,
}
use bingle_rust.Relays.Cache
use bingle_rust.Relays.Cache.{RelayInfo, RelayInfoCache, trim_issuer_suffix, find_relay_excluding}
use bingle_rust.Relays.Cache.Find.{Answer, find_relay_excluding-Answer}
use bingle_rust.Relays.Cache.Sort.{IsUnique}
use bingle_rust.Relays.Cache.Changes.{
  Change, adds, updates, deletes, replaces, clears, change_all, IsAscending, change_all-IsAscending,
}

abbrev candidate : SocketAddr
candidate = sock4 0x0a000001 4000

abbrev sent_to : List SocketAddr
sent_to = sock4 0x0a000001 5000 ∷ sock4 0x0a000002 4000 ∷ []

abbrev relay_id : Str
relay_id = b'R' ∷ []

abbrev uses : List Use
uses = asks relay_id 50 ∷ fails relay_id 40 ∷ answers relay_id ∷ fails relay_id 10 ∷ []

is_cooling_down_lem_example :
    (is_cooling_down relay_id 90 (use_all uses (new 60))).1 ≡ ltb (90 - 40) 60
unfolding latest_failure str_beq
is_cooling_down_lem_example =
    is_cooling_down_lem 60 uses relay_id 90 (omega arith, (omega arith, (omega arith, tt)))

abbrev relay : Str → SocketAddr → RelayInfo
relay id address = record {
  id = id;
  address = some address;
  is_root = true;
  state = none;
  ttl = none;
  last_updated = 0;
}

-- Three relays, of which the first is the node itself and the last is excluded.
abbrev three_relays : RelayInfoCache
three_relays = Cache.new (
    relay (b'A' ∷ []) (sock4 1 1)
    ∷ relay (b'C' ∷ []) (sock4 3 3)
    ∷ relay (b'B' ∷ []) candidate
    ∷ [])

find_relay_excluding-Answer_example :
    Answer
      (trim_issuer_suffix (b'A' ∷ b'.' ∷ []))
      sent_to
      three_relays.inner
      (find_relay_excluding (b'A' ∷ b'.' ∷ []) sent_to three_relays)
find_relay_excluding-Answer_example =
    find_relay_excluding-Answer (b'A' ∷ b'.' ∷ []) sent_to three_relays refl
      ((sock4 1 1, refl), ((sock4 3 3, refl), ((candidate, refl), tt)))

-- The second relay is added twice, and updated.
abbrev changes : List Change
changes =
    replaces three_relays.inner
    ∷ adds (relay (b'B' ∷ []) (sock4 7 7))
    ∷ updates (relay (b'B' ∷ []) (sock4 8 8)) 5
    ∷ deletes (b'A' ∷ [])
    ∷ clears
    ∷ []

three-IsUnique : IsUnique three_relays.inner
three-IsUnique = (
  (λ q i e. elim i [
    | inl same ↦ absurd (ground arith)
    | inr (inl same) ↦ absurd (ground arith)
    | inr (inr none_left) ↦ absurd none_left
  ]),
  (
    (λ q i e. elim i [ inl same ↦ absurd (ground arith) | inr none_left ↦ absurd none_left ]),
    ((λ q i. absurd i), tt),
  ),
)

change_all-IsAscending_example : IsAscending (change_all changes (Cache.new [])).inner
change_all-IsAscending_example =
    change_all-IsAscending changes (three-IsUnique, (tt, (tt, (tt, (tt, tt)))))
