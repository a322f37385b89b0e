-- ===== src/Stun/Packets/Fuel.antt =====
-- The loop over the attributes of a STUN packet comes to an end
-- (`parse_xor_mapped_address` of bingle_core/src/stun/stun_endpoint_finder_impl.rs).
use bingle_rust.Base.{
  ℕ, zero, suc, ◌+◌, ◌-◌, ◌*◌, ◌%◌, ◌≤◌, ◌<◌, ◌≡◌, ◌≢◌, refl, Option, some, [], ◌∷◌, length, drop,
  arith, length-drop_le, none, ltb, if◌then◌else◌,
}
use bingle_rust.Net.{SocketAddr}
use bingle_rust.Turn.ChannelData.{Bytes, from_be_bytes}
use bingle_rust.Stun.Packets.{Returned, message_length, attributes, one_attribute}

returned : (o : Returned) → o ≢ none → (r : Option SocketAddr) × (o ≡ some r)
returned none h = absurd (h refl)
returned (some r) h = (r, refl)

-- An attribute ends the loop, or leaves it to what comes after.
turn-ends :
    (end idx atype alen : ℕ) (value : Bytes) (r : Option SocketAddr)
    → (if ltb end (idx + 4) then some none else one_attribute atype alen value (some r)) ≢ none
unfolding one_attribute
turn-ends end idx atype alen value r = λ p. ground arith

-- The loop over the attributes of a packet returns if it has more turns than a quarter of the bytes
-- left, wherever it starts: the fuel does not run out, and with any two such numbers of turns it
-- returns the same.
pub attributes_enough :
    (n m idx end : ℕ) (here : Bytes)
    → length here < 4 * n
    → length here < 4 * m
    → (r : Option SocketAddr) × (attributes n idx end here ≡ some r)
      × (attributes m idx end here ≡ some r)
unfolding attributes
attributes_enough zero m idx end here h k = absurd (omega arith)
attributes_enough n zero idx end here h k = absurd (omega arith)
attributes_enough (suc n) (suc m) idx end [] h k = (none, refl, refl)
attributes_enough (suc n) (suc m) idx end (a ∷ []) h k = (none, refl, refl)
attributes_enough (suc n) (suc m) idx end (a ∷ b ∷ []) h k = (none, refl, refl)
attributes_enough (suc n) (suc m) idx end (a ∷ b ∷ c ∷ []) h k = (none, refl, refl)
attributes_enough (suc n) (suc m) idx end (t1 ∷ t0 ∷ l1 ∷ l0 ∷ value) h k =
    let alen = from_be_bytes l1 l0 in
    let step = alen + (4 - alen % 4) % 4 in
    let shorter = length-drop_le step value in
    let (r, left, right) =
      attributes_enough n m (idx + 4 + step) end (drop step value) (omega (arith, shorter))
        (omega (arith, shorter)) in
    rw (left, right)
      (let (q, is) = returned _ (turn-ends end idx (from_be_bytes t1 t0) alen value r) in
        (q, is, is))

-- The fuel that `parse_xor_mapped_address` gives its loop does not run out.
length_enough :
    (packet : Bytes)
    → 20 ≤ length packet
    → (r : Option SocketAddr) × (attributes
          (length packet)
          20
          (20 + message_length packet)
          (drop 20 packet)
        ≡ some r)
length_enough packet h =
    let fits : length (drop 20 packet) < 4 * length packet =
      omega (arith, length-drop_le 20 packet) in
    let (r, is, again) =
      attributes_enough (length packet) (length packet) 20 (20 + message_length packet)
        (drop 20 packet) fits fits in
    (r, is)
