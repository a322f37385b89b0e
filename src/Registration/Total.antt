-- ===== src/Registration/Total.antt =====
-- The signing functions end in signatures or an error, whatever they are given:
-- bingle_core/src/blockchain/registration_group.rs.
use bingle_rust.Base.{
  suc, ◌<◌, ◌≤◌, ℕ, Bool, not, ◌||◌, Option, none, some, List, [], ◌∷◌, ◌≡◌, ◌≢◌, refl, ap, length,
  All, arith,
}
use bingle_rust.Base.Eq.{◌=?◌, nat_eq, option_eq}
use bingle_rust.Base.Str.{Str, str_eq}
use bingle_rust.Turn.ChannelData.{Bytes}
use bingle_rust.Registration.{
  RegistrationGroupIds, RawTransaction, RegistrationGroupError, ok, panicked, ◌>>=◌,
  on_complete_opt_in, on_complete_clear_state,
}
use bingle_rust.Registration.Checks.{check_asset_opt_in, check_asset_transfer}
use bingle_rust.Registration.Groups.{
  Libraries, nth, decode, check_size, check_sign_indexes, decode_group, check_recovery,
  check_funder, sign_each, sign_recovery_group, app_address, register_call, recovery_sign_indexes,
  refuse_if,
}
use bingle_rust.Registration.Decoded.{InGroup, nothing, also, decode_group-InGroup, check_size-ok}
use bingle_rust.Registration.Groups.{
  check_client_basics, check_registration, sign_registration_group, registration_sign_indexes,
  decode_from, group_of, or_refuse, is_same_group,
}
use bingle_rust.Registration.{Check, check_shared, other_group, undecodable}
use bingle_rust.Registration.InRange.{
  bind_in_range, ok_in_range, nth_in_range, then_in_range, if_in_range, transfer_in_range,
  close_in_range, call_in_range, or_refuse_in_range, size_in_range, indexes_in_range,
  shared_in_range,
}

module _ {Key : Type 0} (lib : Libraries Key) where
  length-InGroup :
      (id : Bytes) (texts : List Str) (group : List Bytes)
      → InGroup lib id texts group
      → length group ≡ length texts
  length-InGroup id _ _ nothing = refl
  length-InGroup id _ _ (also {encoded} {bytes} {texts} {group} d g rest) =
      ap suc (length-InGroup id texts group rest)

  length-decode_group :
      (texts : List Str) (group : List Bytes)
      → 1 ≤ length texts
      → decode_group lib texts ≡ ok group
      → length group ≡ length texts
  length-decode_group texts group some_texts h =
      let (id, one) = (decode_group-InGroup lib texts group some_texts).0 h in
      length-InGroup id texts group one

  group_of_in_range : (index : ℕ) (bytes : Bytes) → group_of lib index bytes ≢ panicked
  unfolding group_of
  group_of_in_range index bytes = λ p. ground arith

  same_in_range : (b : Bool) (e : RegistrationGroupError) → refuse_if b e ≢ panicked
  same_in_range b e = if_in_range b e (ok tt) (ok_in_range tt)

  decode_from_in_range :
      (index : ℕ) (group_id : Option Bytes) (texts : List Str)
      → decode_from lib index group_id texts ≢ panicked
  unfolding decode_from
  decode_from_in_range index group_id [] = ok_in_range []
  decode_from_in_range index group_id (encoded ∷ texts) =
      bind_in_range (or_refuse (lib.decode64 encoded) (undecodable index)) _
        (or_refuse_in_range _ _)
        (λ bytes e.
          bind_in_range (group_of lib index bytes) _ (group_of_in_range index bytes) (λ grp f.
            bind_in_range (refuse_if (not (is_same_group group_id grp)) (other_group index)) _
              (same_in_range _ _)
              (λ u g.
                bind_in_range (decode_from lib (suc index) (some grp) texts) _
                  (decode_from_in_range (suc index) (some grp) texts)
                  (λ group k. ok_in_range (bytes ∷ group)))))

  decode_group_in_range : (texts : List Str) → decode_group lib texts ≢ panicked
  unfolding decode_group
  decode_group_in_range texts = decode_from_in_range 0 none texts

  decode_in_range : (index : ℕ) (bytes : Bytes) → decode lib index bytes ≢ panicked
  unfolding decode
  decode_in_range index bytes = or_refuse_in_range _ _

  basics_in_range :
      (group : List Bytes) (index : ℕ) (sender : Bytes)
      → index < length group
      → check_client_basics lib group index sender ≢ panicked
  unfolding check_client_basics
  basics_in_range group index sender h =
      bind_in_range (nth group index) _ (nth_in_range index group h) (λ bytes e.
        bind_in_range (decode lib index bytes) _ (decode_in_range index bytes) (λ txn f.
          bind_in_range (check_shared index sender txn) _ (shared_in_range index sender txn)
            (λ u g. ok_in_range txn)))

  -- One client transaction and the check of its kind.
  one_in_range :
      (group : List Bytes) (index : ℕ) (sender : Bytes) (check : RawTransaction → Check)
      (rest : Check)
      → index < length group
      → ((t : RawTransaction) → check t ≢ panicked)
      → rest ≢ panicked
      → (check_client_basics lib group index sender >>= (λ t. check t >>= (λ u. rest))) ≢ panicked
  one_in_range group index sender check rest h k r =
      bind_in_range (check_client_basics lib group index sender) _
        (basics_in_range group index sender h) (λ t e. then_in_range (check t) rest (k t) r)

  registration_in_range :
      (group : List Bytes) (ids : RegistrationGroupIds) (handle : Str) (address : Bytes)
      → 7 ≤ length group
      → check_registration lib group ids handle address ≢ panicked
  unfolding check_registration
  registration_in_range group ids handle address h =
      one_in_range group 1 address (λ t. check_asset_opt_in 1 t ids) _ (omega arith)
        (λ t. transfer_in_range 1 t ids t.snd 0 none)
        (one_in_range group 3 address _ _ (omega arith)
          (λ t. call_in_range 3 t ids (some on_complete_opt_in) none)
          (one_in_range group 4 address _ _ (omega arith)
            (λ t. transfer_in_range 4 t ids (app_address lib ids.bingle_app_id) 1 none)
            (one_in_range group 5 address _ _ (omega arith)
              (λ t. call_in_range 5 t ids none (some (register_call lib handle)))
              (ok_in_range tt))))

  funder_in_range :
      (group : List Bytes) (ids : RegistrationGroupIds) (old fresh : Bytes)
      → 9 ≤ length group
      → check_funder lib group ids old fresh ≢ panicked
  unfolding check_funder
  funder_in_range group ids old fresh h =
      bind_in_range (nth group 4) _ (nth_in_range 4 group (omega arith)) (λ bytes e.
        bind_in_range (decode lib 4 bytes) _ (decode_in_range 4 bytes) (λ t f.
          then_in_range (refuse_if ((t.snd =? old) || (t.snd =? fresh)) _) _ (same_in_range _ _) (
            bind_in_range (check_asset_transfer 4 t ids fresh 1 none) _
              (transfer_in_range 4 t ids fresh 1 none) (λ u g. ok_in_range t.snd))))

  recovery_in_range :
      (group : List Bytes) (ids : RegistrationGroupIds) (handle : Str) (old fresh : Bytes)
      → 9 ≤ length group
      → check_recovery lib group ids handle old fresh ≢ panicked
  unfolding check_recovery
  recovery_in_range group ids handle old fresh h =
      bind_in_range (check_funder lib group ids old fresh) _ (funder_in_range group ids old fresh h)
        (λ funder e.
          one_in_range group 0 old _ _ (omega arith)
            (λ t. call_in_range 0 t ids (some on_complete_clear_state) none)
            (one_in_range group 1 old _ _ (omega arith)
              (λ t. transfer_in_range 1 t ids funder 0 (some funder))
              (one_in_range group 2 old _ _ (omega arith) (λ t. close_in_range 2 t fresh)
                (one_in_range group 3 fresh (λ t. check_asset_opt_in 3 t ids) _ (omega arith)
                  (λ t. transfer_in_range 3 t ids t.snd 0 none)
                  (one_in_range group 5 fresh _ _ (omega arith)
                    (λ t. call_in_range 5 t ids (some on_complete_opt_in) none)
                    (one_in_range group 6 fresh _ _ (omega arith)
                      (λ t. transfer_in_range 6 t ids (app_address lib ids.bingle_app_id) 1 none)
                      (one_in_range group 7 fresh _ _ (omega arith)
                        (λ t. call_in_range 7 t ids none (some (register_call lib handle)))
                        (ok_in_range tt))))))))

  sign_each_in_range :
      (group : List Bytes) (key : ℕ → Key) (indexes : List ℕ)
      → All (λ i. i < length group) indexes
      → sign_each lib group key indexes ≢ panicked
  unfolding sign_each
  sign_each_in_range group key [] h = ok_in_range []
  sign_each_in_range group key (i ∷ is) h =
      bind_in_range (nth group i) _ (nth_in_range i group h.0) (λ bytes e.
        bind_in_range (sign_each lib group key is) _ (sign_each_in_range group key is h.1)
          (λ signed f. ok_in_range _))

  registration_total :
      (texts : List Str) (indexes : List ℕ) (ids : RegistrationGroupIds) (handle : Str) (key : Key)
      → sign_registration_group lib texts indexes ids handle key ≢ panicked
  unfolding sign_registration_group
  registration_total texts indexes ids handle key =
      bind_in_range (check_size texts (7 ∷ 8 ∷ [])) _ (size_in_range texts _) (λ u sized.
        then_in_range (check_sign_indexes indexes registration_sign_indexes) _
          (indexes_in_range indexes _)
          (bind_in_range (decode_group lib texts) _ (decode_group_in_range texts) (λ group decoded.
            let n = (check_size-ok texts 7 8).0 sized in
            let m = length-decode_group texts group (ground (arith, n)) decoded in
            let enough : 7 ≤ length group = ground (arith, n, m) in
            then_in_range (check_registration lib group ids handle (lib.public_key key)) _
              (registration_in_range group ids handle (lib.public_key key) enough)
              (sign_each_in_range group (λ index. key) registration_sign_indexes
                (omega arith, (omega arith, (omega arith, (omega arith, tt))))))))

  recovery_total :
      (texts : List Str) (indexes : List ℕ) (ids : RegistrationGroupIds) (handle : Str)
      (key other : Key)
      → sign_recovery_group lib texts indexes ids handle key other ≢ panicked
  unfolding sign_recovery_group
  recovery_total texts indexes ids handle key other =
      bind_in_range (check_size texts (9 ∷ 10 ∷ [])) _ (size_in_range texts _) (λ u sized.
        then_in_range (check_sign_indexes indexes recovery_sign_indexes) _
          (indexes_in_range indexes _)
          (bind_in_range (decode_group lib texts) _ (decode_group_in_range texts) (λ group decoded.
            let n = (check_size-ok texts 9 10).0 sized in
            let m = length-decode_group texts group (ground (arith, n)) decoded in
            let enough : 9 ≤ length group = ground (arith, n, m) in
            then_in_range (refuse_if (lib.public_key key =? lib.public_key other) _) _
              (same_in_range _ _)
              (then_in_range
                (check_recovery lib group ids handle (lib.public_key key) (lib.public_key other)) _
                (recovery_in_range group ids handle (lib.public_key key) (lib.public_key other)
                  enough)
                (sign_each_in_range group _ recovery_sign_indexes (
                  omega arith,
                  (
                    omega arith,
                    (omega arith, (omega arith, (omega arith, (omega arith, (omega arith, tt))))),
                  ),
                ))))))

  -- Whatever texts, positions, ids, handle and keys they are given, and whatever the decoders
  -- answer, neither of the two signing functions reads a position past the end of its group.
  pub sign_group-in_range :
      (texts : List Str) (indexes : List ℕ) (ids : RegistrationGroupIds) (handle : Str)
      (key other : Key)
      → (sign_registration_group lib texts indexes ids handle key ≢ panicked)
        × (sign_recovery_group lib texts indexes ids handle key other ≢ panicked)
  sign_group-in_range texts indexes ids handle key other = (
    registration_total texts indexes ids handle key,
    recovery_total texts indexes ids handle key other,
  )
