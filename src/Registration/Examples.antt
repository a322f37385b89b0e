-- ===== src/Registration/Examples.antt =====
-- A registration and a recovery with small libraries in place of the real ones
-- (bingle_core/src/blockchain/registration_group.rs).
use bingle_rust.Base.{
  ℕ, Option, none, some, List, [], ◌∷◌, ◌++◌, ◌==◌, find, ◌≡◌, ◌≢◌, refl, if◌then◌else◌,
}
use bingle_rust.Base.Str.{Str, str_beq}
use bingle_rust.Base.Eq.{option_beq, list_beq}
use bingle_rust.Base.Sets.{contains}
use bingle_rust.Turn.ChannelData.{Bytes}
use bingle_rust.Registration.{
  RegistrationGroupIds, RawTransaction, ok, panicked, only_fields, no_app_fields, check_shared,
}
use bingle_rust.Registration.Checks.{
  axfer, pay, appl, register_args, check_asset_transfer, transfer_fields, transfer_values,
  check_payment_close, close_fields, close_values, check_app_call, call_fields, call_values,
  call_arguments,
}
use bingle_rust.Registration.Groups.{
  Libraries, sign_registration_group, sign_recovery_group, nth, decode, check_size,
  check_sign_indexes, app_address, register_call, group_of, decode_from, decode_group,
  is_same_group, check_client_basics, sign, sign_each, check_registration, check_funder,
  check_recovery,
}
use bingle_rust.Registration.Signed.{IsSigned, sign_registration_group-IsSigned}
use bingle_rust.Registration.Recovery.{IsRecoverySigned, sign_recovery_group-IsRecoverySigned}
use bingle_rust.Registration.Total.{sign_group-in_range}

abbrev network : RegistrationGroupIds
network = record { bingle_app_id = 3; bingle_asset_id = 5 }

abbrev name : Str
name = b'a' ∷ b'b' ∷ []

abbrev digest : Bytes
digest = 1 ∷ 2 ∷ 3 ∷ 4 ∷ []

abbrev own : Bytes
own = 7 ∷ []

abbrev old : Bytes
old = 8 ∷ []

abbrev service : Bytes
service = 9 ∷ []

abbrev empty : Str → Bytes → RawTransaction
empty kind sender = record {
  txn_type = kind;
  snd = sender;
  fee = some 1000;
  fv = some 1;
  lv = 9;
  genesis_id = none;
  gh = [];
  grp = some [];
  lx = none;
  note = none;
  rekey = none;
  rcv = none;
  amt = none;
  close = none;
  xaid = none;
  aamt = none;
  arcv = none;
  aclose = none;
  asnd = none;
  apid = none;
  apan = none;
  apaa = none;
  apat = none;
  apfa = none;
  apas = none;
}

abbrev opt_in : RawTransaction
opt_in = record (empty axfer own) { xaid = some 5; arcv = some own }

abbrev app_opt_in : RawTransaction
app_opt_in = record (empty appl own) { apid = some 3; apan = some 1 }

abbrev payment : RawTransaction
payment = record (empty axfer own) { xaid = some 5; aamt = some 1; arcv = some digest }

abbrev register : RawTransaction
register = record (empty appl own) {
  apid = some 3;
  apaa = some (register_args digest name);
  apas = some (5 ∷ []);
}

-- Transactions 0 to 2 of a recovery, and the funder's.
abbrev clear_state : RawTransaction
clear_state = record (empty appl old) { apid = some 3; apan = some 3 }

abbrev close_out : RawTransaction
close_out = record (empty axfer old) { xaid = some 5; arcv = some service; aclose = some service }

abbrev close : RawTransaction
close = record (empty pay old) { rcv = some own; close = some own }

abbrev funding : RawTransaction
funding = record (empty axfer service) { xaid = some 5; aamt = some 1; arcv = some own }

abbrev decoded : Bytes → Option RawTransaction
decoded [] = none
decoded (n ∷ bs) =
    if n == 0
    then some clear_state
    else if n == 1
    then some close_out
    else if n == 2
    then some close
    else if n == 3
    then some opt_in
    else if n == 4
    then some funding
    else if n == 5
    then some app_opt_in
    else if n == 6
    then some payment
    else some register

-- Nothing is encoded, a key is its address, and a hash is one of four bytes.
abbrev small : Libraries Bytes
small = record {
  decode64 = some;
  encode64 = λ bytes. bytes;
  decode_raw = decoded;
  decode_group_only = λ bytes. some (some []);
  sha512_256 = λ bytes. digest;
  public_key = λ key. key;
  sign_bytes = λ key bytes. key;
}

abbrev texts : List Str
texts = (0 ∷ []) ∷ (3 ∷ []) ∷ (0 ∷ []) ∷ (5 ∷ []) ∷ (6 ∷ []) ∷ (7 ∷ []) ∷ (0 ∷ []) ∷ []

abbrev recovery : List Str
recovery =
    (0 ∷ [])
    ∷ (1 ∷ [])
    ∷ (2 ∷ [])
    ∷ (3 ∷ [])
    ∷ (4 ∷ [])
    ∷ (5 ∷ [])
    ∷ (6 ∷ [])
    ∷ (7 ∷ [])
    ∷ (0 ∷ [])
    ∷ []

abbrev signed_by : Bytes → ℕ → Str
signed_by key n =
    (0x82 ∷ 0xa3 ∷ b's' ∷ b'i' ∷ b'g' ∷ 0xc4 ∷ 64 ∷ [])
    ++ (key ++ ((0xa3 ∷ b't' ∷ b'x' ∷ b'n' ∷ []) ++ (n ∷ [])))

registration_signs :
    sign_registration_group small texts (1 ∷ 3 ∷ 4 ∷ 5 ∷ []) network name own
    ≡ ok (signed_by own 3 ∷ signed_by own 5 ∷ signed_by own 6 ∷ signed_by own 7 ∷ [])
unfolding sign_registration_group nth decode check_size check_sign_indexes app_address register_call
    group_of decode_from decode_group is_same_group check_client_basics sign sign_each
    check_registration only_fields no_app_fields check_shared check_asset_transfer transfer_fields
    transfer_values check_app_call call_fields call_values call_arguments register_args contains
    str_beq find option_beq list_beq
registration_signs = refl

sign_registration_group-IsSigned_example :
    IsSigned small texts
      (1 ∷ 3 ∷ 4 ∷ 5 ∷ [])
      network
      name
      own
      (signed_by own 3 ∷ signed_by own 5 ∷ signed_by own 6 ∷ signed_by own 7 ∷ [])
sign_registration_group-IsSigned_example =
    (sign_registration_group-IsSigned small texts (1 ∷ 3 ∷ 4 ∷ 5 ∷ []) network name own _).0
      registration_signs

recovery_signs :
    sign_recovery_group small recovery (0 ∷ 1 ∷ 2 ∷ 3 ∷ 5 ∷ 6 ∷ 7 ∷ []) network name old own
    ≡ ok (
        signed_by old 0
        ∷ signed_by old 1
        ∷ signed_by old 2
        ∷ signed_by own 3
        ∷ signed_by own 5
        ∷ signed_by own 6
        ∷ signed_by own 7
        ∷ [])
unfolding sign_recovery_group nth decode check_size check_sign_indexes app_address register_call
    group_of decode_from decode_group is_same_group check_client_basics sign sign_each
    check_recovery check_funder only_fields no_app_fields check_shared check_asset_transfer
    transfer_fields transfer_values check_payment_close close_fields close_values check_app_call
    call_fields call_values call_arguments register_args contains str_beq find option_beq list_beq
recovery_signs = refl

sign_recovery_group-IsRecoverySigned_example :
    IsRecoverySigned small recovery (0 ∷ 1 ∷ 2 ∷ 3 ∷ 5 ∷ 6 ∷ 7 ∷ []) network name old own (
      signed_by old 0
      ∷ signed_by old 1
      ∷ signed_by old 2
      ∷ signed_by own 3
      ∷ signed_by own 5
      ∷ signed_by own 6
      ∷ signed_by own 7
      ∷ [])
sign_recovery_group-IsRecoverySigned_example =
    (sign_recovery_group-IsRecoverySigned small recovery (0 ∷ 1 ∷ 2 ∷ 3 ∷ 5 ∷ 6 ∷ 7 ∷ []) network
        name old own _).0
      recovery_signs

sign_group-in_range_example :
    (sign_registration_group small recovery (9 ∷ []) network name own ≢ panicked)
    × (sign_recovery_group small recovery (9 ∷ []) network name own old ≢ panicked)
sign_group-in_range_example = sign_group-in_range small recovery (9 ∷ []) network name own old
