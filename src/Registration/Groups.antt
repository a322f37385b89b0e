-- ===== src/Registration/Groups.antt =====
-- Signing whole groups: `sign_registration_group` and `sign_recovery_group` of
-- bingle_core/src/blockchain/registration_group.rs, over the libraries that decode, hash and sign.
use bingle_rust.Base.{
  ℕ, zero, suc, ◌/◌, ◌%◌, ◌^◌, Bool, true, not, ◌||◌, Option, none, some, List, [], ◌∷◌, ◌++◌,
  length, take, if◌then◌else◌,
}
use bingle_rust.Base.Eq.{◌=?◌, nat_eq}
use bingle_rust.Base.Sets.{contains}
use bingle_rust.Base.Str.{Str, str_eq}
use bingle_rust.Turn.ChannelData.{Bytes}
use bingle_rust.Registration.{
  RegistrationGroupIds, RawTransaction, RegistrationGroupError, Checked, Check, ok, refused,
  panicked, ◌>>=◌, group_size, sign_indexes, undecodable, other_group, template, recovery_group,
  funder_transfer, same_keys, own_funder, check_shared, on_complete_opt_in, on_complete_clear_state,
}
use bingle_rust.Registration.Checks.{
  check_asset_transfer, check_asset_opt_in, check_payment_close, check_app_call, register_args,
}

-- base64, msgpack, SHA-512/256 and Ed25519, as the code calls them; `none` is an error.
pub record Libraries (Key : Type 0) : Type 0 where
  pub decode64 : Str → Option Bytes
  pub encode64 : Bytes → Str
  pub decode_raw : Bytes → Option RawTransaction
  pub decode_group_only : Bytes → Option (Option Bytes)
  pub sha512_256 : Bytes → Bytes
  pub public_key : Key → Bytes
  pub sign_bytes : Key → Bytes → Bytes

abbrev pub registration_sign_indexes : List ℕ
registration_sign_indexes = 1 ∷ 3 ∷ 4 ∷ 5 ∷ []

abbrev pub recovery_sign_indexes : List ℕ
recovery_sign_indexes = 0 ∷ 1 ∷ 2 ∷ 3 ∷ 5 ∷ 6 ∷ 7 ∷ []

abbrev pub recovery_old_key_indexes : List ℕ
recovery_old_key_indexes = 0 ∷ 1 ∷ 2 ∷ []

abbrev pub recovery_funder_index : ℕ
recovery_funder_index = 4

-- "register(string)void".
abbrev pub register_method : Bytes
register_method =
    b'r' ∷ b'e' ∷ b'g' ∷ b'i' ∷ b's' ∷ b't' ∷ b'e' ∷ b'r' ∷ b'(' ∷ b's' ∷ b't' ∷ b'r' ∷ b'i' ∷ b'n'
    ∷ b'g' ∷ b')' ∷ b'v' ∷ b'o' ∷ b'i' ∷ b'd' ∷ []

-- `u64::to_be_bytes`.
abbrev pub be_u64 : ℕ → Bytes
be_u64 n =
    (n / 2 ^ 56 % 256)
    ∷ (n / 2 ^ 48 % 256)
    ∷ (n / 2 ^ 40 % 256)
    ∷ (n / 2 ^ 32 % 256)
    ∷ (n / 2 ^ 24 % 256)
    ∷ (n / 2 ^ 16 % 256)
    ∷ (n / 2 ^ 8 % 256)
    ∷ (n % 256)
    ∷ []

-- `if refusing { return Err(e) }`.
abbrev pub refuse_if : Bool → RegistrationGroupError → Check
refuse_if refusing e = if refusing then refused e else ok tt

unfoldable pub check_size : List Str → List ℕ → Check
check_size transactions allowed =
    if contains allowed (length transactions)
    then ok tt
    else refused (group_size allowed (length transactions))

unfoldable pub check_sign_indexes : List ℕ → List ℕ → Check
check_sign_indexes actual wanted =
    if actual =? wanted then ok tt else refused (sign_indexes wanted actual)

-- `group[index]`.
unfoldable pub nth : List Bytes → ℕ → Checked Bytes
nth [] n = panicked
nth (b ∷ bs) zero = ok b
nth (b ∷ bs) (suc n) = nth bs n

-- `map_err(…)?`.
abbrev pub or_refuse {ℓ} : {A : Type ℓ} → Option A → RegistrationGroupError → Checked A
or_refuse o e = elim o [ none ↦ refused e | some a ↦ ok a ]

-- No transaction came before, or it had the same group id.
unfoldable pub is_same_group : Option Bytes → Bytes → Bool
is_same_group none grp = true
is_same_group (some first) grp = first =? grp

module _ {Key : Type 0} (lib : Libraries Key) where
  unfoldable pub app_address : ℕ → Bytes
  app_address app_id = lib.sha512_256 ((b'a' ∷ b'p' ∷ b'p' ∷ b'I' ∷ b'D' ∷ []) ++ be_u64 app_id)

  unfoldable pub register_call : Str → List Bytes
  register_call handle = register_args (take 4 (lib.sha512_256 register_method)) handle

  -- A transaction's group id.
  unfoldable pub group_of : ℕ → Bytes → Checked Bytes
  group_of index bytes = elim (lib.decode_group_only bytes) [
    | none ↦ refused (undecodable index)
    | some none ↦ refused (other_group index)
    | some (some grp) ↦ ok grp
  ]

  -- The loop of `decode_group`: the position, the group id so far, and the transactions left.
  unfoldable pub decode_from : ℕ → Option Bytes → List Str → Checked (List Bytes)
  decode_from index group_id [] = ok []
  decode_from index group_id (encoded ∷ rest) = do
    bytes ← or_refuse (lib.decode64 encoded) (undecodable index)
    grp ← group_of index bytes
    _ ← refuse_if (not (is_same_group group_id grp)) (other_group index)
    group ← decode_from (suc index) (some grp) rest
    ok (bytes ∷ group)

  unfoldable pub decode_group : List Str → Checked (List Bytes)
  decode_group transactions = decode_from 0 none transactions

  unfoldable pub decode : ℕ → Bytes → Checked RawTransaction
  decode index bytes = or_refuse (lib.decode_raw bytes) (undecodable index)

  unfoldable pub check_client_basics : List Bytes → ℕ → Bytes → Checked RawTransaction
  check_client_basics group index sender = do
    bytes ← nth group index
    txn ← decode index bytes
    _ ← check_shared index sender txn
    ok txn

  -- The signed transaction: a map of the signature and the bytes as they came.
  unfoldable pub sign : Bytes → Key → Str
  sign bytes key = lib.encode64 (
      (0x82 ∷ 0xa3 ∷ b's' ∷ b'i' ∷ b'g' ∷ 0xc4 ∷ 64 ∷ [])
      ++ (lib.sign_bytes key (b'T' ∷ b'X' ∷ bytes) ++ ((0xa3 ∷ b't' ∷ b'x' ∷ b'n' ∷ []) ++ bytes)))

  unfoldable pub sign_each : List Bytes → (ℕ → Key) → List ℕ → Checked (List Str)
  sign_each group key [] = ok []
  sign_each group key (index ∷ rest) = do
    bytes ← nth group index
    signed ← sign_each group key rest
    ok (sign bytes (key index) ∷ signed)

  unfoldable pub check_registration : List Bytes → RegistrationGroupIds → Str → Bytes → Check
  check_registration group ids handle address = do
    opt_in ← check_client_basics group 1 address
    _ ← check_asset_opt_in 1 opt_in ids
    app_opt_in ← check_client_basics group 3 address
    _ ← check_app_call 3 app_opt_in ids (some on_complete_opt_in) none
    payment ← check_client_basics group 4 address
    _ ← check_asset_transfer 4 payment ids (app_address ids.bingle_app_id) 1 none
    register ← check_client_basics group 5 address
    _ ← check_app_call 5 register ids none (some (register_call handle))
    ok tt

  unfoldable pub sign_registration_group :
      List Str → List ℕ → RegistrationGroupIds → Str → Key → Checked (List Str)
  sign_registration_group transactions indexes ids handle key = do
    _ ← check_size transactions (7 ∷ 8 ∷ [])
    _ ← check_sign_indexes indexes registration_sign_indexes
    group ← decode_group transactions
    _ ← check_registration group ids handle (lib.public_key key)
    sign_each group (λ index. key) registration_sign_indexes

  -- The funder, which is neither of the client's addresses.
  unfoldable pub check_funder : List Bytes → RegistrationGroupIds → Bytes → Bytes → Checked Bytes
  check_funder group ids old fresh = do
    bytes ← nth group recovery_funder_index
    txn ← decode recovery_funder_index bytes
    _ ←
        refuse_if ((txn.snd =? old) || (txn.snd =? fresh))
          (template recovery_funder_index funder_transfer own_funder)
    _ ← check_asset_transfer recovery_funder_index txn ids fresh 1 none
    ok txn.snd

  unfoldable pub check_recovery : List Bytes → RegistrationGroupIds → Str → Bytes → Bytes → Check
  check_recovery group ids handle old fresh = do
    funder ← check_funder group ids old fresh
    clear_state ← check_client_basics group 0 old
    _ ← check_app_call 0 clear_state ids (some on_complete_clear_state) none
    close_out ← check_client_basics group 1 old
    _ ← check_asset_transfer 1 close_out ids funder 0 (some funder)
    close ← check_client_basics group 2 old
    _ ← check_payment_close 2 close fresh
    opt_in ← check_client_basics group 3 fresh
    _ ← check_asset_opt_in 3 opt_in ids
    app_opt_in ← check_client_basics group 5 fresh
    _ ← check_app_call 5 app_opt_in ids (some on_complete_opt_in) none
    payment ← check_client_basics group 6 fresh
    _ ← check_asset_transfer 6 payment ids (app_address ids.bingle_app_id) 1 none
    register ← check_client_basics group 7 fresh
    _ ← check_app_call 7 register ids none (some (register_call handle))
    ok tt

  unfoldable pub sign_recovery_group :
      List Str → List ℕ → RegistrationGroupIds → Str → Key → Key → Checked (List Str)
  sign_recovery_group transactions indexes ids handle old_key new_key = do
    _ ← check_size transactions (9 ∷ 10 ∷ [])
    _ ← check_sign_indexes indexes recovery_sign_indexes
    group ← decode_group transactions
    _ ←
        refuse_if (lib.public_key old_key =? lib.public_key new_key)
          (template recovery_funder_index recovery_group same_keys)
    _ ← check_recovery group ids handle (lib.public_key old_key) (lib.public_key new_key)
    sign_each group (λ index. if contains recovery_old_key_indexes index then old_key else new_key)
        recovery_sign_indexes
