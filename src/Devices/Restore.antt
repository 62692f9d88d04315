-- ===== src/Devices/Restore.antt =====
-- `ParseUserBotContainer` and `SaveJSON` of internal/whatsapp/devicestore/store.go, with what they call
-- of device.go. A nil slice and an empty one are the same list.
use air_whatsbot.Common.{
  ℕ, String, Bool, true, false, Option, none, some, List, [], ◌⊎◌, inl, inr, string_eq, ◌==◌, ◌||◌,
  nat_beq, not, if◌then◌else◌, length, replicate, Run, done, ◌>>=◌,
}
use air_whatsbot.Calls.Manager.State.{Jid}
use air_whatsbot.Devices.Normal.{Crypto, normalize_key, normalize_signature}

-- waAdv.ADVSignedDeviceIdentity
pub record Account : Type 0 where
  pub details : List ℕ
  pub account_signature_key : List ℕ
  pub account_signature : List ℕ
  pub device_signature : List ℕ

-- The fields that the saved data and the device share
pub record Fields : Type 0 where
  pub registration_id : ℕ
  pub noise_key : Option (List ℕ)
  pub identity_key : Option (List ℕ)
  pub signed_pre_key : Option (List ℕ)
  pub platform : String
  pub push_name : String
  pub adv_secret_key : List ℕ

-- DeviceData
pub record DeviceData : Type 0 where
  pub id : String
  pub fields : Fields
  pub account : Option Account
  pub uids : String
  pub allow_text : Bool
  pub allow_call : Bool

-- store.Device
pub record Device : Type 0 where
  pub id : Option Jid
  pub fields : Fields
  pub account : Option Account

-- Store
pub record Store : Type 0 where
  pub device : Option Device
  pub uids : String
  pub call : Bool
  pub text : Bool

pub data RestoreError (Err : Type 0) : Type 0 where
  no_container : Err → RestoreError Err
  no_device : RestoreError Err
  bad_json : Err → RestoreError Err
  missing_fields : RestoreError Err
  bad_jid : Err → RestoreError Err
  empty_jid : RestoreError Err
  no_random : Err → RestoreError Err

-- What the libraries answer
pub record Library (Err : Type 0) : Type 0 where
  pub container : Option Err
  pub new_device : Option Device
  pub unmarshal : String → Err ⊎ DeviceData
  pub marshal : DeviceData → Err ⊎ String
  pub parse_jid : String → Err ⊎ Jid
  pub jid_text : Jid → String
  pub is_empty : Jid → Bool
  pub rand_fails : Option Err

abbrev pub is_nil : Option (List ℕ) → Bool
is_nil none = true
is_nil (some bytes) = false

-- Fields without which a device cannot be restored
abbrev pub lacks_fields : DeviceData → Bool
lacks_fields d = d.id == "" || (is_nil d.fields.noise_key || is_nil d.fields.identity_key)

-- fillBaseDeviceFields(device, devData, jid)
abbrev pub fill_base_device_fields : Device → DeviceData → Jid → Device
fill_base_device_fields device d jid = record device { id = some jid; fields = d.fields }

abbrev pub blank_account : Account
blank_account = record {
  details = [];
  account_signature_key = replicate 32 0;
  account_signature = replicate 64 0;
  device_signature = replicate 64 0;
}

abbrev pub account_or : Option Account → Account
account_or none = blank_account
account_or (some a) = a

abbrev pub resized : ℕ → List ℕ → List ℕ → List ℕ
resized n bytes fresh = if not (nat_beq (length bytes) n) then fresh else bytes

module _ (crypto : Crypto) where
  open crypto use {random_bytes}

  abbrev pub filled : Account → Run Account
  filled a = normalize_key crypto 32 a.account_signature_key >>= λ key.
      normalize_signature crypto 64 a.account_signature >>= λ signature.
      normalize_signature crypto 64 a.device_signature >>= λ device_signature. done (record {
        details = a.details;
        account_signature_key = key;
        account_signature = signature;
        device_signature = device_signature;
      })

  -- fillAccount(device, devData): the account of the device
  unfoldable pub fill_account : Option Account → Option Account → Run Account
  fill_account own none = done (account_or own)
  fill_account own (some a) = filled a

  -- finalizeAccount(device)
  unfoldable pub finalize_account : Account → Account
  finalize_account a = record {
    details = a.details;
    account_signature_key = resized 32 a.account_signature_key (random_bytes 32);
    account_signature = resized 64 a.account_signature (random_bytes 64);
    device_signature = resized 64 a.device_signature (random_bytes 64);
  }

pub data SaveError (Err : Type 0) : Type 0 where
  no_user : SaveError Err
  not_initialised : SaveError Err
  incomplete : SaveError Err
  not_serialised : Err → SaveError Err
  no_repository : SaveError Err
  not_updated : Err → SaveError Err

module _ {Err : Type 0} (crypto : Crypto) (library : Library Err) where
  open library use {container, new_device, unmarshal, parse_jid, is_empty, rand_fails}

  abbrev pub new_key : Fields → Option Err → RestoreError Err ⊎ Fields
  new_key f (some e) = inl (no_random e)
  new_key f none = inr (record f { adv_secret_key = crypto.random_bytes 32 })

  -- ensureAdvSecretKey(device, userId)
  unfoldable pub ensure_adv_secret_key : Fields → RestoreError Err ⊎ Fields
  ensure_adv_secret_key f =
      if not (nat_beq (length f.adv_secret_key) 32) then new_key f rand_fails else inr f

  abbrev pub new_store : Device → DeviceData → Account → Store
  new_store device d account = record {
    device = some (record device { account = some (finalize_account crypto account) });
    uids = d.uids;
    call = d.allow_call;
    text = d.allow_text;
  }

  abbrev pub with_key :
      Device → DeviceData → RestoreError Err ⊎ Fields → Run (RestoreError Err ⊎ Store)
  with_key device d (inl e) = done (inl e)
  with_key device d (inr f) = fill_account crypto device.account d.account >>= λ account.
      done (inr (new_store (record device { fields = f }) d account))

  abbrev pub with_jid : Device → DeviceData → Err ⊎ Jid → Run (RestoreError Err ⊎ Store)
  with_jid device d (inl e) = done (inl (bad_jid e))
  with_jid device d (inr jid) =
      if is_empty jid
      then done (inl empty_jid)
      else with_key (fill_base_device_fields device d jid) d (ensure_adv_secret_key d.fields)

  abbrev pub with_data : Device → Err ⊎ DeviceData → Run (RestoreError Err ⊎ Store)
  with_data device (inl e) = done (inl (bad_json e))
  with_data device (inr d) =
      if lacks_fields d then done (inl missing_fields) else with_jid device d (parse_jid d.id)

  abbrev pub with_device : Option Device → String → Run (RestoreError Err ⊎ Store)
  with_device none text = done (inl no_device)
  with_device (some device) text = with_data device (unmarshal text)

  abbrev pub with_container : Option Err → String → Run (RestoreError Err ⊎ Store)
  with_container (some e) text = done (inl (no_container e))
  with_container none text = with_device new_device text

  -- ParseUserBotContainer(ctx, userId, containerString, repo)
  unfoldable pub parse_user_bot_container : String → Run (RestoreError Err ⊎ Store)
  parse_user_bot_container text = with_container container text

module _ {Err : Type 0} where
  abbrev pub updated : String → Option Err → SaveError Err ⊎ String
  updated text (some e) = inl (not_updated e)
  updated text none = inr text

  abbrev pub stored : Option (Option Err) → Err ⊎ String → SaveError Err ⊎ String
  stored repo (inl e) = inl (not_serialised e)
  stored none (inr text) = inl no_repository
  stored (some answer) (inr text) = updated text answer

module _ {Err : Type 0} (library : Library Err) where
  open library use {marshal, jid_text}

  -- The data that are saved
  abbrev pub saved_data : Store → Device → Jid → Bool → DeviceData
  saved_data s device jid first = record {
    id = jid_text jid;
    fields = device.fields;
    account = device.account;
    uids = s.uids;
    allow_text = first || s.text;
    allow_call = first || s.call;
  }

  abbrev pub identified :
      Store → Device → Bool → Option (Option Err) → Option Jid → SaveError Err ⊎ String
  identified s device first repo none = inl incomplete
  identified s device first repo (some jid) =
      if is_nil device.fields.noise_key || is_nil device.fields.identity_key
      then inl incomplete
      else stored repo (marshal (saved_data s device jid first))

  abbrev pub saved : Store → Option Device → Bool → Option (Option Err) → SaveError Err ⊎ String
  saved s none first repo = inl not_initialised
  saved s (some device) first repo = identified s device first repo device.id

  -- s.SaveJSON(ctx, userID, mk, firstAuthorization): the text that the repository takes; `repo` is what
  -- UpdateWhatsBotData answers, `none` where there is no repository
  unfoldable pub save_json : ℕ → Bool → Option (Option Err) → Store → SaveError Err ⊎ String
  save_json user first repo s = if nat_beq user 0 then inl no_user else saved s s.device first repo
