-- ===== src/Devices/Restored.antt =====
-- What a restored device is like, and that a saved one comes back.
use air_whatsbot.Common.{
  ℕ, ◌≡◌, refl, ap, String, Bool, true, false, Option, none, some, List, ◌⊎◌, inl, inr, arith,
  string_eq, nat_beq, nat_beq_iff, not, if◌then◌else◌, length, done, Returns, Returns-bind,
  Bool-cases,
}
use air_whatsbot.Calls.Manager.State.{Jid}
use air_whatsbot.Devices.Normal.{Crypto, normalize_key, normalize_signature}
use air_whatsbot.Devices.Lengths.{
  HasLength, IsNormal, normalize_key-HasLength, normalize_signature-HasLength,
  normalize_key-IsNormal, normalize_signature-IsNormal,
}
use air_whatsbot.Devices.Restore.{
  Account, Fields, DeviceData, Device, Store, RestoreError, Library, lacks_fields,
  fill_base_device_fields, resized, fill_account, finalize_account, new_key, ensure_adv_secret_key,
  with_key, with_jid, with_data, with_device, with_container, parse_user_bot_container,
}

-- The lengths that the library wants.
abbrev pub IsSized : Account → Type 0
IsSized a =
    HasLength 32 a.account_signature_key
    × HasLength 64 a.account_signature
    × HasLength 64 a.device_signature

abbrev pub IsComplete : Option Account → Type 0
IsComplete none = ⊥
IsComplete (some a) = IsSized a

abbrev pub IsUsable : Option Device → Type 0
IsUsable none = ⊥
IsUsable (some d) = HasLength 32 d.fields.adv_secret_key × IsComplete d.account

abbrev pub RestoresUsable : {Err : Type 0} → RestoreError Err ⊎ Store → Type 0
RestoresUsable (inl e) = Unit
RestoresUsable (inr s) = IsUsable s.device

module _ (crypto : Crypto) where
  resized-HasLength :
      (n : ℕ) (bytes fresh : List ℕ) → HasLength n fresh → HasLength n (resized n bytes fresh)
  resized-HasLength n bytes fresh h = elim (Bool-cases (nat_beq (length bytes) n)) [
    | inl y ↦ rw y ((nat_beq_iff (length bytes) n).0 y)
    | inr x ↦ rw x h
  ]

  finalize-IsSized : (a : Account) → IsSized (finalize_account crypto a)
  unfolding finalize_account
  finalize-IsSized a = (
    resized-HasLength 32 a.account_signature_key _ (crypto.length_random 32),
    resized-HasLength 64 a.account_signature _ (crypto.length_random 64),
    resized-HasLength 64 a.device_signature _ (crypto.length_random 64),
  )

  -- Filling an account returns, without a panic.
  fill-returns : (own o : Option Account) → Returns (fill_account crypto own o) (λ a. Unit {0})
  unfolding fill_account
  fill-returns own none = tt
  fill-returns own (some a) =
      Returns-bind (normalize_key crypto 32 a.account_signature_key) _ (HasLength 32)
        (λ a. Unit {0}) (normalize_key-HasLength crypto 32 a.account_signature_key (omega arith))
        (λ key k.
          Returns-bind (normalize_signature crypto 64 a.account_signature) _ (HasLength 64)
            (λ a. Unit {0})
            (normalize_signature-HasLength crypto 64 a.account_signature (omega arith)
              (omega arith))
            (λ signature l.
              Returns-bind (normalize_signature crypto 64 a.device_signature) _ (HasLength 64)
                (λ a. Unit {0})
                (normalize_signature-HasLength crypto 64 a.device_signature (omega arith)
                  (omega arith))
                (λ device_signature m. tt)))

  -- An account whose parts are normal stays as it is.
  abbrev pub IsNormalAccount : Account → Type 0
  IsNormalAccount a =
      IsNormal crypto 32 a.account_signature_key
      × IsNormal crypto 64 a.account_signature
      × IsNormal crypto 64 a.device_signature

  pub fill-kept :
      (own : Option Account) (a : Account)
      → IsNormalAccount a
      → fill_account crypto own (some a) ≡ done a
  unfolding fill_account
  fill-kept own a (k, l, m) = rw (normalize_key-IsNormal crypto 32 a.account_signature_key k) (
      rw (normalize_signature-IsNormal crypto 64 a.account_signature l)
        (rw (normalize_signature-IsNormal crypto 64 a.device_signature m) refl))

  resized-kept : (n : ℕ) (bytes fresh : List ℕ) → HasLength n bytes → resized n bytes fresh ≡ bytes
  resized-kept n bytes fresh h =
      ap (λ b. if not b then fresh else bytes) ((nat_beq_iff (length bytes) n).1 h)

  pub finalize-kept : (a : Account) → IsNormalAccount a → finalize_account crypto a ≡ a
  unfolding finalize_account
  finalize-kept a (k, l, m) =
      rw (resized-kept 32 a.account_signature_key (crypto.random_bytes 32) k.0) (
        rw (resized-kept 64 a.account_signature (crypto.random_bytes 64) l.0)
          (rw (resized-kept 64 a.device_signature (crypto.random_bytes 64) m.0) refl))

module _ {Err : Type 0} (crypto : Crypto) (library : Library Err) where
  -- A key of the right length, or an error.
  abbrev HasKey : RestoreError Err ⊎ Fields → Type 0
  HasKey (inl e) = Unit
  HasKey (inr f) = HasLength 32 f.adv_secret_key

  new-HasKey : (f : Fields) (o : Option Err) → HasKey (new_key crypto library f o)
  new-HasKey f (some e) = tt
  new-HasKey f none = crypto.length_random 32

  ensure-HasKey : (f : Fields) → HasKey (ensure_adv_secret_key crypto library f)
  unfolding ensure_adv_secret_key
  ensure-HasKey f = elim (Bool-cases (nat_beq (length f.adv_secret_key) 32)) [
    | inl y ↦ rw y ((nat_beq_iff (length f.adv_secret_key) 32).0 y)
    | inr n ↦ rw n (new-HasKey f library.rand_fails)
  ]

  key-usable :
      (device : Device) (d : DeviceData) (r : RestoreError Err ⊎ Fields)
      → HasKey r
      → Returns (with_key crypto library device d r) RestoresUsable
  key-usable device d (inl e) h = tt
  key-usable device d (inr f) h =
      Returns-bind (fill_account crypto device.account d.account) _ (λ a. Unit {0}) RestoresUsable
        (fill-returns crypto device.account d.account) (λ a u. (h, finalize-IsSized crypto a))

  jid-usable :
      (device : Device) (d : DeviceData) (jid : Jid) (b : Bool)
      → Returns
          (if b
            then done (inl RestoreError.empty_jid)
            else with_key crypto library
                (fill_base_device_fields device d jid)
                d
                (ensure_adv_secret_key crypto library d.fields))
          RestoresUsable
  jid-usable device d jid true = tt
  jid-usable device d jid false =
      key-usable (fill_base_device_fields device d jid) d
        (ensure_adv_secret_key crypto library d.fields) (ensure-HasKey d.fields)

  parsed-usable :
      (device : Device) (d : DeviceData) (r : Err ⊎ Jid)
      → Returns (with_jid crypto library device d r) RestoresUsable
  parsed-usable device d (inl e) = tt
  parsed-usable device d (inr jid) = jid-usable device d jid (library.is_empty jid)

  checked-usable :
      (device : Device) (d : DeviceData) (b : Bool)
      → Returns
          (if b
            then done (inl RestoreError.missing_fields)
            else with_jid crypto library device d (library.parse_jid d.id))
          RestoresUsable
  checked-usable device d true = tt
  checked-usable device d false = parsed-usable device d (library.parse_jid d.id)

  data-usable :
      (device : Device) (r : Err ⊎ DeviceData)
      → Returns (with_data crypto library device r) RestoresUsable
  data-usable device (inl e) = tt
  data-usable device (inr d) = checked-usable device d (lacks_fields d)

  device-usable :
      (o : Option Device) (text : String)
      → Returns (with_device crypto library o text) RestoresUsable
  device-usable none text = tt
  device-usable (some device) text = data-usable device (library.unmarshal text)

  container-usable :
      (o : Option Err) (text : String)
      → Returns (with_container crypto library o text) RestoresUsable
  container-usable (some e) text = tt
  container-usable none text = device-usable library.new_device text

  -- Whatever the saved data are, ParseUserBotContainer returns, without a panic; if it gives a store,
  -- the store has a device with a secret key of 32 bytes and an account whose key has 32 bytes and whose
  -- two signatures have 64.
  pub parse_user_bot_container_lem :
      (text : String) → Returns (parse_user_bot_container crypto library text) RestoresUsable
  unfolding parse_user_bot_container
  parse_user_bot_container_lem text = container-usable library.container text
