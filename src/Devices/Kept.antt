-- ===== src/Devices/Kept.antt =====
-- A saved device comes back.
use air_whatsbot.Common.{
  ℕ, ◌≡◌, ◌≢◌, refl, ap, ◌∙◌, subst, String, Bool, true, false, Option, none, some, ◌⊎◌, inl, inr,
  string_eq, ◌==◌, ◌||◌, nat_beq, nat_beq_iff, if◌then◌else◌, length, Run, done, ◌>>=◌, Bool-cases,
  eq_iff,
}
use air_whatsbot.Calls.Manager.State.{Jid}
use air_whatsbot.Devices.Normal.{Crypto}
use air_whatsbot.Devices.Lengths.{HasLength}
use air_whatsbot.Devices.Restored.{IsNormalAccount, fill-kept, finalize-kept}
use air_whatsbot.Devices.Restore.{
  Account, Fields, DeviceData, Device, Store, RestoreError, SaveError, Library, is_nil,
  lacks_fields, fill_base_device_fields, fill_account, finalize_account, ensure_adv_secret_key,
  with_key, with_jid, with_data, with_device, with_container, parse_user_bot_container, saved_data,
  updated, stored, identified, saved, save_json,
}

module _ {Err : Type 0} where
  updated-eq : (text out : String) (o : Option Err) → updated text o ≡ inr out → text ≡ out
  updated-eq text out (some e) h = cc
  updated-eq text out none h = cc

  stored-eq :
      (repo : Option (Option Err)) (r : Err ⊎ String) (out : String)
      → stored repo r ≡ inr out
      → r ≡ inr out
  stored-eq repo (inl e) out h = cc
  stored-eq none (inr text) out h = cc
  stored-eq (some answer) (inr text) out h = ap inr (updated-eq text out answer h)

  -- A check that did not fail was not met.
  checked-eq :
      (b : Bool) (r : SaveError Err ⊎ String) (e : SaveError Err) (out : String)
      → (if b then inl e else r) ≡ inr out
      → (b ≡ false) × (r ≡ inr out)
  checked-eq true r e out h = cc
  checked-eq false r e out h = (refl, h)

  saved-eq :
      (library : Library Err) (s : Store) (device : Device) (jid : Jid) (first : Bool)
      (repo : Option (Option Err)) (out : String)
      → device.id ≡ some jid
      → saved library s (some device) first repo ≡ inr out
      → ((is_nil device.fields.noise_key || is_nil device.fields.identity_key) ≡ false)
        × (library.marshal (saved_data library s device jid first) ≡ inr out)
  saved-eq library s device jid first repo out known h =
      let all =
        checked-eq _ _ _ out
          (subst (λ o. identified library s device first repo o ≡ inr out) known h) in
      (all.0, stored-eq repo (library.marshal (saved_data library s device jid first)) out all.1)

  -- The store with a device of the saved fields
  abbrev restored_store : DeviceData → Jid → Account → RestoreError Err ⊎ Store
  restored_store d jid account = inr (record {
    device = some (record { id = some jid; fields = d.fields; account = some account });
    uids = d.uids;
    call = d.allow_call;
    text = d.allow_text;
  })

  module _ (crypto : Crypto) (library : Library Err) (fresh : Device) (jid : Jid) (a : Account)
      (normal : IsNormalAccount crypto a) where
    account_kept :
        (d : DeviceData)
        → d.account ≡ some a
        → with_key crypto library (fill_base_device_fields fresh d jid) d (inr d.fields)
          ≡ done (restored_store d jid a)
    account_kept d owned =
        let filling : fill_account crypto fresh.account d.account ≡ done a =
          ap (fill_account crypto fresh.account) owned ∙ fill-kept crypto fresh.account a normal in
        ap
          (λ (r : Run Account).
            r >>= λ account. done (restored_store d jid (finalize_account crypto account)))
          filling
        ∙ ap (λ account. done (restored_store d jid account)) (finalize-kept crypto a normal)

    key_kept :
        (d : DeviceData)
        → HasLength 32 d.fields.adv_secret_key
        → ensure_adv_secret_key crypto library d.fields ≡ inr d.fields
    unfolding ensure_adv_secret_key
    key_kept d long = rw ((nat_beq_iff (length d.fields.adv_secret_key) 32).1 long) refl

    data_kept :
        (d : DeviceData)
        → lacks_fields d ≡ false
        → library.parse_jid d.id ≡ inr jid
        → library.is_empty jid ≡ false
        → d.account ≡ some a
        → HasLength 32 d.fields.adv_secret_key
        → with_data crypto library fresh (inr d) ≡ done (restored_store d jid a)
    data_kept d whole parsed full owned long =
        ap
          (λ b.
            if b
            then done (inl RestoreError.missing_fields)
            else with_jid crypto library fresh d (library.parse_jid d.id))
          whole
        ∙ (ap (with_jid crypto library fresh d) parsed
            ∙ (ap
                  (λ b.
                    if b
                    then done (inl RestoreError.empty_jid)
                    else with_key crypto library (fill_base_device_fields fresh d jid) d
                        (ensure_adv_secret_key crypto library d.fields))
                  full
                ∙ (ap (with_key crypto library (fill_base_device_fields fresh d jid) d)
                      (key_kept d long)
                    ∙ account_kept d owned)))

lacks-false : (id : String) (b : Bool) → id ≢ "" → b ≡ false → ((id == "") || b) ≡ false
lacks-false id b n e = elim (Bool-cases (id == "")) [
  | inl y ↦ absurd (n ((eq_iff id "").0 y))
  | inr y ↦ rw y e
]

module _ {Err : Type 0} (crypto : Crypto) (library : Library Err) (fresh : Device)
    (free : library.container ≡ none) (made : library.new_device ≡ some fresh) (jid : Jid)
    (parses : library.parse_jid (library.jid_text jid) ≡ inr jid)
    (full : library.is_empty jid ≡ false) (written : library.jid_text jid ≢ "") where
  -- Where the JSON of the saved data and the text of the JID are read back as they were written, and where the libraries
  -- give a container and a device: a device with an ID, with a secret key of 32 bytes, and with an
  -- account whose parts have their lengths and are no base64 texts, that SaveJSON saves, is restored by
  -- ParseUserBotContainer as it was, with the same list of users and the same settings; after a first
  -- authorisation both settings are on.
  pub save_json-parse :
      (s : Store) (fields : Fields) (a : Account) (user : ℕ) (first : Bool)
      (repo : Option (Option Err)) (text : String)
      → s.device ≡ some (record { id = some jid; fields = fields; account = some a })
      → IsNormalAccount crypto a
      → HasLength 32 fields.adv_secret_key
      → (library.marshal (
              saved_data library s
                (record { id = some jid; fields = fields; account = some a })
                jid
                first)
            ≡ inr text
          → library.unmarshal text
            ≡ inr (
                saved_data library s
                  (record { id = some jid; fields = fields; account = some a })
                  jid
                  first))
      → save_json library user first repo s ≡ inr text
      → parse_user_bot_container crypto library text
        ≡ done (
            inr (record {
              device = some (record { id = some jid; fields = fields; account = some a });
              uids = s.uids;
              call = first || s.call;
              text = first || s.text;
            }))
  unfolding save_json parse_user_bot_container
  save_json-parse s fields a user first repo text there normal long reads h =
      let device : Device = record { id = some jid; fields = fields; account = some a } in
      let d : DeviceData = saved_data library s device jid first in
      let kept = checked-eq (nat_beq user 0) _ _ text h in
      let inside =
        saved-eq library s device jid first repo text refl
          (subst (λ o. saved library s o first repo ≡ inr text) there kept.1) in
      ap (λ o. with_container crypto library o text) free
      ∙ (ap (λ o. with_device crypto library o text) made
          ∙ (ap (with_data crypto library fresh) (reads inside.1)
              ∙ data_kept crypto library fresh jid a normal d
                  (lacks-false (library.jid_text jid) _ written inside.0) parses full refl long))
