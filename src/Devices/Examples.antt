-- ===== src/Devices/Examples.antt =====
-- Tests of the devices, and their theorems on a concrete one.
use air_whatsbot.Common.{
  ℕ, ◌≡◌, refl, String, true, false, none, some, [], ◌∷◌, inr, replicate, length-replicate, done,
  Returns,
}
use air_whatsbot.Calls.Manager.State.{Jid}
use air_whatsbot.Devices.Normal.{Crypto, cut, cut_less, normalize_signature}
use air_whatsbot.Devices.Restore.{
  Account, Fields, DeviceData, Device, Store, Library, parse_user_bot_container, save_json,
}
use air_whatsbot.Devices.Restored.{RestoresUsable, parse_user_bot_container_lem}
use air_whatsbot.Devices.Kept.{save_json-parse}

abbrev crypto : Crypto
crypto = record {
  random_bytes = λ n. replicate n 7;
  length_random = λ n. length-replicate {A = ℕ} n 7;
  sum256 = λ bytes. replicate 32 1;
  length_sum256 = λ bytes. length-replicate {A = ℕ} 32 1;
  decode_string = λ bytes. none;
}

abbrev jid : Jid
jid = record { user = "79"; server = "s.whatsapp.net" }

abbrev fields : Fields
fields = record {
  registration_id = 5;
  noise_key = some (1 ∷ []);
  identity_key = some (2 ∷ []);
  signed_pre_key = none;
  platform = "Debian 12";
  push_name = "Marusia AI";
  adv_secret_key = replicate 32 3;
}

abbrev account : Account
account = record {
  details = [];
  account_signature_key = replicate 32 4;
  account_signature = replicate 64 5;
  device_signature = replicate 64 6;
}

abbrev device : Device
device = record { id = some jid; fields = fields; account = some account }

abbrev kept : DeviceData
kept = record {
  id = "79@s.whatsapp.net";
  fields = fields;
  account = some account;
  uids = "80";
  allow_text = true;
  allow_call = false;
}

abbrev fresh : Device
fresh = record { id = none; fields = fields; account = none }

abbrev library : Library String
library = record {
  container = none;
  new_device = some fresh;
  unmarshal = λ text. inr kept;
  marshal = λ d. inr "{}";
  parse_jid = λ text. inr jid;
  jid_text = λ j. "79@s.whatsapp.net";
  is_empty = λ j. false;
  rand_fails = none;
}

abbrev bot_store : Store
bot_store = record { device = some device; uids = "80"; call = false; text = true }

saves : save_json library 7 false (some none) bot_store ≡ inr "{}"
unfolding save_json
saves = refl

parse_user_bot_container_lem_example :
    Returns (parse_user_bot_container crypto library "{}") RestoresUsable
parse_user_bot_container_lem_example = parse_user_bot_container_lem crypto library "{}"

save_json-parse_example :
    parse_user_bot_container crypto library "{}"
    ≡ done (inr (record { device = some device; uids = "80"; call = false; text = true }))
save_json-parse_example =
    save_json-parse crypto library fresh refl refl jid refl refl (λ h. cc) bot_store fields account
      7 false (some none) "{}" refl
      ((refl, refl, λ h. cc), (refl, refl, λ h. cc), (refl, refl, λ h. cc)) refl (λ h. refl) saves

-- A short signature is made of two hashes.
hashes_short : normalize_signature crypto 64 (1 ∷ []) ≡ done (replicate 64 1)
unfolding normalize_signature cut_less cut
hashes_short = refl
