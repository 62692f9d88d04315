-- ===== src/Account/MasterKey.antt =====
-- internal/whatsapp/master_key.go and `userMasterKey` of user_subscription.go: the cache of the users'
-- master keys. Times are nanoseconds; keys, errors and the encrypted text are types of the libraries.
pub mod Genuine
pub mod Fresh
use air_whatsbot.Common.{
  ℕ, ◌+◌, ◌*◌, ◌<◌, ◌≡◌, refl, ap, sym, ◌∙◌, String, Bool, true, false, Option, none, some, List,
  [], ◌∷◌, ◌++◌, ◌⊎◌, inl, inr, arith, ltb, lt→ltb, nat_eq, nat_beq, nat_beq_iff, ◌==◌,
  if◌then◌else◌, not, Bool-cases, Option-cases, none≢some,
}
use air_whatsbot.Common.Map.{Map, lookup, insert, delete, lookup-insert, lookup-delete, beq_refl}

-- Five minutes
abbrev pub master_key_cache_ttl : ℕ
master_key_cache_ttl = 300 * 1000000000

-- What the user keeps of its master keys, and the notifications sent: their event and their user.
pub record Keys (Key : Type 0) : Type 0 where
  pub master_keys : Map ℕ (Key × ℕ)  -- cachedMasterKey: key and expiresAt
  pub notified : List (String × ℕ)

-- The RPC client of the landing page, by the time of the call, and air-common's crypto.
pub record Landing (Key Err Text : Type 0) : Type 0 where
  pub connected : Bool  -- the client is not nil
  pub get_user_master_key : ℕ → ℕ → Err ⊎ Key
  pub decrypt_field : Key → Text → Err ⊎ Text
  pub zero_key : Key

pub data KeyError (Err : Type 0) : Type 0 where
  no_rpc : KeyError Err
  rpc_failed : Err → KeyError Err

pub data DecryptError (Err : Type 0) : Type 0 where
  no_key : KeyError Err → DecryptError Err
  decrypt_failed : Err → DecryptError Err

module _ {Key Err Text : Type 0} (landing : Landing Key Err Text) where
  open landing use {connected, get_user_master_key, decrypt_field, zero_key}

  -- A cached key that `time.Now().Before(cached.expiresAt)`
  abbrev pub fresh : ℕ → Option (Key × ℕ) → Option Key
  fresh now none = none
  fresh now (some (key, expires_at)) = if ltb now expires_at then some key else none

  abbrev pub store_answer : ℕ → ℕ → Keys Key → Err ⊎ Key → (KeyError Err ⊎ Key) × Keys Key
  store_answer user stored k (inl e) = (inl (rpc_failed e), k)
  store_answer user stored k (inr key) = (
    inr key,
    record k { master_keys = insert user (key, stored + master_key_cache_ttl) k.master_keys },
  )

  abbrev pub ask : ℕ → ℕ → ℕ → Keys Key → Bool → (KeyError Err ⊎ Key) × Keys Key
  ask user now stored k false = (inl no_rpc, k)
  ask user now stored k true = store_answer user stored k (get_user_master_key now user)

  abbrev pub cached_or_ask : ℕ → ℕ → ℕ → Keys Key → Option Key → (KeyError Err ⊎ Key) × Keys Key
  cached_or_ask user now stored k (some key) = (inr key, k)
  cached_or_ask user now stored k none = ask user now stored k connected

  -- u.getMasterKey(userID), called at `now`; the answer is stored at `stored`
  unfoldable pub get_master_key : ℕ → ℕ → ℕ → Keys Key → (KeyError Err ⊎ Key) × Keys Key
  get_master_key user now stored k =
      cached_or_ask user now stored k (fresh now (lookup user k.master_keys))

  -- u.invalidateMasterKey(userID)
  unfoldable pub invalidate_master_key : ℕ → Keys Key → Keys Key
  invalidate_master_key user k = record k { master_keys = delete user k.master_keys }

  abbrev pub decrypted : ℕ → Keys Key → Err ⊎ Text → (DecryptError Err ⊎ Text) × Keys Key
  decrypted user k (inl e) = (inl (decrypt_failed e), invalidate_master_key user k)
  decrypted user k (inr text) = (inr text, k)

  abbrev pub decrypt_with :
      ℕ → Text → (KeyError Err ⊎ Key) × Keys Key → (DecryptError Err ⊎ Text) × Keys Key
  decrypt_with user raw (inl e, k) =
      (inl (no_key e), record k { notified = k.notified ++ ("reauth-userkey", user) ∷ [] })
  decrypt_with user raw (inr key, k) = decrypted user k (decrypt_field key raw)

  abbrev pub decrypt_when :
      ℕ → Text → ℕ → ℕ → Keys Key → Bool → (DecryptError Err ⊎ Text) × Keys Key
  decrypt_when user raw now stored k false = (inl (no_key no_rpc), k)
  decrypt_when user raw now stored k true = decrypt_with user raw (get_master_key user now stored k)

  -- u.decryptSessionData(userId, raw). The error of the notification is only logged.
  unfoldable pub decrypt_session_data :
      ℕ → Text → ℕ → ℕ → Keys Key → (DecryptError Err ⊎ Text) × Keys Key
  decrypt_session_data user raw now stored k = decrypt_when user raw now stored k connected

  abbrev key_or_zero : KeyError Err ⊎ Key → Key
  key_or_zero (inl e) = zero_key
  key_or_zero (inr key) = key

  -- u.userMasterKey(userID)
  unfoldable pub user_master_key : ℕ → ℕ → ℕ → Keys Key → Key × Keys Key
  user_master_key user now stored k =
      let r = get_master_key user now stored k in (key_or_zero r.0, r.1)
