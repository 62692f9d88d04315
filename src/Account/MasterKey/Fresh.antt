-- ===== src/Account/MasterKey/Fresh.antt =====
-- A fetched key answers for five minutes; a key that failed to decrypt never again.
use air_whatsbot.Common.{
  ℕ, ◌+◌, ◌<◌, ◌≡◌, refl, ap, ◌∙◌, Bool, true, false, none, some, ◌⊎◌, inl, inr, arith, lt→ltb,
  nat_eq, if◌then◌else◌,
}
use air_whatsbot.Common.Map.{lookup, insert, lookup-insert, lookup-delete, beq_refl}
use air_whatsbot.Account.MasterKey.{
  Keys, Landing, KeyError, decrypt_failed, master_key_cache_ttl, fresh, store_answer, ask,
  cached_or_ask, get_master_key, invalidate_master_key, decrypted, decrypt_with, decrypt_when,
  decrypt_session_data,
}

module _ {Key Err Text : Type 0} (landing : Landing Key Err Text) where
  open landing use {connected, get_user_master_key, decrypt_field, zero_key}

  -- The state after the landing page has answered with a key.
  abbrev stores : ℕ → ℕ → Key → Keys Key → Keys Key
  stores user stored key k = record k {
    master_keys = insert user (key, stored + master_key_cache_ttl) k.master_keys;
  }

  get_master_key-fetch :
      (user now stored : ℕ) (key : Key) (k : Keys Key)
      → connected ≡ true
      → fresh landing now (lookup user k.master_keys) ≡ none
      → get_user_master_key now user ≡ inr key
      → get_master_key landing user now stored k ≡ (inr key, stores user stored key k)
  unfolding get_master_key
  get_master_key-fetch user now stored key k c none_fresh a =
      ap (cached_or_ask landing user now stored k) none_fresh
      ∙ ap (ask landing user now stored k) c
      ∙ ap (store_answer landing user stored k) a

  stores-lookup :
      (user at : ℕ) (key : Key) (k : Keys Key)
      → lookup user (stores user at key k).master_keys ≡ some (key, at + master_key_cache_ttl)
  stores-lookup user at key k =
      lookup-insert user user (key, at + master_key_cache_ttl) k.master_keys
      ∙ rw (beq_refl user) refl

  get_master_key-hit :
      (user now stored at : ℕ) (key : Key) (k : Keys Key)
      → now < at + master_key_cache_ttl
      → get_master_key landing user now stored (stores user at key k)
        ≡ (inr key, stores user at key k)
  unfolding get_master_key
  get_master_key-hit user now stored at key k l =
      let k' = stores user at key k in
      ap (λ o. cached_or_ask landing user now stored k' (fresh landing now o))
        (stores-lookup user at key k)
      ∙ ap (λ b. cached_or_ask landing user now stored k' (if b then some key else none))
          (lt→ltb now (at + master_key_cache_ttl) l)

  -- A key that was fetched, since the client is there, no cached key was fresh and the landing page
  -- answered with it, answers every request of the next five minutes, and changes nothing.
  get_master_key-cached :
      (user now stored now' stored' : ℕ) (key : Key) (k : Keys Key)
      → connected ≡ true
      → fresh landing now (lookup user k.master_keys) ≡ none
      → get_user_master_key now user ≡ inr key
      → now' < stored + master_key_cache_ttl
      → get_master_key landing user now' stored' (get_master_key landing user now stored k).1
        ≡ (inr key, (get_master_key landing user now stored k).1)
  get_master_key-cached user now stored now' stored' key k c none_fresh a l =
      rw (get_master_key-fetch user now stored key k c none_fresh a)
        (get_master_key-hit user now' stored' stored key k l)

  decrypted-dropped :
      (user : ℕ) (k : Keys Key) (a : Err ⊎ Text) (e : Err)
      → (decrypted landing user k a).0 ≡ inl (decrypt_failed e)
      → lookup user (decrypted landing user k a).1.master_keys ≡ none
  unfolding invalidate_master_key
  decrypted-dropped user k (inl e') e h =
      lookup-delete user user k.master_keys ∙ rw (beq_refl user) refl
  decrypted-dropped user k (inr text) e h = absurd (ground arith)

  decrypt_with-dropped :
      (user : ℕ) (raw : Text) (r : KeyError Err ⊎ Key) (k : Keys Key) (e : Err)
      → (decrypt_with landing user raw (r, k)).0 ≡ inl (decrypt_failed e)
      → lookup user (decrypt_with landing user raw (r, k)).1.master_keys ≡ none
  decrypt_with-dropped user raw (inl e') k e h = absurd (ground arith)
  decrypt_with-dropped user raw (inr key) k e h = decrypted-dropped user k _ e h

  decrypt_when-dropped :
      (user : ℕ) (raw : Text) (now stored : ℕ) (k : Keys Key) (c : Bool) (e : Err)
      → (decrypt_when landing user raw now stored k c).0 ≡ inl (decrypt_failed e)
      → (c ≡ true)
        × (lookup user (decrypt_when landing user raw now stored k c).1.master_keys ≡ none)
  decrypt_when-dropped user raw now stored k false e h = absurd (ground arith)
  decrypt_when-dropped user raw now stored k true e h =
      (refl, decrypt_with-dropped user raw _ _ e h)

  get_master_key-absent :
      (user now stored : ℕ) (k : Keys Key)
      → connected ≡ true
      → lookup user k.master_keys ≡ none
      → get_master_key landing user now stored k
        ≡ store_answer landing user stored k (get_user_master_key now user)
  unfolding get_master_key
  get_master_key-absent user now stored k c gone =
      ap (λ o. cached_or_ask landing user now stored k (fresh landing now o)) gone
      ∙ ap (ask landing user now stored k) c

  -- When the text does not decrypt, the key is dropped: the next request asks the landing page again
  -- and answers what it answers.
  decrypt_session_data-asks :
      (user : ℕ) (raw : Text) (now stored now' stored' : ℕ) (e : Err) (k : Keys Key)
      → (decrypt_session_data landing user raw now stored k).0 ≡ inl (decrypt_failed e)
      → get_master_key landing user now' stored'
          (decrypt_session_data landing user raw now stored k).1
        ≡ store_answer landing user stored'
            (decrypt_session_data landing user raw now stored k).1
            (get_user_master_key now' user)
  unfolding decrypt_session_data
  decrypt_session_data-asks user raw now stored now' stored' e k h =
      let (c, gone) = decrypt_when-dropped user raw now stored k connected e h in
      get_master_key-absent user now' stored' (decrypt_session_data landing user raw now stored k).1
        c gone
