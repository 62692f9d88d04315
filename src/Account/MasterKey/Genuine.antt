-- ===== src/Account/MasterKey/Genuine.antt =====
-- What the cache hands out: only the landing page's keys, each to its own user, and never one that
-- failed to decrypt.
use air_whatsbot.Common.{
  ℕ, ◌+◌, ◌≡◌, refl, ap, sym, ◌∙◌, String, Bool, true, false, Option, none, some, List, [], ◌∷◌,
  ◌⊎◌, inl, inr, ltb, nat_eq, nat_beq_iff, ◌==◌, Bool-cases, none≢some,
}
use air_whatsbot.Common.Map.{lookup, insert, lookup-insert, lookup-delete}
use air_whatsbot.Account.MasterKey.{
  Keys, Landing, KeyError, master_key_cache_ttl, fresh, store_answer, ask, cached_or_ask,
  get_master_key, invalidate_master_key, decrypted, decrypt_with, decrypt_when,
  decrypt_session_data,
}

-- What is asked of the cache.
pub data Op (Text : Type 0) : Type 0 where
  gets : ℕ → ℕ → ℕ → Op Text
  decrypts : ℕ → Text → ℕ → ℕ → Op Text

module _ {Key Err Text : Type 0} (landing : Landing Key Err Text) where
  open landing use {connected, get_user_master_key, decrypt_field, zero_key}

  unfoldable pub step : Op Text → Keys Key → Keys Key
  step (gets user now stored) k = (get_master_key landing user now stored k).1
  step (decrypts user raw now stored) k = (decrypt_session_data landing user raw now stored k).1

  unfoldable pub run : List (Op Text) → Keys Key → Keys Key
  run [] k = k
  run (op ∷ ops) k = run ops (step op k)

  -- Every cached key is one that the landing page gave for its user.
  abbrev pub IsGenuine : Keys Key → Type 0
  IsGenuine k =
      (user : ℕ) (key : Key) (expires_at : ℕ)
      → lookup user k.master_keys ≡ some (key, expires_at)
      → (at : ℕ) × (get_user_master_key at user ≡ inr key)

  -- An answer is an error, or a key that the landing page gave for this user.
  abbrev pub IsAnswer : ℕ → KeyError Err ⊎ Key → Type 0
  IsAnswer user (inl e) = Unit
  IsAnswer user (inr key) = (at : ℕ) × (get_user_master_key at user ≡ inr key)

  insert-IsGenuine :
      (user now stored : ℕ) (key : Key) (k : Keys Key)
      → IsGenuine k
      → get_user_master_key now user ≡ inr key
      → IsGenuine (record k {
        master_keys = insert user (key, stored + master_key_cache_ttl) k.master_keys;
      })
  insert-IsGenuine user now stored key k g a u key' exp l =
      let found = lookup-insert user u (key, stored + master_key_cache_ttl) k.master_keys in
      elim (Bool-cases (user == u)) [
        | inl e ↦
            (let same : some (key, stored + master_key_cache_ttl) ≡ some (key', exp) =
                sym (found ∙ rw e refl) ∙ l in
              let keys : key ≡ key' = ap (λ o. key_of key o) same in
              let users : user ≡ u = (nat_beq_iff user u).0 e in
              (now, ap (get_user_master_key now) (sym users) ∙ a ∙ ap inr keys))
        | inr e ↦ g u key' exp (sym (found ∙ rw e refl) ∙ l)
      ]
    where
      key_of : Key → Option (Key × ℕ) → Key
      key_of d none = d
      key_of d (some (x, _)) = x

  store_answer-Genuine :
      (user now stored : ℕ) (k : Keys Key) (a : Err ⊎ Key)
      → IsGenuine k
      → get_user_master_key now user ≡ a
      → IsGenuine (store_answer landing user stored k a).1
        × IsAnswer user (store_answer landing user stored k a).0
  store_answer-Genuine user now stored k (inl e) g eq = (g, tt)
  store_answer-Genuine user now stored k (inr key) g eq =
      (insert-IsGenuine user now stored key k g eq, (now, eq))

  ask-Genuine :
      (user now stored : ℕ) (k : Keys Key) (c : Bool)
      → IsGenuine k
      → IsGenuine (ask landing user now stored k c).1
        × IsAnswer user (ask landing user now stored k c).0
  ask-Genuine user now stored k false g = (g, tt)
  ask-Genuine user now stored k true g = store_answer-Genuine user now stored k _ g refl

  fresh-Genuine :
      (user now stored : ℕ) (k : Keys Key) (o : Option (Key × ℕ))
      → IsGenuine k
      → lookup user k.master_keys ≡ o
      → IsGenuine (cached_or_ask landing user now stored k (fresh landing now o)).1
        × IsAnswer user (cached_or_ask landing user now stored k (fresh landing now o)).0
  fresh-Genuine user now stored k none g e = ask-Genuine user now stored k connected g
  fresh-Genuine user now stored k (some (key, exp)) g e = elim (Bool-cases (ltb now exp)) [
    | inl l ↦ rw l (g, g user key exp e)
    | inr l ↦ rw l (ask-Genuine user now stored k connected g)
  ]

  get_master_key-Genuine :
      (user now stored : ℕ) (k : Keys Key)
      → IsGenuine k
      → IsGenuine (get_master_key landing user now stored k).1
        × IsAnswer user (get_master_key landing user now stored k).0
  unfolding get_master_key
  get_master_key-Genuine user now stored k g =
      fresh-Genuine user now stored k (lookup user k.master_keys) g refl

  invalidate-Genuine :
      (user : ℕ) (k : Keys Key) → IsGenuine k → IsGenuine (invalidate_master_key landing user k)
  unfolding invalidate_master_key
  invalidate-Genuine user k g u key exp l = elim (Bool-cases (user == u)) [
    | inl e ↦ absurd (none≢some (sym (lookup-delete user u k.master_keys ∙ rw e refl) ∙ l))
    | inr e ↦ g u key exp (sym (lookup-delete user u k.master_keys ∙ rw e refl) ∙ l)
  ]

  decrypted-Genuine :
      (user : ℕ) (k : Keys Key) (a : Err ⊎ Text)
      → IsGenuine k
      → IsGenuine (decrypted landing user k a).1
  decrypted-Genuine user k (inl e) g = invalidate-Genuine user k g
  decrypted-Genuine user k (inr text) g = g

  decrypt_with-Genuine :
      (user : ℕ) (raw : Text) (r : KeyError Err ⊎ Key) (k : Keys Key)
      → IsGenuine k
      → IsGenuine (decrypt_with landing user raw (r, k)).1
  decrypt_with-Genuine user raw (inl e) k g = g
  decrypt_with-Genuine user raw (inr key) k g = decrypted-Genuine user k _ g

  decrypt_when-Genuine :
      (user : ℕ) (raw : Text) (now stored : ℕ) (k : Keys Key) (c : Bool)
      → IsGenuine k
      → IsGenuine (decrypt_when landing user raw now stored k c).1
  decrypt_when-Genuine user raw now stored k false g = g
  decrypt_when-Genuine user raw now stored k true g =
      decrypt_with-Genuine user raw _ _ (get_master_key-Genuine user now stored k g).0

  step-Genuine : (op : Op Text) (k : Keys Key) → IsGenuine k → IsGenuine (step op k)
  unfolding step decrypt_session_data
  step-Genuine (gets user now stored) k g = (get_master_key-Genuine user now stored k g).0
  step-Genuine (decrypts user raw now stored) k g =
      decrypt_when-Genuine user raw now stored k connected g

  run-Genuine : (ops : List (Op Text)) (k : Keys Key) → IsGenuine k → IsGenuine (run ops k)
  unfolding run
  run-Genuine [] k g = g
  run-Genuine (op ∷ ops) k g = run-Genuine ops (step op k) (step-Genuine op k g)

  -- After any sequence of requests and decryptions for any users, starting from an empty cache, the
  -- answer to a request is an error or a key that the landing page gave for that same user.
  pub get_master_key_lem :
      (ops : List (Op Text)) (user now stored : ℕ) (sent : List (String × ℕ))
      → IsAnswer user
          (get_master_key landing user now stored
            (run ops (record { master_keys = []; notified = sent }))).0
  unfolding lookup
  get_master_key_lem ops user now stored sent =
      (get_master_key-Genuine user now stored
        (run ops (record { master_keys = []; notified = sent }))
        (run-Genuine ops (record { master_keys = []; notified = sent })
          (λ u key exp l. absurd (none≢some l)))).1
