-- ===== src/App/Keys.antt =====
-- internal/app/master_key.go: the cache of the master keys that the model and the database ask. Many
-- goroutines ask it; the mutex is released while the client is asked, so that each method is several
-- steps. Times are nanoseconds.
use air_whatsbot.Common.{
  ℕ, ◌+◌, ◌*◌, ◌≡◌, Option, none, some, [], ◌⊎◌, inl, inr, nat_eq, nat_beq, ltb, if◌then◌else◌,
}
use air_whatsbot.Common.Map.{Map, lookup, insert, delete}

-- Five minutes
abbrev pub cache_time : ℕ
cache_time = 300 * 1000000000

-- A goroutine before or in `GetUserMasterKey`: it has found no fresh key; it has the client's key and has not
-- stored it; it returns.
pub data Task (Key Err : Type 0) : Type 0 where
  idle : Task Key Err
  asks : ℕ → Task Key Err
  holds : ℕ → Key → Task Key Err
  answers : ℕ → Err ⊎ Key → Task Key Err

-- cachedMasterKeyClient, its goroutines and the time
pub record Cache (Key Err : Type 0) : Type 0 where
  pub items : Map ℕ (Key × ℕ)  -- masterKeyItem: key and expires
  pub tasks : ℕ → Task Key Err
  pub clock : ℕ

module _ {Key Err : Type 0} where
  -- newCachedMasterKeyClient(client)
  abbrev pub new_cached_master_key_client : ℕ → Cache Key Err
  new_cached_master_key_client now = record { items = []; tasks = λ g. idle; clock = now }

  abbrev pub put_task : ℕ → Task Key Err → Cache Key Err → Cache Key Err
  put_task g t c = record c { tasks = λ h. if nat_beq g h then t else c.tasks h }

  -- The first lock
  abbrev pub looked_up : ℕ → ℕ → Option (Key × ℕ) → Task Key Err
  looked_up user now none = asks user
  looked_up user now (some (key, expires)) =
      if ltb now expires then answers user (inr key) else asks user

  unfoldable pub begin : ℕ → ℕ → Cache Key Err → Cache Key Err
  begin g user c = put_task g (looked_up user c.clock (lookup user c.items)) c

  -- The answer of the client
  abbrev pub fetched : ℕ → Err ⊎ Key → Task Key Err
  fetched user (inl e) = answers user (inl e)
  fetched user (inr key) = holds user key

  unfoldable pub fetch : (ℕ → ℕ → Err ⊎ Key) → ℕ → ℕ → Cache Key Err → Cache Key Err
  fetch client g user c = put_task g (fetched user (client c.clock user)) c

  -- The second lock
  unfoldable pub store : ℕ → ℕ → Key → Cache Key Err → Cache Key Err
  store g user key c = record (put_task g (answers user (inr key)) c) {
    items = insert user (key, c.clock + cache_time) c.items;
  }

  -- c.InvalidateMasterKey(userID)
  unfoldable pub invalidate_master_key : ℕ → Cache Key Err → Cache Key Err
  invalidate_master_key user c = record c { items = delete user c.items }

-- The client, by the time of the call, is a parameter.
pub data Step {Key Err : Type 0} (client : ℕ → ℕ → Err ⊎ Key)
    : Cache Key Err → Cache Key Err → Type 0 where
  begins : (c : Cache Key Err) (g user : ℕ) → c.tasks g ≡ idle → Step client c (begin g user c)
  fetches :
      (c : Cache Key Err) (g user : ℕ)
      → c.tasks g ≡ asks user
      → Step client c (fetch client g user c)
  stores :
      (c : Cache Key Err) (g user : ℕ) (key : Key)
      → c.tasks g ≡ holds user key
      → Step client c (store g user key c)
  returns :
      (c : Cache Key Err) (g user : ℕ) (answer : Err ⊎ Key)
      → c.tasks g ≡ answers user answer
      → Step client c (put_task g idle c)
  invalidates : (c : Cache Key Err) (user : ℕ) → Step client c (invalidate_master_key user c)
  passes : (c : Cache Key Err) (time : ℕ) → Step client c (record c { clock = c.clock + time })

pub data Reach {Key Err : Type 0} (client : ℕ → ℕ → Err ⊎ Key) (c : Cache Key Err)
    : Cache Key Err → Type 0 where
  here : Reach client c c
  next : {d e : Cache Key Err} → Reach client c d → Step client d e → Reach client c e
