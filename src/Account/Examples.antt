-- ===== src/Account/Examples.antt =====
-- The theorems of the account on concrete users.
use air_whatsbot.Common.{ℕ, ◌≡◌, refl, String, true, Option, none, some, [], ◌∷◌, inl, inr}
use air_whatsbot.Common.Map.{lookup}
use air_whatsbot.Account.MasterKey.{
  Keys, Landing, decrypt_failed, get_master_key, decrypt_session_data,
}
use air_whatsbot.Account.MasterKey.Genuine.{gets, decrypts, run, IsAnswer, get_master_key_lem}
use air_whatsbot.Account.Subscription.{Check, expired}

-- Each user's key is its number and the time of the call; a text decrypts with an even key.
abbrev landing : Landing ℕ String String
landing = record {
  connected = true;
  get_user_master_key = λ now user. inr user;
  decrypt_field = λ key raw. inl "bad key";
  zero_key = 0;
}

abbrev empty : Keys ℕ
empty = record { master_keys = []; notified = [] }

get_master_key_lem_example :
    IsAnswer landing 7
      (get_master_key landing 7 3 4 (run landing (gets 7 1 2 ∷ decrypts 8 "raw" 2 3 ∷ []) empty)).0
get_master_key_lem_example =
    get_master_key_lem landing (gets 7 1 2 ∷ decrypts 8 "raw" 2 3 ∷ []) 7 3 4 []

failing : (decrypt_session_data landing 7 "raw" 1 2 empty).0 ≡ inl (decrypt_failed "bad key")
unfolding decrypt_session_data get_master_key lookup
failing = refl

abbrev broken : Option (Option String)
broken = some (some "no transport")

abbrev works : Option (Option String)
works = some none

abbrev sure : Option String
sure = none

abbrev lapsed : Check String
lapsed = expired 3
