-- ===== src/App/Examples.antt =====
-- The theorems of the cache on a concrete client.
use air_whatsbot.Common.{ℕ, ◌≤◌, ◌≡◌, refl, String, none, ◌⊎◌, inr, nat_eq}
use air_whatsbot.Common.Map.{lookup}
use air_whatsbot.App.Keys.{
  answers, Cache, new_cached_master_key_client, begin, fetch, store, begins, fetches, stores, Reach,
  here, next,
}
use air_whatsbot.App.Since.{answers_since}

-- Each key is the time of the call and the user.
abbrev client : ℕ → ℕ → String ⊎ (ℕ × ℕ)
client at user = inr (at, user)

abbrev new : Cache (ℕ × ℕ) String
new = new_cached_master_key_client 5

-- The goroutine 0 asks for the key of the user 7.
abbrev asked : Cache (ℕ × ℕ) String
asked = begin 0 7 new

abbrev got : Cache (ℕ × ℕ) String
got = fetch client 0 7 asked

abbrev kept : Cache (ℕ × ℕ) String
kept = store 0 7 (5, 7) got

kept-Reach : Reach client new kept
unfolding begin fetch lookup
kept-Reach =
    next (next (next here (begins new 0 7 refl)) (fetches asked 0 7 refl))
      (stores got 0 7 (5, 7) refl)

kept_answer : kept.tasks 0 ≡ answers 7 (inr (5, 7))
unfolding store
kept_answer = refl

new_none : lookup 7 new.items ≡ none
unfolding lookup
new_none = refl

answers_since_example : (at : ℕ) × (5 ≤ at) × (client at 7 ≡ inr (5, 7))
answers_since_example = answers_since client 7 new_none (λ g. refl) kept-Reach 0 (5, 7) kept_answer
