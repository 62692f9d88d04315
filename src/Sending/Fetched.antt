-- ===== src/Sending/Fetched.antt =====
-- How a file is fetched: at most three attempts, and the first that works counts.
use air_whatsbot.Common.{ℕ, ◌≡◌, refl, ap, List, [], ◌∷◌, ◌⊎◌, inl, inr}
use air_whatsbot.Sending.Files.{
  Attempt, FetchError, attempted, next_round, rounds, upload_file_with_retry,
}

module _ {Err : Type 0} where
  -- The first of three results that is no error, or else the third, after the pauses before it.
  abbrev pub first_of :
      FetchError Err ⊎ List ℕ
      → FetchError Err ⊎ List ℕ
      → FetchError Err ⊎ List ℕ
      → List ℕ × (FetchError Err ⊎ List ℕ)
  first_of (inr bytes) second third = ([], inr bytes)
  first_of (inl e) (inr bytes) third = (1 ∷ [], inr bytes)
  first_of (inl e) (inl e') third = (1 ∷ 2 ∷ [], third)

  last_round :
      (r : FetchError Err ⊎ List ℕ) (rest : List ℕ × (FetchError Err ⊎ List ℕ))
      → next_round 2 r rest ≡ ([], r)
  last_round (inl e) rest = refl
  last_round (inr bytes) rest = refl

  three_rounds :
      (a b c : FetchError Err ⊎ List ℕ) (rest : List ℕ × (FetchError Err ⊎ List ℕ))
      → next_round 0 a (next_round 1 b (next_round 2 c rest)) ≡ first_of a b c
  three_rounds (inr bytes) b c rest = refl
  three_rounds (inl e) (inr bytes) c rest = refl
  three_rounds (inl e) (inl e') c rest =
      ap (λ (r : List ℕ × (FetchError Err ⊎ List ℕ)). (1 ∷ 2 ∷ r.0, r.1)) (last_round c rest)

  -- `uploadFileWithRetry` gives what the first of at most three attempts that works has read, or the
  -- error of the third; it sleeps one second after the first failure and two after the second, and not
  -- at all after the last.
  pub upload_file_with_retry_lem :
      (attempts : ℕ → Attempt Err)
      → upload_file_with_retry attempts
        ≡ first_of (attempted (attempts 0)) (attempted (attempts 1)) (attempted (attempts 2))
  unfolding upload_file_with_retry rounds
  upload_file_with_retry_lem attempts =
      three_rounds (attempted (attempts 0)) (attempted (attempts 1)) (attempted (attempts 2)) _
