-- ===== src/Dialogs/Listener.antt =====
-- `runResponseListener`: the goroutine that reads the assistant's answers.
use air_whatsbot.Common.{
  ℕ, ◌≡◌, refl, ap, String, Bool, true, false, Option, List, [], ◌∷◌, ◌++◌, string_eq, ◌==◌, ◌&&◌,
  if◌then◌else◌, Bool-cases, inl, inr,
}

-- model.Message, as the listener reads it
pub record Answer : Type 0 where
  pub kind : String
  pub operator : Bool
  pub set_operator : Bool
  pub content : String
  pub file_names : List String  -- of Action.SendFiles
  pub meta : Option String

pub data Heard : Type 0 where
  operator_mode : ℕ → Heard  -- onOperator(usrCh.DialogID, true)
  assist_answer : Answer → Heard  -- onAssist(msg), whose error is only logged
  channel_closed : Heard  -- onMetric(0)

-- What one message of the channel calls; all callbacks are given
unfoldable pub hear : ℕ → Answer → List Heard
hear dialog answer =
    (if answer.operator && answer.set_operator then operator_mode dialog ∷ [] else [])
    ++ (if answer.kind == "assist" then assist_answer answer ∷ [] else [])

-- The loop over the answers that come before the channel is closed
unfoldable pub run_response_listener : ℕ → List Answer → List Heard
run_response_listener dialog [] = channel_closed ∷ []
run_response_listener dialog (answer ∷ answers) =
    hear dialog answer ++ run_response_listener dialog answers

-- The answers that were passed on.
unfoldable pub passed_on : List Heard → List Answer
passed_on [] = []
passed_on (operator_mode d ∷ hs) = passed_on hs
passed_on (assist_answer a ∷ hs) = a ∷ passed_on hs
passed_on (channel_closed ∷ hs) = passed_on hs

-- The answers of the assistant.
unfoldable pub assist_answers : List Answer → List Answer
assist_answers [] = []
assist_answers (a ∷ answers) =
    let rest = assist_answers answers in if a.kind == "assist" then a ∷ rest else rest

passed_on-append : (xs ys : List Heard) → passed_on (xs ++ ys) ≡ passed_on xs ++ passed_on ys
unfolding passed_on
passed_on-append [] ys = refl
passed_on-append (operator_mode d ∷ xs) ys = passed_on-append xs ys
passed_on-append (assist_answer a ∷ xs) ys = ap (λ r. a ∷ r) (passed_on-append xs ys)
passed_on-append (channel_closed ∷ xs) ys = passed_on-append xs ys

passed_on-hear :
    (dialog : ℕ) (a : Answer)
    → passed_on (hear dialog a) ≡ (if a.kind == "assist" then a ∷ [] else [])
unfolding passed_on hear
passed_on-hear dialog a = elim (Bool-cases (a.operator && a.set_operator)) [
  | inl e ↦ rw e (only (a.kind == "assist"))
  | inr e ↦ rw e (only (a.kind == "assist"))
]
  where
    only :
        (b : Bool) → passed_on (if b then assist_answer a ∷ [] else []) ≡ (if b then a ∷ [] else [])
    only true = refl
    only false = refl

-- Exactly the assistant's answers are passed on, in their order, whatever operator commands come with
-- them and between them.
pub run_response_listener_lem :
    (dialog : ℕ) (answers : List Answer)
    → passed_on (run_response_listener dialog answers) ≡ assist_answers answers
unfolding run_response_listener assist_answers
run_response_listener_lem dialog [] = unfold passed_on in refl
run_response_listener_lem dialog (a ∷ answers) =
    let rest = run_response_listener_lem dialog answers in
    rw
      (
        passed_on-append (hear dialog a) (run_response_listener dialog answers),
        passed_on-hear dialog a,
        rest,
      )
      (elim (Bool-cases (a.kind == "assist")) [ inl e ↦ rw e refl | inr e ↦ rw e refl ])
