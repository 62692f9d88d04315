-- ===== src/Account/Reauth.antt =====
-- `runReauth` of internal/whatsapp/reauth.go. A step is what its call answers, `none` where the
-- interface or the function is nil; an error is wrapped with the name of its step.
use air_whatsbot.Common.{
  ℕ, ◌≡◌, refl, Option, none, some, List, [], ◌∷◌, ◌++◌, nat_beq, ne→nat_beq, ap, sym, append-nil,
  if◌then◌else◌, ◌≢◌,
}

pub data ReauthStep : Type 0 where
  notify_step disable_step reset_step : ReauthStep

pub data ReauthError (Err : Type 0) : Type 0 where
  bad_user : ReauthError Err
  step_failed : ReauthStep → Err → ReauthError Err

module _ {Err : Type 0} where
  -- `record(err)`: the first error stays
  abbrev pub record_error :
      Option (ReauthError Err) → Option (ReauthError Err) → Option (ReauthError Err)
  record_error (some first) err = some first
  record_error none err = err

  -- Whether the step ran, and the error so far
  abbrev pub run_step :
      ReauthStep
      → Option (Option Err)
      → List ReauthStep × Option (ReauthError Err)
      → List ReauthStep × Option (ReauthError Err)
  run_step name none (ran, first) = (ran, first)
  run_step name (some none) (ran, first) = (ran ++ name ∷ [], first)
  run_step name (some (some e)) (ran, first) =
      (ran ++ name ∷ [], record_error first (some (step_failed name e)))

  -- runReauth(userID, notifier, disabler, reset): the steps that ran, and the error
  unfoldable pub run_reauth :
      ℕ
      → Option (Option Err)
      → Option (Option Err)
      → Option (Option Err)
      → List ReauthStep × Option (ReauthError Err)
  run_reauth user notifier disabler reset =
      if nat_beq user 0
      then ([], some bad_user)
      else run_step reset_step reset
          (run_step disable_step disabler (run_step notify_step notifier ([], none)))

  -- The steps that are given, in the order of the code.
  abbrev pub given : ReauthStep → Option (Option Err) → List ReauthStep
  given name none = []
  given name (some e) = name ∷ []

  -- The error of one step.
  abbrev pub failed : ReauthStep → Option (Option Err) → Option (ReauthError Err)
  failed name none = none
  failed name (some none) = none
  failed name (some (some e)) = some (step_failed name e)

  run_step-eq :
      (name : ReauthStep) (o : Option (Option Err)) (ran : List ReauthStep)
      (first : Option (ReauthError Err))
      → run_step name o (ran, first) ≡ (ran ++ given name o, record_error first (failed name o))
  run_step-eq name none ran none = ap (λ r. (r, none)) (sym (append-nil ran))
  run_step-eq name none ran (some e) = ap (λ r. (r, some e)) (sym (append-nil ran))
  run_step-eq name (some none) ran none = refl
  run_step-eq name (some none) ran (some e) = refl
  run_step-eq name (some (some e)) ran first = refl

  -- For a user that is not 0, every step that is given runs, whatever the steps before it answer, in
  -- the order notification, channel, session; the error is that of the first step that failed, if one
  -- did.
  run_reauth_lem :
      (user : ℕ) (notifier disabler reset : Option (Option Err))
      → user ≢ 0
      → run_reauth user notifier disabler reset ≡ (
        (given notify_step notifier ++ given disable_step disabler) ++ given reset_step reset,
        record_error
            (record_error (failed notify_step notifier) (failed disable_step disabler))
            (failed reset_step reset),
      )
  unfolding run_reauth
  run_reauth_lem user notifier disabler reset ne = rw (ne→nat_beq user 0 ne) (
      rw (
        run_step-eq notify_step notifier [] none,
        run_step-eq disable_step disabler (given notify_step notifier)
            (failed notify_step notifier),
        run_step-eq reset_step reset (given notify_step notifier ++ given disable_step disabler)
            (record_error (failed notify_step notifier) (failed disable_step disabler)),
      ))
