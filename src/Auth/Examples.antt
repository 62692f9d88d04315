-- ===== src/Auth/Examples.antt =====
-- Tests of the registry, and its theorems on concrete sessions.
use air_whatsbot.Common.{ℕ, ◌≡◌, refl, arith, false, [], ◌∷◌, Returns}
use air_whatsbot.Common.Chan.{make_chan}
use air_whatsbot.Auth.Registry.{
  Session, Registry, new_registry, add, adds, removes, cancels, run, sessions_of,
}
use air_whatsbot.Auth.Registry.Single.{IsSingle, run-IsSingle}

abbrev session : ℕ → Session
session user = record { state_chan = make_chan 8; user_id = user }

abbrev two : Registry
two = ("a", session 7) ∷ ("b", session 9) ∷ []

two-IsSingle : IsSingle two
unfolding sessions_of
two-IsSingle = record { single = λ user. ground arith; opened = (refl, (refl, tt)) }

-- A second session of the user is refused.
refuses_second : (add "c" (session 7) two).0 ≡ false
unfolding add
refuses_second = refl

run-IsSingle_example :
    Returns
      (run
        (adds "a" (session 7) ∷ cancels 7 ∷ adds "b" (session 7) ∷ removes "a" ∷ [])
        new_registry)
      IsSingle
run-IsSingle_example =
    run-IsSingle (adds "a" (session 7) ∷ cancels 7 ∷ adds "b" (session 7) ∷ removes "a" ∷ [])
      (refl, (tt, (refl, (tt, tt))))
