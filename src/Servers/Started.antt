-- ===== src/Servers/Started.antt =====
-- What the start of a call through the RPC server does.
use air_whatsbot.Common.{ℕ, ◌≡◌, String, true, false, Option, none, some, [], ◌∷◌, ◌⊎◌, nat_eq}
use air_whatsbot.Common.Map.{lookup, keys}
use air_whatsbot.Bots.Lifecycle.{Users}
use air_whatsbot.Calls.Manager.State.{Manager, Host, Jid}
use air_whatsbot.Calls.Manager.Realtime.{Core}
use air_whatsbot.Calls.Manager.Outgoing.{Placed, outgoing_guard}
use air_whatsbot.Facade.Routing.{Routed, Managers}
use air_whatsbot.Facade.Routed.{RoutedLeaves, GuardLeaves}
use air_whatsbot.Servers.Rpc.{
  trim_space, StartRequest, StartAnswer, bad_request, starting, is_unusable, start_answer,
}

-- The ID of a call that is said to start.
abbrev id_of : {Err : Type 0} → String → StartAnswer Err → String
id_of other (starting id name) = id
id_of other answer = other

module _ {Err File : Type 0} where
  -- A call that is said to start is the only one of the user's bot.
  abbrev pub IsAlone : Option ℕ → StartAnswer Err × Managers Err File → Type 0
  IsAlone bot (a, managers') =
      (id name : String)
      → a ≡ starting id name
      → (p : ℕ) × (m : Manager Err File) × (bot ≡ some p)
        × (managers' p ≡ some m)
        × (keys m.active ≡ id ∷ [])

module _ {Err Ch File : Type 0} (host : Host Err File) (core : Core Err Ch) (users : Users)
    (managers : Managers Err File) (provider : ℕ → String) (answer : Err ⊎ (String × Jid)) where
  -- Nothing is done
  abbrev pub IsRefused : StartAnswer Err × Managers Err File → Type 0
  IsRefused (a, managers') = (a ≡ bad_request) × (managers' ≡ managers)

  -- The user's bot is asked, the answer is its answer, and a call that starts is its only one
  abbrev pub IsAsked : StartRequest → StartAnswer Err × Managers Err File → Type 0
  IsAsked r (a, managers') =
      IsAlone (lookup r.user_id users.u_bot) (a, managers')
      × (routed : Routed (Placed Err)) × (a ≡ start_answer (provider r.user_id) routed)
      × RoutedLeaves (GuardLeaves (outgoing_guard host core (trim_space r.target) none))
          (lookup r.user_id users.u_bot) managers (routed, managers')

  abbrev pub StartLeaves : Option StartRequest → StartAnswer Err × Managers Err File → Type 0
  StartLeaves none out = IsRefused out
  StartLeaves (some r) out =
      (is_unusable r ≡ true → IsRefused out) × (is_unusable r ≡ false → IsAsked r out)
