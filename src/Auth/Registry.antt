-- ===== src/Auth/Registry.antt =====
-- registry.go and session.go of internal/whatsapp/auth: the registry of running QR authorisations.
-- The registry's mutex makes each method a step of its own. A nil registry is not modelled.
pub mod Single
use air_whatsbot.Common.{
  ℕ, suc, ◌+◌, ◌≤◌, ◌<◌, ◌≡◌, refl, ap, sym, ◌∙◌, String, Bool, true, false, Option, none, some,
  List, [], ◌∷◌, ◌++◌, arith, nat_beq, nat_beq_iff, nat_beq_refl, string_eq, ◌==◌, if◌then◌else◌,
  ltb, leb, length, Bool-cases, inl, inr, Run, done, Returns, Returns-bind, ◌>>=◌, All,
}
use air_whatsbot.Common.Map.{Map, delete, insert, lookup}
use air_whatsbot.Common.Chan.{Chan, make_chan, try_send, has_room, push}

pub record State : Type 0 where
  pub kind : String  -- Type
  pub payload : String

pub record Session : Type 0 where
  pub state_chan : Chan State
  pub user_id : ℕ

abbrev pub Registry : Type 0
Registry = Map String Session

unfoldable pub new_registry : Registry
new_registry = []

-- `for _, existing := range r.sessions { if existing.UserId == session.UserId { … } }`
unfoldable pub has_user : ℕ → Registry → Bool
has_user user [] = false
has_user user ((id, s) ∷ r) = if nat_beq s.user_id user then true else has_user user r

-- r.Add(sessionID, session)
unfoldable pub add : String → Session → Registry → Bool × Registry
unfolding has_user
add id session r = if has_user session.user_id r then (false, r) else (true, insert id session r)

-- r.Remove(sessionID)
unfoldable pub remove : String → Registry → Registry
remove id r = delete id r

abbrev pub cancelled : State
cancelled = record { kind = "cancelled"; payload = "Сессия сброшена из-за новой авторизации" }

-- One round of the loop of `CancelUser`: the session, if it is the user's, is told and leaves the map.
abbrev pub cancel_round :
    ℕ → String × Session → List Session × Registry → Run (List Session × Registry)
cancel_round user (id, s) (told, r) =
    if nat_beq s.user_id user
    then (try_send cancelled s.state_chan >>= λ c. done (record s { state_chan = c.0 } ∷ told, r))
    else done (told, (id, s) ∷ r)

-- r.CancelUser(userID), with the sessions that left the map. A send on a closed channel panics.
unfoldable pub cancel_user : ℕ → Registry → Run (List Session × Registry)
cancel_user user [] = done ([], [])
cancel_user user (entry ∷ r) = cancel_user user r >>= λ rest. cancel_round user entry rest

-- What is done to a registry.
pub data Op : Type 0 where
  adds : String → Session → Op
  removes : String → Op
  cancels : ℕ → Op

unfoldable pub step : Op → Registry → Run Registry
step (adds id s) r = done (add id s r).1
step (removes id) r = done (remove id r)
step (cancels user) r = cancel_user user r >>= λ (told, r'). done r'

unfoldable pub run : List Op → Registry → Run Registry
run [] r = done r
run (op ∷ ops) r = step op r >>= λ r'. run ops r'

-- The sessions of a user.
unfoldable pub sessions_of : ℕ → Registry → ℕ
sessions_of user [] = 0
sessions_of user ((id, s) ∷ r) =
    if nat_beq s.user_id user then suc (sessions_of user r) else sessions_of user r
