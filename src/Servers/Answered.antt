-- ===== src/Servers/Answered.antt =====
-- What the HTTP answers say of the bots.
use air_whatsbot.Common.{
  ℕ, ◌<◌, ◌^◌, ◌≡◌, refl, Bool, true, false, Option, none, some, List, [], ◌∷◌, ◌⊎◌, inl, inr,
  arith, nat_beq, nat_eq, Bool-cases, none≢some,
}
use air_whatsbot.Common.Decimal.{digits_value, in_range, parse_uint}
use air_whatsbot.Bots.Lifecycle.{Users, UserData, Answers, BotError, bot_state, start_user_bot}
use air_whatsbot.Bots.Stopping.{StartLeaves, start_user_bot_lem}
use air_whatsbot.Servers.Http.{
  UidError, positive_uid, read_uid, Method, options, get, other_method, Request, Body, bot_started,
  failed_to_start, Response, guarded, with_uid, answered, start_response, start_bot_http,
}

-- A user ID that was read.
abbrev pub IsUid : UidError ⊎ ℕ → Type 0
IsUid (inl e) = Unit
IsUid (inr uid) = (0 < uid) × (uid < 2 ^ 32)

range-lt : (bits : ℕ) (o : Option ℕ) (n : ℕ) → in_range bits o ≡ some n → n < 2 ^ bits
range-lt bits none n h = absurd (none≢some h)
range-lt bits (some m) n h = ground arith

positive-IsUid : (o : Option ℕ) → ((n : ℕ) → o ≡ some n → n < 2 ^ 32) → IsUid (positive_uid o)
positive-IsUid none h = tt
positive-IsUid (some n) h = elim (Bool-cases (nat_beq n 0)) [
  | inl y ↦ rw y tt
  | inr x ↦ rw x (ground arith, h n refl)
]

-- Whatever the query parameter, a user ID that is read is an uint32 that is not 0.
pub read_uid-IsUid : (uid : List ℕ) → IsUid (read_uid uid)
unfolding read_uid parse_uint
read_uid-IsUid [] = tt
read_uid-IsUid (c ∷ cs) =
    positive-IsUid (in_range 32 (digits_value 0 (c ∷ cs))) (range-lt 32 (digits_value 0 (c ∷ cs)))

abbrev pub is_started : Body → Bool
is_started bot_started = true
is_started other = false

-- An answer that the bot was started is true, and any other changed nothing.
abbrev pub IsTrue : List ℕ → Users → Response × Users → Type 0
IsTrue uid users (response, users') =
    (is_started response.1 ≡ true
      → (id : ℕ) × (read_uid uid ≡ inr id)
        × (0 < id)
        × (id < 2 ^ 32)
        × (bot_state id users' ≡ (true, false)))
    × (is_started response.1 ≡ false → users' ≡ users)

module _ {Err : Type 0} (answers : Answers Err)
    (own : (user : ℕ) (d : UserData) → answers.get_wa_user user ≡ inr d → d.user_id ≡ user) where
  answered-IsTrue :
      (uid : List ℕ) (id : ℕ) (users : Users) (start : Option (BotError Err) × Users)
      → read_uid uid ≡ inr id
      → (0 < id) × (id < 2 ^ 32)
      → StartLeaves answers id users start
      → IsTrue uid users (answered answers (200, bot_started) (500, failed_to_start) start)
  answered-IsTrue uid id users (none, users') r b l = (λ h. (id, r, b.0, b.1, l.1), λ h. cc)
  answered-IsTrue uid id users (some e, users') r b l = (λ h. cc, λ h. l)

  uid-IsTrue :
      (uid : List ℕ) (users : Users) (read : UidError ⊎ ℕ)
      → read_uid uid ≡ read
      → IsUid read
      → IsTrue uid users (with_uid (start_response answers) users read)
  uid-IsTrue uid users (inl e) r b = (λ h. cc, λ h. refl)
  uid-IsTrue uid users (inr id) r b =
      answered-IsTrue uid id users (start_user_bot answers id users) r b
        (start_user_bot_lem answers id users (own id))

  method-IsTrue :
      (method : Method) (uid : List ℕ) (users : Users)
      → IsTrue uid users (guarded (start_response answers) users method uid)
  method-IsTrue options uid users = (λ h. cc, λ h. refl)
  method-IsTrue other_method uid users = (λ h. cc, λ h. refl)
  method-IsTrue get uid users = uid-IsTrue uid users (read_uid uid) refl (read_uid-IsUid uid)

  -- If the database answers with the data of the user it is asked for: when StartBotHTTP answers that the
  -- bot was started, the query parameter was read as a user ID that is an uint32 and not 0, and that user
  -- has a bot that is not stopped; with any other answer every bot is as before.
  pub start_bot_http_lem :
      (r : Request) (users : Users) → IsTrue r.uid users (start_bot_http answers r users)
  unfolding start_bot_http
  start_bot_http_lem r users = method-IsTrue r.method r.uid users
