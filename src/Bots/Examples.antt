-- ===== src/Bots/Examples.antt =====
-- Tests of the bots, and their theorems on concrete users.
use air_whatsbot.Common.{ℕ, ◌≡◌, refl, arith, String, true, false, none, some, [], ◌∷◌, inr, nat_eq}
use air_whatsbot.Common.Map.{lookup}
use air_whatsbot.Common.Int.{pos, negsuc}
use air_whatsbot.Common.Decimal.{parse_uint, parse_int}
use air_whatsbot.Bots.Allowed.{fields, parse_uids, uids_of, is_call_allowed, is_call_allowed-open}
use air_whatsbot.Bots.Lifecycle.{
  Bot, Users, UserData, Answers, already_running, stop_user_bot, reset_session, start_user_bot,
  restart_user_bot,
}
use air_whatsbot.Bots.Stopping.{reset_session-stays}
use air_whatsbot.Bots.Restarting.{RestartLeaves, restart_user_bot_lem}

-- The list is parsed word by word, with what does not parse left out.
parses_uids : uids_of " 79001112233\t-5 x " ≡ pos 79001112233 ∷ negsuc 4 ∷ []
unfolding uids_of parse_uids fields parse_int parse_uint
parses_uids = refl

-- A list with a user in it refuses another.
refuses_other : is_call_allowed (pos 5 ∷ []) "7" ≡ false
unfolding is_call_allowed parse_int parse_uint
refuses_other = refl

is_call_allowed-open_example : is_call_allowed (uids_of "ann bob") "7" ≡ true
unfolding fields parse_int parse_uint
is_call_allowed-open_example = is_call_allowed-open "ann bob" "7" (refl, (refl, tt))

abbrev bot : Bot
bot = record {
  user_id = 7;
  stopped = false;
  cancelled = false;
  connected = true;
  voice_call = true;
  text_message = true;
  uids = [];
}

abbrev pub one_bot : Users
one_bot = record { bots = λ p. bot; next_bot = 1; u_bot = (7, 0) ∷ []; calls_stopped = [] }

abbrev pub answers : Answers String
answers = record {
  get_wa_user = λ user. inr (record { user_id = user; session_data = "{}"; enabled = true });
  check_user_subscription = λ user. none;
  is_encrypted = λ text. false;
  decrypt_session_data = λ user text. inr text;
  parse_container = λ user text. inr (record { call = true; text = true; uids = "" });
}

pub answers_own : (user : ℕ) (d : UserData) → answers.get_wa_user user ≡ inr d → d.user_id ≡ user
answers_own user d h = ground arith

reset_session-stays_example :
    (stop_user_bot {Err = String} 7 (reset_session 0 one_bot) ≡ (none, reset_session 0 one_bot))
    × (start_user_bot answers 7 (reset_session 0 one_bot)
        ≡ (some already_running, reset_session 0 one_bot))
unfolding lookup
reset_session-stays_example = reset_session-stays answers 7 0 one_bot refl

restart_user_bot_lem_example : RestartLeaves answers 7 0 (restart_user_bot answers 7 one_bot)
unfolding lookup
restart_user_bot_lem_example =
    restart_user_bot_lem answers 7 0 one_bot (answers_own 7) (omega arith) refl
