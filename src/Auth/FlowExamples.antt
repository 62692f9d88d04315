-- ===== src/Auth/FlowExamples.antt =====
-- Tests of an authorisation by QR code, and its theorem on a concrete one.
use air_whatsbot.Common.{◌≡◌, refl, String, true, false, none, [], ◌∷◌, inr, nat_eq}
use air_whatsbot.Common.Map.{lookup, delete}
use air_whatsbot.Bots.Lifecycle.{start_user_bot}
use air_whatsbot.Bots.Examples.{one_bot, answers, answers_own}
use air_whatsbot.Auth.Flow.{
  code, success, shows_code, scanned, succeeded, sends, saves, enables, disconnects, prepares,
  FlowAnswers, connected, logged_in, ensure_auth_bot, finished, read_events, authenticate_with_qr,
}
use air_whatsbot.Auth.Settled.{IsSettled, authenticate_with_qr_lem}

abbrev flow : FlowAnswers String
flow = record {
  new_store = none;
  wa_user = none;
  decrypt = λ text. inr text;
  token_settings = λ text. none;
  has_client = true;
  has_id = true;
  qr_channel = none;
  connect = connected;
  events = code "2@abc" ∷ success ∷ [];
  verdict = logged_in;
  takes_timeout = false;
  still_logged_in = true;
  bots = answers;
}

authenticate_with_qr_lem_example : IsSettled 7 none (authenticate_with_qr flow 7 one_bot)
authenticate_with_qr_lem_example = authenticate_with_qr_lem flow 7 (answers_own 7) one_bot

-- A repeated authorisation of a user who has a bot.
authorises : (authenticate_with_qr flow 7 one_bot).0 ≡ (
  prepares 0
      ∷ sends (shows_code "2@abc")
      ∷ sends scanned
      ∷ sends succeeded
      ∷ saves 7
      ∷ enables 0
      ∷ disconnects
      ∷ [],
  none,
)
unfolding authenticate_with_qr ensure_auth_bot lookup read_events finished start_user_bot delete
authorises = refl
