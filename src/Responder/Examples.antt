-- ===== src/Responder/Examples.antt =====
-- Tests of the responders, and their theorems on concrete messages.
use air_whatsbot.Common.{
  ◌≡◌, refl, arith, true, false, List, [], ◌∷◌, map, inr, nat_eq, String, none,
}
use air_whatsbot.Common.Map.{lookup, insert}
use air_whatsbot.Common.Int.{pos, negsuc}
use air_whatsbot.Calls.Manager.State.{Jid}
use air_whatsbot.Responder.{exists_mark, exists_error, load, store, send_first_contact_message}
use air_whatsbot.Responder.FirstContact.{Arrival, contacts, announced}
use air_whatsbot.Responder.Cache.{
  known_responder_key, known_responder_user_prefix, parse_known_responder_key, strip_prefix,
  load_user, load_user-keys,
}
use air_whatsbot.Common.Decimal.{codes, format_uint, format_int, format_rounds}

abbrev arrivals : List Arrival
arrivals =
    (7, "Ann", exists_mark false) ∷ (9, "Bob", exists_error) ∷ (7, "Ann", exists_mark false) ∷ []

-- Both senders are announced once.
announces_both :
    (announced 7 (contacts true arrivals []).0 ≡ 1)
    × (announced 9 (contacts true arrivals []).0 ≡ 1)
unfolding announced contacts send_first_contact_message load store lookup insert
announces_both = (refl, refl)

abbrev ann : Jid
ann = record { user = "79001112233"; server = "s.whatsapp.net" }

load_user-keys_example :
    load_user {Err = String} 7 (map (known_responder_key 7) (pos 79001112233 ∷ negsuc 4 ∷ [])) none
    ≡ inr (pos 79001112233 ∷ negsuc 4 ∷ [])
load_user-keys_example =
    load_user-keys {Err = String} 7 (pos 79001112233 ∷ negsuc 4 ∷ [])
      (omega arith, (omega arith, tt))

-- A key as it stands in Redis.
key_text : known_responder_key 7 (pos 12) ≡ codes "known_responder:3:7:12"
unfolding known_responder_key format_uint format_int format_rounds
key_text = refl

-- A key of another user is no key of this one.
other_user : parse_known_responder_key 7 (codes "known_responder:3:77:12") ≡ none
unfolding parse_known_responder_key strip_prefix known_responder_user_prefix format_uint
    format_rounds
other_user = refl
