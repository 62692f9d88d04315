-- ===== src/Servers/Examples.antt =====
-- Tests of the servers, and their theorems on concrete requests.
use air_whatsbot.Common.{
  ◌≡◌, refl, String, Option, none, some, inl, inr, nat_beq, if◌then◌else◌, nat_eq,
}
use air_whatsbot.Common.Decimal.{codes, parse_uint, digits_value}
use air_whatsbot.Bots.Examples.{one_bot, answers, answers_own}
use air_whatsbot.Calls.Manager.State.{Manager}
use air_whatsbot.Calls.Manager.Examples.{one_call}
use air_whatsbot.Facade.Routing.{Managers}
use air_whatsbot.Servers.Http.{invalid_uid, read_uid, get, Request, start_bot_http}
use air_whatsbot.Servers.Answered.{IsTrue, start_bot_http_lem}
use air_whatsbot.Servers.Rpc.{StartRequest, CallRequest, trim_left, trim_right, trim_space}

abbrev request : Request
request = record { method = get; uid = codes "8" }

start_bot_http_lem_example : IsTrue (codes "8") one_bot (start_bot_http answers request one_bot)
start_bot_http_lem_example = start_bot_http_lem answers answers_own request one_bot

-- The largest user ID is read, and the next number is not.
reads_uid :
    (read_uid (codes "4294967295") ≡ inr 4294967295)
    × (read_uid (codes "4294967296") ≡ inl invalid_uid)
unfolding read_uid parse_uint digits_value
reads_uid = (refl, refl)

abbrev managers : Managers String String
managers p = if nat_beq p 0 then some one_call else none

abbrev manager_or : Manager String String → Option (Manager String String) → Manager String String
manager_or m none = m
manager_or m (some n) = n

abbrev call_request : CallRequest
call_request = record { user_id = 7; call_id = " A " }

trims : trim_space " A " ≡ "A"
unfolding trim_left trim_right
trims = refl

abbrev start_request : StartRequest
start_request = record { user_id = 7; target = " 79001112234" }
