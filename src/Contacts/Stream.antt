-- ===== src/Contacts/Stream.antt =====
-- `Stream`: the two goroutines and what follows them. What the goroutines write to `dataChan` may
-- interleave in any way; it is kept apart here.
use air_whatsbot.Common.{
  ℕ, String, Bool, true, false, Option, none, some, List, [], ◌∷◌, ◌⊎◌, ◌||◌, not, if◌then◌else◌,
  length,
}
use air_whatsbot.Messages.Rules.{contains}
use air_whatsbot.Contacts.People.{Contact, ContactInfo, get_contacts}
use air_whatsbot.Contacts.Groups.{Group, GroupInfo, get_groups}
use air_whatsbot.Contacts.People
use air_whatsbot.Contacts.Groups

-- What follows the goroutines
pub data Message : Type 0 where
  error_result : Message
  final_result : List ContactInfo → List GroupInfo → Message
  completed : ℕ → ℕ → Message

pub data StreamError : Type 0 where
  no_client : StreamError
  not_authorised : StreamError
  contacts_failed : String → StreamError
  groups_failed : String → StreamError
  critical : StreamError

-- Is an error one of the connection?
unfoldable pub is_critical : String → Bool
is_critical e =
    contains e "websocket not connected"
    || (contains e "клиент не инициализирован" || contains e "бот не найден")

abbrev pub Finish : Type 0
Finish = List Message × Option StreamError

-- The final result, unless there are critical errors
abbrev pub result : Bool → List ContactInfo → List GroupInfo → Finish
result true humans groups = (error_result ∷ [], some critical)
result false humans groups =
    (final_result humans groups ∷ completed (length humans) (length groups) ∷ [], none)

-- The check of the error of the groups, without groups
abbrev pub check_groups : Bool → List ContactInfo → List GroupInfo → Option String → Finish
check_groups serious humans groups none = result serious humans groups
check_groups serious humans (g ∷ gs) (some e) = result serious humans (g ∷ gs)
check_groups serious (h ∷ hs) [] (some e) = result (serious || is_critical e) (h ∷ hs) []
check_groups serious [] [] (some e) =
    if serious || is_critical e then result true [] [] else ([], some (groups_failed e))

-- The check of the error of the contacts, without contacts, and then that of the groups
unfoldable pub finish : List ContactInfo → Option String → List GroupInfo → Option String → Finish
finish humans none groups groups_err = check_groups false humans groups groups_err
finish (h ∷ hs) (some e) groups groups_err = check_groups false (h ∷ hs) groups groups_err
finish [] (some e) (g ∷ gs) groups_err = check_groups false [] (g ∷ gs) groups_err
finish [] (some e) [] groups_err =
    if is_critical e then check_groups true [] [] groups_err else ([], some (contacts_failed e))

-- What `Stream` writes: whether the start, the two goroutines, and the end
pub record Streamed : Type 0 where
  pub started : Bool
  pub contacts_progress : List People.Progress
  pub groups_progress : List Groups.Progress
  pub ending : List Message

abbrev pub nothing_sent : Streamed
nothing_sent = record { started = false; contacts_progress = []; groups_progress = []; ending = [] }

module _ (default_user_server : String) where
  -- The two goroutines and the end, by whether the client has a store
  abbrev pub gather :
      Bool
      → String ⊎ List Contact
      → List Contact
      → String ⊎ List Group
      → Streamed × Option StreamError
  gather store answer known groups_answer =
      let people = get_contacts default_user_server store answer in
      let groups = get_groups store known groups_answer in
      let end = finish people.1 people.2 groups.1 groups.2 in
      (
        record {
          started = true;
          contacts_progress = people.0;
          groups_progress = groups.0;
          ending = end.0;
        },
        end.1,
      )

  -- Stream(ctx, client, userID, dataChan), by whether there is a client, whether it is logged in and
  -- has a store, and by what it answers
  unfoldable pub stream :
      Bool
      → Bool
      → Bool
      → String ⊎ List Contact
      → List Contact
      → String ⊎ List Group
      → Streamed × Option StreamError
  stream client logged_in store answer known groups_answer =
      if not client
      then (nothing_sent, some no_client)
      else if not logged_in
      then (nothing_sent, some not_authorised)
      else gather store answer known groups_answer
