-- ===== src/Contacts/Ending.antt =====
-- How a stream of contacts ends.
use air_whatsbot.Common.{
  ◌≡◌, refl, ap, sym, String, Bool, true, false, Option, none, some, List, [], ◌∷◌, ◌⊎◌,
  if◌then◌else◌, length,
}
use air_whatsbot.Contacts.People.{Contact, ContactInfo, get_contacts}
use air_whatsbot.Contacts.Groups.{Group, GroupInfo, get_groups}
use air_whatsbot.Contacts.Stream.{
  Message, error_result, final_result, completed, StreamError, no_client, not_authorised,
  contacts_failed, groups_failed, critical, is_critical, Finish, result, check_groups, finish,
  stream,
}

-- What is sent at the end belongs to the error that is returned.
abbrev pub ending_of : List ContactInfo → List GroupInfo → Option StreamError → List Message
ending_of humans groups none =
    final_result humans groups ∷ completed (length humans) (length groups) ∷ []
ending_of humans groups (some critical) = error_result ∷ []
ending_of humans groups (some no_client) = []
ending_of humans groups (some not_authorised) = []
ending_of humans groups (some (contacts_failed e)) = []
ending_of humans groups (some (groups_failed e)) = []

-- The error of the groups, if it is one of the connection
abbrev pub serious_error : Option String → Option StreamError
serious_error none = none
serious_error (some e) = if is_critical e then some critical else none

-- Groups are enough; contacts are, unless the groups fail with an error of the connection; and without
-- both there is no error only if neither failed.
abbrev pub Decides :
    List ContactInfo → Option String → List GroupInfo → Option String → Option StreamError → Type 0
Decides humans e (g ∷ gs) groups_err err = err ≡ none
Decides (h ∷ hs) e [] groups_err err = err ≡ serious_error groups_err
Decides [] e [] groups_err err = (err ≡ none → (e ≡ none) × (groups_err ≡ none))

abbrev IsEnded : List ContactInfo → Option String → List GroupInfo → Option String → Finish → Type 0
IsEnded humans e groups groups_err out =
    (out.0 ≡ ending_of humans groups out.1) × Decides humans e groups groups_err out.1

people_without :
    (h : ContactInfo) (hs : List ContactInfo) (e : Option String) (text : String) (b : Bool)
    → is_critical text ≡ b
    → IsEnded (h ∷ hs) e [] (some text) (result b (h ∷ hs) [])
people_without h hs e text true c = (refl, sym (ap (λ b. if b then some critical else none) c))
people_without h hs e text false c = (refl, sym (ap (λ b. if b then some critical else none) c))

nothing_without :
    (e : Option String) (text : String) (b : Bool)
    → IsEnded [] e [] (some text) (if b then result true [] [] else ([], some (groups_failed text)))
nothing_without e text true = (refl, λ h. cc)
nothing_without e text false = (refl, λ h. cc)

contacts_critical :
    (e : String) (groups_err : Option String)
    → IsEnded [] (some e) [] groups_err (check_groups true [] [] groups_err)
contacts_critical e none = (refl, λ h. cc)
contacts_critical e (some text) = (refl, λ h. cc)

contacts_alone :
    (e : String) (groups_err : Option String) (b : Bool)
    → IsEnded []
        (some e)
        []
        groups_err
        (if b then check_groups true [] [] groups_err else ([], some (contacts_failed e)))
contacts_alone e groups_err true = contacts_critical e groups_err
contacts_alone e groups_err false = (refl, λ h. cc)

groups_enough :
    (humans : List ContactInfo) (e : Option String) (g : GroupInfo) (gs : List GroupInfo)
    (groups_err : Option String)
    → IsEnded humans e (g ∷ gs) groups_err (check_groups false humans (g ∷ gs) groups_err)
groups_enough humans e g gs none = (refl, refl)
groups_enough (h ∷ hs) e g gs (some text) = (refl, refl)
groups_enough [] e g gs (some text) = (refl, refl)

people_enough :
    (h : ContactInfo) (hs : List ContactInfo) (e groups_err : Option String)
    → IsEnded (h ∷ hs) e [] groups_err (check_groups false (h ∷ hs) [] groups_err)
people_enough h hs e none = (refl, refl)
people_enough h hs e (some text) = people_without h hs e text (is_critical text) refl

finish-IsEnded :
    (humans : List ContactInfo) (e : Option String) (groups : List GroupInfo)
    (groups_err : Option String)
    → IsEnded humans e groups groups_err (finish humans e groups groups_err)
unfolding finish
finish-IsEnded humans none (g ∷ gs) groups_err = groups_enough humans none g gs groups_err
finish-IsEnded (h ∷ hs) (some e) (g ∷ gs) groups_err =
    groups_enough (h ∷ hs) (some e) g gs groups_err
finish-IsEnded [] (some e) (g ∷ gs) groups_err = groups_enough [] (some e) g gs groups_err
finish-IsEnded (h ∷ hs) none [] groups_err = people_enough h hs none groups_err
finish-IsEnded (h ∷ hs) (some e) [] groups_err = people_enough h hs (some e) groups_err
finish-IsEnded [] none [] none = (refl, λ h. (refl, refl))
finish-IsEnded [] none [] (some text) = nothing_without none text (is_critical text)
finish-IsEnded [] (some e) [] groups_err = contacts_alone e groups_err (is_critical e)

module _ (server : String) (store : Bool) (answer : String ⊎ List Contact) (known : List Contact)
    (groups_answer : String ⊎ List Group) where
  -- With a client that is logged in, a stream ends as its goroutines left it: without an error it sends
  -- the final result with all contacts and groups and their numbers, with an error of the connection it
  -- sends that error, and with another it sends nothing more. A group is enough for a stream without
  -- an error; contacts without groups are, unless the groups failed with an error of the connection,
  -- which discards the contacts; and without both there is no error only if neither failed.
  pub stream_lem :
      ((stream server true true store answer known groups_answer).0.ending
        ≡ ending_of
            (get_contacts server store answer).1
            (get_groups store known groups_answer).1
            (stream server true true store answer known groups_answer).1)
      × Decides
          (get_contacts server store answer).1
          (get_contacts server store answer).2
          (get_groups store known groups_answer).1
          (get_groups store known groups_answer).2
          (stream server true true store answer known groups_answer).1
  unfolding stream
  stream_lem =
      finish-IsEnded (get_contacts server store answer).1 (get_contacts server store answer).2
        (get_groups store known groups_answer).1 (get_groups store known groups_answer).2
