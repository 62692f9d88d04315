-- ===== src/Contacts/People.antt =====
-- The goroutine of the contacts.
use air_whatsbot.Common.{
  ℕ, suc, ◌%◌, String, Bool, true, false, Option, none, some, List, [], ◌∷◌, ◌++◌, ◌⊎◌, inl, inr,
  nat_beq, string_eq, ◌==◌, ◌||◌, not, if◌then◌else◌, length,
}
use Prim.Native.String.{◌++◌ as ◌<>◌}
use air_whatsbot.Common.Int.{ℤ}
use air_whatsbot.Common.Decimal.{codes}
use air_whatsbot.Calls.Manager.State.{Jid}
use air_whatsbot.Contacts.Hash.{jid_id}

-- types.ContactInfo with its JID
pub record Contact : Type 0 where
  pub jid : Jid
  pub jid_text : List ℕ
  pub full_name : List ℕ
  pub push_name : List ℕ

pub record ContactInfo : Type 0 where
  pub id : ℤ
  pub first_name : List ℕ
  pub last_name : List ℕ
  pub phone : List ℕ

-- What is written to `dataChan`
pub data Progress : Type 0 where
  processing_contacts : ℕ → Progress
  contacts_progress : ℕ → ℕ → Progress

-- The part before the first space and what comes after it: strings.SplitN(name, " ", 2)
abbrev pub put_first : ℕ → List ℕ × List ℕ → List ℕ × List ℕ
put_first c (first, last) = (c ∷ first, last)

unfoldable pub split_name : List ℕ → List ℕ × List ℕ
split_name [] = ([], [])
split_name (c ∷ cs) = if nat_beq c 32 then ([], cs) else put_first c (split_name cs)

abbrev pub names_of : List ℕ → List ℕ → List ℕ × List ℕ
names_of [] push_name = (push_name, [])
names_of (c ∷ cs) push_name = split_name (c ∷ cs)

abbrev pub phone_or : List ℕ → List ℕ → List ℕ
phone_or [] jid_text = codes "Контакт " ++ jid_text
phone_or (c ∷ cs) jid_text = c ∷ cs

-- An empty first name is replaced
abbrev pub named : List ℕ → List ℕ → List ℕ → List ℕ
named [] phone jid_text = phone_or phone jid_text
named (c ∷ cs) phone jid_text = c ∷ cs

unfoldable pub contact_info : Contact → ContactInfo
contact_info c =
    let names = names_of c.full_name c.push_name in
    record {
      id = jid_id c.jid_text;
      first_name = named names.0 (codes c.jid.user) c.jid_text;
      last_name = names.1;
      phone = codes c.jid.user;
    }

abbrev pub at_tenth : ℕ → ℕ → List Progress
at_tenth processed valid =
    if nat_beq (processed % 10) 0 || nat_beq processed valid
    then contacts_progress processed valid ∷ []
    else []

module _ (default_user_server : String) where
  -- The loop over the contacts, with processedCount and validContactsCount
  unfoldable pub range_contacts : ℕ → ℕ → List Contact → List Progress × List ContactInfo
  range_contacts processed valid [] = ([], [])
  range_contacts processed valid (c ∷ cs) =
      let skipped = range_contacts processed valid cs in
      let rest = range_contacts (suc processed) (suc valid) cs in
      if not (c.jid.server == default_user_server)
      then skipped
      else (at_tenth (suc processed) (suc valid) ++ rest.0, contact_info c ∷ rest.1)

  -- humans and contactsErr
  abbrev pub People : Type 0
  People = List Progress × List ContactInfo × Option String

  abbrev pub gathered : String ⊎ List Contact → People
  gathered (inl e) = ([], [], some ("ошибка получения контактов: " <> e))
  gathered (inr cs) =
      let all = range_contacts 0 0 cs in (processing_contacts (length cs) ∷ all.0, all.1, none)

  -- The goroutine, by whether the client has a store and by what GetAllContacts answers
  unfoldable pub get_contacts : Bool → String ⊎ List Contact → People
  get_contacts false answer = ([], [], some "хранилище контактов недоступно")
  get_contacts true answer = gathered answer
