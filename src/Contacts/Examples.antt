-- ===== src/Contacts/Examples.antt =====
-- Tests of the stream of contacts, and its theorems on concrete ones.
use air_whatsbot.Common.{
  ℕ, ◌≡◌, refl, String, true, none, List, [], ◌∷◌, ◌⊎◌, inl, inr, map, select, All, string_eq,
}
use air_whatsbot.Common.Decimal.{codes}
use air_whatsbot.Responder.{int64}
use air_whatsbot.Contacts.Hash.{hash_bits, jid_id, least_int64}
use air_whatsbot.Contacts.People.{Contact, contact_info, split_name, range_contacts, get_contacts}
use air_whatsbot.Contacts.Groups.{Group, get_groups, has_suffix, contact_group}
use air_whatsbot.Contacts.Stream.{stream}
use air_whatsbot.Contacts.Gathered.{is_user, counted, HasName, range_contacts_lem}
use air_whatsbot.Contacts.Ending.{ending_of, Decides, stream_lem}

-- Characters whose hash is the least int64: the digits of 2 ^ 63 to the base 31.
abbrev unlucky : List ℕ
unlucky = 11 ∷ 22 ∷ 0 ∷ 3 ∷ 18 ∷ 9 ∷ 5 ∷ 17 ∷ 18 ∷ 10 ∷ 4 ∷ 3 ∷ 8 ∷ []

unlucky_id : jid_id unlucky ≡ least_int64
unfolding jid_id hash_bits int64
unlucky_id = refl

abbrev contact_of : String → String → String → Contact
contact_of user server name = record {
  jid = record { user = user; server = server };
  jid_text = codes user;
  full_name = codes name;
  push_name = [];
}

abbrev contacts : List Contact
contacts =
    contact_of "79" "s.whatsapp.net" "Ann Lee Jones"
    ∷ contact_of "12036" "g.us" ""
    ∷ contact_of "80" "s.whatsapp.net" ""
    ∷ []

splits_name : split_name (codes "Ann Lee Jones") ≡ (codes "Ann", codes "Lee Jones")
unfolding split_name
splits_name = refl

range_contacts_lem_example :
    ((range_contacts "s.whatsapp.net" 0 0 contacts).1
      ≡ map contact_info (select (is_user "s.whatsapp.net") contacts))
    × All HasName (range_contacts "s.whatsapp.net" 0 0 contacts).1
    × ((range_contacts "s.whatsapp.net" 0 0 contacts).0
        ≡ counted 0 (range_contacts "s.whatsapp.net" 0 0 contacts).1)
range_contacts_lem_example = range_contacts_lem "s.whatsapp.net" contacts

abbrev answer : String ⊎ List Contact
answer = inr contacts

abbrev failed : String ⊎ List Group
failed = inl "timeout"

stream_lem_example :
    ((stream "s.whatsapp.net" true true true answer contacts failed).0.ending
      ≡ ending_of
          (get_contacts "s.whatsapp.net" true answer).1
          (get_groups true contacts failed).1
          (stream "s.whatsapp.net" true true true answer contacts failed).1)
    × Decides
        (get_contacts "s.whatsapp.net" true answer).1
        (get_contacts "s.whatsapp.net" true answer).2
        (get_groups true contacts failed).1
        (get_groups true contacts failed).2
        (stream "s.whatsapp.net" true true true answer contacts failed).1
stream_lem_example = stream_lem "s.whatsapp.net" true answer contacts failed

-- The groups cannot be got, and the one among the contacts stands in for them.
falls_back : (get_groups true contacts failed).2 ≡ none
unfolding get_groups has_suffix contact_group
falls_back = refl
