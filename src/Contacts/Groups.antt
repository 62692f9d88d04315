-- ===== src/Contacts/Groups.antt =====
-- The goroutine of the groups.
use air_whatsbot.Common.{
  ℕ, suc, ◌%◌, String, Bool, true, false, Option, none, some, List, [], ◌∷◌, ◌++◌, ◌⊎◌, inl, inr,
  nat_beq, ◌||◌, if◌then◌else◌, length, select, map,
}
use Prim.Native.String.{◌++◌ as ◌<>◌}
use air_whatsbot.Common.Int.{ℤ}
use air_whatsbot.Common.Decimal.{codes}
use air_whatsbot.Calls.Manager.State.{Jid}
use air_whatsbot.Contacts.Hash.{jid_id}
use air_whatsbot.Contacts.People.{Contact}

-- types.GroupInfo
pub record Group : Type 0 where
  pub jid : Jid
  pub jid_text : List ℕ
  pub name : List ℕ
  pub topic : List ℕ

pub record GroupInfo : Type 0 where
  pub id : ℤ
  pub title : List ℕ

pub data Progress : Type 0 where
  started_groups : Progress
  processing_groups : ℕ → Progress
  groups_progress : ℕ → ℕ → Progress

abbrev pub first_nonempty : List ℕ → List ℕ → List ℕ
first_nonempty [] other = other
first_nonempty (c ∷ cs) other = c ∷ cs

-- The name, or the topic, or the user of the JID
unfoldable pub group_info : Group → GroupInfo
group_info g = record {
  id = jid_id g.jid_text;
  title = first_nonempty g.name (first_nonempty g.topic (codes g.jid.user));
}

-- strings.Split(user, "@")[0]
unfoldable pub before_at : List ℕ → List ℕ
before_at [] = []
before_at (c ∷ cs) = if nat_beq c b'@' then [] else c ∷ before_at cs

unfoldable pub contact_group : Contact → GroupInfo
contact_group c = record {
  id = jid_id c.jid_text;
  title = codes "Группа " ++ before_at (codes c.jid.user);
}

abbrev pub same_codes : List ℕ → List ℕ → Bool
same_codes [] [] = true
same_codes [] (d ∷ ds) = false
same_codes (c ∷ cs) [] = false
same_codes (c ∷ cs) (d ∷ ds) = if nat_beq c d then same_codes cs ds else false

-- strings.HasSuffix(text, suffix)
unfoldable pub has_suffix : List ℕ → List ℕ → Bool
has_suffix [] suffix = same_codes [] suffix
has_suffix (c ∷ cs) suffix = same_codes (c ∷ cs) suffix || has_suffix cs suffix

abbrev pub is_group : Contact → Bool
is_group c = has_suffix (codes c.jid.server) (codes "g.us")

-- `i` is the number of the group before this one; `total` the number of all
abbrev pub at_fifth : ℕ → ℕ → List Progress
at_fifth done total =
    if nat_beq (done % 5) 0 || nat_beq done total then groups_progress done total ∷ [] else []

-- The loop over the groups, which is the same over the joined groups and over the contacts
unfoldable pub range_groups : ℕ → ℕ → List GroupInfo → List Progress
range_groups done total [] = []
range_groups done total (g ∷ gs) = at_fifth (suc done) total ++ range_groups (suc done) total gs

-- whatsappGroups and groupsErr
abbrev pub Joined : Type 0
Joined = List Progress × List GroupInfo × Option String

abbrev pub listed : List GroupInfo → Option String → Joined
listed gs e = (processing_groups (length gs) ∷ range_groups 0 (length gs) gs, gs, e)

abbrev pub error_unless : List GroupInfo → String → Option String
error_unless [] e = some e
error_unless (g ∷ gs) e = none

-- After an error: the groups among the contacts, if the client has a store
abbrev pub fall_back : Bool → List Contact → String → Joined
fall_back false contacts e = ([], [], some e)
fall_back true contacts e =
    let gs = map contact_group (select is_group contacts) in listed gs (error_unless gs e)

abbrev pub joined : Bool → List Contact → String ⊎ List Group → Joined
joined store contacts (inl e) = fall_back store contacts ("ошибка получения групп: " <> e)
joined store contacts (inr gs) = listed (map group_info gs) none

-- The goroutine, by whether the client has a store, by the contacts of the store (none where they
-- cannot be got), and by what GetJoinedGroups answers
unfoldable pub get_groups : Bool → List Contact → String ⊎ List Group → Joined
get_groups store contacts answer =
    let all = joined store contacts answer in (started_groups ∷ all.0, all.1, all.2)
