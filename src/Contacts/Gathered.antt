-- ===== src/Contacts/Gathered.antt =====
-- What the loop over the contacts gives.
use air_whatsbot.Common.{
  ℕ, suc, ◌%◌, ◌≡◌, ◌≢◌, refl, ap, sym, ◌∙◌, subst, String, Bool, true, false, List, [], ◌∷◌, ◌++◌,
  nat_beq, nat_beq_refl, string_eq, ◌==◌, ◌||◌, if◌then◌else◌, select, map, All, Bool-cases, inl,
  inr,
}
use air_whatsbot.Common.Decimal.{codes}
use air_whatsbot.Contacts.People.{
  Contact, ContactInfo, Progress, contacts_progress, names_of, phone_or, named, contact_info,
  at_tenth, range_contacts,
}

-- The specification: the contacts of users, each with a message of progress.
abbrev pub is_user : String → Contact → Bool
is_user server c = c.jid.server == server

abbrev pub counted : ℕ → List ContactInfo → List Progress
counted n [] = []
counted n (c ∷ cs) = contacts_progress (suc n) (suc n) ∷ counted (suc n) cs

or-true : (b : Bool) → (b || true) ≡ true
or-true true = refl
or-true false = refl

at_tenth-always : (n : ℕ) → at_tenth n n ≡ contacts_progress n n ∷ []
at_tenth-always n =
    ap (λ b. if nat_beq (n % 10) 0 || b then contacts_progress n n ∷ [] else []) (nat_beq_refl n)
    ∙ ap (λ b. if b then contacts_progress n n ∷ [] else []) (or-true (nat_beq (n % 10) 0))

abbrev pub HasName : ContactInfo → Type 0
HasName c = c.first_name ≢ []

phone_or-nonempty : (phone text : List ℕ) → phone_or phone text ≢ []
phone_or-nonempty [] text h = cc
phone_or-nonempty (c ∷ cs) text h = cc

named-nonempty : (name phone text : List ℕ) → named name phone text ≢ []
named-nonempty [] phone text = phone_or-nonempty phone text
named-nonempty (c ∷ cs) phone text = λ h. cc

contact_info-HasName : (c : Contact) → HasName (contact_info c)
unfolding contact_info
contact_info-HasName c =
    named-nonempty (names_of c.full_name c.push_name).0 (codes c.jid.user) c.jid_text

module _ (server : String) where
  select-step :
      (c : Contact) (cs : List Contact) (b : Bool)
      → is_user server c ≡ b
      → select (is_user server) (c ∷ cs)
        ≡ (if b then c ∷ select (is_user server) cs else select (is_user server) cs)
  select-step c cs b e = rw e refl

  range-infos :
      (n m : ℕ) (cs : List Contact)
      → (range_contacts server n m cs).1 ≡ map contact_info (select (is_user server) cs)
  unfolding range_contacts
  range-infos n m [] = refl
  range-infos n m (c ∷ cs) = elim (Bool-cases (c.jid.server == server)) [
    | inl y ↦ rw y (ap (λ l. contact_info c ∷ l) (range-infos (suc n) (suc m) cs))
    | inr x ↦ rw x (range-infos n m cs)
  ]

  range-progress :
      (n : ℕ) (cs : List Contact)
      → (range_contacts server n n cs).0 ≡ counted n (range_contacts server n n cs).1
  unfolding range_contacts
  range-progress n [] = refl
  range-progress n (c ∷ cs) = elim (Bool-cases (c.jid.server == server)) [
    | inl y ↦ rw y (
        ap (λ l. l ++ (range_contacts server (suc n) (suc n) cs).0) (at_tenth-always (suc n))
        ∙ ap (λ l. contacts_progress (suc n) (suc n) ∷ l) (range-progress (suc n) cs))
    | inr x ↦ rw x (range-progress n cs)
  ]

  infos-HasName : (cs : List Contact) → All HasName (map contact_info cs)
  infos-HasName [] = tt
  infos-HasName (c ∷ cs) = (contact_info-HasName c, infos-HasName cs)

  -- The loop gives one entry for each contact whose JID is of a user, in the order of the contacts,
  -- each with a first name that is not empty, and one message of progress after each of them, not
  -- after every tenth.
  pub range_contacts_lem :
      (cs : List Contact)
      → ((range_contacts server 0 0 cs).1 ≡ map contact_info (select (is_user server) cs))
        × All HasName (range_contacts server 0 0 cs).1
        × ((range_contacts server 0 0 cs).0 ≡ counted 0 (range_contacts server 0 0 cs).1)
  range_contacts_lem cs = (
    range-infos 0 0 cs,
    subst (All HasName) (sym (range-infos 0 0 cs)) (infos-HasName (select (is_user server) cs)),
    range-progress 0 cs,
  )
