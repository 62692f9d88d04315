-- ===== src/App/Since.antt =====
-- Which keys the cache answers with, whatever the goroutines do.
use air_whatsbot.Common.{
  ℕ, ◌+◌, ◌≤◌, ◌≡◌, refl, ap, sym, ◌∙◌, subst, Bool, true, false, Option, none, some, ◌⊎◌, inl, inr,
  arith, nat_eq, nat_beq, nat_beq_iff, ◌==◌, ltb, Bool-cases, if◌then◌else◌,
}
use air_whatsbot.Common.Map.{lookup, lookup-insert, lookup-delete}
use air_whatsbot.App.Keys.{
  cache_time, Task, idle, asks, holds, answers, Cache, put_task, looked_up, begin, fetched, fetch,
  store, invalidate_master_key, Step, begins, fetches, stores, returns, invalidates, passes, Reach,
  here, next,
}

module _ {Key Err : Type 0} (client : ℕ → ℕ → Err ⊎ Key) (user since : ℕ) where
  -- A key that the client gave for the user at a time or after it.
  abbrev IsGiven : Key → Type 0
  IsGiven key = (at : ℕ) × (since ≤ at) × (client at user ≡ inr key)

  abbrev ItemGiven : Option (Key × ℕ) → Type 0
  ItemGiven none = Unit
  ItemGiven (some (key, expires)) = IsGiven key

  -- A key of the user that a goroutine has is given.
  abbrev TaskGiven : Task Key Err → Type 0
  TaskGiven idle = Unit
  TaskGiven (asks u) = Unit
  TaskGiven (holds u key) = u ≡ user → IsGiven key
  TaskGiven (answers u (inl e)) = Unit
  TaskGiven (answers u (inr key)) = u ≡ user → IsGiven key

  abbrev AllGiven : Cache Key Err → Type 0
  AllGiven c =
      (since ≤ c.clock) × ItemGiven (lookup user c.items) × ((g : ℕ) → TaskGiven (c.tasks g))

  put_task-Given :
      (g : ℕ) (t : Task Key Err) (c : Cache Key Err)
      → TaskGiven t
      → ((h : ℕ) → TaskGiven (c.tasks h))
      → (h : ℕ) → TaskGiven ((put_task g t c).tasks h)
  put_task-Given g t c new old h = elim (Bool-cases (nat_beq g h)) [
    | inl y ↦ rw y new
    | inr n ↦ rw n (old h)
  ]

  looked_up-Given :
      (u now : ℕ) (o : Option (Key × ℕ)) → (u ≡ user → ItemGiven o) → TaskGiven (looked_up u now o)
  looked_up-Given u now none i = tt
  looked_up-Given u now (some (key, expires)) i = elim (Bool-cases (ltb now expires)) [
    | inl y ↦ rw y i
    | inr n ↦ rw n tt
  ]

  fetched-Given :
      (u now : ℕ) (a : Err ⊎ Key) → since ≤ now → client now u ≡ a → TaskGiven (fetched u a)
  fetched-Given u now (inl e) l a = tt
  fetched-Given u now (inr key) l a = λ same. (now, l, ap (client now) (sym same) ∙ a)

  begin-Given : (g u : ℕ) (c : Cache Key Err) → AllGiven c → AllGiven (begin g u c)
  unfolding begin
  begin-Given g u c (l, i, ts) = (
    l,
    i,
    put_task-Given g (looked_up u c.clock (lookup u c.items)) c
        (looked_up-Given u c.clock (lookup u c.items)
          (λ same. subst (λ v. ItemGiven (lookup v c.items)) (sym same) i))
        ts,
  )

  fetch-Given : (g u : ℕ) (c : Cache Key Err) → AllGiven c → AllGiven (fetch client g u c)
  unfolding fetch
  fetch-Given g u c (l, i, ts) = (
    l,
    i,
    put_task-Given g (fetched u (client c.clock u)) c
        (fetched-Given u c.clock (client c.clock u) l refl) ts,
  )

  store-Given :
      (g u : ℕ) (key : Key) (c : Cache Key Err)
      → (u ≡ user → IsGiven key)
      → AllGiven c
      → AllGiven (store g u key c)
  unfolding store
  store-Given g u key c new (l, i, ts) = (
    l,
    subst ItemGiven (sym (lookup-insert u user (key, c.clock + cache_time) c.items)) item,
    put_task-Given g (answers u (inr key)) c new ts,
  )
    where
      item : ItemGiven (if u == user then some (key, c.clock + cache_time) else lookup user c.items)
      item = elim (Bool-cases (u == user)) [
        | inl y ↦ rw y (new ((nat_beq_iff u user).0 y))
        | inr n ↦ rw n i
      ]

  invalidate-Given : (u : ℕ) (c : Cache Key Err) → AllGiven c → AllGiven (invalidate_master_key u c)
  unfolding invalidate_master_key
  invalidate-Given u c (l, i, ts) =
      (l, subst ItemGiven (sym (lookup-delete u user c.items)) item, ts)
    where
      item : ItemGiven (if u == user then none else lookup user c.items)
      item = elim (Bool-cases (u == user)) [ inl y ↦ rw y tt | inr n ↦ rw n i ]

  Step-Given : {c d : Cache Key Err} → Step client c d → AllGiven c → AllGiven d
  Step-Given (begins c g u e) a = begin-Given g u c a
  Step-Given (fetches c g u e) a = fetch-Given g u c a
  Step-Given (stores c g u key e) (l, i, ts) =
      store-Given g u key c (subst TaskGiven e (ts g)) (l, i, ts)
  Step-Given (returns c g u answer e) (l, i, ts) = (l, i, put_task-Given g idle c tt ts)
  Step-Given (invalidates c u) a = invalidate-Given u c a
  Step-Given (passes c time) (l, i, ts) = (omega arith, i, ts)

  Reach-Given : {c d : Cache Key Err} → Reach client c d → AllGiven c → AllGiven d
  Reach-Given here a = a
  Reach-Given (next r s) a = Step-Given s (Reach-Given r a)

-- A goroutine has a key of the user.
abbrev pub has_key : {Key Err : Type 0} → ℕ → Task Key Err → Bool
has_key user idle = false
has_key user (asks u) = false
has_key user (holds u key) = nat_beq u user
has_key user (answers u (inl e)) = false
has_key user (answers u (inr key)) = nat_beq u user

module _ {Key Err : Type 0} (client : ℕ → ℕ → Err ⊎ Key) (user : ℕ) where
  keyless-Given :
      (since : ℕ) (t : Task Key Err) → has_key user t ≡ false → TaskGiven client user since t
  keyless-Given since idle h = tt
  keyless-Given since (asks u) h = tt
  keyless-Given since (holds u key) h =
      λ same. absurd (let bad : true ≡ false = sym ((nat_beq_iff u user).1 same) ∙ h in cc)
  keyless-Given since (answers u (inl e)) h = tt
  keyless-Given since (answers u (inr key)) h =
      λ same. absurd (let bad : true ≡ false = sym ((nat_beq_iff u user).1 same) ∙ h in cc)

  keyless-AllGiven :
      (c : Cache Key Err)
      → lookup user c.items ≡ none
      → ((g : ℕ) → has_key user (c.tasks g) ≡ false)
      → AllGiven client user c.clock c
  keyless-AllGiven c gone none_has = (
    omega arith,
    subst (ItemGiven client user c.clock) (sym gone) tt,
    λ h. keyless-Given c.clock (c.tasks h) (none_has h),
  )

  -- Let any goroutines ask for keys, store them and drop them in any order, from a state in which the
  -- cache has no key of a user and no call that has not returned has got one, as it is at the start, and
  -- after InvalidateMasterKey if none has the client's answer just then. Then every key that a call
  -- answers with for this user is one that the client gave for this user at that time or later.
  pub answers_since :
      {c d : Cache Key Err}
      → lookup user c.items ≡ none
      → ((g : ℕ) → has_key user (c.tasks g) ≡ false)
      → Reach client c d
      → (g : ℕ) (key : Key) → d.tasks g ≡ answers user (inr key)
      → (at : ℕ) × (c.clock ≤ at) × (client at user ≡ inr key)
  answers_since {c} {d} gone none_has r g key e =
      subst (TaskGiven client user c.clock) e
        ((Reach-Given client user c.clock r (keyless-AllGiven c gone none_has)).2 g) refl
