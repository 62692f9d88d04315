-- ===== src/Responder/Restore.antt =====
-- What `preloadFirstInteraction` brings back from Redis, and what `restoreResponderFields` fills in.
use air_whatsbot.Common.{
  ℕ, ◌<◌, ◌^◌, ◌≡◌, ◌≢◌, refl, ap, sym, ◌∙◌, subst, String, Bool, true, false, List, [], ◌∷◌, ◌++◌,
  arith, string_eq, nat_eq, eq_iff, ◌==◌, not, if◌then◌else◌, ltb, Bool-cases, inl, inr,
}
use air_whatsbot.Common.Int.{ℤ}
use air_whatsbot.Calls.Manager.State.{Jid}
use air_whatsbot.Responder.{
  Info, Items, int64, uint64, only_known, store, preload_first_interaction,
  restore_responder_fields, filled_jid,
}
use air_whatsbot.Responder.FirstContact.{
  IsKnown, store-IsKnown, store-own, Arrival, contacts, announced, contacts_lem,
}

uint64-int64 : (n : ℕ) → n < 2 ^ 64 → uint64 (int64 n) ≡ n
unfolding uint64 int64
uint64-int64 n l = elim (Bool-cases (ltb n (2 ^ 63))) [
  | inl e ↦ rw e refl
  | inr e ↦ rw e (omega arith)
]

preload-keeps-IsKnown :
    (sender : ℕ) (ids : List ℤ) (items : Items)
    → IsKnown sender items
    → IsKnown sender (preload_first_interaction ids items)
unfolding preload_first_interaction
preload-keeps-IsKnown sender [] items h = h
preload-keeps-IsKnown sender (id ∷ ids) items h =
    preload-keeps-IsKnown sender ids _ (store-IsKnown (uint64 id) sender only_known items refl h)

preload-IsKnown :
    (sender : ℕ) (before after : List ℤ) (items : Items)
    → sender < 2 ^ 64
    → IsKnown sender (preload_first_interaction (before ++ int64 sender ∷ after) items)
unfolding preload_first_interaction
preload-IsKnown sender [] after items l = preload-keeps-IsKnown sender after _ (
    subst (λ i. IsKnown sender (store i only_known items)) (sym (uint64-int64 sender l))
      (store-own sender only_known items refl))
preload-IsKnown sender (id ∷ before) after items l =
    preload-IsKnown sender before after (store (uint64 id) only_known items) l

-- A sender whose mark, written as int64, is among those that the cache lists is known after the
-- preload, and none of its messages announces it.
preload_lem :
    (sender : ℕ) (before after : List ℤ) (items : Items) (events_start : Bool)
    (arrivals : List Arrival)
    → sender < 2 ^ 64
    → announced sender
        (contacts events_start arrivals
          (preload_first_interaction (before ++ int64 sender ∷ after) items)).0
      ≡ 0
preload_lem sender before after items events_start arrivals l =
    (contacts_lem events_start sender arrivals _).1 (preload-IsKnown sender before after items l)

filled_jid-twice :
    (info : Info) (j : Jid) (p : String)
    → filled_jid (record info { jid = filled_jid info j; real_phone = p }) j ≡ filled_jid info j
filled_jid-twice info j p = elim (Bool-cases (info.jid.user == "")) [
  | inl e ↦ rw e (elim (Bool-cases (j.user == "")) [ inl f ↦ rw f refl | inr f ↦ rw f refl ])
  | inr e ↦ rw e (rw e refl)
]

nonempty : (s : String) → s ≢ "" → (s == "") ≡ false
nonempty s h = elim (Bool-cases (s == "")) [ inl e ↦ absurd (h ((eq_iff s "").0 e)) | inr e ↦ e ]

restore-kept :
    (info : Info) (j : Jid) (phone text : String)
    → (info.real_phone == "") ≡ false
    → restore_responder_fields info j phone text ≡ (false, record info { jid = filled_jid info j })
unfolding restore_responder_fields
restore-kept info j phone text e = rw e refl

restore-filled :
    (info : Info) (j : Jid) (phone text : String)
    → (info.real_phone == "") ≡ true
    → restore_responder_fields info j phone text ≡ (
      true,
      record info {
        jid = filled_jid info j;
        real_phone = if not (phone == "") then phone else text;
      },
    )
unfolding restore_responder_fields
restore-filled info j phone text e = rw e refl

chosen-nonempty :
    (phone text : String) → text ≢ "" → ((if not (phone == "") then phone else text) == "") ≡ false
chosen-nonempty phone text t = elim (Bool-cases (phone == "")) [
  | inl e ↦ rw e (nonempty text t)
  | inr e ↦ rw e e
]

restore-again :
    (info : Info) (j : Jid) (phone text p : String)
    → (p == "") ≡ false
    → restore_responder_fields
        (record info { jid = filled_jid info j; real_phone = p })
        j
        phone
        text
      ≡ (false, record info { jid = filled_jid info j; real_phone = p })
restore-again info j phone text p e =
    restore-kept (record info { jid = filled_jid info j; real_phone = p }) j phone text e
    ∙ ap (λ x. (false, record info { jid = x; real_phone = p })) (filled_jid-twice info j p)

not_empty : (s : String) → (s == "") ≡ false → s ≢ ""
not_empty s e h = (let y = (eq_iff s "").1 h in cc)

-- The record has a phone afterwards, if the text of the sender's ID is not empty; whether the sender
-- is known stays as it was; and restoring it again changes nothing and reports no change.
restore_responder_fields_lem :
    (info : Info) (sender_jid : Jid) (real_phone sender_text : String)
    → sender_text ≢ ""
    → ((restore_responder_fields info sender_jid real_phone sender_text).1.real_phone ≢ "")
      × ((restore_responder_fields info sender_jid real_phone sender_text).1.known ≡ info.known)
      × (restore_responder_fields
            (restore_responder_fields info sender_jid real_phone sender_text).1
            sender_jid
            real_phone
            sender_text
          ≡ (false, (restore_responder_fields info sender_jid real_phone sender_text).1))
restore_responder_fields_lem info sender_jid real_phone sender_text t =
    elim (Bool-cases (info.real_phone == "")) [
      | inl e ↦
          (let chosen = chosen-nonempty real_phone sender_text t in
            rw (restore-filled info sender_jid real_phone sender_text e) (
              not_empty _ chosen,
              refl,
              restore-again info sender_jid real_phone sender_text _ chosen,
            ))
      | inr e ↦ rw (restore-kept info sender_jid real_phone sender_text e) (
        not_empty _ e,
        refl,
        restore-again info sender_jid real_phone sender_text info.real_phone e,
      )
    ]
