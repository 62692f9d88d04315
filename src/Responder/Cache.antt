-- ===== src/Responder/Cache.antt =====
-- internal/whatsapp/responder/cache.go: the keys of the marks in Redis, and what `LoadUser` reads from
-- them. Texts are lists of code points; the calls of go-redis are parameters.
use air_whatsbot.Common.{
  ℕ, ◌≡◌, refl, ap, ◌∙◌, Bool, true, false, Option, none, some, List, [], ◌∷◌, ◌++◌, append_assoc,
  map, ◌⊎◌, inl, inr, All, nat_beq, nat_beq_refl, if◌then◌else◌,
}
use air_whatsbot.Common.Int.{ℤ}
use air_whatsbot.Common.Decimal.{codes, parse_int, format_uint, format_int}
use air_whatsbot.Common.Decimal.Printed.{IsInt64, parse_int-format_int}

-- WhatsAppUserBot
abbrev pub known_responder_service_id : ℕ
known_responder_service_id = 3

-- knownResponderUserPrefix(userID)
unfoldable pub known_responder_user_prefix : ℕ → List ℕ
known_responder_user_prefix user =
    codes "known_responder:"
    ++ (format_uint known_responder_service_id ++ (58 ∷ (format_uint user ++ 58 ∷ [])))

-- knownResponderKey(userID, senderID): its text is the prefix of the user and the sender
unfoldable pub known_responder_key : ℕ → ℤ → List ℕ
known_responder_key user sender =
    codes "known_responder:"
    ++ (format_uint known_responder_service_id
        ++ (58 ∷ (format_uint user ++ (58 ∷ format_int sender))))

-- strings.HasPrefix and strings.TrimPrefix: what comes after the prefix, if it is there
unfoldable pub strip_prefix : List ℕ → List ℕ → Option (List ℕ)
strip_prefix [] text = some text
strip_prefix (c ∷ prefix) [] = none
strip_prefix (c ∷ prefix) (d ∷ text) =
    let rest = strip_prefix prefix text in if nat_beq c d then rest else none

abbrev pub parse_part : Option (List ℕ) → Option ℤ
parse_part none = none
parse_part (some part) = parse_int part

-- parseKnownResponderKey(userID, key); `none` is false
unfoldable pub parse_known_responder_key : ℕ → List ℕ → Option ℤ
parse_known_responder_key user key =
    parse_part (strip_prefix (known_responder_user_prefix user) key)

abbrev pub add_parsed : Option ℤ → List ℤ → List ℤ
add_parsed none ids = ids
add_parsed (some id) ids = id ∷ ids

-- The loop of c.LoadUser over the keys that the iterator gives
unfoldable pub parsed_keys : ℕ → List (List ℕ) → List ℤ
parsed_keys user [] = []
parsed_keys user (key ∷ keys) =
    add_parsed (parse_known_responder_key user key) (parsed_keys user keys)

-- c.LoadUser(ctx, userID), by the keys and the error of the iterator
unfoldable pub load_user {ℓ} : {Err : Type ℓ} → ℕ → List (List ℕ) → Option Err → Err ⊎ List ℤ
load_user user keys none = inr (parsed_keys user keys)
load_user user keys (some e) = inl e

-- c.Has(ctx, userID, senderID), by what Exists answers
unfoldable pub has {ℓ} : {Err : Type ℓ} → Err ⊎ ℕ → Err ⊎ Bool
has (inl e) = inl e
has (inr n) = inr (if nat_beq n 0 then false else true)

strip_prefix-append : (prefix text : List ℕ) → strip_prefix prefix (prefix ++ text) ≡ some text
unfolding strip_prefix
strip_prefix-append [] text = refl
strip_prefix-append (c ∷ prefix) text = rw (nat_beq_refl c) (strip_prefix-append prefix text)

known_responder_key-prefix :
    (user : ℕ) (sender : ℤ)
    → known_responder_key user sender ≡ known_responder_user_prefix user ++ format_int sender
unfolding known_responder_key known_responder_user_prefix
known_responder_key-prefix user sender =
    rw
      (
        append_assoc (format_uint known_responder_service_id) (58 ∷ (format_uint user ++ 58 ∷ []))
            (format_int sender),
        append_assoc (format_uint user) (58 ∷ []) (format_int sender),
      )
      refl

-- The key of a mark parses to the sender that it was made for, if the sender is an int64.
parse-known_responder_key :
    (user : ℕ) (sender : ℤ)
    → IsInt64 sender
    → parse_known_responder_key user (known_responder_key user sender) ≡ some sender
unfolding parse_known_responder_key
parse-known_responder_key user sender h =
    ap (λ key. parse_part (strip_prefix (known_responder_user_prefix user) key))
      (known_responder_key-prefix user sender)
    ∙ ap parse_part (strip_prefix-append (known_responder_user_prefix user) (format_int sender))
    ∙ parse_int-format_int sender h

parsed_keys-keys :
    (user : ℕ) (senders : List ℤ)
    → All IsInt64 senders
    → parsed_keys user (map (known_responder_key user) senders) ≡ senders
unfolding parsed_keys
parsed_keys-keys user [] h = refl
parsed_keys-keys user (s ∷ senders) (i, h) =
    ap (λ o. add_parsed o (parsed_keys user (map (known_responder_key user) senders)))
      (parse-known_responder_key user s i)
    ∙ ap (λ ids. s ∷ ids) (parsed_keys-keys user senders h)

-- Loading a user from the keys of marks gives the senders that the marks were made for, in the order
-- of the keys, if the senders are int64 and the iterator reports no error.
pub load_user-keys :
    {Err : Type 0} (user : ℕ) (senders : List ℤ)
    → All IsInt64 senders
    → load_user {Err = Err} user (map (known_responder_key user) senders) none ≡ inr senders
unfolding load_user
load_user-keys user senders h = ap inr (parsed_keys-keys user senders h)
