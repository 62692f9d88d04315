-- ===== src/Bots/Allowed.antt =====
-- Who may call: the list of user IDs that `initializeBot` parses and `IsCallAllowed` reads.
use air_whatsbot.Common.{
  ℕ, ◌≡◌, refl, ap, ◌∙◌, String, Bool, true, false, Option, none, some, List, [], ◌∷◌, ◌++◌, ◌&&◌,
  ◌||◌, leb, nat_beq, if◌then◌else◌,
}
use air_whatsbot.Common.Int.{ℤ, pos, negsuc}
use air_whatsbot.Common.Decimal.{codes, parse_int}

-- unicode.IsSpace
abbrev pub is_space : ℕ → Bool
is_space c =
    (leb 9 c && leb c 13)
    || (nat_beq c 32
        || (nat_beq c 133
            || (nat_beq c 160
                || (nat_beq c 5760
                    || ((leb 8192 c && leb c 8202)
                        || (nat_beq c 8232
                            || (nat_beq c 8233
                                || (nat_beq c 8239 || (nat_beq c 8287 || nat_beq c 12288)))))))))

-- The word that is being read, put before the words that follow, if it is not empty
abbrev pub end_word : List ℕ → List (List ℕ) → List (List ℕ)
end_word [] words = words
end_word (c ∷ word) words = (c ∷ word) ∷ words

-- strings.Fields over code points, with the word that is being read
unfoldable pub fields : List ℕ → List ℕ → List (List ℕ)
fields word [] = end_word word []
fields word (c ∷ rest) =
    let ended = end_word word (fields [] rest) in
    let longer = fields (word ++ c ∷ []) rest in if is_space c then ended else longer

abbrev pub keep_parsed : Option ℤ → List ℤ → List ℤ
keep_parsed none uids = uids
keep_parsed (some uid) uids = uid ∷ uids

-- The loop over `uidsStr`: what does not parse is skipped
unfoldable pub parse_uids : List (List ℕ) → List ℤ
parse_uids [] = []
parse_uids (word ∷ words) = keep_parsed (parse_int word) (parse_uids words)

-- `bot.uids` for `tokenData.Uids`
unfoldable pub uids_of : String → List ℤ
uids_of text = parse_uids (fields [] (codes text))

abbrev pub same_int : ℤ → ℤ → Bool
same_int (pos m) (pos n) = nat_beq m n
same_int (pos m) (negsuc n) = false
same_int (negsuc m) (pos n) = false
same_int (negsuc m) (negsuc n) = nat_beq m n

abbrev pub listed : ℤ → List ℤ → Bool
listed uid [] = false
listed uid (u ∷ uids) = if same_int u uid then true else listed uid uids

abbrev pub parsed_listed : Option ℤ → List ℤ → Bool
parsed_listed none uids = false
parsed_listed (some uid) uids = listed uid uids

-- b.IsCallAllowed(user)
unfoldable pub is_call_allowed : List ℤ → String → Bool
is_call_allowed [] user = true
is_call_allowed (u ∷ uids) user = parsed_listed (parse_int (codes user)) (u ∷ uids)

-- No word of a list parses.
abbrev pub NoneParses : List (List ℕ) → Type 0
NoneParses [] = Unit
NoneParses (word ∷ words) = (parse_int word ≡ none) × NoneParses words

parse_uids-none : (words : List (List ℕ)) → NoneParses words → parse_uids words ≡ []
unfolding parse_uids
parse_uids-none [] h = refl
parse_uids-none (word ∷ words) (n, h) =
    ap (λ o. keep_parsed o (parse_uids words)) n ∙ parse_uids-none words h

-- A list of allowed users in which no entry parses allows every caller, as an empty one does.
pub is_call_allowed-open :
    (text user : String)
    → NoneParses (fields [] (codes text))
    → is_call_allowed (uids_of text) user ≡ true
unfolding uids_of is_call_allowed
is_call_allowed-open text user h =
    ap (λ uids. is_call_allowed uids user) (parse_uids-none (fields [] (codes text)) h)
