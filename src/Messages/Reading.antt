-- ===== src/Messages/Reading.antt =====
-- What the texts, the files and the phone of a message have in common.
use air_whatsbot.Common.{
  ℕ, ◌≤◌, ◌≡◌, ◌≢◌, refl, ap, sym, ◌∙◌, arith, String, Bool, true, false, Option, none, some, List,
  string_eq, eq_iff, ◌==◌, ◌&&◌, not, if◌then◌else◌, length, All, Bool-cases, inl, inr,
}
use air_whatsbot.Calls.Manager.State.{Jid}
use air_whatsbot.Messages.{
  Event, Content, Media, message_text, content_text, kind_text, text_of, is_voice, is_there,
  extract_real_phone, phone_of,
}
use air_whatsbot.Messages.Files.{
  FileUpload, extract_files_from_message, downloaded, audio_file, video_file, document_file,
  image_file, files_of,
}

-- The user part of a JID, if it has one.
abbrev pub user_or : String → Option Jid → String
user_or fallback none = fallback
user_or fallback (some jid) = if jid.user == "" then fallback else jid.user

phone_chain :
    (a b u : Bool) (x y : String)
    → (if a && not u then x else if b && not u then x else if u then y else x)
      ≡ (if u then y else x)
phone_chain true true true x y = refl
phone_chain true true false x y = refl
phone_chain true false true x y = refl
phone_chain true false false x y = refl
phone_chain false true true x y = refl
phone_chain false true false x y = refl
phone_chain false false true x y = refl
phone_chain false false false x y = refl

phone_of-user_or :
    (server fallback : String) (j : Option Jid) → phone_of server fallback j ≡ user_or fallback j
phone_of-user_or server fallback none = refl
phone_of-user_or server fallback (some jid) =
    phone_chain (jid.server == "lid") (jid.server == server) (jid.user == "") jid.user fallback

-- Whatever the server of the JID is, the phone is the user part of the JID, if the text is not empty,
-- parses and has a user part, and the fallback otherwise.
extract_real_phone_lem :
    (server : String) (parse_jid : String → Option Jid) (jid_string fallback : String)
    → extract_real_phone server parse_jid jid_string fallback
      ≡ (if jid_string == "" then fallback else user_or fallback (parse_jid jid_string))
unfolding extract_real_phone
extract_real_phone_lem server parse_jid jid_string fallback =
    ap (λ x. if jid_string == "" then fallback else x)
      (phone_of-user_or server fallback (parse_jid jid_string))

-- The file is what the download gave.
abbrev IsDownloaded : (Media → Option (List ℕ)) → FileUpload → Type 0
IsDownloaded download f = (m : Media) × (download m ≡ some f.content)

abbrev pub OneFile : (Media → Option (List ℕ)) → List FileUpload → Type 0
OneFile download fs = (length fs ≤ 1) × All (IsDownloaded download) fs

module _ (download : Media → Option (List ℕ)) where
  downloaded-OneFile :
      (m : Media) (name : String) (o : Option (List ℕ))
      → download m ≡ o
      → OneFile download (downloaded m name o)
  downloaded-OneFile m name none e = (omega arith, tt)
  downloaded-OneFile m name (some bytes) e = (omega arith, ((m, e), tt))

  audio_file-OneFile :
      (id : String) (m : Option Media) → OneFile download (audio_file download id m)
  audio_file-OneFile id none = (omega arith, tt)
  audio_file-OneFile id (some m) = elim (Bool-cases m.ptt) [
    | inl e ↦ simp e (omega arith, tt)
    | inr e ↦ simp e (downloaded-OneFile m _ _ refl)
  ]

  video_file-OneFile :
      (id : String) (c : Content) (m : Option Media) → OneFile download (video_file download id c m)
  video_file-OneFile id c none = audio_file-OneFile id c.audio
  video_file-OneFile id c (some m) = downloaded-OneFile m _ _ refl

  document_file-OneFile :
      (id : String) (c : Content) (m : Option Media)
      → OneFile download (document_file download id c m)
  document_file-OneFile id c none = video_file-OneFile id c c.video
  document_file-OneFile id c (some m) = downloaded-OneFile m _ _ refl

  files_of-OneFile : (id : String) (c : Option Content) → OneFile download (files_of download id c)
  files_of-OneFile id none = (omega arith, tt)
  files_of-OneFile id (some c) = image c.image
    where
      image : (m : Option Media) → OneFile download (image_file download id c m)
      image none = document_file-OneFile id c c.document
      image (some m) = downloaded-OneFile m _ _ refl

-- A message gives at most one file, and its content is what the download of one of its media gave.
extract_files_from_message_lem :
    (e : Event) (download : Media → Option (List ℕ))
    → OneFile download (extract_files_from_message (some e) (some download))
unfolding extract_files_from_message
extract_files_from_message_lem e download = files_of-OneFile download e.id e.message

kind_text-nonempty : (voice document image : Bool) → kind_text voice document image ≢ ""
kind_text-nonempty true document image h = cc
kind_text-nonempty false true image h = cc
kind_text-nonempty false false true h = cc
kind_text-nonempty false false false h = cc

content_text-nonempty : (c : Content) → c.extended ≡ none → content_text c ≢ ""
content_text-nonempty c x h = elim (Bool-cases (c.conversation == "")) [
  | inl e ↦
      kind_text-nonempty (is_voice c.audio) (is_there c.document) (is_there c.image)
        (sym (rw e (rw x refl)) ∙ h)
  | inr e ↦ (let y = (eq_iff c.conversation "").1 (sym (rw e refl) ∙ h) in cc)
]

-- A message with a content that is no extended text has a text that is not empty, also if it is of
-- an unsupported kind.
message_text-nonempty :
    (e : Event) (c : Content) → e.message ≡ some c → c.extended ≡ none → message_text (some e) ≢ ""
unfolding message_text
message_text-nonempty e c m x h = content_text-nonempty c x (sym (ap text_of m) ∙ h)
