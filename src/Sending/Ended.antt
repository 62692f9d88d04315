-- ===== src/Sending/Ended.antt =====
-- How the sending of a message ends, whatever fails.
use air_whatsbot.Common.{
  ℕ, ◌≡◌, refl, ap, ◌∙◌, String, false, Option, none, some, List, [], ◌∷◌, ◌++◌, ◌⊎◌, inl, inr, map,
  nat_eq, string_eq, ◌==◌, if◌then◌else◌, Bool-cases,
}
use air_whatsbot.Common.Map.{Map, lookup, lookup-delete, beq_refl}
use air_whatsbot.Sending.Files.{
  FetchError, FileError, attempted, File, FileAnswers, Payload, text_message,
  get_whats_app_media_type, file_message, sent_file, with_upload, with_file, send_file,
}
use air_whatsbot.Sending.Message.{
  Outgoing, Effect, sends, pauses, sender_of, send_files, after_text, sent, cancelled, send_message,
}
use air_whatsbot.Sending.Fetched.{first_of, upload_file_with_retry_lem}

module _ {Err Up : Type 0} where
  -- What three attempts give for a file.
  abbrev pub fetched_bytes : FileAnswers Err Up → FetchError Err ⊎ List ℕ
  fetched_bytes a =
      (first_of (attempted (a.attempts 0)) (attempted (a.attempts 1)) (attempted (a.attempts 2))).1

  abbrev pub listed : FileError Err ⊎ Payload Up → List (Payload Up)
  listed (inl e) = []
  listed (inr m) = m ∷ []

  abbrev pub ready_upload : File → FileAnswers Err Up → Err ⊎ Up → List (Payload Up)
  ready_upload f a (inl e) = []
  ready_upload f a (inr up) = listed (file_message a f up f.kind)

  abbrev pub ready_bytes : File → FileAnswers Err Up → FetchError Err ⊎ List ℕ → List (Payload Up)
  ready_bytes f a (inl e) = []
  ready_bytes f a (inr bytes) = ready_upload f a (a.upload bytes (get_whats_app_media_type f.kind))

  -- The files that are fetched and uploaded and have a known type.
  unfoldable pub ready : List (File × FileAnswers Err Up) → List (Payload Up)
  ready [] = []
  ready ((f, a) ∷ files) = ready_bytes f a (fetched_bytes a) ++ ready files

  sent_file-listed :
      (a : FileAnswers Err Up) (r : FileError Err ⊎ Payload Up) → (sent_file a r).0 ≡ listed r
  sent_file-listed a (inl e) = refl
  sent_file-listed a (inr m) = refl

  with_upload-ready :
      (f : File) (a : FileAnswers Err Up) (r : Err ⊎ Up)
      → (with_upload a f r).0 ≡ ready_upload f a r
  with_upload-ready f a (inl e) = refl
  with_upload-ready f a (inr up) = sent_file-listed a (file_message a f up f.kind)

  with_file-ready :
      (f : File) (a : FileAnswers Err Up) (r : FetchError Err ⊎ List ℕ)
      → (with_file a f r).0 ≡ ready_bytes f a r
  with_file-ready f a (inl e) = refl
  with_file-ready f a (inr bytes) =
      with_upload-ready f a (a.upload bytes (get_whats_app_media_type f.kind))

  send_file-ready :
      (f : File) (a : FileAnswers Err Up) → (send_file a f).0 ≡ ready_bytes f a (fetched_bytes a)
  unfolding send_file
  send_file-ready f a =
      ap (λ (r : List ℕ × (FetchError Err ⊎ List ℕ)). (with_file a f r.1).0)
        (upload_file_with_retry_lem a.attempts)
      ∙ with_file-ready f a (fetched_bytes a)

  send_files-ready : (files : List (File × FileAnswers Err Up)) → send_files files ≡ ready files
  unfolding send_files ready
  send_files-ready [] = refl
  send_files-ready ((f, a) ∷ files) = rw (send_file-ready f a, send_files-ready files) refl

  -- What goes out before the typing ends: with an error only the text; without one the text, if there
  -- is any, and every file that is ready.
  abbrev pub IsSent : Outgoing Err Up → List (Payload Up) → Option Err → Type 0
  IsSent m out (some e) =
      (out ≡ text_message m.text ∷ []) × (m.send_text ≡ some e) × (m.text == "" ≡ false)
  IsSent m out none = out ≡ (if m.text == "" then [] else text_message m.text ∷ []) ++ ready m.files

  after_text-IsSent :
      (m : Outgoing Err Up) (o : Option Err)
      → m.send_text ≡ o
      → m.text == "" ≡ false
      → IsSent m (after_text m o).0 (after_text m o).1
  after_text-IsSent m none e n =
      rw n (ap (λ fs. text_message m.text ∷ fs) (send_files-ready m.files))
  after_text-IsSent m (some err) e n = (refl, e, n)

  sent-IsSent : (m : Outgoing Err Up) → IsSent m (sent m).0 (sent m).1
  sent-IsSent m = elim (Bool-cases (m.text == "")) [
    | inl y ↦ rw y (rw y (send_files-ready m.files))
    | inr n ↦ rw n (after_text-IsSent m m.send_text refl n)
  ]

  -- What is sent, then the end of the typing of the sender, and no other's.
  abbrev pub IsEnded :
      String → Outgoing Err Up → Map ℕ ℕ → (List (Effect Up) × Option Err) × Map ℕ ℕ → Type 0
  IsEnded user m typing ((effects, error), typing') =
      (out : List (Payload Up)) × IsSent m out error
      × (effects ≡ map sends out ++ cancelled (lookup (sender_of user) typing) ++ pauses ∷ [])
      × (lookup (sender_of user) typing' ≡ none)
      × ((other : ℕ)
          → (sender_of user == other) ≡ false
          → lookup other typing' ≡ lookup other typing)

  -- Whatever the downloads, the uploads and WhatsApp answer: if the text is not sent, that is the error
  -- and no file is sent; else there is no error, and after the text every file that is fetched in three
  -- attempts, is uploaded and has a known type is sent, in their order, whichever of the others fail.
  -- In each case the typing context of the sender is then cancelled and removed, no other's is, and the
  -- status is set to paused last.
  pub send_message_lem :
      (user : String) (m : Outgoing Err Up) (typing : Map ℕ ℕ)
      → IsEnded user m typing (send_message user m typing)
  unfolding send_message
  send_message_lem user m typing = (
    (sent m).0,
    sent-IsSent m,
    refl,
    lookup-delete (sender_of user) (sender_of user) typing ∙ rw (beq_refl (sender_of user)) refl,
    λ other n. lookup-delete (sender_of user) other typing ∙ rw n refl,
  )
