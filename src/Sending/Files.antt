-- ===== src/Sending/Files.antt =====
-- `uploadFileWithRetry`, `getMimeTypeFromFilename`, `getWhatsAppMediaType` and `sendFile` of
-- internal/whatsapp/bot_media.go.
use air_whatsbot.Common.{
  ℕ, zero, suc, ◌+◌, ◌-◌, String, Option, none, some, List, [], ◌∷◌, ◌⊎◌, inl, inr, nat_beq, leb,
  ◌&&◌, ◌||◌, if◌then◌else◌, map, not,
}
use air_whatsbot.Common.Decimal.{codes}
use air_whatsbot.Contacts.Groups.{same_codes}

-- What a GET of a file answers: the request cannot be made or does not come through, or a response with
-- its status and what reading its body gives.
pub data Attempt (Err : Type 0) : Type 0 where
  bad_request : Err → Attempt Err
  no_response : Err → Attempt Err
  responds : ℕ → Err ⊎ List ℕ → Attempt Err

pub data FetchError (Err : Type 0) : Type 0 where
  not_requested : Err → FetchError Err
  not_answered : Err → FetchError Err
  unsupported_type : FetchError Err
  http_error : ℕ → FetchError Err
  not_read : Err → FetchError Err
  exhausted : FetchError Err

abbrev pub max_retries : ℕ
max_retries = 3

module _ {Err : Type 0} where
  abbrev pub read_body : Err ⊎ List ℕ → FetchError Err ⊎ List ℕ
  read_body (inl e) = inl (not_read e)
  read_body (inr bytes) = inr bytes

  -- One round of the loop
  abbrev pub attempted : Attempt Err → FetchError Err ⊎ List ℕ
  attempted (bad_request e) = inl (not_requested e)
  attempted (no_response e) = inl (not_answered e)
  attempted (responds status body) =
      if nat_beq status 415
      then inl unsupported_type
      else if not (nat_beq status 200)
      then inl (http_error status)
      else read_body body

  -- After a round: the seconds that are slept, and the result
  abbrev pub next_round :
      ℕ
      → FetchError Err ⊎ List ℕ
      → List ℕ × (FetchError Err ⊎ List ℕ)
      → List ℕ × (FetchError Err ⊎ List ℕ)
  next_round attempt (inr bytes) rest = ([], inr bytes)
  next_round attempt (inl e) rest =
      if nat_beq attempt (max_retries - 1) then ([], inl e) else ((attempt + 1) ∷ rest.0, rest.1)

  -- The loop, by the rounds that are left
  unfoldable pub rounds : (ℕ → Attempt Err) → ℕ → ℕ → List ℕ × (FetchError Err ⊎ List ℕ)
  rounds attempts zero attempt = ([], inl exhausted)
  rounds attempts (suc left) attempt =
      next_round attempt (attempted (attempts attempt)) (rounds attempts left (attempt + 1))

  -- b.uploadFileWithRetry(fileURL, fileName)
  unfoldable pub upload_file_with_retry : (ℕ → Attempt Err) → List ℕ × (FetchError Err ⊎ List ℕ)
  upload_file_with_retry attempts = rounds attempts max_retries 0

-- filepath.Ext, read from the end: nothing seen yet, the separator, or the last dot
pub data Scan : Type 0 where
  unseen separator : Scan
  dot : List ℕ → Scan

abbrev pub scan_code : ℕ → List ℕ → Scan → Scan
scan_code c cs (dot ext) = dot ext
scan_code c cs separator = separator
scan_code c cs unseen =
    if nat_beq c 47 then separator else if nat_beq c 46 then dot (c ∷ cs) else unseen

unfoldable pub scan : List ℕ → Scan
scan [] = unseen
scan (c ∷ cs) = scan_code c cs (scan cs)

abbrev pub ext_of : Scan → List ℕ
ext_of unseen = []
ext_of separator = []
ext_of (dot ext) = ext

-- strings.ToLower, as far as it can give an ASCII letter of the extensions
abbrev pub lower : ℕ → ℕ
lower c = if leb 65 c && leb c 90 then c + 32 else if nat_beq c 304 then 105 else c

-- The switch on the extension
unfoldable pub mime_type : List ℕ → String
mime_type ext =
    if same_codes ext (codes ".jpg") || same_codes ext (codes ".jpeg")
    then "image/jpeg"
    else if same_codes ext (codes ".png")
    then "image/png"
    else if same_codes ext (codes ".gif")
    then "image/gif"
    else if same_codes ext (codes ".webp")
    then "image/webp"
    else if same_codes ext (codes ".mp4")
    then "video/mp4"
    else if same_codes ext (codes ".mp3")
    then "audio/mpeg"
    else if same_codes ext (codes ".ogg")
    then "audio/ogg"
    else if same_codes ext (codes ".pdf")
    then "application/pdf"
    else if same_codes ext (codes ".txt")
    then "text/plain"
    else "application/octet-stream"

-- b.getMimeTypeFromFilename(filename)
unfoldable pub get_mime_type_from_filename : String → String
get_mime_type_from_filename name = mime_type (map lower (ext_of (scan (codes name))))

-- model.FileType and whatsmeow.MediaType
pub data FileType : Type 0 where
  photo video audio doc : FileType
  other_type : String → FileType

pub data MediaType : Type 0 where
  media_image media_video media_audio media_document : MediaType

-- b.getWhatsAppMediaType(fileType)
abbrev pub get_whats_app_media_type : FileType → MediaType
get_whats_app_media_type photo = media_image
get_whats_app_media_type video = media_video
get_whats_app_media_type audio = media_audio
get_whats_app_media_type doc = media_document
get_whats_app_media_type (other_type t) = media_document

-- model.File
pub record File : Type 0 where
  pub kind : FileType
  pub file_name : String
  pub caption : String

-- What is sent: the caption or the name, the MIME type, and what the upload gave
pub data Payload (Up : Type 0) : Type 0 where
  text_message : String → Payload Up
  image_message video_message : String → String → Up → Payload Up
  audio_message : String → Up → Payload Up
  document_message : String → String → Up → Payload Up

-- What the calls for one file answer
pub record FileAnswers (Err Up : Type 0) : Type 0 where
  pub attempts : ℕ → Attempt Err
  pub upload : List ℕ → MediaType → Err ⊎ Up
  pub send_file_message : Option Err

pub data FileError (Err : Type 0) : Type 0 where
  not_fetched : FetchError Err → FileError Err
  not_uploaded : Err → FileError Err
  unsupported_file : String → FileError Err
  not_sent : Err → FileError Err

module _ {Err Up : Type 0} (answers : FileAnswers Err Up) where
  open answers use {attempts, upload, send_file_message}

  -- The switch on the type of the file
  abbrev pub file_message : File → Up → FileType → FileError Err ⊎ Payload Up
  file_message f up photo =
      inr (image_message f.caption (get_mime_type_from_filename f.file_name) up)
  file_message f up video =
      inr (video_message f.caption (get_mime_type_from_filename f.file_name) up)
  file_message f up audio = inr (audio_message (get_mime_type_from_filename f.file_name) up)
  file_message f up doc =
      inr (document_message f.file_name (get_mime_type_from_filename f.file_name) up)
  file_message f up (other_type t) = inl (unsupported_file t)

  abbrev pub send_result : Option Err → Option (FileError Err)
  send_result none = none
  send_result (some e) = some (not_sent e)

  -- What is sent, and the error
  abbrev pub sent_file : FileError Err ⊎ Payload Up → List (Payload Up) × Option (FileError Err)
  sent_file (inl e) = ([], some e)
  sent_file (inr m) = (m ∷ [], send_result send_file_message)

  abbrev pub with_upload : File → Err ⊎ Up → List (Payload Up) × Option (FileError Err)
  with_upload f (inl e) = ([], some (not_uploaded e))
  with_upload f (inr up) = sent_file (file_message f up f.kind)

  abbrev pub with_file : File → FetchError Err ⊎ List ℕ → List (Payload Up) × Option (FileError Err)
  with_file f (inl e) = ([], some (not_fetched e))
  with_file f (inr bytes) = with_upload f (upload bytes (get_whats_app_media_type f.kind))

  -- b.sendFile(jid, file)
  unfoldable pub send_file : File → List (Payload Up) × Option (FileError Err)
  send_file f = with_file f (upload_file_with_retry attempts).1
