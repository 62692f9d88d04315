-- ===== src/Messages/Files.antt =====
-- `ExtractFilesFromMessage` of internal/whatsapp/messages/messages.go.
use air_whatsbot.Common.{
  ℕ, String, Option, none, some, List, [], ◌∷◌, string_eq, ◌==◌, if◌then◌else◌,
}
use Prim.Native.String.{◌++◌ as ◌<>◌}
use air_whatsbot.Messages.{Event, Content, Media}

pub record FileUpload : Type 0 where
  pub name : String
  pub content : List ℕ
  pub mimetype : String

-- A file that is there if the download goes well; `none` is an error, which is only logged
abbrev pub downloaded : Media → String → Option (List ℕ) → List FileUpload
downloaded media name none = []
downloaded media name (some bytes) =
    record { name = name; content = bytes; mimetype = media.mimetype } ∷ []

abbrev pub document_name : Media → String → String
document_name doc id = if doc.file_name == "" then "document_" <> id else doc.file_name

module _ (download : Media → Option (List ℕ)) where
  abbrev pub audio_file : String → Option Media → List FileUpload
  audio_file id none = []
  audio_file id (some audio) =
      if audio.ptt then [] else downloaded audio ("audio_" <> (id <> ".ogg")) (download audio)

  abbrev pub video_file : String → Content → Option Media → List FileUpload
  video_file id c none = audio_file id c.audio
  video_file id c (some video) = downloaded video ("video_" <> (id <> ".mp4")) (download video)

  abbrev pub document_file : String → Content → Option Media → List FileUpload
  document_file id c none = video_file id c c.video
  document_file id c (some doc) = downloaded doc (document_name doc id) (download doc)

  abbrev pub image_file : String → Content → Option Media → List FileUpload
  image_file id c none = document_file id c c.document
  image_file id c (some image) = downloaded image ("image_" <> (id <> ".jpg")) (download image)

  abbrev pub files_of : String → Option Content → List FileUpload
  files_of id none = []
  files_of id (some c) = image_file id c c.image

  abbrev pub event_files : Option Event → List FileUpload
  event_files none = []
  event_files (some e) = files_of e.id e.message

-- ExtractFilesFromMessage(msg, ctx, download); `none` is a nil function
unfoldable pub extract_files_from_message :
    Option Event → Option (Media → Option (List ℕ)) → List FileUpload
extract_files_from_message msg none = []
extract_files_from_message msg (some download) = event_files download msg
