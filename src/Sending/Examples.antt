-- ===== src/Sending/Examples.antt =====
-- The sending of a message on a concrete one.
use air_whatsbot.Common.{ℕ, ◌≡◌, refl, String, none, [], ◌∷◌, inr, nat_eq, nat_beq, if◌then◌else◌}
use air_whatsbot.Sending.Files.{
  Attempt, responds, no_response, photo, doc, File, FileAnswers, upload_file_with_retry, rounds,
  scan, mime_type, get_mime_type_from_filename,
}
use air_whatsbot.Sending.Message.{Outgoing, send_message, parse_saturated, sender_of}
use air_whatsbot.Sending.Ended.{IsEnded, send_message_lem}

-- The server answers 415 once, and then the file.
abbrev second_time : ℕ → Attempt String
second_time n = if nat_beq n 0 then responds 415 (inr []) else responds 200 (inr (1 ∷ 2 ∷ []))

waits_once : upload_file_with_retry second_time ≡ (1 ∷ [], inr (1 ∷ 2 ∷ []))
unfolding upload_file_with_retry rounds
waits_once = refl

abbrev picture : File
picture = record { kind = photo; file_name = "a.b/cat.JPG"; caption = "a cat" }

abbrev paper : File
paper = record { kind = doc; file_name = "paper.pdf"; caption = "" }

abbrev works : FileAnswers String ℕ
works = record { attempts = second_time; upload = λ bytes media. inr 5; send_file_message = none }

abbrev fails : FileAnswers String ℕ
fails = record {
  attempts = λ n. no_response "down";
  upload = λ bytes media. inr 5;
  send_file_message = none;
}

abbrev message : Outgoing String ℕ
message = record { text = "look"; files = (paper, fails) ∷ (picture, works) ∷ []; send_text = none }

send_message_lem_example :
    IsEnded "79001112233" message
      ((79001112233, 1) ∷ [])
      (send_message "79001112233" message ((79001112233, 1) ∷ []))
send_message_lem_example = send_message_lem "79001112233" message ((79001112233, 1) ∷ [])

sends_jpeg : get_mime_type_from_filename "a.b/cat.JPG" ≡ "image/jpeg"
unfolding get_mime_type_from_filename mime_type scan
sends_jpeg = refl

-- A user that is no number is the sender 0, and one with too many digits the largest.
reads_sender : (sender_of "12a" ≡ 0) × (sender_of "99999999999999999999" ≡ 18446744073709551615)
unfolding parse_saturated
reads_sender = (refl, refl)
