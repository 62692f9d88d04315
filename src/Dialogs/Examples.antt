-- ===== src/Dialogs/Examples.antt =====
-- The theorems of the dialogues on concrete ones.
use air_whatsbot.Common.{◌≡◌, refl, String, true, false, none, some, List, [], ◌∷◌, inr}
use air_whatsbot.Dialogs.Channels.{
  Provider, cleans_dialog, listens, starts, init_user_channels, dialog_id_for_user,
}
use air_whatsbot.Calls.Manager.State.{Jid}
use air_whatsbot.Responder.{Info}
use air_whatsbot.Dialogs.Listener.{Answer}

-- A channel that survived, with its Rx closed.
abbrev provider : Provider String
provider = record {
  resolver = true;
  model = true;
  assistant = true;
  dialog_id = inr 5;
  existing_ch = inr false;
  resp_model = none;
  user_ch = none;
  is_empty_data = λ e. false;
  on_listen = true;
  on_start = some none;
}

begins_again :
    init_user_channels provider 7 9 ≡ (none, cleans_dialog 5 ∷ listens 9 ∷ starts 5 9 ∷ [])
unfolding init_user_channels dialog_id_for_user
begins_again = refl

abbrev answers : List Answer
answers =
    record {
      kind = "assist";
      operator = true;
      set_operator = true;
      content = "hello";
      file_names = [];
      meta = none;
    }
    ∷ record {
      kind = "user";
      operator = false;
      set_operator = false;
      content = "hi";
      file_names = [];
      meta = none;
    }
    ∷ []

abbrev home : Jid
home = record { user = "79001112233"; server = "s.whatsapp.net" }

abbrev responder : Info
responder = record { jid = home; real_phone = ""; known = true }
