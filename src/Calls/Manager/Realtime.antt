-- ===== src/Calls/Manager/Realtime.antt =====
-- `resolvePeer`, `startRealtime` with the goroutine of its events, and `watchTimeout` of calls.go.
-- The audio goroutines of `startRealtime` are in Calls/Audio.
use air_whatsbot.Common.{
  ℕ, String, Bool, true, false, Option, none, some, ◌⊎◌, inl, inr, ◌==◌, string_eq, not, ◌&&◌,
  if◌then◌else◌, Run, done, ◌>>=◌,
}
use air_whatsbot.Common.Decimal.{codes, parse_uint}
use air_whatsbot.Calls.Hub.{CallEvent}
use air_whatsbot.Calls.Manager.State.{
  Manager, Host, Jid, counts_response, starts_session, log, put_session,
}
use air_whatsbot.Calls.Manager.Sessions.{emit_event, fail_realtime}

-- What the model library answers. `none` for an error is nil.
pub record Core (Err Ch : Type 0) : Type 0 where
  pub realtime_provider : Bool
  pub get_ch : ℕ → ℕ → Err ⊎ Ch  -- by the number of the attempt
  pub ensure_user_channels : ℕ → Option Err
  -- GetOrSetRespGPT: whether the model is not nil, and the error
  pub get_or_set_resp : Ch → ℕ → Bool × Option Err
  pub is_empty_data : Err → Bool  -- the text of the error contains "получены пустые данные"
  -- StartSession: whether AudioTx is set, and the error that is waiting in errCh
  pub start_session : Ch → ℕ → Bool × Option Err

pub data RealtimeError (Err : Type 0) : Type 0 where
  no_provider : RealtimeError Err
  no_channel : Err → RealtimeError Err
  model_failed : Err → RealtimeError Err
  no_model : ℕ → RealtimeError Err
  start_failed : Err → RealtimeError Err
  not_started : ℕ → RealtimeError Err

module _ {Err File : Type 0} where
  abbrev pub response_count : String → Manager Err File → Manager Err File
  response_count kind m =
      if kind == "response_done" then log (counts_response "response_done") m else m

  -- The session after `session.respID, session.source = respID, source`
  abbrev pub connected : ℕ → ℕ → Manager Err File → Manager Err File
  connected p resp_id m =
      put_session p (record (m.sessions p) { resp_id = resp_id; source_closed = some false }) m

module _ {Err Ch File : Type 0} (host : Host Err File) (core : Core Err Ch) where
  open core use {
    realtime_provider, get_ch, ensure_user_channels, get_or_set_resp, is_empty_data, start_session,
  }

  abbrev alternative : Jid → Option Jid → Jid
  alternative peer none = peer
  alternative peer (some alt) =
      if (alt.server == host.default_user_server) && not (alt.user == "") then alt else peer

  -- m.resolvePeer(peer); `none` is an error
  unfoldable pub resolve_peer : Jid → Option ℕ
  resolve_peer peer =
      let peer' =
        if peer.server == host.default_user_server
        then peer
        else alternative peer (host.alt_jid peer) in
      parse_uint 64 (codes peer'.user)

  abbrev channel_retry : Err → Option Err → Err ⊎ Ch → Err ⊎ Ch
  channel_retry err (some _) second = inl err
  channel_retry err none second = second

  abbrev pub channel_of : ℕ → Err ⊎ Ch → Err ⊎ Ch
  channel_of resp_id (inr ch) = inr ch
  channel_of resp_id (inl err) = channel_retry err (ensure_user_channels resp_id) (get_ch 1 resp_id)

  abbrev tolerated : Option Err → Option Err
  tolerated none = none
  tolerated (some e) = if is_empty_data e then none else some e

  abbrev model_error : ℕ → Bool × Option Err → Option (RealtimeError Err)
  model_error resp_id (has_model, err) = elim (tolerated err) [
    | some e ↦ some (model_failed e)
    | none ↦ if has_model then none else some (no_model resp_id)
  ]

  abbrev start_error : ℕ → Bool × Option Err → Option (RealtimeError Err)
  start_error resp_id (true, waiting) = none
  start_error resp_id (false, some e) = some (start_failed e)
  start_error resp_id (false, none) = some (not_started resp_id)

  abbrev pub start_reply :
      ℕ
      → ℕ
      → Manager Err File
      → Option (RealtimeError Err)
      → Option (RealtimeError Err) × Manager Err File
  start_reply p resp_id m (some e) = (some e, m)
  start_reply p resp_id m none = (none, connected p resp_id m)

  abbrev pub start_model :
      ℕ
      → ℕ
      → Ch
      → Manager Err File
      → Option (RealtimeError Err)
      → Option (RealtimeError Err) × Manager Err File
  start_model p resp_id ch m (some e) = (some e, m)
  start_model p resp_id ch m none =
      start_reply p resp_id (log (starts_session resp_id) m)
        (start_error resp_id (start_session ch resp_id))

  abbrev pub start_channel :
      ℕ → ℕ → Manager Err File → Err ⊎ Ch → Option (RealtimeError Err) × Manager Err File
  start_channel p resp_id m (inl e) = (some (no_channel e), m)
  start_channel p resp_id m (inr ch) =
      start_model p resp_id ch m (model_error resp_id (get_or_set_resp ch resp_id))

  abbrev pub start_provider :
      ℕ → ℕ → Manager Err File → Bool → Option (RealtimeError Err) × Manager Err File
  start_provider p resp_id m false = (some no_provider, m)
  start_provider p resp_id m true =
      start_channel p resp_id m (channel_of resp_id (get_ch 0 resp_id))

  -- m.startRealtime(session, respID), for the session `p`; `none` is a nil error
  unfoldable pub start_realtime :
      ℕ → ℕ → Manager Err File → Option (RealtimeError Err) × Manager Err File
  start_realtime p resp_id m = start_provider p resp_id m realtime_provider

module _ {Err File : Type 0} (host : Host Err File) where
  -- One event of the realtime session, in the goroutine that `startRealtime` starts for the
  -- session `p`; the Bool says whether the goroutine goes on.
  unfoldable pub realtime_event :
      ℕ → CallEvent Err File → Manager Err File → Run (Bool × Manager Err File)
  realtime_event p event m = emit_event host p event m >>= λ m'.
      (if event.kind == "error"
        then (fail_realtime host (m.sessions p).call_id m' >>= λ m''. done (false, m''))
        else done (true, response_count event.kind m'))
