-- ===== src/Lib.antt =====
-- air_whatsbot: the WhatsApp bots of the users of an assistant. Each user has a bot with a WhatsApp
-- account; the bot passes messages on to a model and lets callers talk to it in realtime. This library
-- models the program's own logic; WhatsApp, the model, the databases and the cipher are libraries that
-- it calls, and stand here as the answers that they give.
--
-- The parts, by the file that models each. Paths of the program are from the repository's root.
--
-- Calls (internal/whatsapp/calls). A `Manager` keeps the active calls of one bot in a map from the call
--   ID to a session; each session has a hub that passes the call's events to its subscribers, and audio
--   goes between the call and the model.
--   Calls/Hub        events.go. `World` is an eventHub with the channels of its subscribers; the mutex
--                    makes `publish`, `subscribe`, `unsubscribe` and `close` steps of their own. A send
--                    on a closed channel and a second close are panics, a send on a full channel blocks
--                    (Common/Outcome). The sequence number wraps at 2^64.
--   Calls/Audio      audio.go and the two media loops of `startRealtime` in calls.go. Pcm holds
--                    amplifyPCM16 and pcm16At16k, exact over whole numbers; Upsample holds pcm16At24k
--                    over any float32; Media and Playback the loops; Source the queue of frames, as a
--                    step relation in which pushes, reads, closes and a cancellation interleave. The
--                    loops that cut pieces run on the length of what is pending as fuel, which is
--                    enough since a round takes at least one element.
--   Calls/Manager    calls.go. State holds `Manager`, `callSession` and the answers of the bot and the
--                    libraries; Sessions the life of a session; Realtime resolvePeer and startRealtime;
--                    Outgoing handleIncoming and InitiateOutgoing; Watch the timeouts. A session is a
--                    number in a heap, so that the map and the goroutines share it. What leaves the
--                    manager (metrics, hangups, notifications) is a log of effects. Methods are steps:
--                    the interleaving of two methods inside is not modelled.
-- Incoming (internal/whatsapp/bot_message.go, bot_event.go). From an event of WhatsApp to the assistant.
--   Effects          what the handling of a message does, in order, and how it is counted.
--   Delivery         processMessage, Receive handleMessage and processVoiceMessage, Events handleEvent.
--                    The answers of each call are a field of a record; the map of responders is passed
--                    on. Messages are handled one after another, and the goroutine of the first contact
--                    is a step before or after the handler.
-- Auth (internal/whatsapp/auth, internal/whatsapp/user_auth.go). Registry holds the running QR
--   authorisations; Flow is AuthenticateWithQR over the map of bots of Bots/Lifecycle.
-- Facade (internal/whatsapp/whatsapp.go, user_calls.go). The object of all users: Operator holds the
--   operator mode, Shutdown the stop of all bots as a step relation over its goroutines, Starting the
--   start, Routing the calls by their user, over the managers of Calls/Manager.
-- Sending (internal/whatsapp/bot_media.go). Files holds sendFile with the fetching of a file and its MIME
--   type, Message sendMessage with the end of the typing status. The three rounds of the fetching are
--   its fuel.
-- Servers (internal/whatsapp/handlers, internal/delivery/rpc/server.go). The requests from outside: Http
--   holds ReadUID and the HTTP handlers over the map of bots, Rpc StartOutgoingCall and HangupCall
--   over Facade/Routing.
-- Devices (internal/whatsapp/devicestore). Normal holds the normalisation of keys and signatures, Restore
--   ParseUserBotContainer and SaveJSON. A slice out of range is a panic (Common/Outcome).
-- Contacts (internal/whatsapp/contacts). The stream of contacts and groups: Hash the numbers of the JIDs,
--   People and Groups the two goroutines, Stream what follows them.
-- Responder (internal/whatsapp/responder, internal/whatsapp/bot_responder.go). The people who
--   write to a bot: the announcement of a first contact, the marks in Redis, the repair of records.
-- Messages (internal/whatsapp/messages). What the bot reads off a message, and which it ignores.
-- Account (internal/whatsapp/master_key.go, reauth.go, user_subscription.go). The cache of the master
--   keys, the repeated authorisation, the check of the subscription.
-- App (internal/app/master_key.go). Keys is the second cache of master keys, as a step relation over the
--   goroutines that ask it.
-- Bots (internal/whatsapp/user_bots.go, bot_lifecycle.go, bot_calls.go). The bots of the users, as
--   numbers in a heap of bots with a map from the user: starting, stopping, restarting, the reset of a
--   session, and the list of the callers that a bot lets in.
-- Dialogs (internal/whatsapp/bot_channels.go). Channels holds how the channels of a dialogue begin,
--   Listener the loop over the assistant's answers, Answering where startResponseListener sends them.
-- Common. Numbers, lists, maps, channels and outcomes that the parts share.
--
-- Not modelled: logging; metrics that nothing reads; the pauses of the code; generated code and SQL; the
-- start of the typing status; the WebSockets and the stream of a call's events
-- over RPC, which pass requests on; the wiring of the application.
pub mod Account
pub mod App
pub mod Auth
pub mod Bots
pub mod Calls
pub mod Common
pub mod Contacts
pub mod Devices
pub mod Dialogs
pub mod Facade
pub mod Incoming
pub mod Messages
pub mod Responder
pub mod Sending
pub mod Servers
