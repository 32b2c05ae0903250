-- ===== src/Lib.antt =====
-- OpenFriend, a bridge that lets the friends on the list of Minecraft Java Edition join a server
-- through WebRTC. The program's parts and the files that model them:
--
-- internal/bridge. `HostManager` accepts join requests and offers of friends and keeps one
-- `hostSession` for each session id; a session relays what the friend's data channel delivers to a
-- `TCPBridge` to the Minecraft server, and rewrites the first packet, the Handshake, when a bypass
-- key is set. `JoinManager` is the other end: it listens for a local client and asks a friend for
-- a session.
--   Bridge/VarInt.antt: `writeVarInt`, `readVarInt`. The loops run on the rounds left; five are
--     what an int32 needs, as the round trip shows.
--   Bridge/Handshake.antt and below: the packet, its frame, the strings and `InjectBypassMarker`.
--   Bridge/Session.antt and below: `Session`, the WebRTC connection; what the library under it
--     answers is an argument, and its calls are logged in the state.
--   Bridge/Tcp.antt: `Feed` and `Close` of `TCPBridge`, over the outcomes of the writes to come.
--   Bridge/Pump.antt and below: the loops from a TCP connection to the data channel, `readLoop` with
--     the callback of `attachTCP`, and `startTcpBridge`. A loop is run over rounds that the network decides.
--   Bridge/HostSession.antt: `onPeerData`, `feedHandshake`, `attachTCP`, `close` of `hostSession`.
--   Bridge/Host.antt: the handlers of `HostManager`, over a heap of sessions, so that a session
--     that was replaced in the table lives on; `onClose` of a bridge, which takes the manager's lock,
--     is a step of the manager behind the session's own, and a lock that is held for good is a flag of
--     the state. Bridge/Host/Runs.antt has the sequences of events, Bridge/Host/Hanging.antt the hang.
--   Bridge/Join.antt: `JoinManager` and `joinSession`, where each wait of `handleIncoming` ends in
--     a step of its own, so that `Close` and messages come between.
-- internal/api. One `Client` for the friends and the presence endpoint, with ETags, caches, a
-- retry after 401 and a cooldown after 429.
--   Api/Client.antt (client.go), Api/Friends.antt, Api/Presence.antt, Api/Cache.antt,
--   Api/Resolve.antt (resolve.go), Api/Dtos.antt.
-- internal/presence. Presence/Refresher.antt: the poll of the friends list that tells an observer
-- what changed. Presence/Broadcaster.antt: the loop that posts the presence.
-- internal/ipc. The methods of the JSON-RPC interface that start and stop the rest.
--   Ipc/Hosting.antt and below: methods_host.go, over the list of what runs in the background;
--     `hostStart` is also there in two halves, since the lock is free between them.
--   Ipc/Server.antt: `dispatch`, the protocol and the writer, whose lines are a list of messages.
--   Ipc/Methods.antt, Ipc/Methods/Friends.antt: methods.go over the session, the client and the
--     blocklist of the other files. Ipc/Blocklist.antt: the blocklist and its file. Ipc/Observer.antt:
--     the notifications of the refresher's observer.
--   Ipc/Watch.antt, Ipc/Search.antt: the presence watch and `friendsSearch` of methods_watch.go.
-- internal/auth. Signing in: the device code, the exchange of tokens, the credentials file and the
-- session that keeps the tokens fresh for the client and the methods.
--   Auth/Net.antt, Auth/DeviceCode.antt (devicecode.go), Auth/Mojang.antt (mojang.go, xbox.go): over a
--     world that the HTTP client and the clock change. `PollForMsToken` runs on fuel; one round more
--     than the intervals that cover the lifetime of the code is enough; without enough fuel the call
--     counts as one that has not returned.
--   Auth/Store.antt (store.go, crypto.go): the files, and the encoders as arguments.
--   Auth/Session.antt (session.go): what other goroutines do while the lock is free is an argument.
-- internal/signaling. The WebSocket client that carries the messages between peers.
--   Signaling/Client.antt (client.go, transport.go): the goroutines as counters, their steps as events.
--   Signaling/Dispatch.antt, Signaling/Rpc.antt (jsonrpc.go, turn.go), Signaling/Messages.antt.
-- internal/bypass. Bypass.antt: the key file (key.go).
-- internal/util. Util.antt: the texts of a UUID.
-- internal/update. Update.antt: the check for a newer release.
--
-- A handler is one atomic step unless its file says otherwise. What a library, the network, the
-- clock or the server answers is an argument: HMAC-SHA-256, random bytes, `strings.EqualFold`, the
-- outcomes of requests and writes. A UUID is a number, an int32 or an int its bit pattern, a
-- byte slice or an ASCII string the list of its bytes.
--
-- Not modelled: the reading of images and their upload, the replacement of the executable, the
-- watch of friends, the status file, the log handler, and the command line. They are I/O for the
-- most part, or stand behind the arguments named above.
pub mod Prelude
pub mod Bridge
pub mod Bypass
pub mod Api
pub mod Auth
pub mod Signaling
pub mod Update
pub mod Util
pub mod Ipc
pub mod Presence
pub mod Examples
