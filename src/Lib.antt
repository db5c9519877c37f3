-- ===== src/Lib.antt =====
-- A model of jota-gateway, the gateway between voice clients (WebSocket) or HTTP callers on one side
-- and the orchestrator OpenClaw, a transcriber and a text-to-speech service on the other. Source
-- paths below are relative to src/jota_gateway/.
--
-- How the parts interact. A bridge (services/bridge.py) stands for one connected client. A turn of
-- its user registers a queue under its session key with the TurnRegistry, sends `chat.send`, and
-- reads the queue until the reply ends. One task reads the frames of the only connection to OpenClaw
-- and gives them to the FrameDispatcher, which puts each one on the queue of the turn that owns its
-- session or, if there is none, hands it to the client's bridge as a push; a full queue flags the
-- turn for abort and never makes the dispatcher wait. What a client is sent goes through its
-- QueuedSender. Around this stand the checks of who calls and which agent a caller may use, the
-- records of the sessions, and what keeps the connections to the services alive.
--
-- Files, and the code that they model:
--   Prelude/          no code of the repository: Python's text, lists, dictionaries and JSON values
--   OpenClaw/Queue, OpenClaw/TurnRegistry, OpenClaw/ClientRegistry: services/openclaw/registry.py
--     (`asyncio.Queue` as far as it is used, `TurnRegistry`, `ClientRegistry`), core/session_key.py
--   OpenClaw/Dispatcher: services/openclaw/dispatcher.py (`FrameDispatcher`)
--   OpenClaw/ChatText: services/openclaw/chat_text.py (`ChatTextTracker`)
--   OpenClaw/TurnStream: services/openclaw/client.py (`stream_response`) and
--     services/openclaw/models.py (`ToolCallEvent`)
--   Bridge/Push: services/bridge.py (the push worker: `on_push_turn_start` to `_push_worker_loop`,
--     and its part of `close_all`); Bridge/Watchdogs: the same file (`_transcription_watchdog`,
--     `_idle_watchdog`, `_turn_in_flight`)
--   Access/AgentPolicy: core/agent_policy.py; Access/Network: core/network.py;
--   Access/Callers: api/openai_routes.py (`resolve_ha_caller`, `list_models`, what a completion runs
--     as) and api/deps.py
--   Session/Outbound: services/outbound.py (`QueuedSender`)
--   Session/Registry: services/session_registry.py; Session/Tracker: services/pipeline_tracker.py
--   Reconnection, Reconnection/Gate, Reconnection/Backoff: services/reconnection.py
--   Reconnection/Tts: services/tts_reconnecting.py; Reconnection/OpenClaw:
--     services/openclaw/reconnecting.py
--   Access/Clients: api/admin_routes.py (the clients and their keys) and services/db_client.py
--   Session/Handshake: api/routes.py (`gateway_websocket`)
--   OpenClaw/Frames: services/openclaw/frames.py; OpenClaw/Connection: services/openclaw/client.py
--     (`_do_connect` and the limit of a frame) and services/openclaw/models.py (`GatewayInfo`);
--     OpenClaw/Listening: client.py (`_listen`); OpenClaw/Orchestration: services/orchestration.py
--   Bridge/UserTurns: services/bridge.py (`_start_turn`, `_cancel_turn`, `_call_orchestrator`, the turn in
--     `close_all`); Bridge/Input: the same file (`_client_input_loop`, `_on_transcription`,
--     `_on_transcriber_status`, `health_check`)
--   Speech/Pacing: services/pacing.py; Speech/Gate: services/speech/audio.py (`EnergyGate`)
--   Speech/Errors, Speech/Stt: services/speech/elevenlabs/common.py and stt.py in the same folder
--   Examples/         the theorems at concrete inputs
-- A file Name.antt holds the data and the functions, and the files of the folder Name/ its theorems.
--
-- State is passed on explicitly. Queues are shared objects (the registry and the reader of a turn hold
-- the same one), so they live in a store and are named by numbers. A coroutine is cut at its
-- awaits: each stretch between two of them is a step, and the theorems are about every list of
-- steps. Times are natural numbers of milliseconds and come as arguments. An exception is a result.
--
-- Fuel: `reconnect_loop` takes one unit for an attempt. More than `start + max_duration + 1` is enough,
-- because each pause takes at least one millisecond on the clock. `force_put_loop` takes as much fuel as the
-- queue has items, and one more. `split_frames` and `send_buffer` take as much as the audio has bytes,
-- which is enough because each round takes at least one. `idle_watchdog` takes one unit for a round, and
-- each of its sleeps takes at least a millisecond.
--
-- Not modelled: logging; the web framework, SQLite, the sockets and `ipaddress` (arguments,
-- where something depends on them: the answer of the database to a look-up and to a commit, the library of addresses, the outcome
-- of a send or of an attempt, what the server of a socket answers); the streaming of HTTP answers; the
-- contents of a turn of the user, and the steps of `close_all` that are not about turns; the adapters of
-- the speech services but the transcriber of ElevenLabs; configuration, start-up, migrations and the
-- command line.
pub mod Prelude
pub mod Reconnection
pub mod OpenClaw
pub mod Access
pub mod Session
pub mod Speech
pub mod Bridge
pub mod Examples
