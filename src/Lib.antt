-- ===== src/Lib.antt =====
-- The host side of the analyzer of ZygiskAIRuntime: the Python package ZygiskAIRuntime/ai_analyzer, by
-- which an MCP server drives a runtime on a device. Messages are JSON objects in length-prefixed
-- frames; a session is opened by a handshake and replaced at each reconnection; the tools of the server
-- are specified in a table and shown or hidden by groups and by the capabilities of the session.
--
-- Which file models which part (paths under ZygiskAIRuntime/ai_analyzer):
--   Json.antt                 the values of a message, dicts as lists of entries in order
--   Protocol/Errors.antt      protocol/errors.py: the codes, their table, ProtocolError, to_dict
--   Protocol/Errors/Made.antt protocol/errors.py: the usual errors, from bad_args to internal
--   Protocol/Constants.antt   protocol/constants.py
--   Protocol/Commands.antt    protocol/commands.py: the register _ALL and what is derived from it
--   Protocol/Frame.antt       protocol/frame.py: encode_frame, decode_frame, FrameDecoder
--   Protocol/Messages.antt    protocol/messages.py: the nine make_ functions
--   Protocol/Messages/Check.antt   protocol/messages.py: validate and the checks of a connection
--   Tools/Spec.antt           tools/spec.py: ToolSpec and the fragments of JSON Schema
--   Tools/Specs.antt          tools/specs.py: CORE_SPECS, EXPERT_SPECS and their tables, with one child
--                             per group of tools
--   Tools/Handlers.antt       tools/handlers.py: the names of the handlers' methods
--   Tools/Handlers/Calls.antt tools/handlers.py: the command and the payload that each method sends
--   Host/RuntimeBridge.antt   host/runtime_bridge.py: the gates of RuntimeBridge.call, the capabilities
--   Host/ErrorMapping.antt    host/error_mapping.py
--   Host/Adb.antt             host/adb.py
--   Host/Surfaces.antt        host/surfaces.py: SurfaceManager
--   Host/Registry.antt        host/registry.py and host/server.py: the registration check and
--                             build_server
--   Bridge/Transport.antt     bridge/transport.py: Endpoint and parse_endpoint
--   Bridge/Session.antt       bridge/session.py: Session and SessionManager
--   Bridge/Client.antt        bridge/client.py: _dispatch, the verdict of _heartbeat_loop, _on_link_lost,
--                             _fail_all_pending and _send of BridgeClient
--   Bridge/Handshake.antt     bridge/client.py: _await_message and _handshake
--   Bridge/Calls.antt         bridge/client.py: call up to its wait and after it
--   Bridge/Jobs.antt          bridge/client.py: submit_job and await_job
--   Bridge/Heartbeat.antt     bridge/client.py: the ping of _heartbeat_loop, events, drain_events
--   Bridge/Connect.antt       bridge/client.py: connect, close and _reconnect_loop
--   Bridge/Lifecycle.antt     bridge/client.py: all of these as steps that follow one another
--   Mock/State.antt           mock/state.py: modules, memory reads, hooks and jobs of MockRuntimeState
--   Mock/Device.antt          mock/state.py: its threads, connections and packets
--   Mock/Initial.antt         mock/state.py: what the state is at the start, and its status
--   Mock/Commands.antt        mock/server.py: the commands on jobs and hooks
--   Mock/Queries.antt         mock/server.py: the commands that only read
--   Mock/Hooking.antt         mock/server.py: runtime.hook with the events that it sends
--   Mock/Server.antt          mock/server.py: _handle, from a message to its answer
--   Mock/Serving.antt         mock/server.py: _read_message, _do_handshake and the loop of _serve
--   Python.antt               what of Python's own library is a parameter
-- The other children hold lemmas and theorems about their parent. Base.antt passes the libraries'
-- names on and adds Boolean tests, lists over the native numbers, signed integers and texts. Tests.antt
-- runs definitions on concrete inputs.
--
-- How the code corresponds. A class is a record and a method a function from the record to the new
-- record with its result; a ProtocolError is a value (Result, or Outcome where Python's own exceptions
-- can occur too). The clock and random ids are arguments. The JSON library is the parameter JsonCodec:
-- what it must do is a hypothesis where a theorem relies on it (Survives: it reads back what it
-- wrote). Importing modules is Python's machinery: what it reports is the argument load_problems. A
-- text that Python writes with !r or as a list is written by quoted or joined by commas; it only stands
-- in the messages of errors.
--
-- Bounds and fuel. The loop of FrameDecoder.feed runs on fuel, one more than there are bytes: each
-- round takes a frame of five bytes or more, so it never runs out. A length is four bytes, and 8 MiB at
-- most.
--
-- How the parts meet. A client and a server exchange the messages of Protocol over frames: the frames
-- of the one are the input of the other's decoder, in any pieces. The client's threads are steps in any
-- order (Lifecycle); the server handles one message at a time (Server), and what it sends is delivered
-- to the client in order (Client/Replies).
--
-- Not modelled: sockets and threads (the rest of bridge/transport.py), the round-trip time that the
-- client measures, what four handlers make of an answer (process_modules, packet_list, packet_hex and
-- session_capabilities), the MCP library, the adb program itself, the command line, the listening socket
-- of the mock runtime and its switches for tests, and the C++ and shell code for the device.
-- A session id that is no text, or capabilities that are no object, which the client would store as they
-- are, are outside the model of connect.
pub mod Base
pub mod Json
pub mod Protocol
pub mod Python
pub mod Tools
pub mod Host
pub mod Bridge
pub mod Mock
pub mod Tests
