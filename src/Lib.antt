-- ===== src/Lib.antt =====
-- Verification of NavCaster, an NTRIP caster: bases send streams of corrections to mount points,
-- rovers subscribe to them, and several nodes share their state through Redis.
--
-- The parts, and the files that model them:
--
-- Rtcm (base/include/decode_rtcm.h, base/src/decode_rtcm.cpp under src/). Rtcm.antt has the members
--   of `decode_rtcm` as the record `Decoder`, and Decode as `decode`, with check_header and
--   get_message. Rtcm/Crc is calCRC24, Rtcm/Fields the bit fields (util_getbitu_64 and what stands on
--   it), Rtcm/Message decode_message with decode_M1005, decode_M1006 and decode_M1032. The body of
--   the loop is cut into the rounds `skip_round`, `message_round`, `search_round` and
--   `decode_round`. The proofs: Rtcm/Counted on the number of messages, Rtcm/Stream, Rtcm/Chunks and
--   Rtcm/Forward on streams in pieces, Rtcm/Frames on whole frames, Rtcm/Reads on bit fields,
--   Rtcm/Station on short messages.
-- Access (core/context/access_group.h, access_item.h and source_record.h, and the checks of
--   core/src/caster_internal.cpp). Access.antt has the policy's maps as the record `Policy` and
--   the checks under their names. The proofs: Access/Rules, Access/Inside.
-- Caster (the rest of core/src/caster_internal.cpp, with broadcast_msg.h). Caster.antt has the maps
--   and settings of a node as the record `Caster`, and the effects of an operation. Caster/Register
--   and Caster/Withdraw have the registrations, Caster/Subscribe the subscriptions, Caster/Notify
--   what arrives from Redis and from other nodes, and the regular checks. The proofs:
--   Caster/Roundtrip, Caster/Kicks, Caster/Offline, Caster/Delivery, Caster/Alias, and on the
--   places of the items Caster/Filing, Caster/Invariant, Caster/Subscribing and
--   Caster/Reachable.
-- Base64 (base/src/base64.cpp). Base64.antt has both directions; Base64/Groups has the lemmas on one
--   group of characters, Base64/Roundtrip those on a text.
-- Auth (auth/src/auth_verify_internal.h and auth_verify_internal.cpp, auth/include/Auth_Verify.h).
--   Auth.antt has the maps of `auth_verify_internal` as the record `AuthVerify`; Limit has the
--   limits of a user and reading them, Verify what Redis answers for a user, Login the login and the
--   logout of a connection, Kick the loop that makes room, Broadcast what a node does with the
--   messages of the others. The proofs: Auth/Verified on the verification, Auth/Kicking,
--   Auth/Protecting and Auth/Newest on the kicks, Auth/Reaching on what a login leaves.
-- Relay (the relay tasks of core/src/caster_internal.cpp, with pull_record.h, push_record.h,
--   pull_status.h and push_status.h). Relay.antt has the records, the statuses and the messages, of
--   a pull and of a push alike; Distribute is the round of the node that distributes, Respond what
--   the node of a task does, Sync the loading of the lists. The proofs: Relay/Told and
--   Relay/Settling on a round that follows a round, Relay/Running on a node that has forgotten.
-- Session (service/session: server_ntrip, client_ntrip, relay_pull, and verify_ntrip_response of
--   ntrip_msg.cpp). Session/Chunk reads and writes a chunked stream; Server, Client and Pull are the
--   sessions of a base, of a rover and of a pull; Response is the test of a caster's answer. The
--   proofs: Session/Decoded and Session/Split on streams in pieces, Session/Ended on the end of a
--   session, Session/Retrying on the tries of a relay.
-- Listener (service/ntrip_listener.h and ntrip_listener.cpp). Listener.antt has the record
--   `ConnectInfo` and the effects; Accept takes new connections, Text cuts a request's texts, Gga looks
--   for a position in them, Headers reads the headers, Request is process_bev_request and what stands
--   under it. The proofs:
--   Listener/Lines and Listener/Credentials on headers as they were sent, Listener/Accepted,
--   Listener/Disposed and Listener/Dispatch on what becomes of the connection.
-- Queue (service/process_queue.cpp, the class Carrier of service/ntrip_global.h, and process_request
--   of service/ntrip_caster.cpp). Queue.antt has the queue of requests and the sessions by their keys;
--   Queue/Drained is about a queue that is worked off.
-- Base has what these share: lists, maps, tests, integers and bits.
--
-- Parts meet in these places: registrations and subscriptions ask the checks of Access with the
-- node's `Policy`, and a registered base has a `Decoder` in the node's map. A login of Auth sends a
-- message for each connection it takes out, which the node of that connection gets in
-- broadcast_response. The listener has Auth verify the user of a request before there is a session,
-- asks Base64 for the name and the password, and asks the core what a mount point is (`Mounts`, where
-- Access has the answers); its requests go through Queue, which starts and stops the sessions. A
-- session asks Auth for its login and then Caster for its registration, and both answers are events
-- of the session.
--
-- Representation. Numbers are natural numbers; bytes are below 256 where a theorem says so. An
-- unordered_map is a list of pairs, `Base.Dict`. A callback is a pair of numbers, and that it is
-- called is an effect; so are the commands to Redis, without the time to live and the texts that
-- are times or JSON. What a callback does to the node is a later operation. The C library's sscanf
-- is a parameter of `sub_base_callback`, and the answer of hiredis one of `sub_near_channel`.
-- The position of a station is the integer in the message, of a tenth of a millimetre. The JSON
-- parser is a parameter of Auth (`JsonReader`), the protobuf texts one of Relay (`RecordTexts`), the
-- lines of libevent and the sscanf of a chunk's size are parameters of Session (`LineReader`), those
-- lines and what is computed with doubles are parameters of Listener (`Reader`), and a key that
-- new_bev makes is an argument. The clock of a `Decoder` gives the second in which each of its
-- messages is decoded, by the message's number.
--
-- Fuel. The headers of a request are read with one line for each byte and one more, since a line has
-- an end. `decode` has one round for each byte of the buffer and one more, since every round drops a
-- byte or ends. sub_base_channel counts its calls, since an alias may lead to an alias.
-- The loop of kicks has one round for each record, since a round takes one out. read_chunks has one
-- call for each byte of its buffer and one more, since a call takes two bytes at least or ends.
--
-- Not modelled: parsing and printing of JSON and protobuf, the HTTP interface, the listener's own
-- socket, the degrees of a position, the other sessions (client_near, source_ntrip, relay_push),
-- the NMEA decoder's work, the uploads and downloads of lists, the regular reports of a node, and the
-- reconnection to Redis. In sub_rover_channel the command's time to live is an int where a text is
-- expected; what that does is not modelled.
pub mod Access
pub mod Auth
pub mod Base
pub mod Base64
pub mod Caster
pub mod Listener
pub mod Queue
pub mod Relay
pub mod Rtcm
pub mod Session
