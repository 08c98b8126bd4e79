-- ===== src/Lib.antt =====
-- aprsc, an APRS-IS server in C: the path of a packet through the server.
--
-- A worker reads a line, checks its callsigns and runs the Q construct algorithm on it
-- (src/incoming.c, src/parse_qc.c). A client logs in before that (src/login.c), and the parser of
-- src/parse_aprs.c tells what the packet is. It goes to the duplicate filter's thread
-- (src/dupecheck.c), which numbers it and puts it in one of two global queues, that the workers
-- send from, as far as the filters of each client let them (src/filter.c), and that a purge
-- empties. Look-up tables go by the hash of src/keyhash.c.
--
-- Files, and the code that each is about:
--
--   Prelude and its children: lists, bytes, searches in bytes, tables, 32-bit signed numbers
--   Packet, Client: the packet buffer, the client connection and the settings (src/worker.h)
--   Passcode, Passcode/Laws: `aprs_passcode` (src/passcode.c)
--   Keyhash, Keyhash/Laws: `keyhash` and `keyhashuc` (src/keyhash.c)
--   Dupecheck: the table and its operations, named as in src/dupecheck.c; Dupecheck/Mangle is the
--     list of damaged forms of `dupecheck_mangle_store`, Dupecheck/Lag the sequence numbers and
--     `global_pbuf_purger`; the other children prove
--   Incoming: `incoming_parse` up to the filled packet buffer (src/incoming.c); Incoming/Error the
--     reasons to drop a packet, Incoming/Callsign the checks of callsigns and paths, Incoming/Quirks
--     quirks mode, Incoming/Entry the rest of `incoming_parse` and `incoming_handler`; Headers,
--     Accepted, Passed, Layout, Queued and Clean prove
--   Dupecheck/Drain: `dupecheck_drain_worker` and the turns of `dupecheck_thread`; its children prove
--   Historydb: the table of src/historydb.c; Chain, Refines and Gauge prove
--   Filter: src/filter.c; Filter/Callsigns is a set of callsigns with its parser, Filter/Stations the
--     tables of entry and weather stations, Filter/Process the filters by callsign and Q construct and the
--     lists of a client, Filter/Range the filters by distance, Filter/Kinds those by recipient, symbol and
--     type, Filter/Igate the support of igates; their children prove
--   Outgoing: `process_outgoing` and what it sends (src/outgoing.c); Sends, Receivers and Progress
--     prove
--   Rwlock, Rwlock/Exclusion: the reader-writer lock (src/rwlock.c) under any interleaving of threads
--   Clientlist, its children Logins and Sound: who is logged in (src/clientlist.c), as events on the buckets
--   Login: `login_handler` and `http_udp_upload_login` (src/login.c); Words are the words of the line,
--     Options the loop over them, Handler the rest; Kept, Checks and Verified prove
--   ClientHeard, ClientHeard/Found: the stations that a client has heard (src/client_heard.c)
--   Qconstruct: `q_process` (src/parse_qc.c), one function for each block of the source in their
--     order; Qconstruct/Parse finds an existing construct, Qconstruct/Drop is `q_dropcheck`; their
--     children and Ends, Branches, Kept, Within, Construct and Fits prove
--   Acl, Acl/Order: the access lists of listeners (src/acl.c)
--   ParseAprs: src/parse_aprs.c. Scanf is `sscanf`, Symbol the symbol of a callsign, Position and
--     Position/Mice the position formats, Nmea the NMEA sentences, Payload objects, items and messages, Body
--     third-party packets and the dispatch, Body/Message the text of a message; the children of Body and
--     Position/Reads prove
--   Messaging, Incoming/ServerMessage: messages to and from the server (src/messaging.c,
--     src/incoming.c), and the parser as a part of `incoming_parse`
--   Worker/Input and its children: the lines in what is read from a client; Worker/Output and its
--     children: the output buffer (src/worker.c)
--   Tests: inputs and witnesses
--
-- A pointer into a packet is an offset, a C string or buffer the list of its bytes, and a text that
-- `snprintf` makes is returned whole. State is passed explicitly: the table of the duplicate filter
-- is a record, the runs of its thread are lists of events. All recursion is structural, on a list or
-- a counter; the parser alone has fuel, for third-party packets in one another, and the length of
-- the packet is enough.
--
-- Not modelled: sockets beyond the answers of `read` and `write`, logging, configuration, status
-- pages, uplinks, and the parser of filters but for sets of callsigns and symbols. What the path takes
-- from these is a parameter: `clientlist_check_if_validated_client` is a function of the request of
-- `q_process`; what the filter module does to a duplicate is an argument of `dupecheck`, which Drain
-- fills; `parse_aprs`, `fnmatch` and the filters are fields of the environment of `incoming_parse`, of
-- which `with_parser` fills the first; a login takes the parser of filters and the check of a
-- certificate from its environment. The floating-point unit is the record `Floats`, with `Trig` for the
-- functions on angles, and what an earlier packet left behind a packet in its buffer a list of bytes.
-- `cellmalloc` is a number of cells left.
pub mod Acl
pub mod Client
pub mod ClientHeard
pub mod Clientlist
pub mod Dupecheck
pub mod Filter
pub mod Historydb
pub mod Incoming
pub mod Keyhash
pub mod Login
pub mod Messaging
pub mod Outgoing
pub mod Packet
pub mod ParseAprs
pub mod Passcode
pub mod Prelude
pub mod Qconstruct
pub mod Rwlock
pub mod Tests
pub mod Worker
