-- ===== src/Lib.antt =====
-- EdgarVPN: a model of the peer daemon's own code and the theorems about it.
--
-- EdgarVPN is a peer-to-peer VPN daemon. For each configured peer, src/main.c keeps a session
-- (src/session.c) over the packet format of src/crypto.c, which calls libsodium; src/routing.c
-- chooses the peer of an outbound packet by the configured ranges; src/tun.c and src/udp.c are
-- the two devices between which main.c moves packets, src/config.c loads the configuration and
-- src/log.c writes the log. The parts call one another from the top down: main.c calls all
-- others, session.c calls crypto.c, config.c calls crypto.c for the keys. tools/keygen.c is a
-- program of its own.
--
-- Files:
--   Prelude, Prelude/*: numbers, tests, byte lists, and the laws of | and & that the shifts need.
--   Sodium: libsodium as a record of functions, and Sodium.Laws, what its manual promises. The
--     sources only call it; it is a parameter of everything that uses it.
--   Crypto: src/crypto.c. crypto_seal is seal, crypto_open is crypto_open, build_nonce keeps its
--     name, the other functions drop the prefix crypto_. A buffer argument is its length, and what
--     is written to it is the result. Crypto/Counter has the wire form of the counter,
--     Crypto/Packet how sealing and opening fit together.
--   Session: src/session.c and include/session.h. Session/State has session_t and
--     session_start_handshake, Session/Window the bitmap, Session/Replay replay_check_and_mark,
--     Session/Handshake the handshake, Session/Channel the data channel, each with what is proved
--     of it below it. Session/Trace runs any operations in any order and logs the counters that the
--     messages carry; Session/Trace/Replayed follows a session that has answered an INIT.
--     Session/Lifecycle has the states as a diagram and where the ephemeral secret is kept,
--     Session/Bounds has the buffers.
--     An operation takes and returns the session, as it is left also on failure; -1 is none or
--     false. Random bits and the wall clock are arguments.
--   Config: include/config.h and src/config.c. Config/Text has trim and what is used of the C
--     library, on strings without their zero; Config/Values the parsers of values, with the system's
--     address conversions as the record Inet; Config/Load the loop of config_load over the lines
--     that fgets makes of the file. A pointer cur to the last peer is the last of the list.
--     Config/Sheet writes a file out from its settings, as docs/CONFIGURATION.md describes it.
--   Routing: src/routing.c, for a little-endian machine; Routing/Prefix says what the masks
--     compare, Routing/Selection which peer is chosen.
--   Log: src/log.c, the settings, the level test and the lines that are written; Log/Json has a
--     reader of JSON strings, Log/Record one of whole lines.
--   Keygen: tools/keygen.c; Keygen/Loads and Keygen/Printed its lines as config_load reads them.
--   Peer: src/main.c. Peer/State has peer_session_t, the timers' constants and the system's
--     answers (Net) and what leaves the daemon (Effect); Peer/Outbound initiate_handshake and
--     the handler of a TUN packet, Peer/Inbound the two searches for a peer and the handler of a
--     datagram, Peer/Timers the timers, Peer/Startup the loop that sets the peers up, Peer/Loop
--     the poll loop, over a list of rounds that hold what the system answers; below them what is
--     proved of each, in Peer/Connect of a handshake between two daemons, in Peer/Connect/Fresh
--     from their start on, and in Peer/Tunnel of a packet from one to another. Peer/History relates
--     the changes of the peers to runs of session operations, Peer/Sessions says what therefore
--     holds of every session, Peer/Wire what leaves the daemon, Peer/Times and Peer/Loop/Clock bound
--     the times that the peers keep, for the subtractions of Peer/Loop/Ages. Peer/Timers/Alive and
--     Peer/Timers/Retry say what the timers send. Peer/Stats is
--     log_stats.
--   System: the operating system as a record of calls on a state of its own, System/Laws what its
--     manual pages promise of descriptors, errno and interfaces, System/Hoare triples for calls
--     that fail, System/Cleanup the closing of a descriptor. It is a parameter, as libsodium is.
--   Tun, Udp: src/tun.c and src/udp.c, with a descriptor of -1 as none; Tun/Configured and Tun/Errno
--     what tun_configure does and how it fails, Tun/Cleanup and Udp/Cleanup the descriptors.
--   Main: main of src/main.c from its first line to its return; Main/Exit the descriptors, and
--     Main/Outcome the status and what was sent. A Run is what the program meets: the environment,
--     the files, the moments of the start-up, and the rounds of the loop and the signals, of
--     which Peer/Loop/Signals makes the rounds that begin.
--   Tests: stand-ins for libsodium and for the system that have the promised laws, concrete runs,
--     and an instance of each theorem that has hypotheses.
--
-- Fuel: only the digits of a number are written on fuel, 20, since a uint64_t has no more; all
-- other loops are structural recursion on a list or count their rounds.
--
-- Not modelled: the calls of the log but those of log_stats (its functions are modelled, not which
-- lines main writes), the text of time stamps, the conversions of printf other than %s and %llu,
-- and descriptors other than the two of main, such as the configuration file's, which config_load
-- closes itself. What the calls of the start-up and the loop answer is not read off the system's
-- state but is part of a Run.
pub mod Prelude
pub mod Sodium
pub mod Crypto
pub mod Session
pub mod Config
pub mod Routing
pub mod Log
pub mod Peer
pub mod System
pub mod Tun
pub mod Udp
pub mod Main
pub mod Keygen
pub mod Tests
