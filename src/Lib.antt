-- ===== src/Lib.antt =====
-- The TSP client of gogoCLIENT, which the Android application runs as a native process: the C code
-- under native/gogoc-1_2-RELEASE/gogoc-tsp, as its Android build compiles it (no OpenSSL, so that
-- PASSDSS is left out; without V4V6_SUPPORT where the two differ, unless a definition says so).
--
-- The program. tspMain (src/tsp/tsp_client.c) loops over attempts to connect. An attempt is a session
-- with a broker (tspSetupTunnel): it connects over RUDP or TCP, in IPv4 or IPv6, asks for the
-- capabilities (tsp_cap.c), authenticates (tsp_auth.c) and negotiates a tunnel (tspTunnelNegotiation,
-- through tsp_net.c); the tunnel is then set up by a script and watched by the tunnel loop
-- (tsp_tun_mgt.c), with its keepalive (net_ka.c) and lease (tsp_lease.c). Every part answers with a
-- status word (include/gogoc_status.h), by which tspMain chooses what to try next: the same server
-- later, another transport, or the brokers that a redirection has named (tsp_redirect.c), which are
-- sorted by their distance (net_echo_request.c) and kept in a file for the next start.
--
-- The modules, with paths from native/gogoc-1_2-RELEASE/gogoc-tsp:
--   Prelude, Cstring: numbers, lists, bits; C strings, strtok, atoi and what they are used for.
--   Status: include/gogoc_status.h, the contexts and numbers, make_status and its two selectors.
--   Redirect: src/tsp/tsp_redirect.c. Listing has tspAddBrokerToList and tspCreateBrokerList, Sorting
--     has tspSortBrokerList and tspGetBrokerDistances, Files has the last-server and broker-list
--     files, Logging has tspLogRedirectionList, Handle has tspHandleRedirect, Payload the same with
--     the payload read by Xml.Tunnel.
--   Client: tspMain. Choice has the choice of protocol version and transport, Outcome what is done
--     on each status, Retry the wait between attempts, Loop the loops.
--   Session: tspSetupTunnel. Address has parse_addr_port (src/net/net.c), Reply tspGetStatusCode and
--     the redirection replies, Capability tspExtractCapability, Challenge ExtractChallenge and the
--     user name, Response the strings of AuthDIGEST_MD5, Authenticate AuthANONYMOUS, AuthPLAIN,
--     AuthDIGEST_MD5 and tspAuthenticate, Exchange
--     tspSendRecv and tspAddPayloadString, Setup the whole session.
--   Tunnel: Keepalive has net_ka.c with the two threads as steps of a relation, Lease tsp_lease.c, and
--     Loop tspPerformTunnelLoop.
--   Checksum: src/net/net_cksm.c.
--   Rudp: src/net/net_rudp.c, its round-trip estimate, and in Exchange its requests and replies.
--   Echo: src/net/icmp_echo_engine.c. Events has the linked list of echo events, on nodes with
--     addresses, Packet the requests and replies, Engine the sends, the reads and IEE_process.
--   Config: src/lib/config.c with include/config.h and src/lib/cli.c. Words has the strings, Lines readline and
--     tspReadConfigFile of the Android build, CommandLine ParseArguments and tspInitialize, Fix
--     tspFixConfig of src/lib/cnfchk.c, which Android.mk does not build.
--   Xml: src/xml/xmlparse.c, the table of nodes, and in Parse the parser XMLParse; Tunnel has src/xml/xml_tun.c,
--     in Address the elements address, as and prefix, in Tables the others, tspXMLParse and
--     tspExtractPayload of tsp_client.c; Request has src/xml/xml_req.c.
-- Laws and the other modules below these hold the proofs, Tests the definitions at concrete inputs.
-- An attempt of Client carries what one session returns; Session.Setup.Laws puts the model of a
-- session there and shows that the loop keeps its invariant with it.
--
-- State. The variables of tspMain are the record Client; its loops are functions on lists of attempts
-- and of rounds or cycles, one for each time the code would go round, so that they need no fuel: a list that is
-- too short gives a loop that still runs. The network is the list of the replies that the peer
-- gives. The broker list is a list; the pointer current_broker_in_list is the rest of the list from
-- the node that it points to, none where it is NULL. What pal_malloc answers is an argument of the
-- functions that allocate, and so is each result of a file, thread or socket call.
-- On fuel are three loops. The list of echo events, which the code can make cyclic, has a number of
-- rounds: one more than the events passed is shown to be enough, and where a search never ends, it is
-- for every number. The lines of the configuration file have one round more than the file has bytes,
-- which is shown to be enough for every file. XMLParse has one round more than the text has bytes, and
-- its attributes as many as the text behind the tag and two: enough for printed documents, as shown.
-- Machine integers: the status word is 32 bits, the waits are 16 bits, with their wrap-around written
-- out; addresses, buffers and C strings are lists of bytes without the terminating 0.
--
-- Parameters. Code of other origin and code that only calls the system stands as an argument: the MD5
-- and base64 of tsp_auth.c are a record Digest, the layout of printf numbers a record Printf, the
-- floats of RUDP a record Floats, the bytes of a struct timeval a record Timeval, what
-- tspUpdateSourceAddr and tspStartLocal return are arguments, and so is the time; Session and
-- Redirect.Handle take what tspExtractPayload returns in the same way, and Redirect.Payload puts its
-- model there. The records System of Config and Memory of Xml.Tunnel hold what the allocations answer.
--
-- Not modelled. The TCP and UDP transports, whose results are arguments; the helpers of
-- src/lib/lib.c; the branch of src/lib/config.c that asks the gogoc-config library, and the question
-- ask of cli.c; the printing and the freeing of a tunnel in xml_tun.c; the log and the DNS lookups;
-- tsp_setup.c, which runs a script; and the measurement of one broker, which is what
-- tspGetBrokerDistances below its threads. The log lines of the modelled functions are left out, for
-- they change no state, but where the text overflows its buffer. deque.c, md5c.c, base64.c, buffer.c
-- and bufaux.c come from other projects, tsp_auth_passdss.c and net_ka_winxp.c are not built for
-- Android; the libraries gogoc-pal, gogoc-config and gogoc-messaging and the Java application are left.
pub mod Prelude
pub mod Cstring
pub mod Status
pub mod Redirect
pub mod Session
pub mod Client
pub mod Config
pub mod Checksum
pub mod Rudp
pub mod Tunnel
pub mod Echo
pub mod Xml
