-- ===== src/Session/Setup.antt =====
-- tsp_client.c: `tspTunnelNegotiation` and `tspSetupTunnel`, one session from the connection to the
-- end of the tunnel.
pub mod Laws
pub mod Truncation
use gogoc_android.Prelude.{
  ℕ, bit_and, Bool, true, false, List, Option, none, some, ltb, ◌==◌, if◌then◌else◌,
}
use gogoc_android.Cstring.{Text}
use gogoc_android.Cstring.Numbers.{is_number}
use gogoc_android.Status.{
  tsp_tun_negotiation, tsp_capabilities, network_connect, Code, success, err_memory_starvation,
  err_socket_io, err_tsp_generic_error, err_tunmode_not_available, err_fail_socket_connect,
  err_inval_gogoc_address, GogocStatus,
}
use gogoc_android.Redirect.{is_redirect_status, Broker}
use gogoc_android.Client.{
  TunnelMode, v6v4, v6udpv4, v6anyv4, v4v6, dslite, Transport, rudp, rudp6, Attempt,
}
use gogoc_android.Session.Address.{Parsed, parsed, parse_error, crash, parse_addr_port}
use gogoc_android.Session.Reply.{
  tsp_protocol_success, get_status_code, Peer, Answer, redirect_reply,
}
use gogoc_android.Session.Capability.{get_capabilities}
use gogoc_android.Session.Response.{Credentials}
use gogoc_android.Session.Authenticate.{Replies, authenticate}
use gogoc_android.Session.Exchange.{Opening, connect, Received, failed, protocol_error, complete}

abbrev pub tunnel_mode_value : TunnelMode → ℕ
tunnel_mode_value v6v4 = 1
tunnel_mode_value v6udpv4 = 2
tunnel_mode_value v6anyv4 = 3
tunnel_mode_value v4v6 = 4
tunnel_mode_value dslite = 5

abbrev pub server_port : ℕ
server_port = 3653

abbrev pub is_success : Code → Bool
is_success success = true
is_success _ = false

-- What one session meets, in order: memory for the server's name, what `netopen` returns, the reply
-- to the version, the authentication's replies, the status of `tspUpdateSourceAddr`, the negotiation's
-- memory, how `tspSendRecv` ends and whether `tspSend` succeeds, and the status of `tspStartLocal`.
pub record Session : Type 0 where
  pub peer : Peer
  pub tunnel_mode : TunnelMode
  pub credentials : Credentials
  pub name_memory : Bool
  pub opening : Opening
  pub capability_reply : Option Text
  pub replies : Replies
  pub source_addr : GogocStatus
  pub negotiation_memory : Bool
  pub received : Received
  pub acknowledged : Bool
  pub start_local : GogocStatus

-- on the payload that `plout` holds; a truncated reply counts as one
unfoldable pub negotiation_reply : Session → ℕ → Text → List Broker → Answer
negotiation_reply s version_index payload list =
    let status = get_status_code (some payload) in
    if is_redirect_status status
    then redirect_reply s.peer tsp_tun_negotiation payload list
    else if is_number status tsp_protocol_success
    then (if version_index == 3
        then ((tsp_tun_negotiation, success), list)
        else if s.acknowledged
        then ((tsp_tun_negotiation, success), list)
        else ((tsp_tun_negotiation, err_socket_io), list))
    else ((tsp_tun_negotiation, err_tsp_generic_error), list)

-- `PROTOCOL_ERROR` is positive, so the test `ret <= 0` lets a truncated reply through.
unfoldable pub received_reply : Session → ℕ → Received → List Broker → Answer
received_reply s version_index failed list = ((tsp_tun_negotiation, err_socket_io), list)
received_reply s version_index (protocol_error payload) list =
    negotiation_reply s version_index payload list
received_reply s version_index (complete payload) list =
    negotiation_reply s version_index payload list

-- `tspTunnelNegotiation`
unfoldable pub tunnel_negotiation : Session → ℕ → List Broker → Answer
tunnel_negotiation s version_index list =
    if s.negotiation_memory
    then received_reply s version_index s.received list
    else ((tsp_tun_negotiation, err_memory_starvation), list)

-- the last two steps of a session, after the authentication
unfoldable pub negotiate_tunnel : Session → ℕ → List Broker → Answer
negotiate_tunnel s version_index list =
    let (status, list') = tunnel_negotiation s version_index list in
    if is_success s.source_addr.1
    then (if is_success status.1 then (s.start_local, list') else (status, list'))
    else (s.source_addr, list)

-- with the server's capabilities
unfoldable pub use_capabilities : Session → ℕ → ℕ → List Broker → Answer
use_capabilities s version_index cap list =
    let (status, list') = authenticate s.peer s.replies s.credentials cap version_index list in
    if bit_and (tunnel_mode_value s.tunnel_mode) cap == 0
    then ((tsp_capabilities, err_tunmode_not_available), list)
    else if is_success status.1
    then negotiate_tunnel s version_index list'
    else (status, list')

abbrev pub is_datagram : Transport → Bool
is_datagram rudp = true
is_datagram rudp6 = true
is_datagram _ = false

-- A server that does not answer over a datagram transport was not reached.
unfoldable pub capability_failure : Transport → GogocStatus → GogocStatus
capability_failure transport (context, err_socket_io) =
    if is_datagram transport then (context, err_fail_socket_connect) else (context, err_socket_io)
capability_failure transport status = status

-- after `tspGetCapabilities`
unfoldable pub go_on : Session → Transport → ℕ → GogocStatus → List Broker → Option ℕ → Answer
go_on s transport version_index status list (some flags) =
    use_capabilities s version_index flags list
go_on s transport version_index status list none = (capability_failure transport status, list)

-- the session over an open socket
unfoldable pub talk : Session → Transport → ℕ → List Broker → Answer
talk s transport version_index list =
    let ((status, list'), cap) = get_capabilities s.peer s.capability_reply list in
    go_on s transport version_index status list' cap

unfoldable pub setup_server : Session → Parsed → Transport → ℕ → List Broker → Answer
setup_server s (parsed name port) transport version_index list =
    if is_success (connect s.opening).1
    then talk s transport version_index list
    else (connect s.opening, list)
setup_server s parse_error transport version_index list =
    ((network_connect, err_inval_gogoc_address), list)
setup_server s crash transport version_index list =
    ((network_connect, err_inval_gogoc_address), list)

-- `tspSetupTunnel`; without a server, or with one that has no name, the program crashes, for which the
-- model gives the error.
unfoldable pub setup_tunnel : Session → Transport → ℕ → Option Text → List Broker → Answer
setup_tunnel s transport version_index none list =
    ((network_connect, err_inval_gogoc_address), list)
setup_tunnel s transport version_index (some server) list =
    setup_server s (parse_addr_port s.name_memory server server_port) transport version_index list

-- an attempt of the connection loop that makes this session
abbrev pub session_attempt : Attempt × Session → Attempt
session_attempt (a, s) = record a { setup = setup_tunnel s }
