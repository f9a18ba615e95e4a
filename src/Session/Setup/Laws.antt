-- ===== src/Session/Setup/Laws.antt =====
-- What a session does to the broker list, and how it ends.
use gogoc_android.Prelude.{
  ℕ, ◌≡◌, ◌≢◌, ◌⊎◌, refl, true, List, [], ◌∷◌, Option, none, some, arith, All, map,
}
use gogoc_android.Cstring.{Text}
use gogoc_android.Status.{
  tsp_tun_negotiation, success, evnt_broker_redirection, err_broker_redirection, GogocStatus,
}
use gogoc_android.Redirect.{Broker}
use gogoc_android.Client.{Transport, Attempt, Config, Client}
use gogoc_android.Client.Loop.{again, run_attempts, enter_loop}
use gogoc_android.Client.Loop.Runs.{connection_loop_safe}
use gogoc_android.Client.Loop.Invariant.{Frames, IsWalking, IsBounded}
use gogoc_android.Session.Address.{Parsed, parsed, parse_error, crash, parse_addr_port}
use gogoc_android.Session.Reply.{Answer}
use gogoc_android.Session.Capability.{get_capabilities}
use gogoc_android.Session.Authenticate.{authenticate}
use gogoc_android.Session.Authenticate.Laws.{
  Framed, redirect_reply-Framed, get_capabilities-Framed, authenticate-Framed,
}
use gogoc_android.Session.Exchange.{Received, failed, protocol_error, complete}
use gogoc_android.Session.Setup.{
  Session, negotiation_reply, tunnel_negotiation, negotiate_tunnel, use_capabilities,
  capability_failure, received_reply, go_on, talk, setup_server, setup_tunnel, session_attempt,
}

module _ (s : Session) (version_index : ℕ) (list : List Broker) where
  negotiation_reply-Framed :
      (payload : Text) → Framed list (negotiation_reply s version_index payload list)
  unfolding negotiation_reply
  negotiation_reply-Framed payload =
      ground (arith, redirect_reply-Framed s.peer list tsp_tun_negotiation payload)

  received_reply-Framed : (r : Received) → Framed list (received_reply s version_index r list)
  unfolding received_reply
  received_reply-Framed failed = ground arith
  received_reply-Framed (protocol_error payload) = negotiation_reply-Framed payload
  received_reply-Framed (complete payload) = negotiation_reply-Framed payload

  tunnel_negotiation-Framed : Framed list (tunnel_negotiation s version_index list)
  unfolding tunnel_negotiation
  tunnel_negotiation-Framed = ground (arith, received_reply-Framed s.received)

  negotiate_tunnel-Framed : Framed list (negotiate_tunnel s version_index list)
  unfolding negotiate_tunnel
  negotiate_tunnel-Framed = ground (arith, tunnel_negotiation-Framed)

Framed-trans :
    (list list' : List Broker) (status : GogocStatus) (answer : Answer)
    → Framed list (status, list')
    → status.1 ≡ success
    → Framed list' answer
    → Framed list answer
Framed-trans list list' status answer f e g = ground (arith, f, e, g)

use_capabilities-Framed :
    (s : Session) (version_index cap : ℕ) (list : List Broker)
    → Framed list (use_capabilities s version_index cap list)
unfolding use_capabilities
use_capabilities-Framed s version_index cap list =
    let (status, list') = authenticate s.peer s.replies s.credentials cap version_index list in
    ground (
      arith,
      authenticate-Framed s.peer list s.replies s.credentials cap version_index,
      negotiate_tunnel-Framed s version_index list',
    )

capability_failure-number :
    (transport : Transport) (status : GogocStatus)
    → (status.1 ≡ evnt_broker_redirection
        → (capability_failure transport status).1 ≡ evnt_broker_redirection)
      × (status.1 ≡ err_broker_redirection
          → (capability_failure transport status).1 ≡ err_broker_redirection)
unfolding capability_failure
capability_failure-number transport (context, number) = ground arith

go_on-Framed :
    (s : Session) (transport : Transport) (version_index : ℕ) (list list' : List Broker)
    (status : GogocStatus) (cap : Option ℕ)
    → Framed list (status, list')
    → (cap ≢ none → list' ≡ list)
    → Framed list (go_on s transport version_index status list' cap)
unfolding go_on
go_on-Framed s transport version_index list list' status (some cap) f e =
    ground (arith, e, use_capabilities-Framed s version_index cap list')
go_on-Framed s transport version_index list list' status none f e =
    ground (arith, f, capability_failure-number transport status)

get_capabilities-kept :
    (s : Session) (reply : Option Text) (list : List Broker)
    → let ((status, list'), cap) = get_capabilities s.peer reply list in cap ≢ none → list' ≡ list
unfolding get_capabilities
get_capabilities-kept s none list ne = refl
get_capabilities-kept s (some datain) list ne = ground (arith, ne)

talk-Framed :
    (s : Session) (transport : Transport) (version_index : ℕ) (list : List Broker)
    → Framed list (talk s transport version_index list)
unfolding talk
talk-Framed s transport version_index list =
    go_on-Framed s transport version_index list _ _ _
      (get_capabilities-Framed s.peer list s.capability_reply)
      (get_capabilities-kept s s.capability_reply list)

setup_server-Framed :
    (s : Session) (p : Parsed) (transport : Transport) (version_index : ℕ) (list : List Broker)
    → Framed list (setup_server s p transport version_index list)
unfolding setup_server
setup_server-Framed s (parsed name port) transport version_index list =
    ground (arith, talk-Framed s transport version_index list)
setup_server-Framed s parse_error transport version_index list = ground arith
setup_server-Framed s crash transport version_index list = ground arith

-- `tspSetupTunnel` changes the broker list only when it returns one of the two statuses of a
-- redirection, on every path through a session.
pub setup_tunnel_frames :
    (s : Session) (transport : Transport) (version_index : ℕ) (server : Option Text)
    (list : List Broker)
    → let ((context, number), list') = setup_tunnel s transport version_index server list in
      (list' ≡ list) ⊎ (number ≡ evnt_broker_redirection) ⊎ (number ≡ err_broker_redirection)
unfolding setup_tunnel
setup_tunnel_frames s transport version_index none list = ground arith
setup_tunnel_frames s transport version_index (some server) list =
    setup_server-Framed s (parse_addr_port s.name_memory server 3653) transport version_index list

session_attempt-Frames : (xs : List (Attempt × Session)) → All Frames (map session_attempt xs)
session_attempt-Frames [] = tt
session_attempt-Frames ((a, s) ∷ xs) = (setup_tunnel_frames s, session_attempt-Frames xs)

-- After any number of passes of the connection loop, entered while the original or the last server
-- is tried, each pass making a session: whenever a broker of a list is being tried, the pointer is to
-- an element of the list, so that the loop's test for unsafe pointers never holds; the version's index
-- is one of the table of four; and the two variables of the wait keep to their 16 and 8 bits.
pub client_loop_safe :
    (conf : Config) (sessions : List (Attempt × Session)) (c d : Client)
    → (c.trying_original_server ≡ true) ⊎ (c.read_last_server ≡ true)
    → run_attempts conf (map session_attempt sessions) (enter_loop c) ≡ again d
    → IsWalking d × IsBounded d
client_loop_safe conf sessions c d server e =
    connection_loop_safe conf (map session_attempt sessions) c d server
      (session_attempt-Frames sessions) e
