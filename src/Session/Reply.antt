-- ===== src/Session/Reply.antt =====
-- tsp_client.c: `tspGetStatusCode`, and what every exchange with the server does with a reply that
-- is a redirection; native/gogoc-1_2-RELEASE/gogoc-tsp/include/gogoc_status.h: the protocol's codes.
use gogoc_android.Prelude.{ℕ, List, Option, none, some, if◌then◌else◌}
use gogoc_android.Cstring.{Text}
use gogoc_android.Cstring.Numbers.{ℤ, pos, atoi}
use gogoc_android.Status.{Context, evnt_broker_redirection, err_broker_redirection, GogocStatus}
use gogoc_android.Redirect.{is_ok, Broker, RedirectInfo}
use gogoc_android.Redirect.Handle.{Handler, handle_redirect}

abbrev pub tsp_protocol_success : ℕ
tsp_protocol_success = 200

abbrev pub tsp_protocol_auth_failed : ℕ
tsp_protocol_auth_failed = 300

abbrev pub tsp_protocol_unsup_tsp_ver : ℕ
tsp_protocol_unsup_tsp_ver = 302

abbrev pub tsp_protocol_server_too_busy : ℕ
tsp_protocol_server_too_busy = 530

unfoldable pub get_status_code : Option Text → ℤ
get_status_code none = pos 0
get_status_code (some payload) = atoi payload

-- What a session is given: how a redirection is handled, and what `tspExtractPayload` reads from the
-- XML of a payload.
pub record Peer : Type 0 where
  pub handler : Handler
  pub extract : Text → Option RedirectInfo

-- a status of the session and the broker list
abbrev pub Answer : Type 0
Answer = GogocStatus × List Broker

unfoldable pub redirect_reply : Peer → Context → Text → List Broker → Answer
redirect_reply peer context payload list =
    let (status, list', _) = handle_redirect peer.handler (peer.extract payload) list in
    if is_ok status
    then ((context, evnt_broker_redirection), list')
    else ((context, err_broker_redirection), list')
