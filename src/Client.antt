-- ===== src/Client.antt =====
-- native/gogoc-1_2-RELEASE/gogoc-tsp/src/tsp/tsp_client.c: `tspMain`, the loop that connects to a
-- broker and chooses what to try next. The modules below take it apart; this one has its variables.
pub mod Choice
pub mod Outcome
pub mod Retry
pub mod Loop
mod Tests
use gogoc_android.Prelude.{ℕ, Bool, List, Option}
use gogoc_android.Cstring.{Text, Printf}
use gogoc_android.Status.{GogocStatus}
use gogoc_android.Redirect.{Broker}
use gogoc_android.Redirect.Files.{Opened}

pub data TunnelMode : Type 0 where
  v6v4 v6udpv4 v6anyv4 v4v6 dslite : TunnelMode

-- `net_tools_t`'s indices: reliable UDP, UDP and TCP over IPv4, then TCP and reliable UDP over IPv6
pub data Transport : Type 0 where
  rudp udp tcp tcp6 rudp6 : Transport

pub data ClientStatus : Type 0 where
  disconnected_idle disconnected_error disconnected_no_retry connecting connected_status :
      ClientStatus

pub data UiStatus : Type 0 where
  uis_no_error uis_err_keepalive_timeout uis_err_authentication_failure : UiStatus
  uis_err_no_common_authentication uis_err_interface_setup_failed uis_err_tun_lease_expired :
      UiStatus
  uis_err_tsp_version_error uis_err_socket_io uis_err_tsp_server_too_busy : UiStatus
  uis_err_tsp_generic_error uis_err_fail_socket_connect uis_err_broker_redirection : UiStatus
  uis_evnt_broker_redirection uis_err_memory_starvation uis_err_tunmode_not_available : UiStatus
  uis_err_tunnel_io uis_err_keepalive_error uis_err_bad_tunnel_param : UiStatus
  uis_err_inval_server_addr uis_err_unknown : UiStatus

-- The settings that the loop reads. `has_broker_list_file` is `strlen(c.broker_list_file) > 0`; the
-- two delays are in seconds and not negative; `v4v6_support` is the preprocessor symbol.
pub record Config : Type 0 where
  pub tunnel_mode : TunnelMode
  pub retry_delay : ℕ
  pub retry_delay_max : ℕ
  pub auto_retry_connect : Bool
  pub boot_mode : Bool
  pub has_broker_list_file : Bool
  pub original_server : Text
  pub v4v6_support : Bool

-- The loop's variables. `current_broker_in_list` is the list from the element that the pointer
-- points to, `[]` if it is NULL. `server` is `c.server`, `none` if its allocation failed.
pub record Client : Type 0 where
  pub transport : Transport
  pub server : Option Text
  pub broker_list : List Broker
  pub trying_original_server : Bool
  pub read_last_server : Bool
  pub version_index : ℕ
  pub connected : Bool
  pub cycle : ℕ
  pub tsp_version_fallback : Bool
  pub quick_cycle : Bool
  pub current_broker_in_list : List Broker
  pub trying_broker_list : Bool
  pub effective_retry_delay : ℕ
  pub consec_retry : ℕ
  pub status : GogocStatus
  pub client_status : ClientStatus
  pub ui_status : UiStatus

-- What one pass of the loop meets: a stop notification, what `tspSetupTunnel` returns and does to
-- the broker list for a transport, a version and a server, the broker list file, and whether the
-- allocation of a server's address succeeds.
pub record Attempt : Type 0 where
  pub stop : Bool
  pub setup : Transport → ℕ → Option Text → List Broker → GogocStatus × List Broker
  pub broker_list_file : Opened Text
  pub printf : Printf
  pub memory : ℕ → Bool
  pub address_memory : Bool

-- How a pass ends: `continue`, the end of the `switch` on the status, or `goto endtspc`.
pub data Flow : Type 0 where
  continue_loop end_of_switch goto_end : Flow
