-- ===== src/Status.antt =====
-- native/gogoc-1_2-RELEASE/gogoc-tsp/include/gogoc_status.h: a status is a 32-bit word, its number
-- in the lower half and its context in the upper half.
pub mod Laws
use gogoc_android.Prelude.{ℕ, ◌%◌, ◌^◌, bit_and, bit_or}
use gogoc_android.Prelude.Bits.{shl, shr}

pub data Context : Type 0 where
  unspecified cfg_validation network_init network_connect tsp_capabilities : Context
  tsp_authentication tsp_tun_negotiation tun_interface_setup tunnel_loop gogoc_teardown : Context

abbrev pub context_value : Context → ℕ
context_value unspecified = 0
context_value cfg_validation = 1
context_value network_init = 2
context_value network_connect = 3
context_value tsp_capabilities = 4
context_value tsp_authentication = 5
context_value tsp_tun_negotiation = 6
context_value tun_interface_setup = 7
context_value tunnel_loop = 8
context_value gogoc_teardown = 9

pub data Code : Type 0 where
  success err_winsock_init err_memory_starvation err_inval_cfg_file err_inval_gogoc_address : Code
  err_inval_client_addr err_fail_log_init err_fail_last_server err_fail_resolv_addr : Code
  err_fail_socket_connect err_socket_io err_inval_tsp_version err_tsp_server_too_busy : Code
  err_tsp_generic_error err_broker_redirection err_tunmode_not_available : Code
  err_authentication_failure err_no_common_authentication err_interface_setup_failed : Code
  err_bad_tunnel_param err_keepalive_error err_keepalive_timeout err_tun_lease_expired : Code
  err_tunnel_io err_haccess_init err_haccess_setup err_haccess_expose_devices : Code
  evnt_broker_redirection : Code

abbrev pub code_value : Code → ℕ
code_value success = 0
code_value err_winsock_init = 1
code_value err_memory_starvation = 2
code_value err_inval_cfg_file = 3
code_value err_inval_gogoc_address = 4
code_value err_inval_client_addr = 5
code_value err_fail_log_init = 6
code_value err_fail_last_server = 7
code_value err_fail_resolv_addr = 8
code_value err_fail_socket_connect = 9
code_value err_socket_io = 10
code_value err_inval_tsp_version = 11
code_value err_tsp_server_too_busy = 12
code_value err_tsp_generic_error = 13
code_value err_broker_redirection = 14
code_value err_tunmode_not_available = 15
code_value err_authentication_failure = 16
code_value err_no_common_authentication = 17
code_value err_interface_setup_failed = 18
code_value err_bad_tunnel_param = 19
code_value err_keepalive_error = 20
code_value err_keepalive_timeout = 21
code_value err_tun_lease_expired = 22
code_value err_tunnel_io = 23
code_value err_haccess_init = 24
code_value err_haccess_setup = 25
code_value err_haccess_expose_devices = 26
code_value evnt_broker_redirection = 0xE001

-- `(gogoc_status)(stat_num | (stat_ctx << 16))`: the cast keeps 32 bits.
unfoldable pub make_status : ℕ → ℕ → ℕ
make_status stat_ctx stat_num = bit_or stat_num (shl stat_ctx 16) % 2 ^ 32

unfoldable pub status_context : ℕ → ℕ
status_context stat = shr (bit_and stat 0xFFFF0000) 16

unfoldable pub status_number : ℕ → ℕ
status_number stat = bit_and stat 0x0000FFFF

-- A status word by its two halves; `pack_status` is the word.
abbrev pub GogocStatus : Type 0
GogocStatus = Context × Code

abbrev pub pack_status : GogocStatus → ℕ
pack_status (context, number) = make_status (context_value context) (code_value number)
