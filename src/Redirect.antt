-- ===== src/Redirect.antt =====
-- native/gogoc-1_2-RELEASE/gogoc-tsp/include/tsp_redirect.h and src/tsp/tsp_redirect.c: what a
-- broker redirection is made of. The functions stand in the modules below.
pub mod Listing
pub mod Sorting
pub mod Files
pub mod Logging
pub mod Handle
pub mod Payload
mod Tests
use gogoc_android.Prelude.{ℕ, Bool, true, false, List, Option, ltb}
use gogoc_android.Cstring.{Text}
use gogoc_android.Cstring.Numbers.{ℤ, pos, negsuc}

pub data RedirectStatus : Type 0 where
  ok internal_err cant_open_file no_last_server cant_write_to_file : RedirectStatus
  cant_add_broker_to_list cant_extract_payload cant_create_list cant_sort_list : RedirectStatus
  cant_log_redirection cant_allocate_mem address_truncated cant_get_distances : RedirectStatus
  cant_insert_broker_in_list cant_save_broker_list empty_broker_list : RedirectStatus
  too_many_brokers cant_init_thread_arg cant_create_thread cant_wait_for_thread : RedirectStatus
  echo_request_timeout echo_request_error cant_malloc_thread_array : RedirectStatus
  cant_malloc_thread_args : RedirectStatus

pub data AddressType : Type 0 where
  none_type fqdn ipv4 ipv6 : AddressType

-- `status == TSP_REDIRECT_OK`
abbrev pub is_ok : RedirectStatus → Bool
is_ok ok = true
is_ok _ = false

-- `tBrokerList`: a linked list of these. `address` is `char[255]`, `distance` an `unsigned int`.
pub record Broker : Type 0 where
  pub address : Text
  pub address_type : AddressType
  pub distance : ℕ

-- The three lists of `tTunnel` that a redirection fills; a value may be missing (`NULL`).
pub record RedirectInfo : Type 0 where
  pub broker_redirect_ipv4 : List (Option Text)
  pub broker_redirect_ipv6 : List (Option Text)
  pub broker_redirect_dn : List (Option Text)

abbrev pub max_redirect_address_length : ℕ
max_redirect_address_length = 255

abbrev pub max_redirect_brokers_in_list : ℕ
max_redirect_brokers_in_list = 50

abbrev pub max_broker_list_string_length : ℕ
max_broker_list_string_length = 4096

abbrev pub redirect_status_code_base : ℕ
redirect_status_code_base = 1000

-- `status > REDIRECT_STATUS_CODE_BASE`, of a status that `atoi` read
unfoldable pub is_redirect_status : ℤ → Bool
is_redirect_status (pos status) = ltb redirect_status_code_base status
is_redirect_status (negsuc n) = false
