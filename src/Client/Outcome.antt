-- ===== src/Client/Outcome.antt =====
-- tsp_client.c: `FormatBrokerListAddr`, and the `switch` of `tspMain` on the status of an attempt.
pub mod Laws
use gogoc_android.Prelude.{
  ℕ, ◌+◌, ◌%◌, ◌^◌, Bool, true, false, not, List, [], ◌∷◌, ◌++◌, Option, none, some, ltb, ◌==◌,
  ◌&&◌, ◌||◌, if◌then◌else◌,
}
use gogoc_android.Cstring.{Text}
use gogoc_android.Status.{
  Context, Code, success, err_keepalive_timeout, err_authentication_failure,
  err_no_common_authentication, err_interface_setup_failed, err_tun_lease_expired,
  err_inval_tsp_version, err_socket_io, err_tsp_server_too_busy, err_tsp_generic_error,
  err_fail_socket_connect, evnt_broker_redirection, err_broker_redirection, err_memory_starvation,
  err_tunmode_not_available, err_tunnel_io, err_keepalive_error, err_bad_tunnel_param,
  err_inval_gogoc_address, err_fail_resolv_addr, GogocStatus,
}
use gogoc_android.Redirect.{
  RedirectStatus, is_ok, ok, AddressType, none_type, fqdn, ipv4, ipv6, Broker,
}
use gogoc_android.Redirect.Files.{Opened, read_broker_list_from_file}
use gogoc_android.Client.{
  Config, Client, Attempt, Flow, continue_loop, end_of_switch, goto_end, disconnected_idle,
  disconnected_error, disconnected_no_retry, UiStatus, uis_no_error, uis_err_keepalive_timeout,
  uis_err_authentication_failure, uis_err_no_common_authentication, uis_err_interface_setup_failed,
  uis_err_tun_lease_expired, uis_err_tsp_version_error, uis_err_socket_io,
  uis_err_tsp_server_too_busy, uis_err_tsp_generic_error, uis_err_fail_socket_connect,
  uis_err_broker_redirection, uis_evnt_broker_redirection, uis_err_memory_starvation,
  uis_err_tunmode_not_available, uis_err_tunnel_io, uis_err_keepalive_error,
  uis_err_bad_tunnel_param, uis_err_inval_server_addr, uis_err_unknown,
}
use gogoc_android.Client.Choice.{client_version_index_2_0_0}

-- `FormatBrokerListAddr`: the result and `*ppAddr`. Only an address of the type IPV6 is put between
-- brackets, and only there a failed allocation is an error.
unfoldable pub format_broker_list_addr : Bool → Broker → Bool × Option Text
format_broker_list_addr memory b = elim b.address_type [
  | ipv6 ↦ if memory then (true, some (b'[' ∷ (b.address ++ (b']' ∷ [])))) else (false, none)
  | _ ↦ if memory then (true, some b.address) else (true, none)
]

abbrev pub is_nil : List Broker → Bool
is_nil [] = true
is_nil (_ ∷ _) = false

-- an error after which the loop ends
abbrev pub abort : UiStatus → Client → Flow × Client
abort ui c = (
  continue_loop,
  record c { client_status = disconnected_error; ui_status = ui; connected = false },
)

-- The server becomes the first broker of the rest of the list; without an address, the list is freed
-- and the program ends.
unfoldable pub try_broker : Bool → Broker → List Broker → Client → Flow × Client
try_broker memory b rest c =
    let (formatted, address) = format_broker_list_addr memory b in
    if formatted
    then (
      continue_loop,
      record c { current_broker_in_list = b ∷ rest; server = address; cycle = 0 },
    )
    else (
      goto_end,
      record c {
        current_broker_in_list = b ∷ rest;
        server = address;
        broker_list = [];
        status = (c.status.0, err_broker_redirection);
        ui_status = uis_err_broker_redirection;
        connected = false;
      },
    )

-- The list read from the broker list file, if there is anything in it, is next.
unfoldable pub walk_list : Bool → List Broker → Client → Flow × Client
walk_list memory [] c = (end_of_switch, record c { broker_list = []; cycle = c.cycle + 1 })
walk_list memory (b ∷ rest) c =
    try_broker memory b rest (record c {
      broker_list = b ∷ rest;
      trying_broker_list = true;
      trying_original_server = false;
    })

-- The original server could not be reached: the brokers of the file are next, if it can be read.
unfoldable pub try_broker_list_file : Config → Attempt → Client → Flow × Client
try_broker_list_file conf a c =
    let (status, list) = read_broker_list_from_file a.printf a.memory a.broker_list_file in
    if conf.has_broker_list_file && is_ok status
    then walk_list a.address_memory list c
    else (end_of_switch, record c { broker_list = []; cycle = c.cycle + 1 })

-- a pointer that is not safe
abbrev pub broker_list_internal_error : Client → Flow × Client
broker_list_internal_error c = (
  continue_loop,
  record c {
    broker_list = [];
    status = (c.status.0, err_broker_redirection);
    ui_status = uis_err_broker_redirection;
    connected = false;
  },
)

-- on `current_broker_in_list`
unfoldable pub next_in_list : Config → Bool → List Broker → Client → Flow × Client
next_in_list conf memory [] c = broker_list_internal_error c
next_in_list conf memory (last ∷ []) c = (
  end_of_switch,
  record c {
    server = if memory then some conf.original_server else none;
    cycle = 0;
    trying_original_server = true;
  },
)
next_in_list conf memory (failed ∷ b ∷ rest) c = try_broker memory b rest c

-- The next broker after one that could not be reached; after the last, the original server.
unfoldable pub try_next_broker : Config → Attempt → Client → Flow × Client
try_next_broker conf a c =
    if is_nil c.broker_list
    then broker_list_internal_error c
    else next_in_list conf a.address_memory c.current_broker_in_list c

-- no transport reached the broker
abbrev pub mark_connect_failed : Config → Client → Client
mark_connect_failed conf c = record c {
  effective_retry_delay = conf.retry_delay % 2 ^ 16;
  consec_retry = 1;
  client_status = disconnected_error;
  ui_status = uis_err_fail_socket_connect;
}

-- `ERR_FAIL_SOCKET_CONNECT`
unfoldable pub connect_failed : Config → Attempt → Client → Flow × Client
connect_failed conf a c =
    let marked = mark_connect_failed conf c in
    if conf.boot_mode
    then (continue_loop, record c { connected = false })
    else if c.quick_cycle
    then (continue_loop, record c { cycle = c.cycle + 1 })
    else if c.read_last_server
    then (end_of_switch, record c { cycle = c.cycle + 1 })
    else if c.trying_original_server
    then try_broker_list_file conf a marked
    else if c.trying_broker_list
    then try_next_broker conf a marked
    else (end_of_switch, marked)

-- `EVNT_BROKER_REDIRECTION`
unfoldable pub redirected : Attempt → Client → Flow × Client
redirected a c = elim c.broker_list [
  | [] ↦ (
    continue_loop,
    record c {
      client_status = disconnected_idle;
      ui_status = uis_err_broker_redirection;
      status = (c.status.0, err_broker_redirection);
      connected = false;
    },
  )
  | b ∷ rest ↦
      let (formatted, address) = format_broker_list_addr a.address_memory b in
      let walking = record c {
        trying_broker_list = true;
        trying_original_server = false;
        current_broker_in_list = b ∷ rest;
        cycle = 0;
        server = address;
        client_status = disconnected_idle;
        ui_status = uis_evnt_broker_redirection;
      } in
      if formatted then (continue_loop, walking) else (
        continue_loop,
        record walking {
          client_status = disconnected_error;
          ui_status = uis_err_broker_redirection;
          status = (c.status.0, err_broker_redirection);
          connected = false;
        },
      )
]

unfoldable pub outcome : Config → Attempt → Client → Flow × Client
outcome conf a c = elim c.status.1 [
  | success ↦ (
    continue_loop,
    record c { client_status = disconnected_idle; ui_status = uis_no_error; connected = false },
  )
  | err_keepalive_timeout ↦
      if conf.auto_retry_connect
      then (
        end_of_switch,
        record c {
          client_status = disconnected_error;
          ui_status = uis_err_keepalive_timeout;
          consec_retry = 0;
        },
      )
      else (
        continue_loop,
        record c {
          client_status = disconnected_no_retry;
          ui_status = uis_err_keepalive_timeout;
          consec_retry = 0;
          connected = false;
        },
      )
  | err_authentication_failure ↦ abort uis_err_authentication_failure c
  | err_no_common_authentication ↦ abort uis_err_no_common_authentication c
  | err_interface_setup_failed ↦ abort uis_err_interface_setup_failed c
  | err_tun_lease_expired ↦ (
    continue_loop,
    record c { client_status = disconnected_idle; ui_status = uis_err_tun_lease_expired },
  )
  | err_inval_tsp_version ↦ (
    continue_loop,
    record c {
      client_status = disconnected_error;
      ui_status = uis_err_tsp_version_error;
      tsp_version_fallback = true;
      cycle = if c.version_index == client_version_index_2_0_0 then 1 else c.cycle;
    },
  )
  | err_socket_io ↦
      let failed = record c {
        client_status = disconnected_error;
        ui_status = uis_err_socket_io;
        consec_retry = 0;
      } in
      if c.quick_cycle then (continue_loop, failed) else (end_of_switch, failed)
  | err_tsp_server_too_busy ↦ (
    end_of_switch,
    record c {
      client_status = disconnected_error;
      ui_status = uis_err_tsp_server_too_busy;
      effective_retry_delay = conf.retry_delay % 2 ^ 16;
      consec_retry = 1;
    },
  )
  | err_tsp_generic_error ↦ abort uis_err_tsp_generic_error c
  | err_fail_socket_connect ↦ connect_failed conf a c
  | evnt_broker_redirection ↦ redirected a c
  | err_broker_redirection ↦ abort uis_err_broker_redirection (record c { broker_list = [] })
  | err_memory_starvation ↦ abort uis_err_memory_starvation c
  | err_tunmode_not_available ↦ abort uis_err_tunmode_not_available c
  | err_tunnel_io ↦ (
    end_of_switch,
    record c {
      client_status = disconnected_error;
      ui_status = uis_err_tunnel_io;
      consec_retry = 0;
    },
  )
  | err_keepalive_error ↦ (
    end_of_switch,
    record c {
      client_status = disconnected_error;
      ui_status = uis_err_keepalive_error;
      consec_retry = 0;
    },
  )
  | err_bad_tunnel_param ↦ abort uis_err_bad_tunnel_param c
  | err_inval_gogoc_address ↦ abort uis_err_inval_server_addr c
  | err_fail_resolv_addr ↦ abort uis_err_inval_server_addr c
  | _ ↦ abort uis_err_unknown c
]
