-- ===== src/Client/Tests.antt =====
-- The connection loop at concrete inputs.
use gogoc_android.Prelude.{
  ◌+◌, ◌/◌, ◌%◌, ◌^◌, ◌≡◌, ◌⊎◌, inl, refl, true, false, [], ◌∷◌, map, some, arith,
}
use gogoc_android.Cstring.{Text, verbatim}
use gogoc_android.Status.{
  unspecified, network_connect, tsp_capabilities, err_fail_socket_connect, err_inval_tsp_version,
  err_tsp_server_too_busy, GogocStatus,
}
use gogoc_android.Redirect.{ipv4, ipv6, Broker}
use gogoc_android.Redirect.Files.{not_opened}
use gogoc_android.Client.{
  v6udpv4, v6v4, rudp, tcp, Config, Client, Attempt, disconnected_idle, disconnected_error,
  uis_no_error, uis_err_tsp_server_too_busy,
}
use gogoc_android.Client.Retry.{retry_wait}
use gogoc_android.Client.Retry.Laws.{waited, doubled_delay, waits_double}
use gogoc_android.Client.Outcome.{format_broker_list_addr, outcome}
use gogoc_android.Client.Choice.{choose_transport, choose_version, is_quick_cycle}
use gogoc_android.Client.Outcome.Laws.{outcome_wait}
use gogoc_android.Client.Loop.{
  again, loop_ended, connection_step, attempt_tunnel, run_attempts, enter_loop,
}
use gogoc_android.Client.Loop.Invariant.{Frames, IsWalking, IsBounded}
use gogoc_android.Client.Loop.Runs.{connection_loop_safe}
use gogoc_android.Client.Loop.Walk.{
  ConnectFails, Tries, servers_tried, address_of, broker_walk, abandoned_walk,
}
use gogoc_android.Client.Loop.Fallback.{RefusesVersion, tried, version_fallback}

abbrev server_name : Text
server_name = b'a' ∷ b'n' ∷ b'o' ∷ b'n' ∷ []

abbrev config : Config
config = record {
  tunnel_mode = v6udpv4;
  retry_delay = 30;
  retry_delay_max = 300;
  auto_retry_connect = true;
  boot_mode = false;
  has_broker_list_file = false;
  original_server = server_name;
  v4v6_support = false;
}

abbrev any_mode : Config
any_mode = record config { tunnel_mode = v6v4 }

abbrev start : Client
start = record {
  transport = rudp;
  server = some server_name;
  broker_list = [];
  trying_original_server = true;
  read_last_server = false;
  version_index = 0;
  connected = true;
  cycle = 0;
  tsp_version_fallback = false;
  quick_cycle = false;
  current_broker_in_list = [];
  trying_broker_list = false;
  effective_retry_delay = 30;
  consec_retry = 1;
  status = (unspecified, err_tsp_server_too_busy);
  client_status = disconnected_idle;
  ui_status = uis_no_error;
}

abbrev attempt_ending : GogocStatus → Attempt
attempt_ending status = record {
  stop = false;
  setup = λ t v s list. (status, list);
  broker_list_file = not_opened;
  printf = verbatim;
  memory = λ n. true;
  address_memory = true;
}

abbrev unreachable : Attempt
unreachable = attempt_ending (network_connect, err_fail_socket_connect)

unreachable-ConnectFails : ConnectFails unreachable
unreachable-ConnectFails = record {
  context = network_connect;
  goes_on = refl;
  memory = refl;
  fails = λ t v s list. refl;
}

refusing-RefusesVersion : RefusesVersion (attempt_ending (tsp_capabilities, err_inval_tsp_version))
refusing-RefusesVersion = record {
  context = tsp_capabilities;
  goes_on = refl;
  refuses = λ t v s list. refl;
}

abbrev first_broker : Broker
first_broker = record { address = b'1' ∷ []; address_type = ipv4; distance = 1 }

abbrev second_broker : Broker
second_broker = record { address = b'2' ∷ b':' ∷ []; address_type = ipv6; distance = 2 }

abbrev walking_client : Client
walking_client = record start {
  server = some (b'1' ∷ []);
  broker_list = first_broker ∷ second_broker ∷ [];
  current_broker_in_list = first_broker ∷ second_broker ∷ [];
  trying_original_server = false;
  trying_broker_list = true;
}

walking_client-Tries : Tries (first_broker ∷ second_broker ∷ []) walking_client
walking_client-Tries = record {
  connected = refl;
  original = refl;
  last = refl;
  walking = refl;
  current = refl;
  list = refl;
  fallback = refl;
}

broker_walk_example :
    (servers_tried config (unreachable ∷ unreachable ∷ []) walking_client
      ≡ map address_of (first_broker ∷ second_broker ∷ []))
    × (d : Client) × (run_attempts config (unreachable ∷ unreachable ∷ []) walking_client ≡ again d)
    × (d.trying_original_server ≡ true)
    × (d.server ≡ some server_name)
broker_walk_example =
    broker_walk config (unreachable ∷ unreachable ∷ []) first_broker (second_broker ∷ [])
      walking_client (record { mode = refl; boot = refl })
      (unreachable-ConnectFails, (unreachable-ConnectFails, tt)) refl walking_client-Tries
      (unfold format_broker_list_addr in refl)

abandoned_walk_example :
    (d : Client) × (run_attempts config (unreachable ∷ unreachable ∷ []) (enter_loop walking_client)
      ≡ again d)
    × (d.server ≡ some (b'1' ∷ []))
    × (d.trying_original_server ≡ false)
abandoned_walk_example =
    abandoned_walk config (unreachable ∷ unreachable ∷ []) walking_client
      (record { mode = refl; boot = refl })
      (unreachable-ConnectFails, (unreachable-ConnectFails, tt)) refl refl

abbrev refusing : Attempt
refusing = attempt_ending (tsp_capabilities, err_inval_tsp_version)

version_fallback_example :
    (tried any_mode (refusing ∷ refusing ∷ refusing ∷ refusing ∷ refusing ∷ []) (enter_loop start)
      ≡ (rudp, 0) ∷ (rudp, 1) ∷ (rudp, 2) ∷ (tcp, 3) ∷ [])
    × (d : Client) × (run_attempts any_mode
          (refusing ∷ refusing ∷ refusing ∷ refusing ∷ refusing ∷ [])
          (enter_loop start)
        ≡ loop_ended d)
version_fallback_example =
    version_fallback any_mode refusing refusing refusing refusing refusing [] start tt (
      refusing-RefusesVersion,
      (
        refusing-RefusesVersion,
        (refusing-RefusesVersion, (refusing-RefusesVersion, (refusing-RefusesVersion, tt))),
      ),
    )

waits_double_example :
    (retry_wait config (waited 4 config start)).0 ≡ doubled_delay config ((4 + 1) / 3)
waits_double_example =
    waits_double config start 4 (omega arith) (omega arith) refl refl (omega arith)

outcome_wait_example :
    let (wait, _) = retry_wait config (outcome config unreachable start).1 in
    (wait ≡ 0) ⊎ (wait ≡ 30 % 2 ^ 16)
outcome_wait_example = outcome_wait config unreachable start refl (unfold outcome in refl)

abbrev busy : Attempt
busy = attempt_ending (tsp_capabilities, err_tsp_server_too_busy)

busy-Frames : Frames busy
busy-Frames t v s list = inl refl

-- the client after a busy server
abbrev after_busy : Client
after_busy = record start {
  consec_retry = 2;
  status = (tsp_capabilities, err_tsp_server_too_busy);
  client_status = disconnected_error;
  ui_status = uis_err_tsp_server_too_busy;
}

busy-run : run_attempts config (busy ∷ []) (enter_loop start) ≡ again after_busy
unfolding run_attempts enter_loop connection_step choose_transport choose_version attempt_tunnel
    is_quick_cycle outcome retry_wait
busy-run = refl

connection_loop_safe_example : IsWalking after_busy × IsBounded after_busy
connection_loop_safe_example =
    connection_loop_safe config (busy ∷ []) start after_busy (inl refl) (busy-Frames, tt) busy-run
