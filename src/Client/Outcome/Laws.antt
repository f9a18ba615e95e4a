-- ===== src/Client/Outcome/Laws.antt =====
-- What the outcome of an attempt means for the next one.
use gogoc_android.Prelude.{◌%◌, ◌^◌, ◌≡◌, ◌⊎◌, Bool, true, false, List, [], ◌∷◌, arith}
use gogoc_android.Status.{
  Code, err_keepalive_timeout, err_fail_socket_connect, evnt_broker_redirection,
  err_tun_lease_expired, err_inval_tsp_version, err_socket_io, err_tsp_server_too_busy,
  err_tunnel_io, err_keepalive_error,
}
use gogoc_android.Redirect.{Broker}
use gogoc_android.Redirect.Files.{read_broker_list_from_file}
use gogoc_android.Client.{Config, Client, Attempt, continue_loop, end_of_switch}
use gogoc_android.Client.Outcome.{
  try_broker, walk_list, try_broker_list_file, next_in_list, try_next_broker, mark_connect_failed,
  connect_failed, redirected, outcome,
}
use gogoc_android.Client.Retry.{retry_wait}
use gogoc_android.Client.Retry.Laws.{retry_wait-zero, retry_wait-one}

-- after which statuses the connection loop goes on, whatever the settings
abbrev pub is_retried : Code → Bool
is_retried err_tun_lease_expired = true
is_retried err_inval_tsp_version = true
is_retried err_socket_io = true
is_retried err_tsp_server_too_busy = true
is_retried err_tunnel_io = true
is_retried err_keepalive_error = true
is_retried _ = false

-- the statuses whose outcome depends on settings or lists
abbrev pub depends : Code → Bool
depends err_keepalive_timeout = true
depends err_fail_socket_connect = true
depends evnt_broker_redirection = true
depends _ = false

-- The connection loop goes on after exactly these statuses: an expired lease, a wrong version, an
-- I/O error, a busy server, a tunnel error, a keepalive error. The three that depend on more are a
-- keepalive timeout, a failure to connect, and a redirection.
pub outcome_retried :
    (conf : Config) (a : Attempt) (c : Client)
    → c.connected ≡ true
    → depends c.status.1 ≡ false
    → (outcome conf a c).1.connected ≡ is_retried c.status.1
unfolding outcome
outcome_retried conf a c h k = ground arith

-- the two variables of the wait
abbrev WaitsAlike : Client → Client → Type 0
WaitsAlike c d =
    (c.consec_retry ≡ d.consec_retry) × (c.effective_retry_delay ≡ d.effective_retry_delay)

try_broker_waits :
    (m : Bool) (b : Broker) (rest : List Broker) (c : Client)
    → WaitsAlike (try_broker m b rest c).1 c
unfolding try_broker
try_broker_waits m b rest c = ground arith

walk_list_waits : (m : Bool) (bs : List Broker) (c : Client) → WaitsAlike (walk_list m bs c).1 c
unfolding walk_list
walk_list_waits m [] c = ground arith
walk_list_waits m (b ∷ rest) c =
    try_broker_waits m b rest (record c {
      broker_list = b ∷ rest;
      trying_broker_list = true;
      trying_original_server = false;
    })

try_broker_list_file_waits :
    (conf : Config) (a : Attempt) (c : Client) → WaitsAlike (try_broker_list_file conf a c).1 c
unfolding try_broker_list_file
try_broker_list_file_waits conf a c =
    let list = (read_broker_list_from_file a.printf a.memory a.broker_list_file).1 in
    ground (arith, walk_list_waits a.address_memory list c)

next_in_list_waits :
    (conf : Config) (m : Bool) (current : List Broker) (c : Client)
    → WaitsAlike (next_in_list conf m current c).1 c
unfolding next_in_list
next_in_list_waits conf m [] c = ground arith
next_in_list_waits conf m (b ∷ []) c = ground arith
next_in_list_waits conf m (b ∷ d ∷ rest) c = try_broker_waits m d rest c

try_next_broker_waits :
    (conf : Config) (a : Attempt) (c : Client) → WaitsAlike (try_next_broker conf a c).1 c
unfolding try_next_broker
try_next_broker_waits conf a c =
    ground (arith, next_in_list_waits conf a.address_memory c.current_broker_in_list c)

-- what every outcome that leads to a wait has set
abbrev Counted : Config → Client → Type 0
Counted conf c =
    (c.consec_retry ≡ 0)
    ⊎ ((c.consec_retry ≡ 1) × (c.effective_retry_delay ≡ conf.retry_delay % 2 ^ 16))

connect_failed-Counted :
    (conf : Config) (a : Attempt) (c : Client)
    → c.read_last_server ≡ false
    → (connect_failed conf a c).0 ≡ end_of_switch
    → Counted conf (connect_failed conf a c).1
unfolding connect_failed
connect_failed-Counted conf a c h e = ground (
  arith,
  try_broker_list_file_waits conf a (mark_connect_failed conf c),
  try_next_broker_waits conf a (mark_connect_failed conf c),
)

redirected_continues : (a : Attempt) (c : Client) → (redirected a c).0 ≡ continue_loop
unfolding redirected
redirected_continues a c = ground arith

outcome-Counted :
    (conf : Config) (a : Attempt) (c : Client)
    → c.read_last_server ≡ false
    → (outcome conf a c).0 ≡ end_of_switch
    → Counted conf (outcome conf a c).1
unfolding outcome
outcome-Counted conf a c h e =
    ground (arith, connect_failed-Counted conf a c h, redirected_continues a c)

-- The comment in the code says that the wait doubles at every third failure in a row. Without a
-- last server it never does: after any outcome that leads to a wait, the wait is none at all or
-- `retry_delay`, since each such outcome sets the counter of failures to 0 or 1.
pub outcome_wait :
    (conf : Config) (a : Attempt) (c : Client)
    → c.read_last_server ≡ false
    → (outcome conf a c).0 ≡ end_of_switch
    → let (wait, _) = retry_wait conf (outcome conf a c).1 in
      (wait ≡ 0) ⊎ (wait ≡ conf.retry_delay % 2 ^ 16)
outcome_wait conf a c h e = ground (
  arith,
  outcome-Counted conf a c h e,
  retry_wait-zero conf (outcome conf a c).1,
  retry_wait-one conf (outcome conf a c).1,
)
