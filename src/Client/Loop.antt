-- ===== src/Client/Loop.antt =====
-- tsp_client.c, `tspMain`: one pass of the connection loop, and its runs.
pub mod Invariant
pub mod Runs
pub mod Walk
pub mod Fallback
use gogoc_android.Prelude.{
  ℕ, Bool, true, false, List, [], ◌∷◌, Option, none, some, ◌&&◌, if◌then◌else◌,
}
use gogoc_android.Cstring.{Text, Printf}
use gogoc_android.Redirect.{ok, no_last_server, cant_open_file}
use gogoc_android.Redirect.Files.{Opened, read_last_server_from_file}
use gogoc_android.Client.{
  Config, Client, Attempt, Flow, continue_loop, end_of_switch, goto_end, rudp, disconnected_idle,
  uis_no_error, connecting,
}
use gogoc_android.Client.Choice.{choose_transport, is_quick_cycle}
use gogoc_android.Client.Outcome.{outcome}
use gogoc_android.Client.Retry.{retry_wait, next_loop_delay}

-- how the connection loop goes on after a pass
pub data Next : Type 0 where
  again : Client → Next
  loop_ended : Client → Next
  program_ended : Client → Next

-- the condition of the `while`
abbrev pub while_connected : Client → Next
while_connected c = if c.connected then again c else loop_ended c

-- the attempt, its outcome, and the wait
unfoldable pub attempt_tunnel : Config → Attempt → Client → Flow × Client
attempt_tunnel conf a c =
    let (status, list) = a.setup c.transport c.version_index c.server c.broker_list in
    outcome conf a (record c {
      quick_cycle = is_quick_cycle conf c.transport;
      status = status;
      broker_list = list;
      client_status = connecting;
      ui_status = uis_no_error;
    })

abbrev pub after_switch : Config → Flow × Client → Next
after_switch conf (continue_loop, c) = while_connected c
after_switch conf (end_of_switch, c) = while_connected (retry_wait conf c).1
after_switch conf (goto_end, c) = program_ended c

-- one pass
unfoldable pub connection_step : Config → Attempt → Client → Next
connection_step conf a c = if a.stop then program_ended c else elim (choose_transport conf c) [
  | none ↦ loop_ended (record c { connected = false })
  | some chosen ↦ after_switch conf (attempt_tunnel conf a chosen)
]

-- The passes on a list of attempts, until the loop is left or the list is used up.
unfoldable pub run_attempts : Config → List Attempt → Client → Next
run_attempts conf [] c = again c
run_attempts conf (a ∷ rest) c = elim (connection_step conf a c) [
  | again c' ↦ run_attempts conf rest c'
  | loop_ended c' ↦ loop_ended c'
  | program_ended c' ↦ program_ended c'
]

-- The first server: the last one connected to, if `always_use_same_server` is on, its file has a name
-- and gives one. The results: the server, `read_last_server` and `trying_original_server`; `none` is
-- an error.
pub first_server : Printf → Bool → Bool → Opened Text → Text → Option (Text × Bool × Bool)
first_server printf always_use_same_server has_last_server_file last_server_file original_server =
    let (status, last_server) = read_last_server_from_file printf last_server_file in
    let original = some (original_server, false, true) in
    if always_use_same_server && has_last_server_file
    then elim status [
      | ok ↦ elim last_server [ none ↦ none | some server ↦ some (server, true, false) ]
      | no_last_server ↦ original
      | cant_open_file ↦ original
      | _ ↦ none
    ]
    else original

-- The variables of the connection loop, set again each time that it is entered.
unfoldable pub enter_loop : Client → Client
enter_loop c = record c {
  version_index = 0;
  connected = true;
  cycle = 0;
  tsp_version_fallback = false;
  quick_cycle = false;
  current_broker_in_list = [];
  trying_broker_list = false;
  effective_retry_delay = 0;
  consec_retry = 0;
}

-- The loop around the connection loop, on the attempts of each of its rounds: the delays slept
-- between them, and the client at the end. In boot mode there is one round.
pub run_loops : Config → ℕ → List (List Attempt) → Client → List ℕ × Client
run_loops conf loop_delay [] c = ([], c)
run_loops conf loop_delay (round ∷ rounds) c = elim (run_attempts conf round (enter_loop c)) [
  | again c' ↦ ([], c')
  | program_ended c' ↦ ([], c')
  | loop_ended c' ↦
      let (delays, last) = run_loops conf (next_loop_delay conf loop_delay) rounds c' in
      if conf.boot_mode then (loop_delay ∷ [], c') else (loop_delay ∷ delays, last)
]
