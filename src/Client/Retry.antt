-- ===== src/Client/Retry.antt =====
-- tsp_client.c, `tspMain`: the wait at the end of the connection loop, and the loop around it.
pub mod Laws
use gogoc_android.Prelude.{ℕ, ◌+◌, ◌*◌, ◌%◌, ◌^◌, Bool, ltb, ◌==◌, if◌then◌else◌}
use gogoc_android.Client.{Config, Client}

abbrev pub consec_retry_to_double_wait : ℕ
consec_retry_to_double_wait = 3

-- `effective_retry_delay *= 2`, cut to the maximum; it has 16 bits
unfoldable pub double_delay : Config → ℕ → ℕ
double_delay conf delay =
    let doubled = delay * 2 % 2 ^ 16 in
    if ltb conf.retry_delay_max doubled then conf.retry_delay_max % 2 ^ 16 else doubled

-- The seconds to sleep before the next attempt, and the variables. `consec_retry` has 8 bits.
unfoldable pub retry_wait : Config → Client → ℕ × Client
retry_wait conf c =
    let delay =
      if c.consec_retry % consec_retry_to_double_wait == 0
      then double_delay conf c.effective_retry_delay
      else c.effective_retry_delay in
    if ltb 0 c.consec_retry
    then (
      delay,
      record c { effective_retry_delay = delay; consec_retry = (c.consec_retry + 1) % 2 ^ 8 },
    )
    else (
      0,
      record c {
        effective_retry_delay = conf.retry_delay % 2 ^ 16;
        consec_retry = (c.consec_retry + 1) % 2 ^ 8;
      },
    )

-- `loop_delay`, between two runs of the connection loop
pub next_loop_delay : Config → ℕ → ℕ
next_loop_delay conf delay =
    if ltb conf.retry_delay_max (delay * 2) then conf.retry_delay_max else delay * 2
