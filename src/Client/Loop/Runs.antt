-- ===== src/Client/Loop/Runs.antt =====
-- What holds at the head of the connection loop, whatever the attempts bring.
use gogoc_android.Prelude.{
  ℕ, ◌^◌, ◌<◌, ◌≡◌, ◌⊎◌, inl, inr, refl, sym, ◌∙◌, Bool, true, List, [], ◌∷◌, some, arith,
  Bool-cases, Option-cases, All,
}
use gogoc_android.Redirect.{Broker}
use gogoc_android.Client.{Config, Client, Attempt, Flow, continue_loop, end_of_switch, goto_end}
use gogoc_android.Client.Choice.{choose_transport}
use gogoc_android.Client.Outcome.{
  try_broker, walk_list, try_broker_list_file, next_in_list, try_next_broker, mark_connect_failed,
  connect_failed, redirected, outcome,
}
use gogoc_android.Client.Retry.{double_delay, retry_wait}
use gogoc_android.Client.Loop.{
  Next, again, while_connected, loop_ended, program_ended, attempt_tunnel, after_switch,
  connection_step, run_attempts, enter_loop,
}
use gogoc_android.Client.Loop.Invariant.{
  IsWalking, IsBounded, Frames, choose_transport-same, choose_transport-IsBounded, Keeps,
  outcome-Keeps,
}

-- what the wait and the table of versions are made of
abbrev SameBounds : Client → Client → Type 0
SameBounds c d =
    (c.version_index ≡ d.version_index)
    × (c.effective_retry_delay ≡ d.effective_retry_delay)
    × (c.consec_retry ≡ d.consec_retry)

try_broker-same :
    (m : Bool) (b : Broker) (rest : List Broker) (c : Client)
    → SameBounds (try_broker m b rest c).1 c
unfolding try_broker
try_broker-same m b rest c = ground arith

try_broker_list_file-same :
    (conf : Config) (a : Attempt) (c : Client) → SameBounds (try_broker_list_file conf a c).1 c
unfolding try_broker_list_file walk_list try_broker
try_broker_list_file-same conf a c = ground arith

try_next_broker-same :
    (conf : Config) (a : Attempt) (c : Client) → SameBounds (try_next_broker conf a c).1 c
unfolding try_next_broker next_in_list try_broker
try_next_broker-same conf a c = ground arith

connect_failed-IsBounded :
    (conf : Config) (a : Attempt) (c : Client) → IsBounded c → IsBounded (connect_failed conf a c).1
unfolding connect_failed
connect_failed-IsBounded conf a c b = ground (
  arith,
  try_broker_list_file-same conf a (mark_connect_failed conf c),
  try_next_broker-same conf a (mark_connect_failed conf c),
)

redirected-IsBounded : (a : Attempt) (c : Client) → IsBounded c → IsBounded (redirected a c).1
unfolding redirected
redirected-IsBounded a c b = ground arith

outcome-IsBounded :
    (conf : Config) (a : Attempt) (c : Client) → IsBounded c → IsBounded (outcome conf a c).1
unfolding outcome
outcome-IsBounded conf a c b =
    ground (arith, connect_failed-IsBounded conf a c b, redirected-IsBounded a c b)

retry_wait-Keeps : (conf : Config) (c : Client) → IsWalking c → IsWalking (retry_wait conf c).1
unfolding retry_wait
retry_wait-Keeps conf c w = ground (arith, w)

double_delay-bytes : (conf : Config) (delay : ℕ) → double_delay conf delay < 2 ^ 16
unfolding double_delay
double_delay-bytes conf delay = ground arith

retry_wait-IsBounded : (conf : Config) (c : Client) → IsBounded c → IsBounded (retry_wait conf c).1
unfolding retry_wait
retry_wait-IsBounded conf c b = ground (arith, double_delay-bytes conf c.effective_retry_delay)

-- the invariant of the head of the loop
record IsSafe (c : Client) : Type 0 where
  walking : IsWalking c
  bounded : IsBounded c

IsSafe-choose :
    (conf : Config) (c d : Client) → IsSafe c → choose_transport conf c ≡ some d → IsSafe d
IsSafe-choose conf c d s e =
    let same = choose_transport-same conf c d e in
    record {
      walking = rw (same.0, same.1, same.2, same.3, same.4) s.walking;
      bounded = choose_transport-IsBounded conf c d s.bounded e;
    }

attempt_tunnel-Keeps :
    (conf : Config) (a : Attempt) (c : Client)
    → Frames a
    → IsSafe c
    → Keeps (attempt_tunnel conf a c)
unfolding attempt_tunnel
attempt_tunnel-Keeps conf a c f s =
    outcome-Keeps conf a _ (elim (f c.transport c.version_index c.server c.broker_list) [
      | inl same ↦ inl (λ o l. rw same (s.walking o l))
      | inr (inl event) ↦ inr (inl event)
      | inr (inr error) ↦ inr (inr error)
    ])

attempt_tunnel-IsBounded :
    (conf : Config) (a : Attempt) (c : Client) → IsSafe c → IsBounded (attempt_tunnel conf a c).1
unfolding attempt_tunnel
attempt_tunnel-IsBounded conf a c s = outcome-IsBounded conf a _ s.bounded

while_connected-again :
    (c d : Client) → while_connected c ≡ again d → (c.connected ≡ true) × (d ≡ c)
while_connected-again c d e = elim (Bool-cases c.connected) [
  | inl on ↦ (on, ground (arith, on, e))
  | inr off ↦ absurd (ground arith)
]

retry_wait-connected : (conf : Config) (c : Client) → (retry_wait conf c).1.connected ≡ c.connected
unfolding retry_wait
retry_wait-connected conf c = ground arith

after_switch-IsSafe :
    (conf : Config) (flow : Flow) (c d : Client)
    → Keeps (flow, c)
    → IsBounded c
    → after_switch conf (flow, c) ≡ again d
    → IsSafe d
after_switch-IsSafe conf continue_loop c d k b e =
    let (on, same) = while_connected-again c d e in
    rw same (record { walking = k (ground arith) on; bounded = b })
after_switch-IsSafe conf end_of_switch c d k b e =
    let (on, same) = while_connected-again (retry_wait conf c).1 d e in
    rw same (record {
      walking = retry_wait-Keeps conf c (k (ground arith) (sym (retry_wait-connected conf c) ∙ on));
      bounded = retry_wait-IsBounded conf c b;
    })
after_switch-IsSafe conf goto_end c d k b e = absurd (ground arith)

connection_step-IsSafe :
    (conf : Config) (a : Attempt) (c d : Client)
    → Frames a
    → IsSafe c
    → connection_step conf a c ≡ again d
    → IsSafe d
unfolding connection_step
connection_step-IsSafe conf a c d f s e = elim (Option-cases (choose_transport conf c)) [
  | inl gave_up ↦ absurd (ground (arith, gave_up))
  | inr (chosen, got) ↦
      let safe = IsSafe-choose conf c chosen s got in
      let (flow, next) = attempt_tunnel conf a chosen in
      after_switch-IsSafe conf flow next d (attempt_tunnel-Keeps conf a chosen f safe)
        (attempt_tunnel-IsBounded conf a chosen safe)
        (elim (Bool-cases a.stop) [
          | inl stop ↦ absurd (ground (arith, got))
          | inr go ↦ rw (go, got) at e
        ])
]

Next-cases :
    (n : Next)
    → ((c : Client) × (n ≡ again c))
      ⊎ ((c : Client) × (n ≡ loop_ended c))
      ⊎ ((c : Client) × (n ≡ program_ended c))
Next-cases (again c) = inl (c, refl)
Next-cases (loop_ended c) = inr (inl (c, refl))
Next-cases (program_ended c) = inr (inr (c, refl))

-- the same after any number of passes
run_attempts-IsSafe :
    (conf : Config) (attempts : List Attempt) (c d : Client)
    → All Frames attempts
    → IsSafe c
    → run_attempts conf attempts c ≡ again d
    → IsSafe d
unfolding run_attempts
run_attempts-IsSafe conf [] c d f s e = let same : c ≡ d = cc in rw same at s
run_attempts-IsSafe conf (a ∷ attempts) c d f s e = elim (Next-cases (connection_step conf a c)) [
  | inl (c', went) ↦
      run_attempts-IsSafe conf attempts c' d f.1 (connection_step-IsSafe conf a c c' f.0 s went)
        (rw (run_attempts, went) at e)
  | inr (inl (c', left)) ↦ absurd (ground (arith, (rw (run_attempts, left) at e)))
  | inr (inr (c', left)) ↦ absurd (ground (arith, (rw (run_attempts, left) at e)))
]

-- After any number of passes of the connection loop, entered while the original or the last server
-- is tried: whenever a broker of a list is being tried, the pointer is to an element of the list, so
-- that the loop's test for unsafe pointers never holds; the version's index is one of the table of
-- four; and the two variables of the wait keep to their 16 and 8 bits. `tspSetupTunnel` is taken to
-- change the list only with one of the two statuses of a redirection.
pub connection_loop_safe :
    (conf : Config) (attempts : List Attempt) (c d : Client)
    → (c.trying_original_server ≡ true) ⊎ (c.read_last_server ≡ true)
    → All Frames attempts
    → run_attempts conf attempts (enter_loop c) ≡ again d
    → IsWalking d × IsBounded d
unfolding enter_loop
connection_loop_safe conf attempts c d server f e =
    let start : IsSafe (enter_loop c) = record {
      walking = ground (arith, server);
      bounded = (omega arith, omega arith, omega arith);
    } in
    let safe = run_attempts-IsSafe conf attempts (enter_loop c) d f start e in
    (safe.walking, safe.bounded)
