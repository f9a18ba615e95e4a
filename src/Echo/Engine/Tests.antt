-- ===== src/Echo/Engine/Tests.antt =====
-- The echo engine at concrete inputs.
use gogoc_android.Prelude.{
  ℕ, ◌+◌, ◌≤◌, ◌≡◌, refl, true, false, List, [], ◌∷◌, ◌++◌, some, none, arith,
}
use gogoc_android.Echo.{iee_success, iee_general_echo_timeout, iee_general_echo_error}
use gogoc_android.Echo.Packet.{af_inet, reply_type, echo_packet}
use gogoc_android.Echo.Packet.Tests.{four_bytes, ip_header}
use gogoc_android.Echo.Engine.{
  EchoEngine, mode_ka, Round, Cycle, no_packet, received, read_loop, iee_process,
}
use gogoc_android.Echo.Engine.Silence.{IsSilent, silent_peer_detected}
use gogoc_android.Echo.Engine.Endings.{foreign_reply_ends, timeout_only_at_threshold}

-- the parameters of a keepalive: an interval of 30 seconds, replies within 5, and two in a row
abbrev keepalive : EchoEngine
keepalive = record {
  send_interval = 30000;
  echo_num = 0;
  echo_timeout = 5000;
  echo_timeout_threshold = 2;
  eng_mode = mode_ka;
  eng_ongoing = true;
  count_send = 0;
  count_ontime = 0;
  count_late = 0;
  count_consec_late = 0;
  events = record {
    event_list = none;
    node = λ b. record { echo_seq = 0; tv_timeout = 0; next = none };
  };
  icmp_echo_id = 1000;
  icmp_saf = af_inet;
}

abbrev wait_round : ℕ → ℕ → Round
wait_round from till = record {
  delay_now = from;
  stopped = false;
  wait = no_packet;
  reply_now = till;
  end_now = till;
}

-- a request at a time, which times out after 5 seconds
abbrev silent_cycle : ℕ → Cycle
silent_cycle t = record {
  send = record { address = some 0; now = t; sent = true };
  stopped = false;
  ref_now = t;
  enter_now = t;
  rounds = wait_round t (t + 5000000) ∷ wait_round (t + 5000000) (t + 30000000) ∷ [];
}

silent_cycle-IsSilent : (t : ℕ) → IsSilent 30000 5000 (silent_cycle t)
silent_cycle-IsSilent t = record {
  address = 0;
  allocated = refl;
  sent = refl;
  unstopped = refl;
  first = wait_round t (t + 5000000);
  second = wait_round (t + 5000000) (t + 30000000);
  both = refl;
  enters = omega arith;
  times_out = record {
    unstopped = refl;
    silent = refl;
    expires = omega arith;
    in_time = omega arith;
  };
  rests = record { unstopped = refl; silent = refl; ends = omega arith };
}

silent_peer_detected_example :
    (iee_process 1 four_bytes false (some keepalive) (silent_cycle 0 ∷ []) ≡ none)
    × (e' : EchoEngine) × (iee_process 1 four_bytes false
          (some keepalive)
          ((silent_cycle 0 ∷ []) ++ (silent_cycle 30000000 ∷ []))
        ≡ some (iee_general_echo_timeout, some e'))
silent_peer_detected_example =
    silent_peer_detected 0 four_bytes keepalive (silent_cycle 0 ∷ []) (silent_cycle 30000000) []
      (record { idle = refl; ongoing = refl; consec = refl; endless = refl; other = refl }) refl
      (omega arith) (silent_cycle-IsSilent 0, tt) (silent_cycle-IsSilent 30000000)

abbrev two_silent : List Cycle
two_silent = (silent_cycle 0 ∷ []) ++ (silent_cycle 30000000 ∷ [])

detected :
    (iee_process 1 four_bytes false (some keepalive) (silent_cycle 0 ∷ []) ≡ none)
    × (e' : EchoEngine) × (iee_process 1 four_bytes false (some keepalive) two_silent
        ≡ some (iee_general_echo_timeout, some e'))
detected =
    silent_peer_detected 0 four_bytes keepalive (silent_cycle 0 ∷ []) (silent_cycle 30000000) []
      (record { idle = refl; ongoing = refl; consec = refl; endless = refl; other = refl }) refl
      (omega arith) (silent_cycle-IsSilent 0, tt) (silent_cycle-IsSilent 30000000)

timeout_only_at_threshold_example :
    (detected.1.echo_timeout_threshold ≤ detected.1.count_consec_late)
    × (detected.1.eng_ongoing ≡ false)
timeout_only_at_threshold_example =
    timeout_only_at_threshold 1 four_bytes false keepalive detected.1 two_silent detected.2

-- a reply to the process 7 with the code 1
abbrev foreign_reply : Round
foreign_reply = record {
  delay_now = 0;
  stopped = false;
  wait = received (ip_header ++ echo_packet (reply_type af_inet) 1 0 7 0 []) 28;
  reply_now = 1;
  end_now = 1;
}

foreign_reply_ends_example :
    read_loop 1 four_bytes keepalive 30000000 0 iee_success (foreign_reply ∷ [])
    ≡ some (iee_general_echo_error, record keepalive { eng_ongoing = false })
foreign_reply_ends_example =
    foreign_reply_ends 1 four_bytes keepalive 30000000 0 foreign_reply [] ip_header 1 0 7 0 [] 28
      (5, omega arith, omega arith, refl, omega arith) (omega arith) (omega arith) (ground arith)
      refl refl (omega arith)
