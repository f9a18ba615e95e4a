-- ===== src/Echo/Engine/Endings.antt =====
-- What ends the reading of an interval.
use gogoc_android.Prelude.{
  Option-cases, ℕ, ◌+◌, ◌^◌, ◌≤◌, ◌<◌, ◌≡◌, ◌≢◌, ◌⊎◌, inl, inr, refl, Bool, true, false, List, [],
  ◌∷◌, ◌++◌, Option, none, some, ◌&&◌, if◌then◌else◌, arith, length,
}
use gogoc_android.Echo.{
  IeeRet, iee_success, iee_invalid_parms, iee_resource_starvation, iee_connectivity_assessed,
  iee_general_echo_timeout, iee_general_echo_error,
}
use gogoc_android.Echo.Packet.{
  PrivRet, read_select_timeout, send_pingout_success, send_memory_starvation,
  anal_packet_pingin_ontime, Timeval, reply_type, echo_packet,
}
use gogoc_android.Echo.Packet.Laws.{IsIpHeader, foreign_reply_error}
use gogoc_android.Echo.Engine.{
  EchoEngine, is_ka, received, do_read, Round, handle_read, pingin_ontime, check_threshold,
  read_round, read_loop, do_read_wrap, do_send, do_send_wrap, Cycle, compute_next_send,
  process_cycle, process_cycles, iee_process,
}

-- A reply with a code other than zero, to whichever process of the host, ends the reading and the engine
-- with an error, for as long as the threshold is not reached.
pub foreign_reply_ends :
    (searches : ℕ) (tv : Timeval) (e : EchoEngine) (tv_ref left_now : ℕ) (r : Round)
    (rest : List Round) (ip : List ℕ) (code icmp_cksm echo_id echo_seq : ℕ) (echo_data : List ℕ)
    (pkt_len : ℕ)
    → IsIpHeader e.icmp_saf ip
    → length ip + 8 ≤ pkt_len
    → pkt_len < 2 ^ 32
    → code ≢ 0
    → r.stopped ≡ false
    → r.wait
      ≡ received
          (ip ++ echo_packet (reply_type e.icmp_saf) code icmp_cksm echo_id echo_seq echo_data)
          pkt_len
    → e.count_consec_late < e.echo_timeout_threshold
    → read_loop searches tv e tv_ref left_now iee_success (r ∷ rest)
      ≡ some (iee_general_echo_error, record e { eng_ongoing = false })
unfolding read_loop read_round do_read handle_read check_threshold
foreign_reply_ends searches tv e tv_ref left_now r rest ip code icmp_cksm echo_id echo_seq echo_data
      pkt_len header long short coded unstopped waited under =
    ground (
      arith,
      unstopped,
      waited,
      under,
      foreign_reply_error tv e.icmp_saf ip icmp_cksm echo_seq echo_data e.icmp_echo_id
          e.echo_timeout r.reply_now pkt_len header long short code echo_id coded,
    )

-- the status of a read is not the general timeout
handle_read-timeout :
    (searches : ℕ) (e e' : EchoEngine) (tv_ref left_now delay_now : ℕ) (retval : IeeRet)
    (got : PrivRet × Option ℕ)
    → retval ≢ iee_general_echo_timeout
    → handle_read searches e tv_ref left_now delay_now retval got
      ≢ some (iee_general_echo_timeout, e')
unfolding handle_read pingin_ontime
handle_read-timeout searches e e' tv_ref left_now delay_now retval
      (anal_packet_pingin_ontime, some q) n h =
    ground (arith, h)
handle_read-timeout searches e e' tv_ref left_now delay_now retval (anal_packet_pingin_ontime, none)
      n h =
    ground (arith, h)
handle_read-timeout searches e e' tv_ref left_now delay_now retval (read_select_timeout, q) n h =
    ground (arith, h)
handle_read-timeout searches e e' tv_ref left_now delay_now retval (_, q) n h = ground (arith, h)

-- the count has reached the threshold, and the engine stops
abbrev IsOver : EchoEngine → Type 0
IsOver e = (e.echo_timeout_threshold ≤ e.count_consec_late) × (e.eng_ongoing ≡ false)

timeout_cases :
    (retval : IeeRet) → (retval ≡ iee_general_echo_timeout) ⊎ (retval ≢ iee_general_echo_timeout)
timeout_cases iee_general_echo_timeout = inl refl
timeout_cases iee_success = inr (λ e. cc)
timeout_cases iee_invalid_parms = inr (λ e. cc)
timeout_cases iee_resource_starvation = inr (λ e. cc)
timeout_cases iee_connectivity_assessed = inr (λ e. cc)
timeout_cases iee_general_echo_error = inr (λ e. cc)

read_round-timeout_only :
    (searches : ℕ) (tv : Timeval) (e e' : EchoEngine) (tv_ref left_now : ℕ) (retval : IeeRet)
    (r : Round)
    → retval ≢ iee_general_echo_timeout
    → read_round searches tv e tv_ref left_now retval r ≡ some (iee_general_echo_timeout, e')
    → IsOver e'
unfolding read_round check_threshold
read_round-timeout_only searches tv e e' tv_ref left_now retval r n h =
    let e1 : EchoEngine = if r.stopped then record e { eng_ongoing = false } else e in
    ground (
      arith,
      h,
      handle_read-timeout searches e1 e' tv_ref left_now r.delay_now retval
          (do_read tv e1 r.reply_now r.wait) n,
    )

read_loop-timeout_only :
    (searches : ℕ) (tv : Timeval) (e e' : EchoEngine) (tv_ref left_now : ℕ) (retval : IeeRet)
    (rounds : List Round)
    → retval ≢ iee_general_echo_timeout
    → read_loop searches tv e tv_ref left_now retval rounds ≡ some (iee_general_echo_timeout, e')
    → IsOver e'
unfolding read_loop
read_loop-timeout_only searches tv e e' tv_ref left_now retval [] n h = absurd (ground (arith, h))
read_loop-timeout_only searches tv e e' tv_ref left_now retval (r ∷ rest) n h =
    elim (Option-cases (read_round searches tv e tv_ref left_now retval r)) [
      | inl halts ↦ absurd (ground (arith, h, halts))
      | inr (got, steps) ↦ elim (timeout_cases got.0) [
        | inl over ↦
            let ended =
              read_round-timeout_only searches tv e got.1 tv_ref left_now retval r n
                (ground (arith, steps, over)) in
            ground (arith, h, steps, ended)
        | inr other ↦ ground (
          arith,
          h,
          steps,
          other,
          read_loop-timeout_only searches tv got.1 e' tv_ref r.end_now got.0 rest other,
        )
      ]
    ]

do_read_wrap-timeout_only :
    (searches : ℕ) (tv : Timeval) (e e' : EchoEngine) (tv_ref now : ℕ) (rounds : List Round)
    → do_read_wrap searches tv e tv_ref now rounds ≡ some (iee_general_echo_timeout, e')
    → IsOver e'
unfolding do_read_wrap
do_read_wrap-timeout_only searches tv e e' tv_ref now rounds h =
    ground (
      arith,
      h,
      read_loop-timeout_only searches tv e e' tv_ref now iee_success rounds (ground arith),
    )

do_send_wrap-timeout : (ret : PrivRet) → do_send_wrap ret ≢ iee_general_echo_timeout
unfolding do_send_wrap
do_send_wrap-timeout send_pingout_success h = ground (arith, h)
do_send_wrap-timeout send_memory_starvation h = ground (arith, h)
do_send_wrap-timeout _ h = ground (arith, h)

process_cycle-timeout_only :
    (searches : ℕ) (tv : Timeval) (e e' : EchoEngine) (c : Cycle) (breaks : Bool)
    → process_cycle searches tv e c ≡ some (iee_general_echo_timeout, breaks, e')
    → IsOver e' × (breaks ≡ true)
unfolding process_cycle
process_cycle-timeout_only searches tv e e' c breaks h =
    elim (Option-cases (do_send searches e c.send)) [
      | inl halts ↦ absurd (ground (arith, h, halts))
      | inr ((ret, sent), sends) ↦
          let e1 : EchoEngine = if c.stopped then record sent { eng_ongoing = false } else sent in
          ground (
            arith,
            h,
            sends,
            do_send_wrap-timeout ret,
            do_read_wrap-timeout_only searches tv e1 e' (compute_next_send e1 c.ref_now) c.enter_now
                c.rounds,
          )
    ]

process_cycles-timeout_only :
    (searches : ℕ) (tv : Timeval) (e e' : EchoEngine) (retval : IeeRet) (cycles : List Cycle)
    → retval ≢ iee_general_echo_timeout
    → process_cycles searches tv e retval cycles ≡ some (iee_general_echo_timeout, e')
    → IsOver e'
unfolding process_cycles
process_cycles-timeout_only searches tv e e' retval [] n h = absurd (ground (arith, h, n))
process_cycles-timeout_only searches tv e e' retval (c ∷ cycles) n h =
    elim (Option-cases (process_cycle searches tv e c)) [
      | inl halts ↦ absurd (ground (arith, h, halts, n))
      | inr ((got, breaks, e1), runs) ↦ elim (timeout_cases got) [
        | inl over ↦
            let ended =
              process_cycle-timeout_only searches tv e e1 c breaks (ground (arith, runs, over)) in
            ground (arith, h, n, runs, ended)
        | inr other ↦ ground (
          arith,
          h,
          n,
          runs,
          other,
          process_cycles-timeout_only searches tv e1 e' got cycles other,
        )
      ]
    ]

-- The engine declares a general timeout only with the count of consecutive timeouts at its threshold,
-- and has stopped then.
pub timeout_only_at_threshold :
    (searches : ℕ) (tv : Timeval) (stopped : Bool) (e e' : EchoEngine) (cycles : List Cycle)
    → iee_process searches tv stopped (some e) cycles ≡ some (iee_general_echo_timeout, some e')
    → (e'.echo_timeout_threshold ≤ e'.count_consec_late) × (e'.eng_ongoing ≡ false)
unfolding iee_process
timeout_only_at_threshold searches tv stopped e e' cycles h =
    let e1 : EchoEngine =
      if is_ka e.eng_mode && stopped then record e { eng_ongoing = false } else e in
    ground
      (arith, h, process_cycles-timeout_only searches tv e1 e' iee_success cycles (ground arith))
