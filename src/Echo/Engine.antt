-- ===== src/Echo/Engine.antt =====
-- icmp_echo_engine.c: the engine, its sends, its reads and its main loop. Times are in microseconds.
pub mod Laws
mod Tests
pub mod Silence
pub mod Endings
use gogoc_android.Prelude.{
  ℕ, ◌+◌, ◌-◌, ◌*◌, ◌/◌, ◌%◌, ◌^◌, Bool, true, false, not, List, [], ◌∷◌, Option, none, some, ltb,
  leb, ◌==◌, ◌&&◌, ◌||◌, if◌then◌else◌,
}
use gogoc_android.Echo.{
  IeeRet, iee_success, iee_invalid_parms, iee_resource_starvation, iee_connectivity_assessed,
  iee_general_echo_timeout, iee_general_echo_error,
}
use gogoc_android.Echo.Events.{EchoEvent, EventList, insert_echo_event, remove_free_echo_event}
use gogoc_android.Echo.Packet.{
  Family, PrivRet, read_select_error, read_select_timeout, read_socket_closed, read_recv_error,
  send_pingout_success, send_pingout_error, send_memory_starvation, anal_packet_bad,
  anal_packet_ignored, anal_packet_pingin_late, anal_packet_pingin_ontime, Timeval,
  decode_icmp_packet,
}

-- `iee_mode_t`
pub data Mode : Type 0 where
  mode_other mode_ka mode_acd : Mode

abbrev pub is_ka : Mode → Bool
is_ka mode_ka = true
is_ka _ = false

abbrev pub is_acd : Mode → Bool
is_acd mode_acd = true
is_acd _ = false

-- `ICMP_ECHO_ENGINE_PARMS`, less the socket, the addresses and the callbacks
pub record EchoEngine : Type 0 where
  pub send_interval : ℕ
  pub echo_num : ℕ
  pub echo_timeout : ℕ
  pub echo_timeout_threshold : ℕ
  pub eng_mode : Mode
  pub eng_ongoing : Bool
  pub count_send : ℕ
  pub count_ontime : ℕ
  pub count_late : ℕ
  pub count_consec_late : ℕ
  pub events : EventList
  pub icmp_echo_id : ℕ
  pub icmp_saf : Family

-- `*pp_config`: NULL, an engine, or one that has been freed
pub data ConfigPointer : Type 0 where
  null freed : ConfigPointer
  points_to : EchoEngine → ConfigPointer

-- what the system answers to `IEE_init`: memory, `pal_inet_pton` on the two addresses, `pal_socket`
pub record Setup : Type 0 where
  pub memory : Bool
  pub src_parses : Bool
  pub dst_parses : Bool
  pub socket : Bool
  pub pid : ℕ
  pub node : ℕ → EchoEvent

-- the arguments of `IEE_init`; `af` is none for a family that is neither of the two
pub record Parms : Type 0 where
  pub eng_mode : Mode
  pub send_interval : ℕ
  pub echo_num : ℕ
  pub echo_timeout : ℕ
  pub echo_timeout_threshold : ℕ
  pub has_dst : Bool
  pub af : Option Family

-- `IEE_init`: the result, and `*pp_config` after it
unfoldable pub iee_init : Setup → Parms → ConfigPointer → IeeRet × ConfigPointer
iee_init sys parms freed = (iee_invalid_parms, freed)
iee_init sys parms (points_to engine) = (iee_invalid_parms, points_to engine)
iee_init sys parms null =
    if not parms.has_dst
    then (iee_invalid_parms, null)
    else (if not sys.memory then (iee_resource_starvation, null) else elim parms.af [
      | none ↦ (iee_invalid_parms, freed)
      | some saf ↦
          if not (sys.src_parses && sys.dst_parses)
          then (iee_invalid_parms, freed)
          else (if not sys.socket then (iee_general_echo_error, freed) else (
            iee_success,
            points_to (record {
              send_interval = parms.send_interval;
              echo_num = parms.echo_num;
              echo_timeout = parms.echo_timeout;
              echo_timeout_threshold = parms.echo_timeout_threshold;
              eng_mode = parms.eng_mode;
              eng_ongoing = true;
              count_send = 0;
              count_ontime = 0;
              count_late = 0;
              count_consec_late = 0;
              events = record { event_list = none; node = sys.node };
              icmp_echo_id = sys.pid;
              icmp_saf = saf;
            }),
          ))
    ])

-- `_compute_echo_timeout`: in the mode ACD, all requests wait until the last one's interval is over
unfoldable pub compute_echo_timeout : EchoEngine → ℕ
compute_echo_timeout e =
    if is_acd e.eng_mode
    then e.send_interval * ((e.echo_num + 2 ^ 32 - e.count_send) % 2 ^ 32) % 2 ^ 32
    else e.echo_timeout

-- `_create_insert_echo_event` with the address that `pal_malloc` gives, NULL if it has none: the engine,
-- if an event was made. `searches` bounds the rounds in the list; `none` if the list has a cycle.
unfoldable pub create_insert_echo_event :
    ℕ → EchoEngine → Option ℕ → ℕ → ℕ → Option (Bool × EchoEngine)
create_insert_echo_event searches e none sent echo_seq = some (false, e)
create_insert_echo_event searches e (some a) sent echo_seq =
    let timeout = compute_echo_timeout e in
    let event : EchoEvent = record {
      echo_seq = echo_seq;
      tv_timeout = sent + 1000 * timeout;
      next = none;
    } in
    let l : EventList = record e.events { node = λ b. if b == a then event else e.events.node b } in
    elim (insert_echo_event searches l a) [
      | none ↦ none
      | some l' ↦ some (true, record e { echo_timeout = timeout; events = l' })
    ]

-- one request: what `pal_malloc`, the clock and `sendto` give
pub record Send : Type 0 where
  pub address : Option ℕ
  pub now : ℕ
  pub sent : Bool

-- `_do_send`
unfoldable pub do_send : ℕ → EchoEngine → Send → Option (PrivRet × EchoEngine)
do_send searches e s =
    let echo_seq = e.count_send % 65536 in
    let counted = record e { count_send = (e.count_send + 1) % 2 ^ 32 } in
    elim (create_insert_echo_event searches counted s.address s.now echo_seq) [
      | none ↦ none
      | some (created, e') ↦ some (
        if created
            then (if s.sent then send_pingout_success else send_pingout_error)
            else send_memory_starvation,
        e',
      )
    ]

-- `_do_send_wrap`
unfoldable pub do_send_wrap : PrivRet → IeeRet
do_send_wrap send_pingout_success = iee_success
do_send_wrap send_memory_starvation = iee_resource_starvation
do_send_wrap _ = iee_general_echo_error

-- what `select` and `recv` give: the bytes of the buffer and how many were read into it, if any
pub data Wait : Type 0 where
  no_packet interrupted bad_descriptor select_fails : Wait
  recv_closes recv_fails : Wait
  received : List ℕ → ℕ → Wait

-- `_do_read`
unfoldable pub do_read : Timeval → EchoEngine → ℕ → Wait → PrivRet × Option ℕ
do_read tv e now no_packet = (read_select_timeout, none)
do_read tv e now interrupted = (read_select_timeout, none)
do_read tv e now bad_descriptor =
    (if e.eng_ongoing then read_select_error else read_socket_closed, none)
do_read tv e now select_fails = (read_select_error, none)
do_read tv e now recv_closes = (read_recv_error, none)
do_read tv e now recv_fails = (if e.eng_ongoing then read_recv_error else read_socket_closed, none)
do_read tv e now (received pkt_data pkt_len) =
    decode_icmp_packet tv e.icmp_saf e.icmp_echo_id e.echo_timeout now pkt_data pkt_len

-- One round of `_do_read_wrap`: the clock at the computation of `read_delay`, whether `IEE_stop` has been
-- called by the end of the wait, what the wait gives, and the clock at a reply and at the end of the round.
pub record Round : Type 0 where
  pub delay_now : ℕ
  pub stopped : Bool
  pub wait : Wait
  pub reply_now : ℕ
  pub end_now : ℕ

-- `time_left_ms > read_delay`, for the event at `b`, with `time_left_ms` computed at `left_now`
abbrev pub is_expiring : EchoEngine → ℕ → ℕ → ℕ → ℕ → Bool
is_expiring e tv_ref left_now delay_now b =
    ltb ((e.events.node b).tv_timeout + left_now) (tv_ref + delay_now)

-- the case of `READ_SELECT_TIMEOUT`
unfoldable pub select_timeout : ℕ → EchoEngine → ℕ → ℕ → ℕ → Option EchoEngine
select_timeout searches e tv_ref left_now delay_now = elim e.events.event_list [
  | none ↦ some e
  | some b ↦
      if is_expiring e tv_ref left_now delay_now b
      then elim (remove_free_echo_event searches e.events (e.events.node b).echo_seq) [
        | none ↦ none
        | some (_, l') ↦ some (record e {
          count_late = (e.count_late + 1) % 2 ^ 32;
          count_consec_late = (e.count_consec_late + 1) % 256;
          events = l';
        })
      ]
      else some e
]

-- the case of `ANAL_PACKET_PINGIN_LATE`
unfoldable pub pingin_late : EchoEngine → EchoEngine
pingin_late e =
    if not (e.echo_num == 0) && leb e.echo_num e.count_send
    then record e { eng_ongoing = false }
    else e

-- the case of `ANAL_PACKET_PINGIN_ONTIME`, which falls through to the late one
unfoldable pub pingin_ontime : ℕ → EchoEngine → IeeRet → ℕ → Option (IeeRet × EchoEngine)
pingin_ontime searches e retval echo_seq =
    elim (remove_free_echo_event searches e.events echo_seq) [
      | none ↦ none
      | some (removed, l') ↦
          let e' = record e {
            count_consec_late = 0;
            count_ontime = (e.count_ontime + 1) % 2 ^ 32;
            count_late = if removed then e.count_late else (e.count_late + 2 ^ 32 - 1) % 2 ^ 32;
            events = l';
          } in
          some (
            if is_acd e.eng_mode
            then (iee_connectivity_assessed, pingin_late (record e' { eng_ongoing = false }))
            else (retval, pingin_late e'))
    ]

abbrev pub give : IeeRet → Option EchoEngine → Option (IeeRet × EchoEngine)
give retval none = none
give retval (some e) = some (retval, e)

-- the `switch` on what happened in the read
unfoldable pub handle_read :
    ℕ → EchoEngine → ℕ → ℕ → ℕ → IeeRet → PrivRet × Option ℕ → Option (IeeRet × EchoEngine)
handle_read searches e tv_ref left_now delay_now retval (anal_packet_bad, _) = some (retval, e)
handle_read searches e tv_ref left_now delay_now retval (anal_packet_ignored, _) = some (retval, e)
handle_read searches e tv_ref left_now delay_now retval (read_select_timeout, _) =
    give retval (select_timeout searches e tv_ref left_now delay_now)
handle_read searches e tv_ref left_now delay_now retval (anal_packet_pingin_ontime, some echo_seq) =
    pingin_ontime searches e retval echo_seq
handle_read searches e tv_ref left_now delay_now retval (anal_packet_pingin_late, _) =
    some (retval, pingin_late e)
handle_read searches e tv_ref left_now delay_now retval (read_socket_closed, _) =
    some (iee_success, record e { eng_ongoing = false })
handle_read searches e tv_ref left_now delay_now retval _ =
    some (iee_general_echo_error, record e { eng_ongoing = false })

-- the test for the maximal number of consecutive timeouts
unfoldable pub check_threshold : IeeRet × EchoEngine → IeeRet × EchoEngine
check_threshold (retval, e) =
    if leb e.echo_timeout_threshold e.count_consec_late
    then (iee_general_echo_timeout, record e { eng_ongoing = false })
    else (retval, e)

-- one round of the loop
unfoldable pub read_round :
    ℕ → Timeval → EchoEngine → ℕ → ℕ → IeeRet → Round → Option (IeeRet × EchoEngine)
read_round searches tv e tv_ref left_now retval r =
    let e' : EchoEngine = if r.stopped then record e { eng_ongoing = false } else e in
    elim (handle_read searches e' tv_ref left_now r.delay_now retval
      (do_read tv e' r.reply_now r.wait)) [
        | none ↦ none
        | some given ↦ some (check_threshold given)
      ]

-- The loop of `_do_read_wrap`; `none` if it still runs after the rounds.
unfoldable pub read_loop :
    ℕ → Timeval → EchoEngine → ℕ → ℕ → IeeRet → List Round → Option (IeeRet × EchoEngine)
read_loop searches tv e tv_ref left_now retval [] = none
read_loop searches tv e tv_ref left_now retval (r ∷ rest) =
    elim (read_round searches tv e tv_ref left_now retval r) [
      | none ↦ none
      | some (retval', e') ↦
          let more = read_loop searches tv e' tv_ref r.end_now retval' rest in
          if ltb r.end_now tv_ref && e'.eng_ongoing then more else some (retval', e')
    ]

-- `_do_read_wrap`, entered at `now`
unfoldable pub do_read_wrap :
    ℕ → Timeval → EchoEngine → ℕ → ℕ → List Round → Option (IeeRet × EchoEngine)
do_read_wrap searches tv e tv_ref now rounds =
    let loop = read_loop searches tv e tv_ref now iee_success rounds in
    if leb tv_ref now then some (iee_success, e) else loop

-- One cycle of `IEE_process`: its request, whether `IEE_stop` has been called by then, the clock when the
-- reference is set and when `_do_read_wrap` is entered, and the rounds of the reading.
pub record Cycle : Type 0 where
  pub send : Send
  pub stopped : Bool
  pub ref_now : ℕ
  pub enter_now : ℕ
  pub rounds : List Round

-- `_compute_next_send`
abbrev pub compute_next_send : EchoEngine → ℕ → ℕ
compute_next_send e now = now + 1000 * e.send_interval

abbrev pub is_iee_success : IeeRet → Bool
is_iee_success iee_success = true
is_iee_success _ = false

-- the body of the main loop: the status, whether the loop breaks, and the engine
unfoldable pub process_cycle :
    ℕ → Timeval → EchoEngine → Cycle → Option (IeeRet × Bool × EchoEngine)
process_cycle searches tv e c = elim (do_send searches e c.send) [
  | none ↦ none
  | some (priv_retval, sent) ↦
      let e' : EchoEngine = if c.stopped then record sent { eng_ongoing = false } else sent in
      let retval = do_send_wrap priv_retval in
      let reading =
        do_read_wrap searches tv e' (compute_next_send e' c.ref_now) c.enter_now c.rounds in
      if not (is_iee_success retval)
      then some (retval, true, e')
      else (if not e'.eng_ongoing then some (retval, true, e') else elim reading [
        | none ↦ none
        | some (retval', e'') ↦ some (retval', not (is_iee_success retval'), e'')
      ])
]

-- the condition of the main loop
abbrev pub goes_on : EchoEngine → Bool
goes_on e = e.eng_ongoing && (e.echo_num == 0 || ltb e.count_send e.echo_num)

-- the main loop; `none` if it still runs after the cycles
unfoldable pub process_cycles :
    ℕ → Timeval → EchoEngine → IeeRet → List Cycle → Option (IeeRet × EchoEngine)
process_cycles searches tv e retval [] = if goes_on e then none else some (retval, e)
process_cycles searches tv e retval (c ∷ cycles) =
    if goes_on e
    then elim (process_cycle searches tv e c) [
      | none ↦ none
      | some (retval', breaks, e') ↦
          let more = process_cycles searches tv e' retval' cycles in
          if breaks then some (retval', e') else more
    ]
    else some (retval, e)

-- `IEE_process` on NULL or an engine; in the mode KA it first sleeps for an interval, at most a second at
-- a time, and `stopped` is whether `IEE_stop` is called in that time
unfoldable pub iee_process :
    ℕ → Timeval → Bool → Option EchoEngine → List Cycle → Option (IeeRet × Option EchoEngine)
iee_process searches tv stopped none cycles = some (iee_invalid_parms, none)
iee_process searches tv stopped (some e) cycles =
    let e' : EchoEngine =
      if is_ka e.eng_mode && stopped then record e { eng_ongoing = false } else e in
    elim (process_cycles searches tv e' iee_success cycles) [
      | none ↦ none
      | some (retval, e'') ↦ some (retval, some e'')
    ]

-- `IEE_stop`
unfoldable pub iee_stop : Option EchoEngine → IeeRet × Option EchoEngine
iee_stop none = (iee_invalid_parms, none)
iee_stop (some e) = (iee_success, some (record e { eng_ongoing = false }))

-- `IEE_destroy`
unfoldable pub iee_destroy : Option EchoEngine → IeeRet × Option EchoEngine
iee_destroy none = (iee_invalid_parms, none)
iee_destroy (some e) = (iee_success, none)
