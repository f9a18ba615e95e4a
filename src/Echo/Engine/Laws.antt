-- ===== src/Echo/Engine/Laws.antt =====
-- How timeouts end the main loop.
use gogoc_android.Prelude.{
  Bool-cases, Bool-cases, ℕ, suc, ◌+◌, ◌*◌, ◌%◌, ◌^◌, ◌≤◌, ◌<◌, ◌≡◌, ◌⊎◌, inl, inr, refl, ◌∙◌, true,
  false, none, some, leb, ◌==◌, if◌then◌else◌, arith,
}
use gogoc_android.Echo.{IeeRet, iee_success, iee_general_echo_timeout}
use gogoc_android.Echo.Events.{EchoEvent, deref, update, assign, insert_at, remove_at}
use gogoc_android.Echo.Packet.{send_pingout_success, Timeval}
use gogoc_android.Echo.Engine.{
  EchoEngine, is_acd, compute_echo_timeout, create_insert_echo_event, Send, do_send, no_packet,
  do_read, Round, select_timeout, handle_read, check_threshold, read_round,
}

-- no request is waiting, and so many have timed out in a row
pub record IsIdle (late : ℕ) (e : EchoEngine) : Type 0 where
  pub idle : e.events.event_list ≡ none
  pub ongoing : e.eng_ongoing ≡ true
  pub consec : e.count_consec_late ≡ late
  pub endless : e.echo_num ≡ 0
  pub other : is_acd e.eng_mode ≡ false

-- one request is waiting
pub record IsWaiting (late timeout : ℕ) (e : EchoEngine) : Type 0 where
  pub address : ℕ
  pub first : e.events.event_list ≡ some address
  pub last : (e.events.node address).next ≡ none
  pub due : (e.events.node address).tv_timeout ≡ timeout
  pub ongoing : e.eng_ongoing ≡ true
  pub consec : e.count_consec_late ≡ late
  pub endless : e.echo_num ≡ 0
  pub other : is_acd e.eng_mode ≡ false

pub record SameParms (e e' : EchoEngine) : Type 0 where
  pub same_interval : e'.send_interval ≡ e.send_interval
  pub same_timeout : e'.echo_timeout ≡ e.echo_timeout
  pub same_threshold : e'.echo_timeout_threshold ≡ e.echo_timeout_threshold

pub do_send-IsWaiting :
    (searches late : ℕ) (e : EchoEngine) (a : ℕ) (s : Send)
    → IsIdle late e
    → s.address ≡ some a
    → s.sent ≡ true
    → (e' : EchoEngine) × (do_send (suc searches) e s ≡ some (send_pingout_success, e'))
      × IsWaiting late (s.now + 1000 * e.echo_timeout) e'
      × SameParms e e'
unfolding do_send create_insert_echo_event compute_echo_timeout insert_at deref assign
do_send-IsWaiting searches late e a s i h k =
    let event : EchoEvent = record {
      echo_seq = e.count_send % 65536;
      tv_timeout = s.now + 1000 * e.echo_timeout;
      next = none;
    } in
    let node = λ (b : ℕ). if b == a then event else e.events.node b in
    (
      record e {
        count_send = (e.count_send + 1) % 2 ^ 32;
        events = record { event_list = some a; node = update node a none };
      },
      ground (arith, i.idle, i.other, h, k),
      record {
        address = a;
        first = refl;
        last = ground arith;
        due = ground arith;
        ongoing = i.ongoing;
        consec = i.consec;
        endless = i.endless;
        other = i.other;
      },
      record { same_interval = refl; same_timeout = refl; same_threshold = refl },
    )

-- A wait for the request that ends without a packet when it is due.
pub record IsTimeout (timeout tv_ref left_now : ℕ) (r : Round) : Type 0 where
  pub unstopped : r.stopped ≡ false
  pub silent : r.wait ≡ no_packet
  pub expires : timeout + left_now < tv_ref + r.delay_now
  pub in_time : r.end_now < tv_ref

-- the wait for the rest of the interval
pub record IsRest (tv_ref : ℕ) (r : Round) : Type 0 where
  pub unstopped : r.stopped ≡ false
  pub silent : r.wait ≡ no_packet
  pub ends : tv_ref ≤ r.end_now

pub SameParms-trans : (e e' e'' : EchoEngine) → SameParms e e' → SameParms e' e'' → SameParms e e''
SameParms-trans e e' e'' p q = record {
  same_interval = q.same_interval ∙ p.same_interval;
  same_timeout = q.same_timeout ∙ p.same_timeout;
  same_threshold = q.same_threshold ∙ p.same_threshold;
}

-- the timeout: the engine is idle again, and the threshold decides
pub select_timeout-IsIdle :
    (searches late timeout tv_ref left_now : ℕ) (e : EchoEngine) (delay_now : ℕ)
    → IsWaiting late timeout e
    → late < 255
    → timeout + left_now < tv_ref + delay_now
    → (e' : EchoEngine) × (select_timeout (suc searches) e tv_ref left_now delay_now ≡ some e')
      × IsIdle (late + 1) e'
      × SameParms e e'
unfolding select_timeout remove_at deref assign
select_timeout-IsIdle searches late timeout tv_ref left_now e delay_now w small h = (
  record e {
    count_late = (e.count_late + 1) % 2 ^ 32;
    count_consec_late = (e.count_consec_late + 1) % 256;
    events = record e.events { event_list = none };
  },
  ground (arith, w.first, w.last, w.due),
  record {
    idle = refl;
    ongoing = w.ongoing;
    consec = ground (arith, w.consec);
    endless = w.endless;
    other = w.other;
  },
  record { same_interval = refl; same_timeout = refl; same_threshold = refl },
)

-- the engine after a round of a timeout
abbrev pub Outcome : ℕ → EchoEngine → IeeRet × EchoEngine → Type 0
Outcome late e (retval, e') =
    (late < e.echo_timeout_threshold × (retval ≡ iee_success) × IsIdle late e')
    ⊎ (e.echo_timeout_threshold ≤ late)
      × (retval ≡ iee_general_echo_timeout)
      × (e'.eng_ongoing ≡ false)

pub read_round-timeout :
    (searches late timeout tv_ref left_now : ℕ) (tv : Timeval) (e : EchoEngine) (r : Round)
    → IsWaiting late timeout e
    → late < 255
    → IsTimeout timeout tv_ref left_now r
    → (retval : IeeRet) × (e' : EchoEngine) × (read_round
          (suc searches)
          tv
          e
          tv_ref
          left_now
          iee_success
          r
        ≡ some (retval, e'))
      × Outcome (late + 1) e (retval, e')
      × SameParms e e'
unfolding read_round handle_read do_read check_threshold
read_round-timeout searches late timeout tv_ref left_now tv e r w small t =
    let (e', timed, idle, same) =
      select_timeout-IsIdle searches late timeout tv_ref left_now e r.delay_now w small t.expires in
    elim (Bool-cases (leb e.echo_timeout_threshold (late + 1))) [
      | inl over ↦ (
        iee_general_echo_timeout,
        record e' { eng_ongoing = false },
        ground (arith, over, timed, t.unstopped, t.silent, idle.consec, same.same_threshold),
        inr (ground (arith, over), refl, refl),
        record {
          same_interval = same.same_interval;
          same_timeout = same.same_timeout;
          same_threshold = same.same_threshold;
        },
      )
      | inr under ↦ (
        iee_success,
        e',
        ground (arith, under, timed, t.unstopped, t.silent, idle.consec, same.same_threshold),
        inl (ground (arith, under), refl, idle),
        same,
      )
    ]

pub read_round-rest :
    (searches late tv_ref left_now : ℕ) (tv : Timeval) (e : EchoEngine) (r : Round)
    → IsIdle late e
    → late < e.echo_timeout_threshold
    → IsRest tv_ref r
    → read_round searches tv e tv_ref left_now iee_success r ≡ some (iee_success, e)
unfolding read_round handle_read do_read check_threshold select_timeout
read_round-rest searches late tv_ref left_now tv e r i under t =
    ground (arith, i.idle, i.consec, under, t.unstopped, t.silent)
