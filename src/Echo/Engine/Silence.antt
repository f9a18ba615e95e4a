-- ===== src/Echo/Engine/Silence.antt =====
-- A peer that does not answer.
use gogoc_android.Prelude.{
  ℕ, suc, ◌+◌, ◌*◌, ◌<◌, ◌≡◌, inl, inr, refl, sym, ◌∙◌, Bool, true, false, not, List, [], ◌∷◌, ◌++◌,
  none, some, arith, All, All-append, length, length-append,
}
use mathlib.Core.Path.{subst}
use mathlib.Core.List.{append_assoc}
use gogoc_android.Echo.{IeeRet, iee_success, iee_general_echo_timeout}
use gogoc_android.Echo.Packet.{Timeval}
use gogoc_android.Echo.Engine.{
  EchoEngine, do_send_wrap, Round, read_loop, do_read_wrap, Cycle, process_cycle, process_cycles,
  iee_process, is_iee_success,
}
use gogoc_android.Echo.Engine.Laws.{
  IsIdle, IsWaiting, SameParms, SameParms-trans, do_send-IsWaiting, IsTimeout, IsRest, Outcome,
  read_round-timeout, read_round-rest,
}

-- A cycle without an answer: its request is sent, times out within the interval, and nothing else comes.
pub record IsSilent (interval timeout : ℕ) (c : Cycle) : Type 0 where
  pub address : ℕ
  pub allocated : c.send.address ≡ some address
  pub sent : c.send.sent ≡ true
  pub unstopped : c.stopped ≡ false
  pub first : Round
  pub second : Round
  pub both : c.rounds ≡ first ∷ second ∷ []
  pub enters : c.enter_now < c.ref_now + 1000 * interval
  pub times_out :
      IsTimeout (c.send.now + 1000 * timeout) (c.ref_now + 1000 * interval) c.enter_now first
  pub rests : IsRest (c.ref_now + 1000 * interval) second

read_loop-silent :
    (searches late timeout tv_ref left_now : ℕ) (tv : Timeval) (e : EchoEngine)
    (first second : Round)
    → IsWaiting late timeout e
    → late < 255
    → IsTimeout timeout tv_ref left_now first
    → IsRest tv_ref second
    → (retval : IeeRet) × (e' : EchoEngine) × (read_loop
          (suc searches)
          tv
          e
          tv_ref
          left_now
          iee_success
          (first ∷ second ∷ [])
        ≡ some (retval, e'))
      × Outcome (late + 1) e (retval, e')
      × SameParms e e'
unfolding read_loop
read_loop-silent searches late timeout tv_ref left_now tv e first second w small t u =
    let (retval, e', done, outcome, same) =
      read_round-timeout searches late timeout tv_ref left_now tv e first w small t in
    (
      retval,
      e',
      elim outcome [
        | inl o ↦
            let rest =
              read_round-rest (suc searches) (late + 1) tv_ref first.end_now tv e' second o.2
                (omega (arith, o.0, same.same_threshold)) u in
            ground (arith, done, o.1, o.2.ongoing, t.in_time, u.ends, rest)
        | inr o ↦ ground (arith, done, o.2)
      ],
      outcome,
      same,
    )

abbrev breaks_off : IeeRet → Bool
breaks_off retval = not (is_iee_success retval)

process_cycle-silent :
    (searches late interval timeout : ℕ) (tv : Timeval) (e : EchoEngine) (c : Cycle)
    → IsIdle late e
    → late < 255
    → e.send_interval ≡ interval
    → e.echo_timeout ≡ timeout
    → IsSilent interval timeout c
    → (retval : IeeRet) × (e' : EchoEngine) × (process_cycle (suc searches) tv e c
        ≡ some (retval, breaks_off retval, e'))
      × Outcome (late + 1) e (retval, e')
      × SameParms e e'
unfolding process_cycle do_read_wrap do_send_wrap
process_cycle-silent searches late interval timeout tv e c i small p q s =
    let (e1, sends, waiting, same1) =
      do_send-IsWaiting searches late e s.address c.send i s.allocated s.sent in
    let tv_ref = c.ref_now + 1000 * interval in
    let (retval, e2, reads, outcome, same2) =
      read_loop-silent searches late (c.send.now + 1000 * e.echo_timeout) tv_ref c.enter_now tv e1
        s.first s.second waiting small
        (subst (λ t. IsTimeout (c.send.now + 1000 * t) tv_ref c.enter_now s.first) (sym q)
          s.times_out)
        s.rests in
    (
      retval,
      e2,
      ground (
        arith, sends, waiting.ongoing, same1.same_interval, p, s.unstopped, s.both, s.enters, reads,
      ),
      ground (arith, outcome, same1.same_threshold),
      SameParms-trans e e1 e2 same1 same2,
    )

process_cycles-silent :
    (searches late interval timeout : ℕ) (tv : Timeval) (e : EchoEngine) (silent rest : List Cycle)
    → IsIdle late e
    → late < e.echo_timeout_threshold
    → e.echo_timeout_threshold < 256
    → e.send_interval ≡ interval
    → e.echo_timeout ≡ timeout
    → All (IsSilent interval timeout) silent
    → (e.echo_timeout_threshold ≡ late + length silent
        → (e' : EchoEngine) × (process_cycles (suc searches) tv e iee_success (silent ++ rest)
            ≡ some (iee_general_echo_timeout, e')))
      × (late + length silent < e.echo_timeout_threshold
          → process_cycles (suc searches) tv e iee_success silent ≡ none)
unfolding process_cycles
process_cycles-silent searches late interval timeout tv e [] rest i u v p q h =
    (λ k. absurd (omega (arith, k, u)), λ k. ground (arith, i.ongoing, i.endless))
process_cycles-silent searches late interval timeout tv e (c ∷ silent) rest i u v p q h =
    let (retval, e', runs, outcome, same) =
      process_cycle-silent searches late interval timeout tv e c i (omega (arith, u, v)) p q h.0 in
    elim outcome [
      | inl o ↦
          let (fires, waits) =
            process_cycles-silent searches (late + 1) interval timeout tv e' silent rest o.2
              (omega (arith, o.0, same.same_threshold)) (omega (arith, v, same.same_threshold))
              (same.same_interval ∙ p) (same.same_timeout ∙ q) h.1 in
          (
            λ k.
                let (e'', ends) = fires (omega (arith, k, same.same_threshold)) in
                (e'', ground (arith, i.ongoing, i.endless, runs, o.1, ends)),
            λ k. ground (
              arith,
              i.ongoing,
              i.endless,
              runs,
              o.1,
              waits (omega (arith, k, same.same_threshold)),
            ),
          )
      | inr o ↦ (
        λ k. (e', ground (arith, i.ongoing, i.endless, runs, o.1)),
        λ k. absurd (omega (arith, k, o.0)),
      )
    ]

-- A keepalive whose peer never answers, with nothing waiting and no timeouts in a row, and a threshold of 1
-- to 255: the main loop goes on while fewer requests than the threshold have timed out, and ends with a
-- general timeout in the cycle in which as many have, whatever would follow. Every request is sent, and times
-- out within its interval.
pub silent_peer_detected :
    (searches : ℕ) (tv : Timeval) (e : EchoEngine) (earlier : List Cycle) (last : Cycle)
    (rest : List Cycle)
    → IsIdle 0 e
    → e.echo_timeout_threshold ≡ length earlier + 1
    → e.echo_timeout_threshold < 256
    → All (IsSilent e.send_interval e.echo_timeout) earlier
    → IsSilent e.send_interval e.echo_timeout last
    → (iee_process (suc searches) tv false (some e) earlier ≡ none)
      × (e' : EchoEngine) × (iee_process (suc searches) tv false (some e) (earlier ++ (last ∷ rest))
          ≡ some (iee_general_echo_timeout, some e'))
unfolding iee_process
silent_peer_detected searches tv e earlier last rest i u v h k =
    let silent = earlier ++ (last ∷ []) in
    let enough : e.echo_timeout_threshold ≡ length silent =
      omega (arith, u, length-append earlier (last ∷ [])) in
    let all = All-append (IsSilent e.send_interval e.echo_timeout) earlier (last ∷ []) h (k, tt) in
    let (fires, _) =
      process_cycles-silent searches 0 e.send_interval e.echo_timeout tv e silent rest i
        (omega (arith, u)) v refl refl all in
    let (_, waits) =
      process_cycles-silent searches 0 e.send_interval e.echo_timeout tv e earlier rest i
        (omega (arith, u)) v refl refl h in
    let (e', ends) = fires (omega (arith, enough)) in
    (
      ground (arith, waits (omega (arith, u))),
      e',
      ground (arith, ends, append_assoc earlier (last ∷ []) rest),
    )
