-- ===== src/Rudp/Laws.antt =====
-- The timeout of a retransmission keeps its bounds.
use gogoc_android.Prelude.{
  Bool-cases, Option-cases, ℕ, ◌+◌, ◌%◌, ◌^◌, ◌≡◌, inl, inr, sym, Bool, true, false, not, List, [],
  ◌∷◌, ◌++◌, some, if◌then◌else◌, take, drop, bit_or, length, ltb, ◌&&◌, ◌||◌, arith,
}
use mathlib.Core.Path.{subst}
use gogoc_android.Rudp.Exchange.Reply.{step_cases}
use gogoc_android.Cstring.{text_eq}
use gogoc_android.Rudp.{
  Floats, Stats, rttengine_tmin, rttengine_tmax, internal_get_adjusted_rto, rttengine_init,
  net_rudp_init, rttengine_deinit, rttengine_update,
}
use gogoc_android.Rudp.Exchange.{
  zeros, htonl, Wait, times_out, select_fails, recv_fails, receives, Try, Outcome, Step, waiting,
  resends, ends, recv_into, before_send, backs_off, accepts, select_loop, send_loop,
  internal_send_recv,
}

-- what is used of the comparison of floats: it is irreflexive, and 30 is not below 2
pub record IsOrder (fs : Floats) : Type 0 where
  pub min_min : fs.lt (rttengine_tmin fs) (rttengine_tmin fs) ≡ false
  pub max_min : fs.lt (rttengine_tmax fs) (rttengine_tmin fs) ≡ false
  pub max_max : fs.lt (rttengine_tmax fs) (rttengine_tmax fs) ≡ false

module _ (fs : Floats) where
  open fs use {Float, lt}

  -- not below 2 seconds, nor above 30
  abbrev pub IsWithin : Float → Type 0
  IsWithin rto = (lt rto (rttengine_tmin fs) ≡ false) × (lt (rttengine_tmax fs) rto ≡ false)

  adjusted-IsWithin : (rto : Float) → IsOrder fs → IsWithin (internal_get_adjusted_rto fs rto)
  unfolding internal_get_adjusted_rto
  adjusted-IsWithin rto o = elim (Bool-cases (lt rto (rttengine_tmin fs))) [
    | inl low ↦ rw low (o.min_min, o.max_min)
    | inr not_low ↦ elim (Bool-cases (lt (rttengine_tmax fs) rto)) [
      | inl high ↦ rw (not_low, high) (o.max_min, o.max_max)
      | inr not_high ↦ rw (not_low, not_high) (not_low, not_high)
    ]
  ]

  -- the engine in a step
  abbrev StepWithin : Step Float → Type 0
  StepWithin waiting = Unit
  StepWithin (resends s im) = IsWithin s.rto
  StepWithin (ends s o) = IsWithin s.rto

  if-IsWithin : (b : Bool) (x y : Float) → IsWithin x → IsWithin y → IsWithin (if b then x else y)
  if-IsWithin true x y h k = h
  if-IsWithin false x y h k = k

  if-StepWithin :
      (b : Bool) (x y : Step Float) → StepWithin x → StepWithin y → StepWithin (if b then x else y)
  if-StepWithin true x y h k = h
  if-StepWithin false x y h k = k

  accepts-StepWithin :
      (s : Stats Float) (im : List ℕ) (len now : ℕ)
      → IsOrder fs
      → StepWithin (accepts fs s im len now)
  unfolding accepts rttengine_update
  accepts-StepWithin s im len now o =
      if-StepWithin (ltb len 8) _ _ (adjusted-IsWithin _ o) (adjusted-IsWithin _ o)

  select_loop-StepWithin :
      (ol : ℕ) (s : Stats Float) (sequence im : List ℕ) (waits : List Wait)
      → IsOrder fs
      → IsWithin s.rto
      → StepWithin (select_loop fs ol s sequence im waits)
  unfolding select_loop backs_off accepts rttengine_deinit rttengine_update
  select_loop-StepWithin ol s sequence im [] o w = tt
  select_loop-StepWithin ol s sequence im (times_out ∷ waits) o w =
      if-IsWithin s.apply_backoff (internal_get_adjusted_rto fs (fs.mul s.rto (fs.of_ℕ 2))) s.rto
        (adjusted-IsWithin (fs.mul s.rto (fs.of_ℕ 2)) o) w
  select_loop-StepWithin ol s sequence im (select_fails ∷ waits) o w = w
  select_loop-StepWithin ol s sequence im (recv_fails ∷ waits) o w = w
  select_loop-StepWithin ol s sequence im (receives d now ∷ waits) o w =
      let im' = recv_into im ol d in
      let len = length (take (8 + ol) d) in
      if-StepWithin (text_eq (take 4 im') sequence) (accepts fs s im' len now)
        (select_loop fs ol s sequence im' waits) (accepts-StepWithin s im' len now o)
        (select_loop-StepWithin ol s sequence im' waits o w)

  before_send-IsWithin :
      (s s' : Stats Float) → before_send fs s ≡ some s' → IsWithin s.rto → IsWithin s'.rto
  unfolding before_send
  before_send-IsWithin s s' h w = ground (arith, h, w)

  send_loop-IsWithin :
      (ol : ℕ) (s s' : Stats Float) (sequence request im : List ℕ) (tries : List Try)
      (out : Outcome) (sent : List (List ℕ))
      → IsOrder fs
      → IsWithin s.rto
      → send_loop fs ol s sequence request im tries ≡ some (s', out, sent)
      → IsWithin s'.rto
  unfolding send_loop rttengine_deinit
  send_loop-IsWithin ol s s' sequence request im [] out sent o w h =
      elim (Option-cases (before_send fs s)) [
        | inl e ↦ let r : s'.rto ≡ s.rto = ground (arith, h, e) in subst IsWithin (sym r) w
        | inr (s1, e) ↦ absurd (ground (arith, h, e))
      ]
  send_loop-IsWithin ol s s' sequence request im (t ∷ tries) out sent o w h =
      elim (Option-cases (before_send fs s)) [
        | inl e ↦ let r : s'.rto ≡ s.rto = ground (arith, h, e) in subst IsWithin (sym r) w
        | inr (s1, e) ↦
            let w1 = before_send-IsWithin s s1 e w in
            let step = select_loop-StepWithin ol s1 sequence im t.waits o w1 in
            elim (Bool-cases t.sends) [
              | inr fails ↦
                  let r : s'.rto ≡ s1.rto = ground (arith, h, e, fails) in subst IsWithin (sym r) w1
              | inl goes ↦ elim (step_cases (select_loop fs ol s1 sequence im t.waits)) [
                | inl k ↦ absurd (ground (arith, h, e, goes, k))
                | inr (inl (s2, out2, k)) ↦
                    let r : s'.rto ≡ s2.rto = ground (arith, h, e, goes, k) in
                    subst IsWithin (sym r) (subst StepWithin k step)
                | inr (inr (s2, im2, k)) ↦
                    elim (Option-cases (send_loop fs ol s2 sequence request im2 tries)) [
                      | inl stuck ↦ absurd (ground (arith, h, e, goes, k, stuck))
                      | inr ((s3, out3, sent3), runs) ↦
                          let r : s'.rto ≡ s3.rto = ground (arith, h, e, goes, k, runs) in
                          subst IsWithin (sym r) (
                            send_loop-IsWithin ol s2 s3 sequence request im2 tries out3 sent3 o
                              (subst StepWithin k step) runs)
                    ]
              ]
            ]
      ]

  -- The timeout of a retransmission is in the range from 2 to 30 seconds when the engine has been set up, and
  -- no request, however it ends, takes it out of that range; NaN, which no comparison holds of, counts as
  -- within.
  pub rto_bounds :
      (now : ℕ) (s s' : Stats Float) (om_memory im_memory : Bool) (heap request : List ℕ) (ol : ℕ)
      (tries : List Try) (out : Outcome) (sent : List (List ℕ))
      → IsOrder fs
      → IsWithin s.rto
      → internal_send_recv fs om_memory im_memory heap s request ol tries ≡ some (s', out, sent)
      → IsWithin s'.rto × IsWithin (net_rudp_init fs now s').rto
  unfolding net_rudp_init rttengine_init internal_send_recv rttengine_deinit
  rto_bounds now s s' om_memory im_memory heap request ol tries out sent o w h =
      let sequence = htonl (bit_or s.sequence 0xf0000000) in
      let counted : Stats Float = record s { sequence = (s.sequence + 1) % 2 ^ 32 } in
      let cleared = zeros ol ++ drop ol heap in
      let crashes = (not om_memory && ltb 0 (length request)) || (not im_memory && ltb 0 ol) in
      let unchanged = λ (r : s'.rto ≡ s.rto). subst IsWithin (sym r) w in
      (
        elim (Bool-cases s.initiated) [
          | inr off ↦ unchanged (ground (arith, h, off))
          | inl on ↦ elim (Bool-cases crashes) [
            | inl c ↦ unchanged (ground (arith, h, on, c))
            | inr c ↦ elim (Bool-cases (not om_memory || not im_memory)) [
              | inl d ↦ unchanged (ground (arith, h, on, c, d))
              | inr d ↦
                  send_loop-IsWithin ol counted s' sequence request cleared tries out sent o w
                    (ground (arith, h, on, c, d))
            ]
          ]
        ],
        (o.min_min, o.max_min),
      )
