-- ===== src/Tunnel/Loop/Laws.antt =====
-- When the tunnel loop ends, and what it leaves of the keepalive.
use gogoc_android.Prelude.{
  ℕ, ◌+◌, ◌≤◌, ◌<◌, ◌≡◌, ◌⊎◌, inl, inr, refl, ◌∙◌, true, false, not, List, [], ◌∷◌, ◌++◌, some,
  ◌==◌, ◌&&◌, if◌then◌else◌, arith, All,
}
use gogoc_android.Status.{
  tunnel_loop, unspecified, Code, success, err_keepalive_error, err_keepalive_timeout,
  err_tun_lease_expired, GogocStatus,
}
use gogoc_android.Tunnel.Keepalive.{
  KaStatus, stat_invalid, stat_ongoing, stat_fin_success, stat_fin_timeout, stat_fin_error,
}
use gogoc_android.Tunnel.Lease.{lease_get_exp_time, lease_check_exp}
use gogoc_android.Tunnel.Loop.{
  LoopConfig, Round, Call, calls_ka_stop, calls_ka_destroy, ka_verdict, is_success, check_lease,
  tunnel_round, tunnel_rounds, perform_tunnel_loop,
}

-- the keepalive has not failed
abbrev pub IsAlive : KaStatus → Type 0
IsAlive s = (s ≡ stat_ongoing) ⊎ (s ≡ stat_fin_success)

-- the lease has not run out, if there is one
abbrev pub IsLeased : LoopConfig → ℕ → Round → Type 0
IsLeased conf start r = (conf.tun_lifetime ≡ 0) ⊎ (r.now ≤ start + conf.tun_lifetime)

-- nothing to report
abbrev pub IsQuiet : LoopConfig → ℕ → Round → Type 0
IsQuiet conf start r = (r.stop ≡ false) × IsAlive r.ka_status × IsLeased conf start r

-- what a round that ends the loop gives, for a tunnel with a keepalive: an expired lease comes first,
-- then the keepalive, then the stop
abbrev pub Gives : LoopConfig → ℕ → Round → Code → Type 0
Gives conf start r number =
    (number ≡ err_tun_lease_expired × (0 < conf.tun_lifetime) × (start + conf.tun_lifetime < r.now))
    ⊎ (IsLeased conf start r
        × ((number ≡ err_keepalive_timeout × (r.ka_status ≡ stat_fin_timeout))
            ⊎ (number ≡ err_keepalive_error
                × ((r.ka_status ≡ stat_fin_error) ⊎ (r.ka_status ≡ stat_invalid)))
            ⊎ (number ≡ success × IsAlive r.ka_status × (r.stop ≡ true))))

-- the keepalive has failed
abbrev pub HasFailed : KaStatus → Type 0
HasFailed s = (s ≡ stat_fin_timeout) ⊎ (s ≡ stat_fin_error) ⊎ (s ≡ stat_invalid)

-- the calls that such a round makes: one `KA_stop` for a stop notification, one for a keepalive that
-- has failed
abbrev pub Stops : Round → List Call → Type 0
Stops r calls =
    ((r.stop ≡ false) × IsAlive r.ka_status × (calls ≡ []))
    ⊎ ((r.stop ≡ true) × IsAlive r.ka_status × (calls ≡ calls_ka_stop ∷ []))
    ⊎ ((r.stop ≡ false) × HasFailed r.ka_status × (calls ≡ calls_ka_stop ∷ []))
    ⊎ ((r.stop ≡ true) × HasFailed r.ka_status × (calls ≡ calls_ka_stop ∷ calls_ka_stop ∷ []))

abbrev expiration : LoopConfig → ℕ → ℕ
expiration conf start =
    if conf.tun_lifetime == 0 then 0 else lease_get_exp_time start conf.tun_lifetime

tunnel_round-IsQuiet :
    (conf : LoopConfig) (start : ℕ) (r : Round)
    → IsQuiet conf start r
    → is_success (tunnel_round conf (expiration conf start) r).0.1 ≡ true
unfolding tunnel_round ka_verdict lease_check_exp lease_get_exp_time
tunnel_round-IsQuiet conf start r q = ground (arith, q)

tunnel_rounds-quiet :
    (conf : LoopConfig) (start : ℕ) (quiet rest : List Round)
    → All (IsQuiet conf start) quiet
    → tunnel_rounds conf (expiration conf start) (quiet ++ rest)
      ≡ tunnel_rounds conf (expiration conf start) rest
unfolding tunnel_rounds
tunnel_rounds-quiet conf start [] rest q = refl
tunnel_rounds-quiet conf start (r ∷ quiet) rest q = ground (
  arith,
  q.0.0,
  tunnel_round-IsQuiet conf start r q.0,
  tunnel_rounds-quiet conf start quiet rest q.1,
)

-- the round's outcome by cases
RoundGives : LoopConfig → ℕ → Round → GogocStatus × List Call → Type 0
RoundGives conf start r (status, calls) =
    (is_success status.1 && not r.stop ≡ false) × Gives conf start r status.1 × Stops r calls

lease_cases :
    (conf : LoopConfig) (start : ℕ) (r : Round) (status : GogocStatus)
    → IsLeased conf start r × (check_lease (expiration conf start) r status ≡ status)
      ⊎ (0 < conf.tun_lifetime)
        × (start + conf.tun_lifetime < r.now)
        × (check_lease (expiration conf start) r status ≡ (tunnel_loop, err_tun_lease_expired))
unfolding lease_check_exp lease_get_exp_time
lease_cases conf start r status = ground arith

ka_verdict_cases :
    (s : KaStatus)
    → IsAlive s × (ka_verdict s ≡ ((unspecified, success), []))
      ⊎ (s ≡ stat_fin_timeout)
        × (ka_verdict s ≡ ((tunnel_loop, err_keepalive_timeout), calls_ka_stop ∷ []))
      ⊎ ((s ≡ stat_fin_error) ⊎ (s ≡ stat_invalid))
        × (ka_verdict s ≡ ((tunnel_loop, err_keepalive_error), calls_ka_stop ∷ []))
unfolding ka_verdict
ka_verdict_cases stat_ongoing = inl (inl refl, refl)
ka_verdict_cases stat_fin_success = inl (inr refl, refl)
ka_verdict_cases stat_fin_timeout = inr (inl (refl, refl))
ka_verdict_cases stat_fin_error = inr (inr (inl refl, refl))
ka_verdict_cases stat_invalid = inr (inr (inr refl, refl))

tunnel_round-Gives :
    (conf : LoopConfig) (start : ℕ) (r : Round)
    → 0 < conf.ka_interval
    → ¬ IsQuiet conf start r
    → RoundGives conf start r (tunnel_round conf (expiration conf start) r)
unfolding tunnel_round RoundGives
tunnel_round-Gives conf start r hk q = elim (ka_verdict_cases r.ka_status) [
  | inl a ↦ ground (arith, lease_cases conf start r (unspecified, success), a.0, a.1)
  | inr (inl a) ↦
      ground (arith, lease_cases conf start r (tunnel_loop, err_keepalive_timeout), a.0, a.1)
  | inr (inr a) ↦
      ground (arith, lease_cases conf start r (tunnel_loop, err_keepalive_error), a.0, a.1)
]

tunnel_rounds-ends :
    (conf : LoopConfig) (start : ℕ) (r : Round) (rest : List Round)
    → 0 < conf.ka_interval
    → ¬ IsQuiet conf start r
    → tunnel_rounds conf (expiration conf start) (r ∷ rest)
      ≡ some (tunnel_round conf (expiration conf start) r)
unfolding tunnel_rounds RoundGives
tunnel_rounds-ends conf start r rest hk q = ground (arith, (tunnel_round-Gives conf start r hk q).0)

tunnel_loop-open :
    (conf : LoopConfig) (start : ℕ) (rounds : List Round) (status : GogocStatus) (calls : List Call)
    → 0 < conf.ka_interval
    → tunnel_rounds conf (expiration conf start) rounds ≡ some (status, calls)
    → perform_tunnel_loop conf start true true rounds
      ≡ some (status, calls ++ (calls_ka_destroy ∷ []))
unfolding perform_tunnel_loop
tunnel_loop-open conf start rounds status calls hk h = ground (arith, h)

-- For a tunnel with a keepalive, whose engine could be started: the loop goes on as long as nothing is
-- to report, and the first round with something to report ends it. The number of its status is the
-- lease's, if the lease has run out; else that of a keepalive that has failed; else, for a stop
-- notification, success. The calls of the engine in that round are given exactly: `KA_stop` once for a
-- stop notification and once for a keepalive that has failed, so twice if both meet and not at all if
-- only the lease runs out; then `KA_destroy`, once and last.
pub tunnel_loop_ends :
    (conf : LoopConfig) (start : ℕ) (quiet : List Round) (r : Round) (rest : List Round)
    → 0 < conf.ka_interval
    → All (IsQuiet conf start) quiet
    → ¬ IsQuiet conf start r
    → (status : GogocStatus) × (calls : List Call) × (perform_tunnel_loop conf start true true
          (quiet ++ (r ∷ rest))
        ≡ some (status, calls ++ (calls_ka_destroy ∷ [])))
      × Gives conf start r status.1
      × Stops r calls
unfolding RoundGives
tunnel_loop_ends conf start quiet r rest hk hq q =
    let e = expiration conf start in
    let (_, gives, quietly) = tunnel_round-Gives conf start r hk q in
    (
      (tunnel_round conf e r).0,
      (tunnel_round conf e r).1,
      tunnel_loop-open conf start (quiet ++ (r ∷ rest)) (tunnel_round conf e r).0
          (tunnel_round conf e r).1 hk
          (tunnel_rounds-quiet conf start quiet (r ∷ rest) hq
            ∙ tunnel_rounds-ends conf start r rest hk q),
      gives,
      quietly,
    )
