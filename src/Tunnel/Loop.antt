-- ===== src/Tunnel/Loop.antt =====
-- tsp_tun_mgt.c: `tspPerformTunnelLoop`, outside Windows.
pub mod Laws
use gogoc_android.Prelude.{
  ℕ, Bool, true, false, not, List, [], ◌∷◌, ◌++◌, Option, none, some, ltb, ◌==◌, ◌&&◌,
  if◌then◌else◌,
}
use gogoc_android.Status.{
  tunnel_loop, unspecified, Code, success, err_keepalive_error, err_keepalive_timeout,
  err_tun_lease_expired, GogocStatus,
}
use gogoc_android.Tunnel.Keepalive.{
  KaStatus, stat_invalid, stat_ongoing, stat_fin_success, stat_fin_timeout, stat_fin_error,
}
use gogoc_android.Tunnel.Lease.{lease_get_exp_time, lease_check_exp}

-- `TUNNEL_LOOP_CONFIG`, in seconds, less the addresses, which only `KA_init` reads
pub record LoopConfig : Type 0 where
  pub ka_interval : ℕ
  pub tun_lifetime : ℕ

-- what one round meets: a stop notification, the status of the keepalive, and the time
pub record Round : Type 0 where
  pub stop : Bool
  pub ka_status : KaStatus
  pub now : ℕ

-- the calls of the keepalive engine that the loop makes
pub data Call : Type 0 where
  calls_ka_stop calls_ka_destroy : Call

-- the `switch` on the status of the keepalive
unfoldable pub ka_verdict : KaStatus → GogocStatus × List Call
ka_verdict stat_fin_success = ((unspecified, success), [])
ka_verdict stat_ongoing = ((unspecified, success), [])
ka_verdict stat_fin_error = ((tunnel_loop, err_keepalive_error), calls_ka_stop ∷ [])
ka_verdict stat_invalid = ((tunnel_loop, err_keepalive_error), calls_ka_stop ∷ [])
ka_verdict stat_fin_timeout = ((tunnel_loop, err_keepalive_timeout), calls_ka_stop ∷ [])

abbrev pub is_success : Code → Bool
is_success success = true
is_success _ = false

-- the lease, after the keepalive
abbrev pub check_lease : ℕ → Round → GogocStatus → GogocStatus
check_lease tun_expiration r status =
    if not (tun_expiration == 0) && lease_check_exp r.now tun_expiration
    then (tunnel_loop, err_tun_lease_expired)
    else status

-- One round: the status after it, and the calls.
unfoldable pub tunnel_round : LoopConfig → ℕ → Round → GogocStatus × List Call
tunnel_round conf tun_expiration r =
    let (status, calls) = ka_verdict r.ka_status in
    let stopped : List Call = if r.stop then calls_ka_stop ∷ calls else calls in
    if ltb 0 conf.ka_interval
    then (check_lease tun_expiration r status, stopped)
    else (check_lease tun_expiration r (unspecified, success), [])

-- The rounds until one that stops or fails; `none` if the loop is still running after them.
unfoldable pub tunnel_rounds : LoopConfig → ℕ → List Round → Option (GogocStatus × List Call)
tunnel_rounds conf tun_expiration [] = none
tunnel_rounds conf tun_expiration (r ∷ rest) =
    let (status, calls) = tunnel_round conf tun_expiration r in
    let more = tunnel_rounds conf tun_expiration rest in
    if is_success status.1 && not r.stop then more else some (status, calls)

-- `tspPerformTunnelLoop`, started at `now`: whether `KA_init` and `KA_start` succeed, and the rounds.
unfoldable pub perform_tunnel_loop :
    LoopConfig → ℕ → Bool → Bool → List Round → Option (GogocStatus × List Call)
perform_tunnel_loop conf now ka_inits ka_starts rounds =
    let tun_expiration =
      if conf.tun_lifetime == 0 then 0 else lease_get_exp_time now conf.tun_lifetime in
    let ended = tunnel_rounds conf tun_expiration rounds in
    if ltb 0 conf.ka_interval
    then (if ka_inits
        then (if ka_starts
            then elim ended [
              | none ↦ none
              | some (status, calls) ↦ some (status, calls ++ (calls_ka_destroy ∷ []))
            ]
            else some ((tunnel_loop, err_keepalive_error), calls_ka_destroy ∷ []))
        else some ((tunnel_loop, err_keepalive_error), []))
    else ended
