-- ===== src/Rudp.antt =====
-- native/gogoc-1_2-RELEASE/gogoc-tsp/include/net_rudp.h and src/net/net_rudp.c: reliable UDP. This module
-- has the round-trip estimate, Exchange the requests and replies.
pub mod Exchange
pub mod Laws
mod Tests
use gogoc_android.Prelude.{◌-◌, ℕ, ◌+◌, ◌*◌, ◌/◌, ◌%◌, ◌^◌, Bool, true, false, if◌then◌else◌}

-- What the code uses of `float`: a number, the constants, and the comparison `<`.
pub record Floats : Type 1 where
  pub Float : Type 0
  pub of_ℕ : ℕ → Float
  pub half : Float
  pub rttengine_g : Float
  pub rttengine_h : Float
  pub add : Float → Float → Float
  pub sub : Float → Float → Float
  pub mul : Float → Float → Float
  pub div : Float → Float → Float
  pub neg : Float → Float
  pub lt : Float → Float → Bool

-- `rttengine_stat_t`; `has_sai` is whether an address is cached
pub record Stats (F : Type 0) : Type 0 where
  pub has_sai : Bool
  pub rtt : F
  pub srtt : F
  pub rttvar : F
  pub rto : F
  pub sequence : ℕ
  pub retries : ℕ
  pub initial_timestamp : ℕ
  pub apply_backoff : Bool
  pub has_peer : Bool
  pub initiated : Bool

module _ (fs : Floats) where
  open fs use {Float, of_ℕ, half, rttengine_g, rttengine_h, add, sub, mul, div, neg, lt}

  abbrev pub rttengine_tmin : Float
  rttengine_tmin = of_ℕ 2

  abbrev pub rttengine_tmax : Float
  rttengine_tmax = of_ℕ 30

  -- `internal_get_adjusted_rto`
  unfoldable pub internal_get_adjusted_rto : Float → Float
  internal_get_adjusted_rto rto =
      if lt rto rttengine_tmin
      then rttengine_tmin
      else (if lt rttengine_tmax rto then rttengine_tmax else rto)

  -- `rttengine_init`, at the second `now`
  unfoldable pub rttengine_init : ℕ → Stats Float → Stats Float
  rttengine_init now s = if s.initiated then s else record s {
    rtt = of_ℕ 0;
    srtt = of_ℕ 0;
    rttvar = half;
    rto = rttengine_tmin;
    sequence = 240;
    retries = 0;
    initial_timestamp = now;
    apply_backoff = false;
    has_peer = false;
    initiated = true;
  }

  -- `NetRUDPInit`, which clears the cached address as well
  unfoldable pub net_rudp_init : ℕ → Stats Float → Stats Float
  net_rudp_init now s = rttengine_init now (record s { has_sai = false; initiated = false })

  -- `rttengine_deinit`
  unfoldable pub rttengine_deinit : Stats Float → Stats Float
  rttengine_deinit s = record s { has_sai = false; initiated = false }

  -- `rttengine_update`, on milliseconds
  unfoldable pub rttengine_update : Stats Float → ℕ → Stats Float
  rttengine_update s ms =
      let rtt = div (of_ℕ ms) (of_ℕ 1000) in
      let delta = sub rtt s.srtt in
      let srtt = add s.srtt (mul rttengine_g delta) in
      let rttvar =
        add s.rttvar (mul rttengine_h (if lt delta (of_ℕ 0) then neg delta else delta)) in
      record s {
        rtt = rtt;
        srtt = srtt;
        rttvar = rttvar;
        rto = internal_get_adjusted_rto (add srtt (mul (of_ℕ 4) rttvar));
        retries = 0;
      }

  -- `internal_get_timestamp`, at a time in milliseconds
  unfoldable pub internal_get_timestamp : Stats Float → ℕ → ℕ
  internal_get_timestamp s now = (now + 2 ^ 32 * 1000 - s.initial_timestamp * 1000) % 2 ^ 32
