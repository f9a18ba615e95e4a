-- ===== src/Tunnel/Lease.antt =====
-- tsp_lease.c, on the seconds that `pal_gettimeofday` gives.
use gogoc_android.Prelude.{ℕ, ◌+◌, Bool, ltb}

unfoldable pub lease_get_exp_time : ℕ → ℕ → ℕ
lease_get_exp_time now tun_lifetime = now + tun_lifetime

unfoldable pub lease_check_exp : ℕ → ℕ → Bool
lease_check_exp now tun_expiration = ltb tun_expiration now
