-- ===== src/Tunnel.antt =====
-- The tunnel once it is up: its keepalive (native/gogoc-1_2-RELEASE/gogoc-tsp/src/net/net_ka.c), its
-- lease (src/tsp/tsp_lease.c) and the loop that watches both (src/tsp/tsp_tun_mgt.c).
pub mod Keepalive
pub mod Lease
pub mod Loop
mod Tests
