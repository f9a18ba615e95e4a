-- ===== src/Session.antt =====
-- One TSP session with a broker: native/gogoc-1_2-RELEASE/gogoc-tsp/src/tsp/tsp_cap.c, tsp_auth.c,
-- tsp_net.c and the parts of tsp_client.c that make a session of them. The network is the replies.
pub mod Address
pub mod Reply
pub mod Capability
pub mod Challenge
pub mod Response
pub mod Authenticate
pub mod Exchange
pub mod Setup
mod Tests
