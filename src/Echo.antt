-- ===== src/Echo.antt =====
-- native/gogoc-1_2-RELEASE/gogoc-tsp/src/net/icmp_echo_engine.c: the list of the echo requests that
-- wait for a reply, in the order in which they time out.
pub mod Events
pub mod Packet
pub mod Engine
mod Tests

-- `iee_ret_t`
pub data IeeRet : Type 0 where
  iee_success iee_invalid_parms iee_resource_starvation iee_connectivity_assessed : IeeRet
  iee_general_echo_timeout iee_general_echo_error : IeeRet
