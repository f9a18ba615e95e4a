-- ===== src/Xml/Tunnel/Address.antt =====
-- src/xml/xml_tun.c: the processing functions of the elements `address`, `as` and `prefix`.
use gogoc_android.Prelude.{List, some, ◌||◌, if◌then◌else◌}
use gogoc_android.Cstring.{Text, text_eq}
use gogoc_android.Cstring.Numbers.{ℤ, pos}
use gogoc_android.Xml.{Attribute}
use gogoc_android.Xml.Tunnel.{
  TunnelInfo, TunnelState, Memory, first_value, with_kind, assign, assign_to_list,
}
use gogoc_android.Xml.Tunnel.Words.{ipv4_word, ipv6_word, dn_word}

module _ (mem : Memory) where
  -- the three cases of `p_address`
  pub client_address : TunnelState → Text → Text → TunnelInfo
  unfolding assign
  client_address s content kind =
      let info = s.info in
      if text_eq kind ipv4_word
      then record info {
        client_address_ipv4 = assign mem s (some content) info.client_address_ipv4;
      }
      else if text_eq kind ipv6_word
      then record info {
        client_address_ipv6 = assign mem s (some content) info.client_address_ipv6;
      }
      else if text_eq kind dn_word
      then record info { client_dns_name = assign mem s (some content) info.client_dns_name }
      else info

  pub server_address : TunnelState → Text → Text → TunnelInfo
  unfolding assign
  server_address s content kind =
      let info = s.info in
      if text_eq kind ipv4_word
      then record info {
        server_address_ipv4 = assign mem s (some content) info.server_address_ipv4;
      }
      else if text_eq kind ipv6_word
      then record info {
        server_address_ipv6 = assign mem s (some content) info.server_address_ipv6;
      }
      else info

  unfoldable pub broker_address : TunnelState → Text → Text → TunnelInfo
  unfolding assign_to_list
  broker_address s content kind =
      let info = s.info in
      if text_eq kind ipv4_word
      then record info {
        broker_redirect_ipv4 = assign_to_list mem s content info.broker_redirect_ipv4;
      }
      else if text_eq kind ipv6_word
      then record info {
        broker_redirect_ipv6 = assign_to_list mem s content info.broker_redirect_ipv6;
      }
      else if text_eq kind dn_word
      then record info { broker_redirect_dn = assign_to_list mem s content info.broker_redirect_dn }
      else info

  pub keepalive_address_of : TunnelState → Text → Text → TunnelInfo
  unfolding assign
  keepalive_address_of s content kind =
      let info = s.info in
      if text_eq kind ipv6_word || text_eq kind ipv4_word
      then record info { keepalive_address = assign mem s (some content) info.keepalive_address }
      else info

  pub router_dns_address : TunnelState → Text → Text → TunnelInfo
  unfolding assign_to_list
  router_dns_address s content kind =
      let info = s.info in
      if text_eq kind ipv4_word
      then record info {
        dns_server_address_ipv4 = assign_to_list mem s content info.dns_server_address_ipv4;
      }
      else if text_eq kind ipv6_word
      then record info {
        dns_server_address_ipv6 = assign_to_list mem s content info.dns_server_address_ipv6;
      }
      else info

  pub client_dns_address : TunnelState → Text → Text → TunnelInfo
  unfolding assign
  client_dns_address s content kind =
      let info = s.info in
      if text_eq kind ipv6_word
      then record info {
        client_dns_server_address_ipv6 =
            assign mem s (some content) info.client_dns_server_address_ipv6;
      }
      else info

  -- `p_address`
  unfoldable pub address : List Attribute → Text → TunnelState → ℤ × TunnelState
  unfolding client_address server_address broker_address keepalive_address_of router_dns_address
      client_dns_address
  address attributes content s =
      let kind = first_value attributes in
      if s.in_client
      then (if s.in_keepalive
          then with_kind kind s (keepalive_address_of s content)
          else if s.in_router
          then (if s.in_dns_server
              then with_kind kind s (router_dns_address s content)
              else (pos 0, s))
          else if s.in_dns_server
          then with_kind kind s (client_dns_address s content)
          else with_kind kind s (client_address s content))
      else if s.in_server
      then with_kind kind s (server_address s content)
      else if s.in_broker
      then with_kind kind s (broker_address s content)
      else (pos 0, s)

  -- `p_as` and `p_prefix`
  unfoldable pub autonomous_system : List Attribute → Text → TunnelState → ℤ × TunnelState
  unfolding assign
  autonomous_system attributes content s =
      let info = s.info in
      let number = first_value attributes in
      if s.in_client
      then (
        pos 0,
        record s { info = record info { client_as = assign mem s number info.client_as } },
      )
      else if s.in_server
      then (
        pos 0,
        record s { info = record info { server_as = assign mem s number info.server_as } },
      )
      else (pos 0, s)

  unfoldable pub prefix : List Attribute → Text → TunnelState → ℤ × TunnelState
  unfolding assign
  prefix attributes content s =
      let info = s.info in
      (
        pos 0,
        record s {
          info = record info {
            prefix_length = assign mem s (first_value attributes) info.prefix_length;
            prefix = assign mem s (some content) info.prefix;
          };
        },
      )
