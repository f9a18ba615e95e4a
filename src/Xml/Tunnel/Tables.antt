-- ===== src/Xml/Tunnel/Tables.antt =====
-- src/xml/xml_tun.c: the tables and the processing functions that parse the content of an element,
-- `tspXMLParse`, and `tspExtractPayload` of src/tsp/tsp_client.c.
pub mod Laws
use gogoc_android.Prelude.{
  ℕ, zero, suc, ◌==◌, Bool, true, false, List, [], ◌∷◌, Option, none, some, ◌||◌, map,
  if◌then◌else◌,
}
use gogoc_android.Cstring.{Text, text_eq}
use gogoc_android.Cstring.Numbers.{ℤ, pos, negsuc}
use gogoc_android.Xml.{Attribute, Node}
use gogoc_android.Xml.Parse.{xml_parse}
use gogoc_android.Xml.Tunnel.{
  TunnelInfo, TunnelState, Memory, fault, result_of, first_value, rest_values, with_kind, assign,
  assign_to_list,
}
use gogoc_android.Xml.Tunnel.Words.{
  tunnel_word, server_word, client_word, broker_word, address_word, dns_server_word, router_word,
  prefix_word, as_word, keepalive_word, action_word, type_word, lifetime_word, proxy_word, mtu_word,
  protocol_word, interval_word, length_word, number_word, ipv4_word, ipv6_word, dn_word,
}
use gogoc_android.Xml.Tunnel.Address.{address, autonomous_system, prefix}

module _ (mem : Memory) where
  -- an entry of a table, as it stands when a parse begins
  abbrev pub entry :
      TunnelState
      → Text
      → List Text
      → (List Attribute → Text → TunnelState → ℤ × TunnelState)
      → Node TunnelState
  entry s tag names process = record {
    tag = tag;
    process = some process;
    attributes = map (λ name. record { name = name; value = mem.left s tag name }) names;
  }

  abbrev pub parse_with : List (Node TunnelState) → Text → TunnelState → ℤ × TunnelState
  parse_with table content s = result_of (xml_parse (mem.document s) content table s)

  -- the tables `DNSServer`, `Broker` and `Keepalive`
  pub address_table : TunnelState → List (Node TunnelState)
  unfolding address
  address_table s = entry s address_word (type_word ∷ []) (address mem) ∷ []

  -- `p_dns_server`
  pub dns_server : List Attribute → Text → TunnelState → ℤ × TunnelState
  unfolding address_table
  dns_server attributes content s =
      let opened = record s { in_dns_server = true } in
      let (res, s') = parse_with (address_table opened) content opened in
      (res, record s' { in_dns_server = false })

  pub router_table : TunnelState → List (Node TunnelState)
  unfolding prefix dns_server autonomous_system
  router_table s =
      entry s prefix_word (length_word ∷ []) (prefix mem)
      ∷ entry s dns_server_word (type_word ∷ []) dns_server
      ∷ entry s as_word (number_word ∷ []) (autonomous_system mem)
      ∷ []

  -- `p_router`
  pub router : List Attribute → Text → TunnelState → ℤ × TunnelState
  unfolding router_table assign
  router attributes content s =
      let info = s.info in
      let opened = record s {
        in_router = true;
        info = record info {
          router_protocol = assign mem s (first_value attributes) info.router_protocol;
        };
      } in
      let (res, s') = parse_with (router_table opened) content opened in
      (res, record s' { in_router = false })

  -- `p_keepalive`
  pub keepalive : List Attribute → Text → TunnelState → ℤ × TunnelState
  unfolding address_table assign
  keepalive attributes content s =
      let info = s.info in
      let opened = record s {
        in_keepalive = true;
        info = record info {
          keepalive_interval = assign mem s (first_value attributes) info.keepalive_interval;
        };
      } in
      let (res, s') = parse_with (address_table opened) content opened in
      (res, record s' { in_keepalive = false })

  pub client_table : TunnelState → List (Node TunnelState)
  unfolding address dns_server router keepalive
  client_table s =
      entry s address_word (type_word ∷ []) (address mem)
      ∷ entry s dns_server_word (type_word ∷ []) dns_server
      ∷ entry s router_word (protocol_word ∷ []) router
      ∷ entry s keepalive_word (interval_word ∷ []) keepalive
      ∷ []

  pub server_table : TunnelState → List (Node TunnelState)
  unfolding address router
  server_table s =
      entry s address_word (type_word ∷ []) (address mem)
      ∷ entry s router_word (protocol_word ∷ []) router
      ∷ []

  -- `p_server`, `p_client` and `p_broker`
  pub server : List Attribute → Text → TunnelState → ℤ × TunnelState
  unfolding server_table
  server attributes content s =
      let opened = record s { in_server = true } in
      let (res, s') = parse_with (server_table opened) content opened in
      (res, record s' { in_server = false })

  pub client : List Attribute → Text → TunnelState → ℤ × TunnelState
  unfolding client_table
  client attributes content s =
      let opened = record s { in_client = true } in
      let (res, s') = parse_with (client_table opened) content opened in
      (res, record s' { in_client = false })

  pub broker : List Attribute → Text → TunnelState → ℤ × TunnelState
  unfolding address_table
  broker attributes content s =
      let opened = record s { in_broker = true } in
      let (res, s') = parse_with (address_table opened) content opened in
      (res, record s' { in_broker = false })

  pub tunnel_table : TunnelState → List (Node TunnelState)
  unfolding server client broker
  tunnel_table s =
      entry s server_word [] server
      ∷ entry s client_word [] client
      ∷ entry s broker_word [] broker
      ∷ []

  -- `p_tunnel`: its attributes
  pub tunnel_opened : List Attribute → TunnelState → TunnelState
  unfolding assign
  tunnel_opened attributes s =
      let info = s.info in
      let type_on = rest_values attributes in
      let lifetime_on = rest_values type_on in
      let proxy_on = rest_values lifetime_on in
      record s {
        info = record info {
          action = assign mem s (first_value attributes) info.action;
          type = assign mem s (first_value type_on) info.type;
          lifetime = assign mem s (first_value lifetime_on) info.lifetime;
          proxy = assign mem s (first_value proxy_on) info.proxy;
          mtu = assign mem s (first_value (rest_values proxy_on)) info.mtu;
        };
      }

  -- `p_tunnel`
  pub tunnel : List Attribute → Text → TunnelState → ℤ × TunnelState
  unfolding tunnel_table tunnel_opened
  tunnel attributes content s =
      let opened = tunnel_opened attributes s in parse_with (tunnel_table opened) content opened

  pub root_table : TunnelState → List (Node TunnelState)
  unfolding tunnel
  root_table s =
      entry s tunnel_word (action_word ∷ type_word ∷ lifetime_word ∷ proxy_word ∷ mtu_word ∷ [])
        tunnel
      ∷ []

  -- `tspXMLParse`: all flags but `keepalive` are reset. The strings of `tTunnel` are freed first, but
  -- its pointers stay: the callers give one that was zeroed.
  pub tsp_xml_parse : Text → TunnelState → ℤ × TunnelState
  unfolding root_table
  tsp_xml_parse text s =
      let reset = record s {
        in_client = false;
        in_server = false;
        in_router = false;
        in_dns_server = false;
        in_broker = false;
      } in
      parse_with (root_table reset) text reset

-- `strchr`: the text from the byte on
pub find_byte : ℕ → Text → Option Text
find_byte b [] = none
find_byte b (c ∷ s) = let rest = find_byte b s in if c == b then some (c ∷ s) else rest

-- What `tspExtractPayload` returns, with the tunnel; `payload_fault` if a payload without a newline
-- gives the second `strchr` a NULL pointer.
pub data Extracted : Type 0 where
  extracted : ℕ → TunnelState → Extracted
  payload_fault : Extracted

abbrev pub extracted_of : ℤ × TunnelState → Extracted
extracted_of (pos zero, s) = extracted 0 s
extracted_of (pos (suc n), s) = extracted 1 s
extracted_of (negsuc n, s) = extracted 1 s

abbrev pub extract_from : Memory → Option Text → TunnelState → Extracted
extract_from mem none s = extracted 1 s
extract_from mem (some text) s = extracted_of (tsp_xml_parse mem text s)

abbrev pub extract_line : Memory → Option Text → TunnelState → Extracted
extract_line mem none s = payload_fault
extract_line mem (some line) s = extract_from mem (find_byte b'<' line) s

abbrev pub no_tunnel : TunnelInfo
no_tunnel = record {
  action = none;
  type = none;
  lifetime = none;
  proxy = none;
  mtu = none;
  client_address_ipv4 = none;
  client_address_ipv6 = none;
  client_dns_server_address_ipv6 = none;
  client_dns_name = none;
  server_address_ipv4 = none;
  server_address_ipv6 = none;
  router_protocol = none;
  prefix_length = none;
  prefix = none;
  client_as = none;
  server_as = none;
  keepalive_interval = none;
  keepalive_address = none;
  dns_server_address_ipv4 = [];
  dns_server_address_ipv6 = [];
  broker_redirect_ipv4 = [];
  broker_redirect_ipv6 = [];
  broker_redirect_dn = [];
}

-- `tspExtractPayload`: the document begins at the first `<` behind the first newline.
pub tsp_extract_payload : Memory → Text → TunnelState → Extracted
unfolding tsp_xml_parse find_byte
tsp_extract_payload mem payload s =
    extract_line mem (find_byte b'\n' payload) (record s { info = no_tunnel })
