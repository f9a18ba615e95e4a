-- ===== src/Xml/Tunnel/Tables/Laws.antt =====
-- A redirection is read as it was sent.
use gogoc_android.Prelude.{
  ◌≡◌, ◌≢◌, refl, ap, true, false, List, [], ◌∷◌, ◌++◌, Option, some, All, arith, map,
}
use mathlib.Core.List.{reverse, reverse_aux}
use gogoc_android.Cstring.{Text, text_eq}
use gogoc_android.Cstring.Numbers.{pos}
use gogoc_android.Xml.{Attribute, Node, find_node, set_node, set_attribute}
use gogoc_android.Xml.Parse.Texts.{set_attributes}
use gogoc_android.Xml.Parse.Laws.{Element, IsElement, print_elements, run_elements, xml_parse-print}
use gogoc_android.Xml.Tunnel.{TunnelInfo, TunnelState, Memory, result_of, assign_to_list}
use gogoc_android.Xml.Tunnel.Words.{
  tunnel_word, broker_word, address_word, type_word, action_word, lifetime_word, proxy_word,
  mtu_word, ipv4_word, ipv6_word, dn_word,
}
use gogoc_android.Xml.Tunnel.Address.{address, broker_address}
use gogoc_android.Xml.Tunnel.Tables.{
  parse_with, address_table, broker, tunnel_table, tunnel_opened, tunnel, root_table, tsp_xml_parse,
  find_byte, extracted, extracted_of, tsp_extract_payload, no_tunnel,
}

-- how a redirection names a broker
pub data Kind : Type 0 where
  kind_ipv4 kind_ipv6 kind_dn : Kind

abbrev pub kind_word : Kind → Text
kind_word kind_ipv4 = ipv4_word
kind_word kind_ipv6 = ipv6_word
kind_word kind_dn = dn_word

-- one `address` for each broker
unfoldable pub address_elements : List (Kind × Text) → List Element
address_elements [] = []
address_elements ((kind, text) ∷ more) =
    record { tag = address_word; attributes = (type_word, kind_word kind) ∷ []; content = text }
    ∷ address_elements more

unfoldable pub broker_element : List (Kind × Text) → Element
broker_element brokers = record {
  tag = broker_word;
  attributes = [];
  content = print_elements (address_elements brokers);
}

unfoldable pub tunnel_element : Text → List (Kind × Text) → Element
tunnel_element action brokers = record {
  tag = tunnel_word;
  attributes = (action_word, action) ∷ [];
  content = print_elements (broker_element brokers ∷ []);
}

-- the lists with a broker added, and with all of them
abbrev pub add_one : Kind → Text → TunnelInfo → TunnelInfo
add_one kind_ipv4 text info = record info {
  broker_redirect_ipv4 = text ∷ info.broker_redirect_ipv4;
}
add_one kind_ipv6 text info = record info {
  broker_redirect_ipv6 = text ∷ info.broker_redirect_ipv6;
}
add_one kind_dn text info = record info { broker_redirect_dn = text ∷ info.broker_redirect_dn }

unfoldable pub add_all : List (Kind × Text) → TunnelInfo → TunnelInfo
add_all [] info = info
add_all ((kind, text) ∷ more) info = add_all more (add_one kind text info)

module _ (mem : Memory) (room : (s : TunnelState) (t : Text) → mem.copy s t ≡ true) where
  address-broker :
      (kind : Kind) (text : Text) (s : TunnelState)
      → s.in_client ≡ false
      → s.in_server ≡ false
      → s.in_broker ≡ true
      → address mem (record { name = type_word; value = some (kind_word kind) } ∷ []) text s
        ≡ (pos 0, record s { info = add_one kind text s.info })
  unfolding address broker_address text_eq assign_to_list
  address-broker kind_ipv4 text s c v b = rw (room s text, c, v, b) refl
  address-broker kind_ipv6 text s c v b = rw (room s text, c, v, b) refl
  address-broker kind_dn text s c v b = rw (room s text, c, v, b) refl

  abbrev address_node : Option Text → Node TunnelState
  address_node value = record {
    tag = address_word;
    process = some (address mem);
    attributes = record { name = type_word; value = value } ∷ [];
  }

  run_addresses :
      (brokers : List (Kind × Text)) (value : Option Text) (s : TunnelState)
      → s.in_client ≡ false
      → s.in_server ≡ false
      → s.in_broker ≡ true
      → (last : Option Text) × (run_elements (address_elements brokers) (address_node value ∷ []) s
          ≡ some (address_node last ∷ [], record s { info = add_all brokers s.info }))
  unfolding address_elements add_all run_elements set_attributes set_attribute set_node find_node
      text_eq
  run_addresses [] value s c v b = (value, refl)
  run_addresses ((kind, text) ∷ more) value s c v b =
      let (last, e) =
        run_addresses more (some (kind_word kind)) (record s { info = add_one kind text s.info }) c
          v b in
      (last, rw (address-broker kind text s c v b) e)

  parse_addresses :
      (brokers : List (Kind × Text)) (s : TunnelState)
      → All IsElement (address_elements brokers)
      → mem.document s ≡ true
      → s.in_client ≡ false
      → s.in_server ≡ false
      → s.in_broker ≡ true
      → parse_with mem (address_table mem s) (print_elements (address_elements brokers)) s
        ≡ (pos 0, record s { info = add_all brokers s.info })
  unfolding address_table
  parse_addresses brokers s p m c v b =
      let (last, e) = run_addresses brokers (mem.left s address_word type_word) s c v b in
      rw m (ap result_of (xml_parse-print (address_elements brokers) _ _ s _ p e))

abbrev reset_state : TunnelState → TunnelState
reset_state s = record s {
  in_client = false;
  in_server = false;
  in_router = false;
  in_dns_server = false;
  in_broker = false;
}

abbrev tunnel_attributes : Memory → Text → TunnelState → List Attribute
tunnel_attributes mem action s = set_attributes ((action_word, action) ∷ []) (
    map (λ name. record { name = name; value = mem.left s tunnel_word name })
      (action_word ∷ type_word ∷ lifetime_word ∷ proxy_word ∷ mtu_word ∷ []))

module _ (mem : Memory) (room : (s : TunnelState) (t : Text) → mem.copy s t ≡ true)
    (documents : (s : TunnelState) → mem.document s ≡ true) (brokers : List (Kind × Text))
    (valid : All IsElement (address_elements brokers)) where
  broker-addresses :
      (attributes : List Attribute) (s : TunnelState)
      → s.in_client ≡ false
      → s.in_server ≡ false
      → broker mem attributes (print_elements (address_elements brokers)) s
        ≡ (pos 0, record s { info = add_all brokers s.info; in_broker = false })
  unfolding broker
  broker-addresses attributes s c v =
      rw
        (parse_addresses mem room brokers (record s { in_broker = true }) valid (documents _) c v
          refl)
        refl

  run_broker :
      (s : TunnelState)
      → s.in_client ≡ false
      → s.in_server ≡ false
      → run_elements (broker_element brokers ∷ []) (tunnel_table mem s) s
        ≡ some (tunnel_table mem s, record s { info = add_all brokers s.info; in_broker = false })
  unfolding broker_element run_elements set_attributes set_attribute set_node find_node text_eq
      tunnel_table
  run_broker s c v = rw (broker-addresses [] s c v) refl

  tunnel-brokers :
      (attributes : List Attribute) (s : TunnelState)
      → IsElement (broker_element brokers)
      → s.in_client ≡ false
      → s.in_server ≡ false
      → tunnel mem attributes (print_elements (broker_element brokers ∷ [])) s ≡ (
        pos 0,
        record s {
          info = add_all brokers (tunnel_opened mem attributes s).info;
          in_broker = false;
        },
      )
  unfolding tunnel tunnel_opened
  tunnel-brokers attributes s p c v = rw (documents (tunnel_opened mem attributes s)) (
      ap result_of (
        xml_parse-print (broker_element brokers ∷ []) _ _ (tunnel_opened mem attributes s) _ (p, tt)
          (run_broker (tunnel_opened mem attributes s) c v)))

  run_tunnel :
      (action : Text) (s : TunnelState)
      → IsElement (broker_element brokers)
      → s.in_client ≡ false
      → s.in_server ≡ false
      → run_elements (tunnel_element action brokers ∷ []) (root_table mem s) s
        ≡ some (
          set_node tunnel_word (tunnel_attributes mem action s) (root_table mem s),
          record s {
            info = add_all brokers (tunnel_opened mem (tunnel_attributes mem action s) s).info;
            in_broker = false;
          },
        )
  unfolding tunnel_element run_elements set_attributes set_attribute set_node find_node text_eq
      root_table
  run_tunnel action s p c v = rw (tunnel-brokers (tunnel_attributes mem action s) s p c v) refl

  tsp_xml_parse-redirect :
      (action : Text) (s : TunnelState)
      → IsElement (broker_element brokers)
      → IsElement (tunnel_element action brokers)
      → tsp_xml_parse mem (print_elements (tunnel_element action brokers ∷ [])) s ≡ (
        pos 0,
        record (reset_state s) {
          info =
              add_all brokers
                (tunnel_opened mem
                  (tunnel_attributes mem action (reset_state s))
                  (reset_state s)).info;
        },
      )
  unfolding tsp_xml_parse
  tsp_xml_parse-redirect action s p q = rw (documents (reset_state s)) (
      ap result_of (
        xml_parse-print (tunnel_element action brokers ∷ []) _ _ (reset_state s) _ (q, tt)
          (run_tunnel action (reset_state s) p refl refl)))

-- the addresses of one kind, in their order
abbrev pub of_kind : Kind → List (Kind × Text) → List Text
of_kind k [] = []
of_kind kind_ipv4 ((kind_ipv4, text) ∷ more) = text ∷ of_kind kind_ipv4 more
of_kind kind_ipv4 ((kind_ipv6, text) ∷ more) = of_kind kind_ipv4 more
of_kind kind_ipv4 ((kind_dn, text) ∷ more) = of_kind kind_ipv4 more
of_kind kind_ipv6 ((kind_ipv4, text) ∷ more) = of_kind kind_ipv6 more
of_kind kind_ipv6 ((kind_ipv6, text) ∷ more) = text ∷ of_kind kind_ipv6 more
of_kind kind_ipv6 ((kind_dn, text) ∷ more) = of_kind kind_ipv6 more
of_kind kind_dn ((kind_ipv4, text) ∷ more) = of_kind kind_dn more
of_kind kind_dn ((kind_ipv6, text) ∷ more) = of_kind kind_dn more
of_kind kind_dn ((kind_dn, text) ∷ more) = text ∷ of_kind kind_dn more

add_all-lists :
    (brokers : List (Kind × Text)) (info : TunnelInfo)
    → ((add_all brokers info).broker_redirect_ipv4
        ≡ reverse_aux (of_kind kind_ipv4 brokers) info.broker_redirect_ipv4)
      × ((add_all brokers info).broker_redirect_ipv6
          ≡ reverse_aux (of_kind kind_ipv6 brokers) info.broker_redirect_ipv6)
      × ((add_all brokers info).broker_redirect_dn
          ≡ reverse_aux (of_kind kind_dn brokers) info.broker_redirect_dn)
unfolding add_all
add_all-lists [] info = (refl, refl, refl)
add_all-lists ((kind_ipv4, text) ∷ more) info = add_all-lists more (add_one kind_ipv4 text info)
add_all-lists ((kind_ipv6, text) ∷ more) info = add_all-lists more (add_one kind_ipv6 text info)
add_all-lists ((kind_dn, text) ∷ more) info = add_all-lists more (add_one kind_dn text info)

find_byte-line :
    (line rest : Text)
    → All (λ c. c ≢ b'\n') line
    → find_byte b'\n' (line ++ (b'\n' ∷ rest)) ≡ some (b'\n' ∷ rest)
unfolding find_byte
find_byte-line [] rest p = refl
find_byte-line (c ∷ line) rest p = ground (arith, find_byte-line line rest p.1)

find_byte-document :
    (e : Element) (es : List Element)
    → find_byte b'<' (b'\n' ∷ print_elements (e ∷ es)) ≡ some (print_elements (e ∷ es))
unfolding find_byte print_elements
find_byte-document e es = refl

-- A redirection of the server, a status line and a printed document that names its brokers by kind,
-- is extracted without error and without a fault: each list of `tTunnel` has the addresses of its
-- kind as they were sent, in the reverse order. Memory must be given; no end tag stands in an
-- address.
pub extract_payload-redirect :
    (mem : Memory) (line action : Text) (brokers : List (Kind × Text)) (s : TunnelState)
    → ((t : TunnelState) (text : Text) → mem.copy t text ≡ true)
    → ((t : TunnelState) → mem.document t ≡ true)
    → All (λ c. c ≢ b'\n') line
    → All IsElement (address_elements brokers)
    → IsElement (broker_element brokers)
    → IsElement (tunnel_element action brokers)
    → (t : TunnelState) × (tsp_extract_payload mem
          (line ++ (b'\n' ∷ print_elements (tunnel_element action brokers ∷ [])))
          s
        ≡ extracted 0 t)
      × (t.info.broker_redirect_ipv4 ≡ reverse (of_kind kind_ipv4 brokers))
      × (t.info.broker_redirect_ipv6 ≡ reverse (of_kind kind_ipv6 brokers))
      × (t.info.broker_redirect_dn ≡ reverse (of_kind kind_dn brokers))
      × (t.faulted ≡ s.faulted)
unfolding tsp_extract_payload
extract_payload-redirect mem line action brokers s room documents one_line valid p q =
    let start = record s { info = no_tunnel } in
    let opened =
      tunnel_opened mem (tunnel_attributes mem action (reset_state start)) (reset_state start) in
    let lists = add_all-lists brokers opened.info in
    (
      record (reset_state start) { info = add_all brokers opened.info },
      rw
          (
            find_byte-line line (print_elements (tunnel_element action brokers ∷ [])) one_line,
            find_byte-document (tunnel_element action brokers) [],
          )
          (ap extracted_of
            (tsp_xml_parse-redirect mem room documents brokers valid action start p q)),
      unfold tunnel_opened in lists.0,
      unfold tunnel_opened in lists.1,
      unfold tunnel_opened in lists.2,
      refl,
    )
