-- ===== src/Xml/Tunnel.antt =====
-- src/xml/xml_tun.c: the processing functions that fill `tTunnel` from a reply, and `tspXMLParse`.
-- That `Assign` writes its lower case into the document too is left out: what it changes there is
-- not read again, unless the element closes itself and its content is the rest of the document.
pub mod Words
pub mod Address
pub mod Tables
mod Tests
use gogoc_android.Prelude.{
  ℕ, zero, suc, ◌==◌, Bool, true, false, List, [], ◌∷◌, Option, none, some, leb, ◌+◌, ◌&&◌, ◌||◌,
  map, if◌then◌else◌,
}
use gogoc_android.Cstring.{Text, text_eq}
use gogoc_android.Cstring.Numbers.{ℤ, pos, negsuc}
use gogoc_android.Xml.{Attribute, Node}
use gogoc_android.Xml.Parse.{
  Outcome, returned, token_overflow, overrun, unfinished, Call, xml_parse,
}
use gogoc_android.Xml.Tunnel.Words.{
  tunnel_word, server_word, client_word, broker_word, address_word, dns_server_word, router_word,
  prefix_word, as_word, keepalive_word, action_word, type_word, lifetime_word, proxy_word, mtu_word,
  protocol_word, interval_word, length_word, number_word, ipv4_word, ipv6_word, dn_word,
}

-- `tTunnel`: `none` for NULL; of the lists the two that nothing fills are left out.
pub record TunnelInfo : Type 0 where
  pub action : Option Text
  pub type : Option Text
  pub lifetime : Option Text
  pub proxy : Option Text
  pub mtu : Option Text
  pub client_address_ipv4 : Option Text
  pub client_address_ipv6 : Option Text
  pub client_dns_server_address_ipv6 : Option Text
  pub client_dns_name : Option Text
  pub server_address_ipv4 : Option Text
  pub server_address_ipv6 : Option Text
  pub router_protocol : Option Text
  pub prefix_length : Option Text
  pub prefix : Option Text
  pub client_as : Option Text
  pub server_as : Option Text
  pub keepalive_interval : Option Text
  pub keepalive_address : Option Text
  pub dns_server_address_ipv4 : List Text
  pub dns_server_address_ipv6 : List Text
  pub broker_redirect_ipv4 : List Text
  pub broker_redirect_ipv6 : List Text
  pub broker_redirect_dn : List Text

-- `theTunnelInfo`, the flags of the elements that are open, and whether a NULL pointer was
-- dereferenced or memory overrun on the way: what comes after that is of no account.
pub record TunnelState : Type 0 where
  pub info : TunnelInfo
  pub in_client : Bool
  pub in_server : Bool
  pub in_router : Bool
  pub in_dns_server : Bool
  pub in_broker : Bool
  pub in_keepalive : Bool
  pub faulted : Bool

-- What the system and earlier calls give: whether a copy of a string, and of a document, gets its
-- memory; and what the value of an attribute of a table points to when a parse begins, NULL at first.
pub record Memory : Type 0 where
  pub copy : TunnelState → Text → Bool
  pub document : TunnelState → Bool
  pub left : TunnelState → Text → Text → Option Text

abbrev pub to_lower : ℕ → ℕ
to_lower c = if leb b'A' c && leb c b'Z' then c + 32 else c

abbrev pub fault : TunnelState → TunnelState
fault s = record s { faulted = true }

-- a call of `XMLParse` as the result of a processing function
abbrev pub result_of : Call TunnelState → ℤ × TunnelState
result_of (returned r, nodes, s) = (r, s)
result_of (token_overflow, nodes, s) = (negsuc 0, fault s)
result_of (overrun, nodes, s) = (negsuc 0, fault s)
result_of (unfinished, nodes, s) = (negsuc 0, fault s)

-- `n->attributes[i].value`
abbrev pub first_value : List Attribute → Option Text
first_value [] = none
first_value (a ∷ attributes) = a.value

abbrev pub rest_values : List Attribute → List Attribute
rest_values [] = []
rest_values (a ∷ attributes) = attributes

-- `strcmp(n->attributes[0].value, ...)`, which needs a value
abbrev pub with_kind : Option Text → TunnelState → (Text → TunnelInfo) → ℤ × TunnelState
with_kind none s next = (pos 0, fault s)
with_kind (some kind) s next = (pos 0, record s { info = next kind })

module _ (mem : Memory) where
  -- `Assign`, of which no caller looks at the result
  unfoldable pub assign : TunnelState → Option Text → Option Text → Option Text
  assign s none old = old
  assign s (some str) old = if mem.copy s str then some (map to_lower str) else none

  -- `AssignToList`: the new element comes first
  unfoldable pub assign_to_list : TunnelState → Text → List Text → List Text
  assign_to_list s str list = if mem.copy s str then str ∷ list else list
