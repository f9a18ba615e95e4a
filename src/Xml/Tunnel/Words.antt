-- ===== src/Xml/Tunnel/Words.antt =====
-- The names of src/xml/xml_tun.c.
use gogoc_android.Prelude.{[], ◌∷◌}
use gogoc_android.Cstring.{Text}

abbrev pub tunnel_word : Text
tunnel_word = b't' ∷ b'u' ∷ b'n' ∷ b'n' ∷ b'e' ∷ b'l' ∷ []

abbrev pub server_word : Text
server_word = b's' ∷ b'e' ∷ b'r' ∷ b'v' ∷ b'e' ∷ b'r' ∷ []

abbrev pub client_word : Text
client_word = b'c' ∷ b'l' ∷ b'i' ∷ b'e' ∷ b'n' ∷ b't' ∷ []

abbrev pub broker_word : Text
broker_word = b'b' ∷ b'r' ∷ b'o' ∷ b'k' ∷ b'e' ∷ b'r' ∷ []

abbrev pub address_word : Text
address_word = b'a' ∷ b'd' ∷ b'd' ∷ b'r' ∷ b'e' ∷ b's' ∷ b's' ∷ []

abbrev pub dns_server_word : Text
dns_server_word = b'd' ∷ b'n' ∷ b's' ∷ b'_' ∷ b's' ∷ b'e' ∷ b'r' ∷ b'v' ∷ b'e' ∷ b'r' ∷ []

abbrev pub router_word : Text
router_word = b'r' ∷ b'o' ∷ b'u' ∷ b't' ∷ b'e' ∷ b'r' ∷ []

abbrev pub prefix_word : Text
prefix_word = b'p' ∷ b'r' ∷ b'e' ∷ b'f' ∷ b'i' ∷ b'x' ∷ []

abbrev pub as_word : Text
as_word = b'a' ∷ b's' ∷ []

abbrev pub keepalive_word : Text
keepalive_word = b'k' ∷ b'e' ∷ b'e' ∷ b'p' ∷ b'a' ∷ b'l' ∷ b'i' ∷ b'v' ∷ b'e' ∷ []

abbrev pub action_word : Text
action_word = b'a' ∷ b'c' ∷ b't' ∷ b'i' ∷ b'o' ∷ b'n' ∷ []

abbrev pub type_word : Text
type_word = b't' ∷ b'y' ∷ b'p' ∷ b'e' ∷ []

abbrev pub lifetime_word : Text
lifetime_word = b'l' ∷ b'i' ∷ b'f' ∷ b'e' ∷ b't' ∷ b'i' ∷ b'm' ∷ b'e' ∷ []

abbrev pub proxy_word : Text
proxy_word = b'p' ∷ b'r' ∷ b'o' ∷ b'x' ∷ b'y' ∷ []

abbrev pub mtu_word : Text
mtu_word = b'm' ∷ b't' ∷ b'u' ∷ []

abbrev pub protocol_word : Text
protocol_word = b'p' ∷ b'r' ∷ b'o' ∷ b't' ∷ b'o' ∷ b'c' ∷ b'o' ∷ b'l' ∷ []

abbrev pub interval_word : Text
interval_word = b'i' ∷ b'n' ∷ b't' ∷ b'e' ∷ b'r' ∷ b'v' ∷ b'a' ∷ b'l' ∷ []

abbrev pub length_word : Text
length_word = b'l' ∷ b'e' ∷ b'n' ∷ b'g' ∷ b't' ∷ b'h' ∷ []

abbrev pub number_word : Text
number_word = b'n' ∷ b'u' ∷ b'm' ∷ b'b' ∷ b'e' ∷ b'r' ∷ []

abbrev pub ipv4_word : Text
ipv4_word = b'i' ∷ b'p' ∷ b'v' ∷ b'4' ∷ []

abbrev pub ipv6_word : Text
ipv6_word = b'i' ∷ b'p' ∷ b'v' ∷ b'6' ∷ []

abbrev pub dn_word : Text
dn_word = b'd' ∷ b'n' ∷ []
