-- ===== src/Xml/Request/Pieces.antt =====
-- The pieces of the requests of src/xml/xml_req.c.
use gogoc_android.Prelude.{[], ◌∷◌}
use gogoc_android.Cstring.{Text}

abbrev pub create_open_piece : Text
create_open_piece =
    b'<' ∷ b't' ∷ b'u' ∷ b'n' ∷ b'n' ∷ b'e' ∷ b'l' ∷ b' ' ∷ b'a' ∷ b'c' ∷ b't' ∷ b'i' ∷ b'o' ∷ b'n'
    ∷ b'=' ∷ b'"' ∷ b'c' ∷ b'r' ∷ b'e' ∷ b'a' ∷ b't' ∷ b'e' ∷ b'"' ∷ b' ' ∷ b't' ∷ b'y' ∷ b'p'
    ∷ b'e' ∷ b'=' ∷ b'"' ∷ []

abbrev pub proxy_yes_piece : Text
proxy_yes_piece =
    b'"' ∷ b' ' ∷ b'p' ∷ b'r' ∷ b'o' ∷ b'x' ∷ b'y' ∷ b'=' ∷ b'"' ∷ b'y' ∷ b'e' ∷ b's' ∷ b'"' ∷ b'>'
    ∷ b'\r' ∷ b'\n' ∷ []

abbrev pub proxy_no_piece : Text
proxy_no_piece =
    b'"' ∷ b' ' ∷ b'p' ∷ b'r' ∷ b'o' ∷ b'x' ∷ b'y' ∷ b'=' ∷ b'"' ∷ b'n' ∷ b'o' ∷ b'"' ∷ b'>' ∷ b'\r'
    ∷ b'\n' ∷ []

abbrev pub client_open_piece : Text
client_open_piece =
    b' ' ∷ b'<' ∷ b'c' ∷ b'l' ∷ b'i' ∷ b'e' ∷ b'n' ∷ b't' ∷ b'>' ∷ b'\r' ∷ b'\n' ∷ []

abbrev pub address_open_piece : Text
address_open_piece =
    b' ' ∷ b' ' ∷ b'<' ∷ b'a' ∷ b'd' ∷ b'd' ∷ b'r' ∷ b'e' ∷ b's' ∷ b's' ∷ b' ' ∷ b't' ∷ b'y' ∷ b'p'
    ∷ b'e' ∷ b'=' ∷ b'"' ∷ b'i' ∷ b'p' ∷ b'v' ∷ b'4' ∷ b'"' ∷ b'>' ∷ []

abbrev pub address_close_piece : Text
address_close_piece =
    b'<' ∷ b'/' ∷ b'a' ∷ b'd' ∷ b'd' ∷ b'r' ∷ b'e' ∷ b's' ∷ b's' ∷ b'>' ∷ b'\r' ∷ b'\n' ∷ []

abbrev pub keepalive_open_piece : Text
keepalive_open_piece =
    b' ' ∷ b' ' ∷ b'<' ∷ b'k' ∷ b'e' ∷ b'e' ∷ b'p' ∷ b'a' ∷ b'l' ∷ b'i' ∷ b'v' ∷ b'e' ∷ b' ' ∷ b'i'
    ∷ b'n' ∷ b't' ∷ b'e' ∷ b'r' ∷ b'v' ∷ b'a' ∷ b'l' ∷ b'=' ∷ b'"' ∷ []

abbrev pub keepalive_close_piece : Text
keepalive_close_piece =
    b'"' ∷ b'>' ∷ b'\r' ∷ b'\n' ∷ b' ' ∷ b' ' ∷ b' ' ∷ b' ' ∷ b'<' ∷ b'a' ∷ b'd' ∷ b'd' ∷ b'r'
    ∷ b'e' ∷ b's' ∷ b's' ∷ b' ' ∷ b't' ∷ b'y' ∷ b'p' ∷ b'e' ∷ b'=' ∷ b'"' ∷ b'i' ∷ b'p' ∷ b'v'
    ∷ b'6' ∷ b'"' ∷ b'>' ∷ b':' ∷ b':' ∷ b'<' ∷ b'/' ∷ b'a' ∷ b'd' ∷ b'd' ∷ b'r' ∷ b'e' ∷ b's'
    ∷ b's' ∷ b'>' ∷ b'\r' ∷ b'\n' ∷ b' ' ∷ b' ' ∷ b'<' ∷ b'/' ∷ b'k' ∷ b'e' ∷ b'e' ∷ b'p' ∷ b'a'
    ∷ b'l' ∷ b'i' ∷ b'v' ∷ b'e' ∷ b'>' ∷ b'\r' ∷ b'\n' ∷ []

abbrev pub router_open_piece : Text
router_open_piece = b' ' ∷ b' ' ∷ b'<' ∷ b'r' ∷ b'o' ∷ b'u' ∷ b't' ∷ b'e' ∷ b'r' ∷ []

abbrev pub protocol_open_piece : Text
protocol_open_piece =
    b' ' ∷ b'p' ∷ b'r' ∷ b'o' ∷ b't' ∷ b'o' ∷ b'c' ∷ b'o' ∷ b'l' ∷ b'=' ∷ b'"' ∷ []

abbrev pub quote_piece : Text
quote_piece = b'"' ∷ []

abbrev pub tag_close_piece : Text
tag_close_piece = b'>' ∷ b'\r' ∷ b'\n' ∷ []

abbrev pub prefix_open_piece : Text
prefix_open_piece =
    b' ' ∷ b' ' ∷ b' ' ∷ b'<' ∷ b'p' ∷ b'r' ∷ b'e' ∷ b'f' ∷ b'i' ∷ b'x' ∷ b' ' ∷ b'l' ∷ b'e' ∷ b'n'
    ∷ b'g' ∷ b't' ∷ b'h' ∷ b'=' ∷ b'"' ∷ []

abbrev pub prefix_close_piece : Text
prefix_close_piece = b'"' ∷ b'/' ∷ b'>' ∷ b'\r' ∷ b'\n' ∷ []

abbrev pub dns_open_piece : Text
dns_open_piece =
    b' ' ∷ b' ' ∷ b' ' ∷ b'<' ∷ b'd' ∷ b'n' ∷ b's' ∷ b'_' ∷ b's' ∷ b'e' ∷ b'r' ∷ b'v' ∷ b'e' ∷ b'r'
    ∷ b'>' ∷ b'\r' ∷ b'\n' ∷ []

abbrev pub dns_address_piece : Text
dns_address_piece =
    b' ' ∷ b' ' ∷ b' ' ∷ b' ' ∷ b' ' ∷ b'<' ∷ b'a' ∷ b'd' ∷ b'd' ∷ b'r' ∷ b'e' ∷ b's' ∷ b's' ∷ b' '
    ∷ b't' ∷ b'y' ∷ b'p' ∷ b'e' ∷ b'=' ∷ b'"' ∷ b'd' ∷ b'n' ∷ b'"' ∷ b'>' ∷ []

abbrev pub dns_close_piece : Text
dns_close_piece =
    b' ' ∷ b' ' ∷ b' ' ∷ b'<' ∷ b'/' ∷ b'd' ∷ b'n' ∷ b's' ∷ b'_' ∷ b's' ∷ b'e' ∷ b'r' ∷ b'v' ∷ b'e'
    ∷ b'r' ∷ b'>' ∷ b'\r' ∷ b'\n' ∷ []

abbrev pub indent_piece : Text
indent_piece = b' ' ∷ b' ' ∷ b' ' ∷ b' ' ∷ []

abbrev pub line_end_piece : Text
line_end_piece = b'\r' ∷ b'\n' ∷ []

abbrev pub router_close_piece : Text
router_close_piece =
    b' ' ∷ b' ' ∷ b'<' ∷ b'/' ∷ b'r' ∷ b'o' ∷ b'u' ∷ b't' ∷ b'e' ∷ b'r' ∷ b'>' ∷ b'\r' ∷ b'\n' ∷ []

abbrev pub client_close_piece : Text
client_close_piece =
    b' ' ∷ b'<' ∷ b'/' ∷ b'c' ∷ b'l' ∷ b'i' ∷ b'e' ∷ b'n' ∷ b't' ∷ b'>' ∷ b'\r' ∷ b'\n' ∷ []

abbrev pub tunnel_close_piece : Text
tunnel_close_piece =
    b'<' ∷ b'/' ∷ b't' ∷ b'u' ∷ b'n' ∷ b'n' ∷ b'e' ∷ b'l' ∷ b'>' ∷ b'\r' ∷ b'\n' ∷ []

abbrev pub accept_piece : Text
accept_piece =
    b'<' ∷ b't' ∷ b'u' ∷ b'n' ∷ b'n' ∷ b'e' ∷ b'l' ∷ b' ' ∷ b'a' ∷ b'c' ∷ b't' ∷ b'i' ∷ b'o' ∷ b'n'
    ∷ b'=' ∷ b'"' ∷ b'a' ∷ b'c' ∷ b'c' ∷ b'e' ∷ b'p' ∷ b't' ∷ b'"' ∷ b'>' ∷ b'<' ∷ b'/' ∷ b't'
    ∷ b'u' ∷ b'n' ∷ b'n' ∷ b'e' ∷ b'l' ∷ b'>' ∷ b'\r' ∷ b'\n' ∷ []

abbrev pub router_host_piece : Text
router_host_piece = b'r' ∷ b'o' ∷ b'u' ∷ b't' ∷ b'e' ∷ b'r' ∷ []

abbrev pub default_route_piece : Text
default_route_piece =
    b'd' ∷ b'e' ∷ b'f' ∷ b'a' ∷ b'u' ∷ b'l' ∷ b't' ∷ b'_' ∷ b'r' ∷ b'o' ∷ b'u' ∷ b't' ∷ b'e' ∷ []

abbrev pub udp_mode_piece : Text
udp_mode_piece = b'v' ∷ b'6' ∷ b'u' ∷ b'd' ∷ b'p' ∷ b'v' ∷ b'4' ∷ []

abbrev pub plain_mode_piece : Text
plain_mode_piece = b'v' ∷ b'6' ∷ b'v' ∷ b'4' ∷ []

abbrev pub any_mode_piece : Text
any_mode_piece = b'v' ∷ b'6' ∷ b'a' ∷ b'n' ∷ b'y' ∷ b'v' ∷ b'4' ∷ []
