-- ===== src/Xml/Request.antt =====
-- src/xml/xml_req.c: the requests, in the build without V4V6_SUPPORT.
pub mod Pieces
pub mod Sections
pub mod Laws
mod Tests
use gogoc_android.Prelude.{
  ℕ, Bool, true, false, List, [], ◌∷◌, ◌++◌, ◌==◌, not, take, if◌then◌else◌,
}
use gogoc_android.Cstring.{Text, text_eq}
use gogoc_android.Client.{TunnelMode, v6v4, v6udpv4, v6anyv4, v4v6, dslite}
use gogoc_android.Xml.Request.Pieces.{
  create_open_piece, proxy_yes_piece, proxy_no_piece, client_open_piece, address_open_piece,
  address_close_piece, keepalive_open_piece, keepalive_close_piece, router_open_piece,
  protocol_open_piece, quote_piece, tag_close_piece, prefix_open_piece, prefix_close_piece,
  dns_open_piece, dns_address_piece, dns_close_piece, indent_piece, line_end_piece,
  router_close_piece, client_close_piece, tunnel_close_piece, accept_piece, router_host_piece,
  default_route_piece, udp_mode_piece, plain_mode_piece, any_mode_piece,
}

-- The fields of `tConf` that a request is made from, none of them NULL.
pub record RequestConf : Type 0 where
  pub tunnel_mode : TunnelMode
  pub proxy_client : Bool
  pub client_v4 : Text
  pub keepalive : Bool
  pub keepalive_interval : ℕ
  pub host_type : Text
  pub protocol : Text
  pub prefixlen : ℕ
  pub dns_server : Text
  pub routing_info : Text

-- `Request` and `Buffer`; the latter is static and keeps what an earlier call has left.
pub record Writer : Type 0 where
  pub request : Text
  pub buffer : Text

abbrev pub is_v4v6 : TunnelMode → Bool
is_v4v6 v4v6 = true
is_v4v6 v6v4 = false
is_v4v6 v6udpv4 = false
is_v4v6 v6anyv4 = false
is_v4v6 dslite = false

abbrev pub mode_piece : TunnelMode → Text
mode_piece v6udpv4 = udp_mode_piece
mode_piece v6v4 = plain_mode_piece
mode_piece v4v6 = any_mode_piece
mode_piece v6anyv4 = any_mode_piece
mode_piece dslite = any_mode_piece

-- `strcat(Request, s)`
abbrev pub strcat : Text → Writer → Writer
strcat s w = record w { request = w.request ++ s }

-- `pal_snprintf(Buffer, sizeof Buffer, ...)`
abbrev pub format : Text → Writer → Writer
format s w = record w { buffer = take 1023 s }

-- `strcat(Request, Buffer)`
abbrev pub strcat_buffer : Writer → Writer
strcat_buffer w = strcat w.buffer w

-- what `strtok` returns in turn with the delimiter `:`; `token` is what has been read of the next
pub tokens : Text → Text → List Text
tokens [] [] = []
tokens (d ∷ token) [] = (d ∷ token) ∷ []
tokens [] (c ∷ s) =
    let skip = tokens [] s in let more = tokens (c ∷ []) s in if c == b':' then skip else more
tokens (d ∷ token) (c ∷ s) =
    let cut = (d ∷ token) ∷ tokens [] s in
    let more = tokens ((d ∷ token) ++ (c ∷ [])) s in if c == b':' then cut else more

-- what `strtok` leaves of the string: it writes a 0 behind the first token
pub cut_at : Text → Text
cut_at [] = []
cut_at (c ∷ s) = let more = c ∷ cut_at s in if c == b':' then [] else more

pub cut_servers : Text → Text
unfolding cut_at
cut_servers [] = []
cut_servers (c ∷ s) =
    let skip = c ∷ cut_servers s in let first = c ∷ cut_at s in if c == b':' then skip else first

pub dns_addresses : List Text → Writer → Writer
dns_addresses [] w = w
dns_addresses (server ∷ servers) w =
    dns_addresses servers
      (strcat_buffer (format (dns_address_piece ++ (server ++ address_close_piece)) w))

-- the result, with the settings that the call has changed
pub record Request : Type 0 where
  pub writer : Writer
  pub conf : RequestConf

-- `decimal` is what `%d` prints of a number.
module _ (decimal : ℕ → Text) where
  pub client_part : RequestConf → Writer → Writer
  client_part conf w =
      let address = format (address_open_piece ++ (conf.client_v4 ++ address_close_piece)) w in
      strcat_buffer (if is_v4v6 conf.tunnel_mode then w else address)

  pub keepalive_part : RequestConf → Writer → Writer
  keepalive_part conf w =
      let line =
        format (keepalive_open_piece ++ (decimal conf.keepalive_interval ++ keepalive_close_piece))
          w in
      if conf.keepalive then strcat_buffer (if is_v4v6 conf.tunnel_mode then w else line) else w

  pub protocol_part : RequestConf → Writer → Writer
  protocol_part conf w =
      if text_eq conf.protocol default_route_piece
      then w
      else strcat_buffer (format (protocol_open_piece ++ (conf.protocol ++ quote_piece)) w)

  -- `if (conf->prefixlen == 0)`: 48, but for V4V6, which is not built
  abbrev pub default_prefixlen : RequestConf → RequestConf
  default_prefixlen conf =
      if (conf.prefixlen == 0)
      then (if is_v4v6 conf.tunnel_mode then conf else record conf { prefixlen = 48 })
      else conf

  -- `if (strlen(conf->dns_server))`, on that string
  pub dns_lines : Text → RequestConf → Writer → Request
  unfolding tokens cut_servers dns_addresses
  dns_lines [] conf w = record { writer = w; conf = conf }
  dns_lines (c ∷ s) conf w = record {
    writer = strcat dns_close_piece (dns_addresses (tokens [] (c ∷ s)) (strcat dns_open_piece w));
    conf = record conf { dns_server = cut_servers (c ∷ s) };
  }

  pub routing_part : RequestConf → Writer → Writer
  routing_part conf w =
      let line = strcat_buffer (format (indent_piece ++ (conf.routing_info ++ line_end_piece)) w) in
      if text_eq conf.protocol default_route_piece
      then elim conf.routing_info [ [] ↦ w | c ∷ s ↦ line ]
      else w

  pub router_part : RequestConf → Writer → Request
  unfolding protocol_part dns_lines routing_part
  router_part conf w =
      let opened = strcat tag_close_piece (protocol_part conf (strcat router_open_piece w)) in
      let conf' = default_prefixlen conf in
      let lengthy =
        strcat_buffer
          (format (prefix_open_piece ++ (decimal conf'.prefixlen ++ prefix_close_piece)) opened) in
      let dns = dns_lines conf'.dns_server conf' lengthy in
      record { writer = strcat router_close_piece (routing_part conf' dns.writer); conf = dns.conf }

  -- `tspBuildCreateRequest`, with what `Buffer` holds before the call
  pub build_create_request : RequestConf → Text → Request
  unfolding client_part keepalive_part router_part
  build_create_request conf buffer =
      let start : Writer = record {
        request =
            create_open_piece
            ++ (mode_piece conf.tunnel_mode
                ++ ((if conf.proxy_client then proxy_yes_piece else proxy_no_piece)
                    ++ client_open_piece));
        buffer = buffer;
      } in
      let client = keepalive_part conf (client_part conf start) in
      let routed : Request =
        if text_eq conf.host_type router_host_piece
        then router_part conf client
        else record { writer = client; conf = conf } in
      record routed { writer = strcat tunnel_close_piece (strcat client_close_piece routed.writer) }

-- `tspBuildCreateAcknowledge`
abbrev pub build_create_acknowledge : Text
build_create_acknowledge = accept_piece
