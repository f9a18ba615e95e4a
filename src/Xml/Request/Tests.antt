-- ===== src/Xml/Request/Tests.antt =====
-- Requests at concrete settings.
use gogoc_android.Prelude.{ℕ, ◌≡◌, refl, true, false, [], ◌∷◌, ◌++◌, take, arith}
use gogoc_android.Cstring.{Text, text_eq}
use gogoc_android.Client.{v6anyv4}
use gogoc_android.Xml.Request.{RequestConf, tokens, cut_servers, cut_at, build_create_request}
use gogoc_android.Xml.Request.Pieces.{router_host_piece, default_route_piece}
use gogoc_android.Xml.Request.Sections.{dns_section}
use gogoc_android.Xml.Request.Laws.{dns_servers_forgotten}

-- `:a:bc`
abbrev servers : Text
servers = b':' ∷ b'a' ∷ b':' ∷ b'b' ∷ b'c' ∷ []

abbrev router_conf : RequestConf
router_conf = record {
  tunnel_mode = v6anyv4;
  proxy_client = false;
  client_v4 = b'1' ∷ [];
  keepalive = true;
  keepalive_interval = 30;
  host_type = router_host_piece;
  protocol = default_route_piece;
  prefixlen = 0;
  dns_server = servers;
  routing_info = [];
}

abbrev one_digit : ℕ → Text
one_digit n = b'0' ∷ []

servers_split : tokens [] servers ≡ (b'a' ∷ []) ∷ (b'b' ∷ b'c' ∷ []) ∷ []
unfolding tokens
servers_split = refl

servers_cut : cut_servers servers ≡ b':' ∷ b'a' ∷ []
unfolding cut_servers cut_at
servers_cut = refl

dns_servers_forgotten_example :
    let first = build_create_request one_digit router_conf [] in
    let second = build_create_request one_digit first.conf (b'z' ∷ []) in
    (before after : Text) × (first.writer.request
      ≡ before ++ (dns_section (tokens [] servers) ++ after))
    × (second.writer.request ≡ before ++ (dns_section (take 1 (tokens [] servers)) ++ after))
unfolding text_eq
dns_servers_forgotten_example =
    dns_servers_forgotten one_digit router_conf [] (b'z' ∷ []) refl refl (omega arith)
