-- ===== src/Xml/Request/Sections.antt =====
-- The text of a request for a router, by sections.
use mathlib.Core.List.{append-nil, append_assoc}
use gogoc_android.Prelude.{
  ℕ, ◌≡◌, ◌∙◌, ◌<◌, ◌==◌, refl, ap, sym, false, List, [], ◌∷◌, ◌++◌, take, length, arith,
  Bool-cases, inl, inr, if◌then◌else◌,
}
use gogoc_android.Cstring.{Text, text_eq}
use gogoc_android.Xml.Request.{
  RequestConf, Writer, is_v4v6, strcat, strcat_buffer, format, tokens, cut_at, cut_servers,
  dns_addresses, protocol_part, default_prefixlen, dns_lines, routing_part, router_part,
}
use gogoc_android.Xml.Request.Pieces.{
  address_close_piece, router_open_piece, protocol_open_piece, quote_piece, tag_close_piece,
  prefix_open_piece, prefix_close_piece, dns_open_piece, dns_address_piece, dns_close_piece,
  indent_piece, line_end_piece, router_close_piece, client_close_piece, tunnel_close_piece,
  default_route_piece,
}

tokens-cut_at :
    (d : ℕ) (token s : Text) → tokens (d ∷ token) (cut_at s) ≡ take 1 (tokens (d ∷ token) s)
unfolding tokens cut_at
tokens-cut_at d token [] = refl
tokens-cut_at d token (c ∷ s) = ground (arith, tokens-cut_at d (token ++ (c ∷ [])) s)

-- of the servers, the first is left
pub tokens-cut_servers : (s : Text) → tokens [] (cut_servers s) ≡ take 1 (tokens [] s)
unfolding tokens cut_servers
tokens-cut_servers [] = refl
tokens-cut_servers (c ∷ s) = elim (Bool-cases (c == b':')) [
  | inl e ↦ rw (e, e) (tokens-cut_servers s)
  | inr e ↦ rw (e, e) (tokens-cut_at c [] s)
]

pub cut_servers-nonempty : (s : Text) → 0 < length s → 0 < length (cut_servers s)
unfolding cut_servers
cut_servers-nonempty [] h = absurd (omega arith)
cut_servers-nonempty (c ∷ s) h = ground arith

-- one line for each server, as the 1024 bytes of `Buffer` hold it
pub server_lines : List Text → Text
server_lines [] = []
server_lines (server ∷ servers) =
    take 1023 (dns_address_piece ++ (server ++ address_close_piece)) ++ server_lines servers

-- the section of the DNS servers
abbrev pub dns_section : List Text → Text
dns_section servers = dns_open_piece ++ (server_lines servers ++ dns_close_piece)

dns_addresses-request :
    (servers : List Text) (w : Writer)
    → (dns_addresses servers w).request ≡ w.request ++ server_lines servers
unfolding dns_addresses server_lines
dns_addresses-request [] w = sym (append-nil w.request)
dns_addresses-request (server ∷ servers) w =
    dns_addresses-request servers
      (strcat_buffer (format (dns_address_piece ++ (server ++ address_close_piece)) w))
    ∙ append_assoc w.request _ (server_lines servers)

unfoldable pub routing_text : RequestConf → Text
routing_text conf =
    if text_eq conf.protocol default_route_piece
    then elim conf.routing_info [
      | [] ↦ []
      | c ∷ s ↦ take 1023 (indent_piece ++ (conf.routing_info ++ line_end_piece))
    ]
    else []

unfoldable pub protocol_text : RequestConf → Text
protocol_text conf =
    if text_eq conf.protocol default_route_piece
    then []
    else take 1023 (protocol_open_piece ++ (conf.protocol ++ quote_piece))

-- what stands behind the section
unfoldable pub after_section : RequestConf → Text
after_section conf =
    routing_text conf ++ (router_close_piece ++ (client_close_piece ++ tunnel_close_piece))

-- the settings' length, or 48
abbrev pub settled_length : RequestConf → ℕ
settled_length conf = if conf.prefixlen == 0 then 48 else conf.prefixlen

protocol_part-request :
    (decimal : ℕ → Text) (conf : RequestConf) (w : Writer)
    → (protocol_part decimal conf w).request ≡ w.request ++ protocol_text conf
unfolding protocol_part protocol_text
protocol_part-request decimal conf w =
    elim (Bool-cases (text_eq conf.protocol default_route_piece)) [
      | inl e ↦ rw e (sym (append-nil w.request))
      | inr e ↦ rw e refl
    ]

routing_info-request :
    (info : Text) (w : Writer)
    → (elim info as (λ _. Writer) [
      | [] ↦ w
      | c ∷ s ↦ strcat_buffer (format (indent_piece ++ (info ++ line_end_piece)) w)
    ]).request
      ≡ w.request ++ (elim info as (λ _. Text) [
        | [] ↦ []
        | c ∷ s ↦ take 1023 (indent_piece ++ (info ++ line_end_piece))
      ])
routing_info-request [] w = sym (append-nil w.request)
routing_info-request (c ∷ s) w = refl

routing_part-request :
    (decimal : ℕ → Text) (conf : RequestConf) (w : Writer)
    → (routing_part decimal conf w).request ≡ w.request ++ routing_text conf
unfolding routing_part routing_text
routing_part-request decimal conf w =
    elim (Bool-cases (text_eq conf.protocol default_route_piece)) [
      | inl e ↦ rw e (routing_info-request conf.routing_info w)
      | inr e ↦ rw e (sym (append-nil w.request))
    ]

dns_lines-request :
    (decimal : ℕ → Text) (s : Text) (conf : RequestConf) (w : Writer)
    → 0 < length s
    → (dns_lines decimal s conf w).writer.request ≡ w.request ++ dns_section (tokens [] s)
unfolding dns_lines
dns_lines-request decimal [] conf w h = absurd (omega arith)
dns_lines-request decimal (c ∷ s) conf w h =
    rw
      (
        dns_addresses-request (tokens [] (c ∷ s)) (strcat dns_open_piece w),
        append_assoc w.request dns_open_piece (server_lines (tokens [] (c ∷ s))),
        append_assoc w.request (dns_open_piece ++ server_lines (tokens [] (c ∷ s))) dns_close_piece,
        append_assoc dns_open_piece (server_lines (tokens [] (c ∷ s))) dns_close_piece,
      )
      refl

dns_lines-conf :
    (decimal : ℕ → Text) (s : Text) (conf : RequestConf) (w : Writer)
    → 0 < length s
    → (dns_lines decimal s conf w).conf ≡ record conf { dns_server = cut_servers s }
unfolding dns_lines
dns_lines-conf decimal [] conf w h = absurd (omega arith)
dns_lines-conf decimal (c ∷ s) conf w h = refl

default_prefixlen-settled :
    (decimal : ℕ → Text) (conf : RequestConf)
    → is_v4v6 conf.tunnel_mode ≡ false
    → default_prefixlen decimal conf ≡ record conf { prefixlen = settled_length conf }
default_prefixlen-settled decimal conf m = elim (Bool-cases (conf.prefixlen == 0)) [
  | inl e ↦ rw (e, m) refl
  | inr e ↦ rw e refl
]

-- the lines before the section, with the length `n`
unfoldable pub before_section : (ℕ → Text) → Text → RequestConf → ℕ → Text
before_section decimal opened conf n =
    (((opened ++ router_open_piece) ++ protocol_text conf) ++ tag_close_piece)
    ++ take 1023 (prefix_open_piece ++ (decimal n ++ prefix_close_piece))

module _ (decimal : ℕ → Text) (conf : RequestConf) where
  pub router_part-request :
      (w : Writer)
      → is_v4v6 conf.tunnel_mode ≡ false
      → 0 < length conf.dns_server
      → (router_part decimal conf w).writer.request
        ≡ ((before_section decimal w.request conf (settled_length conf)
              ++ dns_section (tokens [] conf.dns_server))
            ++ routing_text conf)
          ++ router_close_piece
  unfolding router_part before_section routing_text
  router_part-request w m h =
      let settled : RequestConf = record conf { prefixlen = settled_length conf } in
      let opened =
        strcat tag_close_piece (protocol_part decimal conf (strcat router_open_piece w)) in
      let lengthy = strcat_buffer (
        format (prefix_open_piece ++ (decimal (settled_length conf) ++ prefix_close_piece))
          opened) in
      let dns = dns_lines decimal conf.dns_server settled lengthy in
      let prefix : ℕ → Text =
        λ n. take 1023 (prefix_open_piece ++ (decimal n ++ prefix_close_piece)) in
      let section = dns_section (tokens [] conf.dns_server) in
      ap
        (λ c.
          (routing_part decimal c
            (dns_lines decimal c.dns_server c (
              strcat_buffer (
                format (prefix_open_piece ++ (decimal c.prefixlen ++ prefix_close_piece))
                  opened))).writer).request
          ++ router_close_piece)
        (default_prefixlen-settled decimal conf m)
      ∙ ap (λ t. t ++ router_close_piece) (routing_part-request decimal settled dns.writer)
      ∙ ap (λ t. (t ++ routing_text conf) ++ router_close_piece)
          (dns_lines-request decimal conf.dns_server settled lengthy h)
      ∙ ap
          (λ t.
            ((((t ++ tag_close_piece) ++ prefix (settled_length conf)) ++ section)
              ++ routing_text conf)
            ++ router_close_piece)
          (protocol_part-request decimal conf (strcat router_open_piece w))

  pub router_part-conf :
      (w : Writer)
      → is_v4v6 conf.tunnel_mode ≡ false
      → 0 < length conf.dns_server
      → (router_part decimal conf w).conf
        ≡ record conf { prefixlen = settled_length conf; dns_server = cut_servers conf.dns_server }
  unfolding router_part
  router_part-conf w m h =
      rw
        (
          default_prefixlen-settled decimal conf m,
          dns_lines-conf decimal conf.dns_server (record conf { prefixlen = settled_length conf }) _
              h,
        )
        refl
