-- ===== src/Xml/Request/Laws.antt =====
-- The text of a request, and what a request leaves of the settings for the next one.
use mathlib.Core.List.{append_assoc}
use gogoc_android.Prelude.{
  ℕ, ◌≡◌, ◌∙◌, ◌<◌, refl, ap, true, false, [], ◌++◌, take, length, arith, if◌then◌else◌,
}
use gogoc_android.Cstring.{Text, text_eq}
use gogoc_android.Xml.Request.{
  RequestConf, Writer, is_v4v6, mode_piece, tokens, cut_servers, client_part, keepalive_part,
  build_create_request,
}
use gogoc_android.Xml.Request.Pieces.{
  create_open_piece, proxy_yes_piece, proxy_no_piece, client_open_piece, router_close_piece,
  client_close_piece, tunnel_close_piece, router_host_piece,
}
use gogoc_android.Xml.Request.Sections.{
  tokens-cut_servers, cut_servers-nonempty, dns_section, routing_text, protocol_text, after_section,
  settled_length, before_section, router_part-request, router_part-conf,
}

-- the request before the router, with what `Buffer` held before it
client_head : (ℕ → Text) → RequestConf → Text → Writer
client_head decimal conf buffer = keepalive_part decimal conf (
    client_part decimal conf (record {
      request =
          create_open_piece
          ++ (mode_piece conf.tunnel_mode
              ++ ((if conf.proxy_client then proxy_yes_piece else proxy_no_piece)
                  ++ client_open_piece));
      buffer = buffer;
    }))

-- the address overwrites what an earlier call has left
client_head-buffer :
    (decimal : ℕ → Text) (conf : RequestConf) (buffer : Text)
    → is_v4v6 conf.tunnel_mode ≡ false
    → client_head decimal conf buffer ≡ client_head decimal conf []
unfolding client_head client_part
client_head-buffer decimal conf buffer m = rw m refl

regroup :
    (before section a b c d : Text)
    → ((((before ++ section) ++ a) ++ b) ++ c) ++ d ≡ before ++ (section ++ (a ++ (b ++ (c ++ d))))
regroup before section a b c d =
    append_assoc (((before ++ section) ++ a) ++ b) c d
    ∙ append_assoc ((before ++ section) ++ a) b (c ++ d)
    ∙ append_assoc (before ++ section) a (b ++ (c ++ d))
    ∙ append_assoc before section (a ++ (b ++ (c ++ d)))

build_create_request-router :
    (decimal : ℕ → Text) (conf : RequestConf) (buffer : Text)
    → text_eq conf.host_type router_host_piece ≡ true
    → is_v4v6 conf.tunnel_mode ≡ false
    → 0 < length conf.dns_server
    → ((build_create_request decimal conf buffer).writer.request
        ≡ before_section decimal (client_head decimal conf []).request conf (settled_length conf)
          ++ (dns_section (tokens [] conf.dns_server) ++ after_section conf))
      × ((build_create_request decimal conf buffer).conf ≡ record conf {
        prefixlen = settled_length conf;
        dns_server = cut_servers conf.dns_server;
      })
unfolding build_create_request client_head after_section
build_create_request-router decimal conf buffer router m h =
    let opened = client_head decimal conf buffer in
    rw router (
      ap (λ t. (t ++ client_close_piece) ++ tunnel_close_piece)
            (router_part-request decimal conf opened m h)
          ∙ ap
              (λ w.
                (((before_section decimal w.request conf (settled_length conf)
                      ++ dns_section (tokens [] conf.dns_server))
                    ++ routing_text conf)
                  ++ router_close_piece)
                ++ client_close_piece
                ++ tunnel_close_piece)
              (client_head-buffer decimal conf buffer m)
          ∙ regroup
              (before_section decimal (client_head decimal conf []).request conf
                (settled_length conf))
              (dns_section (tokens [] conf.dns_server)) (routing_text conf) router_close_piece
              client_close_piece tunnel_close_piece,
      router_part-conf decimal conf opened m h,
    )

-- Two requests for a router, the second made from the settings that the first has left, in a mode
-- other than v4v6 and with a string of DNS servers that is not empty, whatever an earlier call has left
-- in `Buffer`: they differ at most in the section of the DNS servers. The first names all of them, each
-- on a line that is cut to the 1023 bytes of `Buffer`; the second only the first of them.
pub dns_servers_forgotten :
    (decimal : ℕ → Text) (conf : RequestConf) (buffer buffer' : Text)
    → text_eq conf.host_type router_host_piece ≡ true
    → is_v4v6 conf.tunnel_mode ≡ false
    → 0 < length conf.dns_server
    → let first = build_create_request decimal conf buffer in
      let second = build_create_request decimal first.conf buffer' in
      (before after : Text) × (first.writer.request
        ≡ before ++ (dns_section (tokens [] conf.dns_server) ++ after))
      × (second.writer.request
          ≡ before ++ (dns_section (take 1 (tokens [] conf.dns_server)) ++ after))
unfolding before_section client_head after_section routing_text protocol_text keepalive_part
    client_part
dns_servers_forgotten decimal conf buffer buffer' router m h =
    let (text, left) = build_create_request-router decimal conf buffer router m h in
    let n = settled_length conf in
    let cut : RequestConf = record conf {
      prefixlen = n;
      dns_server = cut_servers conf.dns_server;
    } in
    let (text', _) =
      build_create_request-router decimal cut buffer' router m
        (cut_servers-nonempty conf.dns_server h) in
    let settled : settled_length cut ≡ n = ground arith in
    let opened = (client_head decimal conf []).request in
    (
      before_section decimal opened conf n,
      after_section conf,
      text,
      ap (λ c. (build_create_request decimal c buffer').writer.request) left
          ∙ text'
          ∙ ap
              (λ k.
                before_section decimal opened conf k
                ++ (dns_section (tokens [] (cut_servers conf.dns_server)) ++ after_section conf))
              settled
          ∙ ap
              (λ servers.
                before_section decimal opened conf n ++ (dns_section servers ++ after_section conf))
              (tokens-cut_servers conf.dns_server),
    )
