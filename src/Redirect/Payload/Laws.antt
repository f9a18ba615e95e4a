-- ===== src/Redirect/Payload/Laws.antt =====
-- From the redirection that the server sends to the brokers that the client tries.
use mathlib.Core.List.{reverse}
use gogoc_android.Prelude.{◌≡◌, ◌≢◌, refl, true, false, List, [], ◌∷◌, ◌++◌, All, map, some}
use gogoc_android.Cstring.{Text}
use gogoc_android.Redirect.{ok, Broker, RedirectInfo}
use gogoc_android.Redirect.Listing.Laws.{IsPlainInfo}
use gogoc_android.Redirect.Handle.{Handler, handle_redirect}
use gogoc_android.Redirect.Handle.Laws.{Offers, handle_redirect_ok}
use gogoc_android.Redirect.Payload.{handle_payload}
use gogoc_android.Xml.Parse.Laws.{IsElement, print_elements}
use gogoc_android.Xml.Tunnel.{TunnelState, Memory}
use gogoc_android.Xml.Tunnel.Tables.Laws.{
  Kind, kind_ipv4, kind_ipv6, kind_dn, of_kind, address_elements, broker_element, tunnel_element,
  extract_payload-redirect,
}

-- the brokers that a redirection names, as the client lists them
abbrev pub sent : List (Kind × Text) → RedirectInfo
sent brokers = record {
  broker_redirect_ipv4 = map some (reverse (of_kind kind_ipv4 brokers));
  broker_redirect_ipv6 = map some (reverse (of_kind kind_ipv6 brokers));
  broker_redirect_dn = map some (reverse (of_kind kind_dn brokers));
}

-- what the redirection is handled with
pub handle_payload-sent :
    (h : Handler) (mem : Memory) (line action : Text) (brokers : List (Kind × Text))
    (s : TunnelState) (list : List Broker)
    → s.faulted ≡ false
    → ((t : TunnelState) (text : Text) → mem.copy t text ≡ true)
    → ((t : TunnelState) → mem.document t ≡ true)
    → All (λ c. c ≢ b'\n') line
    → All IsElement (address_elements brokers)
    → IsElement (broker_element brokers)
    → IsElement (tunnel_element action brokers)
    → handle_payload h mem
        (line ++ (b'\n' ∷ print_elements (tunnel_element action brokers ∷ [])))
        s
        list
      ≡ handle_redirect h (some (sent brokers)) list
unfolding handle_payload
handle_payload-sent h mem line action brokers s list sound room documents one_line valid p q =
    let (t, read, v4, v6, dn, rest) =
      extract_payload-redirect mem line action brokers s room documents one_line valid p q in
    rw (read, v4, v6, dn, rest, sound) refl

-- A payload that is a line and, behind it, a redirection laid out as `print_elements` does, each
-- element followed by a newline and none indented, whose tags, attributes and contents are ones that
-- the parser reads back (`IsElement`) and whose addresses hold no `%` (`IsPlainInfo`). Read without an
-- earlier fault, with memory for every copy of a string and of a document, and handled with the
-- status OK, it leaves exactly the brokers that it names, with their types, nearest first.
pub handle_payload_ok :
    (h : Handler) (mem : Memory) (line action : Text) (brokers : List (Kind × Text))
    (s : TunnelState) (list : List Broker)
    → s.faulted ≡ false
    → ((t : TunnelState) (text : Text) → mem.copy t text ≡ true)
    → ((t : TunnelState) → mem.document t ≡ true)
    → All (λ c. c ≢ b'\n') line
    → All IsElement (address_elements brokers)
    → IsElement (broker_element brokers)
    → IsElement (tunnel_element action brokers)
    → IsPlainInfo (sent brokers)
    → (handle_payload h mem
        (line ++ (b'\n' ∷ print_elements (tunnel_element action brokers ∷ [])))
        s
        list).0
      ≡ ok
    → Offers
        (sent brokers)
        (handle_payload h mem
          (line ++ (b'\n' ∷ print_elements (tunnel_element action brokers ∷ [])))
          s
          list).1
handle_payload_ok h mem line action brokers s list sound room documents one_line valid p q plain
      good =
    let same =
      handle_payload-sent h mem line action brokers s list sound room documents one_line valid p
        q in
    rw same (handle_redirect_ok h (sent brokers) list plain (rw same at good))
