-- ===== src/Xml/Tunnel/Tests.antt =====
-- A redirection at concrete brokers.
use gogoc_android.Prelude.{
  ℕ, ◌≡◌, ◌∙◌, ap, refl, Bool, true, false, List, [], ◌∷◌, ◌++◌, none, some, All, arith,
}
use gogoc_android.Cstring.{Text, verbatim, snprintf}
use gogoc_android.Redirect.{ok}
use gogoc_android.Redirect.Listing.{
  create_broker_list, add_brokers, add_broker, then_add, append_broker,
}
use gogoc_android.Redirect.Listing.Laws.{IsPlainInfo}
use gogoc_android.Redirect.Sorting.{
  sort_broker_list, store_distances, get_broker_distances, each_thread, sort_loop,
  insert_in_broker_list,
}
use gogoc_android.Redirect.Files.{no_name}
use gogoc_android.Redirect.Handle.{Handler, handle_redirect}
use gogoc_android.Redirect.Handle.Laws.{Offers}
use gogoc_android.Redirect.Payload.{handle_payload}
use gogoc_android.Redirect.Payload.Laws.{sent, handle_payload-sent, handle_payload_ok}
use gogoc_android.Xml.Parse.{end_token, drop_prefix}
use gogoc_android.Xml.Parse.Texts.{print_attributes}
use gogoc_android.Xml.Parse.Laws.{IsElement, print_elements}
use gogoc_android.Xml.Tunnel.{TunnelState, Memory}
use gogoc_android.Xml.Tunnel.Words.{tunnel_word}
use gogoc_android.Xml.Tunnel.Tables.{no_tunnel, extracted, tsp_extract_payload}
use gogoc_android.Xml.Tunnel.Tables.Laws.{
  Kind, kind_ipv4, kind_dn, address_elements, broker_element, tunnel_element,
  extract_payload-redirect,
}

abbrev idle : TunnelState
idle = record {
  info = no_tunnel;
  in_client = false;
  in_server = false;
  in_router = false;
  in_dns_server = false;
  in_broker = false;
  in_keepalive = false;
  faulted = false;
}

abbrev ample : Memory
ample = record { copy = λ _ _. true; document = λ _. true; left = λ _ _ _. none }

abbrev first : Text
first = b'1' ∷ b'.' ∷ b'2' ∷ []

abbrev second : Text
second = b'3' ∷ []

abbrev by_name : Text
by_name = b'B' ∷ []

abbrev brokers : List (Kind × Text)
brokers = (kind_ipv4, first) ∷ (kind_dn, by_name) ∷ (kind_ipv4, second) ∷ []

abbrev status_line : Text
status_line = b'1' ∷ b'2' ∷ b'0' ∷ b'0' ∷ []

addresses-IsElement : All IsElement (address_elements brokers)
unfolding address_elements end_token drop_prefix
addresses-IsElement = (
  record {
    name = ground arith;
    short = omega arith;
    attributes_valid = ground arith;
    free = ground arith;
  },
  (
    record {
      name = ground arith;
      short = omega arith;
      attributes_valid = ground arith;
      free = ground arith;
    },
    (
      record {
        name = ground arith;
        short = omega arith;
        attributes_valid = ground arith;
        free = ground arith;
      },
      tt,
    ),
  ),
)

broker-IsElement : IsElement (broker_element brokers)
unfolding broker_element address_elements end_token drop_prefix print_elements print_attributes
broker-IsElement = record {
  name = ground arith;
  short = omega arith;
  attributes_valid = ground arith;
  free = ground arith;
}

tunnel-IsElement : IsElement (tunnel_element tunnel_word brokers)
unfolding tunnel_element broker_element address_elements end_token drop_prefix print_elements
    print_attributes
tunnel-IsElement = record {
  name = ground arith;
  short = omega arith;
  attributes_valid = ground arith;
  free = ground arith;
}

extract_payload-redirect_example :
    (t : TunnelState) × (tsp_extract_payload ample
        (status_line ++ (b'\n' ∷ print_elements (tunnel_element tunnel_word brokers ∷ [])))
        idle
      ≡ extracted 0 t)
    × (t.info.broker_redirect_ipv4 ≡ second ∷ first ∷ [])
    × (t.info.broker_redirect_ipv6 ≡ [])
    × (t.info.broker_redirect_dn ≡ by_name ∷ [])
    × (t.faulted ≡ false)
extract_payload-redirect_example =
    extract_payload-redirect ample status_line tunnel_word brokers idle (λ _ _. refl) (λ _. refl)
      (ground arith) addresses-IsElement broker-IsElement tunnel-IsElement

abbrev always : ℕ → Bool
always _ = true

abbrev handler : Handler
handler = record {
  printf = verbatim;
  memory = always;
  resources = record {
    thread_array = true;
    thread_arguments = true;
    thread_create = always;
    thread_join = always;
    new_element = always;
    echo_request = λ b. b.distance;
  };
  broker_list_file = no_name;
}

sent-IsPlainInfo : IsPlainInfo (sent brokers)
sent-IsPlainInfo = record { ipv4_plain = ground arith; ipv6_plain = tt; dn_plain = ground arith }

sent_handled : (handle_redirect handler (some (sent brokers)) []).0 ≡ ok
unfolding handle_redirect create_broker_list add_brokers add_broker then_add sort_broker_list
    get_broker_distances each_thread sort_loop insert_in_broker_list store_distances snprintf
    append_broker
sent_handled = refl

payload_handled :
    (handle_payload handler ample
      (status_line ++ (b'\n' ∷ print_elements (tunnel_element tunnel_word brokers ∷ [])))
      idle
      []).0
    ≡ ok
payload_handled =
    ap (λ r. r.0)
      (handle_payload-sent handler ample status_line tunnel_word brokers idle [] refl (λ _ _. refl)
        (λ _. refl) (ground arith) addresses-IsElement broker-IsElement tunnel-IsElement)
    ∙ sent_handled

handle_payload_ok_example :
    Offers
      (sent brokers)
      (handle_payload handler ample
        (status_line ++ (b'\n' ∷ print_elements (tunnel_element tunnel_word brokers ∷ [])))
        idle
        []).1
handle_payload_ok_example =
    handle_payload_ok handler ample status_line tunnel_word brokers idle [] refl (λ _ _. refl)
      (λ _. refl) (ground arith) addresses-IsElement broker-IsElement tunnel-IsElement
      sent-IsPlainInfo payload_handled
