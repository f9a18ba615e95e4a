-- ===== src/Redirect/Tests.antt =====
-- The redirection functions at concrete inputs.
use gogoc_android.Prelude.{
  ℕ, zero, suc, ◌<◌, ◌≡◌, refl, Bool, true, List, [], ◌∷◌, map, none, some, arith, length, All, ◌≢◌,
}
use gogoc_android.Cstring.{Text, IsPlain, verbatim, snprintf}
use gogoc_android.Redirect.{ok, ipv4, ipv6, fqdn, Broker, RedirectInfo}
use gogoc_android.Redirect.Listing.{
  create_broker_list, add_brokers, add_broker, then_add, append_broker,
}
use gogoc_android.Redirect.Listing.Laws.{IsPlainInfo}
use gogoc_android.Redirect.Sorting.{
  Resources, sort_broker_list, store_distances, get_broker_distances, each_thread, sort_loop,
  insert_in_broker_list,
}
use gogoc_android.Redirect.Sorting.Laws.{Sorts, sort_broker_list_ok, sort_broker_list_total}
use gogoc_android.Redirect.Files.{
  opened, no_name, write_broker_list_to_file, read_broker_list_from_file,
}
use gogoc_android.Redirect.Files.Laws.{IsStorable, reread, broker_list_roundtrip}
use gogoc_android.Redirect.Handle.{Handler, handle_redirect}
use gogoc_android.Redirect.Handle.Laws.{Offers, handle_redirect_ok}
use gogoc_android.Redirect.Logging.{log_redirection_list}
use gogoc_android.Redirect.Logging.Laws.{IsLong, log_redirection_list_overflow}

abbrev near : Text
near = b'1' ∷ b'0' ∷ b'.' ∷ b'1' ∷ []

abbrev far : Text
far = b'f' ∷ b'd' ∷ b':' ∷ b':' ∷ b'1' ∷ []

abbrev two_servers : RedirectInfo
two_servers = record {
  broker_redirect_ipv4 = some near ∷ [];
  broker_redirect_ipv6 = some far ∷ [];
  broker_redirect_dn = [];
}

abbrev missing_value : RedirectInfo
missing_value = record {
  broker_redirect_ipv4 = none ∷ [];
  broker_redirect_ipv6 = [];
  broker_redirect_dn = [];
}

abbrev enough : ℕ → Bool
enough _ = true

near-IsPlain : IsPlain near
near-IsPlain = ground arith

far-IsPlain : IsPlain far
far-IsPlain = ground arith

two_servers-IsPlainInfo : IsPlainInfo two_servers
two_servers-IsPlainInfo = record {
  ipv4_plain = (near-IsPlain, tt);
  ipv6_plain = (far-IsPlain, tt);
  dn_plain = tt;
}

missing_value-fails : (create_broker_list verbatim enough missing_value).0 ≢ ok
unfolding create_broker_list add_brokers add_broker then_add
missing_value-fails = ground arith

abbrev far_broker : Broker
far_broker = record { address = far; address_type = ipv6; distance = 70 }

abbrev near_broker : Broker
near_broker = record { address = near; address_type = ipv4; distance = 20 }

abbrev two_brokers : List Broker
two_brokers = far_broker ∷ near_broker ∷ []

-- the distances are the ones stored
abbrev resources : Resources
resources = record {
  thread_array = true;
  thread_arguments = true;
  thread_create = enough;
  thread_join = enough;
  new_element = enough;
  echo_request = λ b. b.distance;
}

sort_broker_list_ok_example :
    Sorts
      (store_distances (λ b. b.distance) 0 2 two_brokers)
      (sort_broker_list resources two_brokers 2).1
sort_broker_list_ok_example =
    sort_broker_list_ok resources two_brokers 2
      (sort_broker_list_total resources two_brokers 2 refl refl (λ i. refl) (λ i. refl) (λ i. refl))

far-IsStorable : IsStorable far
far-IsStorable = record {
  one_line = (refl, (refl, (refl, (refl, (refl, tt)))));
  plain = far-IsPlain;
  present = omega arith;
  short = omega arith;
}

near-IsStorable : IsStorable near
near-IsStorable = record {
  one_line = (refl, (refl, (refl, (refl, tt))));
  plain = near-IsPlain;
  present = omega arith;
  short = omega arith;
}

broker_list_roundtrip_example :
    (text : Text) × (write_broker_list_to_file (opened enough) two_brokers ≡ (ok, some text))
    × (read_broker_list_from_file verbatim enough (opened text) ≡ (ok, map reread two_brokers))
broker_list_roundtrip_example =
    broker_list_roundtrip verbatim enough two_brokers (far-IsStorable, (near-IsStorable, tt))
      (omega arith) (λ i h. refl)

abbrev repeated {ℓ} : {A : Type ℓ} → ℕ → A → List A
repeated zero x = []
repeated (suc n) x = x ∷ repeated n x

abbrev long_address : Text
long_address = repeated 100 b'a'

abbrev long_broker : Broker
long_broker = record { address = long_address; address_type = fqdn; distance = 0 }

All-repeated : {A : Type 0} (P : A → Type 0) (n : ℕ) (x : A) → P x → All P (repeated n x)
All-repeated P zero x h = tt
All-repeated P (suc n) x h = (h, All-repeated P n x h)

long_broker-IsLong : IsLong long_broker
long_broker-IsLong = ground arith

log_redirection_list_overflow_example :
    4096 < length (log_redirection_list (long_broker ∷ repeated 49 long_broker))
log_redirection_list_overflow_example =
    log_redirection_list_overflow long_broker (repeated 49 long_broker) refl
      (long_broker-IsLong, All-repeated IsLong 49 long_broker long_broker-IsLong)

abbrev handler : Handler
handler = record {
  printf = verbatim;
  memory = enough;
  resources = resources;
  broker_list_file = no_name;
}

two_servers-handled : (handle_redirect handler (some two_servers) []).0 ≡ ok
unfolding handle_redirect create_broker_list add_brokers add_broker then_add sort_broker_list
    get_broker_distances each_thread sort_loop insert_in_broker_list store_distances snprintf
    append_broker
two_servers-handled = refl

handle_redirect_ok_example : Offers two_servers (handle_redirect handler (some two_servers) []).1
handle_redirect_ok_example =
    handle_redirect_ok handler two_servers [] two_servers-IsPlainInfo two_servers-handled
