-- ===== src/Redirect/Listing.antt =====
-- tsp_redirect.c: `tspAddBrokerToList` and `tspCreateBrokerList`. The list is the caller's own
-- variable, whose address is passed, so its address is never NULL.
pub mod Laws
use gogoc_android.Prelude.{
  ℕ, zero, suc, ◌+◌, Bool, List, [], ◌∷◌, Option, none, some, ltb, ◌==◌, if◌then◌else◌, length,
}
use gogoc_android.Cstring.{Text, Printf, snprintf}
use gogoc_android.Redirect.{
  RedirectStatus, ok, is_ok, internal_err, cant_allocate_mem, address_truncated,
  cant_add_broker_to_list, too_many_brokers, AddressType, ipv4, ipv6, fqdn, Broker, RedirectInfo,
  max_redirect_address_length, max_redirect_brokers_in_list,
}

-- the walk to the last element, whose `next` becomes the new one
unfoldable pub append_broker : List Broker → Broker → List Broker
append_broker [] new_broker = new_broker ∷ []
append_broker (b ∷ bs) new_broker = b ∷ append_broker bs new_broker

module _ (printf : Printf) where
  -- `memory` says whether `pal_malloc` gives the new element. The address is its own format.
  unfoldable pub add_broker :
      (memory : Bool) → List Broker → Option Text → AddressType → ℕ → RedirectStatus × List Broker
  add_broker memory list none address_type distance = (internal_err, list)
  add_broker memory list (some address) address_type distance =
      let stored = snprintf printf max_redirect_address_length address in
      let new_broker : Broker = record {
        address = stored;
        address_type = address_type;
        distance = distance;
      } in
      if memory
      then (if length stored == length address
          then (ok, append_broker list new_broker)
          else (address_truncated, list))
      else (cant_allocate_mem, list)

  -- `memory n`: whether an element can be allocated when the list holds `n`.
  module _ (memory : ℕ → Bool) where
    -- One of the three loops: the status, `*broker_list` and `*broker_count`. An error frees the
    -- list and returns at once.
    unfoldable pub add_brokers :
        AddressType → List (Option Text) → List Broker → ℕ → RedirectStatus × List Broker × ℕ
    add_brokers address_type [] list count = (ok, list, count)
    add_brokers address_type (value ∷ values) list count =
        let (added, list') = add_broker (memory count) list value address_type 0 in
        let rest = add_brokers address_type values list' (count + 1) in
        if ltb count max_redirect_brokers_in_list
        then (if is_ok added then rest else (cant_add_broker_to_list, [], count))
        else (too_many_brokers, [], count)

    -- the next loop, unless the one before it returned
    unfoldable pub then_add :
        AddressType
        → List (Option Text)
        → RedirectStatus × List Broker × ℕ
        → RedirectStatus × List Broker × ℕ
    then_add address_type values (status, list, count) =
        if is_ok status then add_brokers address_type values list count else (status, list, count)

    unfoldable pub create_broker_list : RedirectInfo → RedirectStatus × List Broker × ℕ
    create_broker_list info =
        then_add fqdn info.broker_redirect_dn (
          then_add ipv6 info.broker_redirect_ipv6 (add_brokers ipv4 info.broker_redirect_ipv4 [] 0))
