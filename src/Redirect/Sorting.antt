-- ===== src/Redirect/Sorting.antt =====
-- tsp_redirect.c: `tspInsertInBrokerList` and `tspSortBrokerList`; net_echo_request.c:
-- `tspGetBrokerDistances`. The threads' work on each broker is `tspDoEchoRequest`, a parameter here.
pub mod Laws
use gogoc_android.Prelude.{
  ℕ, ◌+◌, Bool, true, List, [], ◌∷◌, Option, none, some, ltb, ◌&&◌, if◌then◌else◌,
}
use gogoc_android.Redirect.{
  RedirectStatus, ok, is_ok, cant_malloc_thread_array, cant_malloc_thread_args, cant_create_thread,
  cant_wait_for_thread, cant_get_distances, cant_allocate_mem, Broker,
}

-- before the first broker that is not nearer
unfoldable pub insert_in_broker_list : Broker → List Broker → List Broker
insert_in_broker_list new_element [] = new_element ∷ []
insert_in_broker_list new_element (compared ∷ rest) =
    if ltb compared.distance new_element.distance
    then compared ∷ insert_in_broker_list new_element rest
    else new_element ∷ compared ∷ rest

-- A loop over the first `count` brokers that makes a call for each and stops at the first failure.
unfoldable pub each_thread : (ℕ → Bool) → ℕ → ℕ → List Broker → Bool
each_thread call t count [] = true
each_thread call t count (b ∷ bs) =
    let rest = each_thread call (t + 1) count bs in if ltb t count then call t && rest else true

-- What the threads have stored once all are joined.
unfoldable pub store_distances : (Broker → ℕ) → ℕ → ℕ → List Broker → List Broker
store_distances echo t count [] = []
store_distances echo t count (b ∷ bs) =
    if ltb t count
    then (record b { distance = echo b }) ∷ store_distances echo (t + 1) count bs
    else b ∷ bs

-- What the run is given: whether each allocation, thread creation and join succeeds, and the
-- distance that `tspDoEchoRequest` finds for a broker.
pub record Resources : Type 0 where
  pub thread_array : Bool
  pub thread_arguments : Bool
  pub thread_create : ℕ → Bool
  pub thread_join : ℕ → Bool
  pub new_element : ℕ → Bool
  pub echo_request : Broker → ℕ

module _ (r : Resources) where
  -- On an error the list is left to the caller, who frees it: its distances are not read again.
  unfoldable pub get_broker_distances : List Broker → ℕ → RedirectStatus × List Broker
  get_broker_distances list count =
      if r.thread_array
      then (if r.thread_arguments
          then (if each_thread r.thread_create 0 count list
              then (if each_thread r.thread_join 0 count list
                  then (ok, store_distances r.echo_request 0 count list)
                  else (cant_wait_for_thread, list))
              else (cant_create_thread, list))
          else (cant_malloc_thread_args, list))
      else (cant_malloc_thread_array, list)

  -- the loop over the original list, with the number of copies made
  unfoldable pub sort_loop : ℕ → List Broker → List Broker → Option (List Broker)
  sort_loop n [] sorted = some sorted
  sort_loop n (current ∷ rest) sorted =
      let next = sort_loop (n + 1) rest (insert_in_broker_list current sorted) in
      if r.new_element n then next else none

  unfoldable pub sort_broker_list : List Broker → ℕ → RedirectStatus × List Broker
  sort_broker_list list count =
      let (status, measured) = get_broker_distances list count in
      if is_ok status
      then elim (sort_loop 0 measured []) [
        | some sorted ↦ (ok, sorted)
        | none ↦ (cant_allocate_mem, measured)
      ]
      else (cant_get_distances, measured)
