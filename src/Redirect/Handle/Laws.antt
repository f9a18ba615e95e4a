-- ===== src/Redirect/Handle/Laws.antt =====
-- What a handled redirection leaves for the client to try.
use mathlib.Core.List.{Perm}
use mathlib.Core.List.Perm
use gogoc_android.Prelude.{
  ℕ, suc, ◌+◌, ◌≤◌, ◌<◌, ◌≡◌, refl, ap, inl, inr, true, List, [], ◌∷◌, map, some, arith, ltb,
  ltb→lt, ◌==◌, length, Bool-cases,
}
use gogoc_android.Redirect.{RedirectStatus, ok, is_ok, Broker, RedirectInfo}
use gogoc_android.Redirect.Listing.{create_broker_list}
use gogoc_android.Redirect.Listing.Laws.{
  Entry, entries, requested, IsPlainInfo, create_broker_list_ok,
}
use gogoc_android.Redirect.Sorting.{store_distances, sort_broker_list}
use gogoc_android.Redirect.Sorting.Laws.{IsSorted, Sorts, sort_broker_list_ok}
use gogoc_android.Redirect.Handle.{Handler, handle_redirect}

abbrev entry : Broker → Entry
entry b = (some b.address, b.address_type)

entries-map : (bs : List Broker) → entries bs ≡ map entry bs
entries-map [] = refl
entries-map (b ∷ bs) = ap (λ r. entry b ∷ r) (entries-map bs)

entries-store :
    (echo : Broker → ℕ) (t n : ℕ) (bs : List Broker)
    → entries (store_distances echo t n bs) ≡ entries bs
unfolding store_distances
entries-store echo t n [] = refl
entries-store echo t n (b ∷ bs) = ground (arith, entries-store echo (t + 1) n bs)

length-entries : (bs : List Broker) → length (entries bs) ≡ length bs
length-entries [] = refl
length-entries (b ∷ bs) = ap suc (length-entries bs)

Sorts-entries :
    (echo : Broker → ℕ) (n : ℕ) (bs out : List Broker)
    → Sorts (store_distances echo 0 n bs) out
    → Perm (entries out) (entries bs)
Sorts-entries echo n bs out s =
    rw (entries-map out, ← entries-store echo 0 n bs, entries-map (store_distances echo 0 n bs))
      (Perm.map entry s.reordered)

IsSorted-single : (bs : List Broker) → length bs ≤ 1 → IsSorted bs
IsSorted-single [] h = tt
IsSorted-single (b ∷ []) h = (tt, tt)
IsSorted-single (b ∷ c ∷ bs) h = absurd (omega arith)

-- what the client gets to try
pub record Offers (info : RedirectInfo) (list : List Broker) : Type 0 where
  pub offered : Perm (entries list) (requested info)
  pub nearest_first : IsSorted list
  pub present : 0 < length (requested info)
  pub bounded : length (requested info) ≤ 50

is_ok→ok : (s : RedirectStatus) → is_ok s ≡ true → s ≡ ok
is_ok→ok s e = ground arith

-- the two ways to succeed
Offers-sorted :
    (h : Handler) (info : RedirectInfo)
    → IsPlainInfo info
    → let (created, list, count) = create_broker_list h.printf h.memory info in
      let (sorted, list') = sort_broker_list h.resources list count in
      created ≡ ok → 1 < count → sorted ≡ ok → Offers info list'
Offers-sorted h info p made more sorted =
    let (created, list, count) = create_broker_list h.printf h.memory info in
    let shown = create_broker_list_ok h.printf h.memory info p made in
    let order = sort_broker_list_ok h.resources list count sorted in
    record {
      offered = rw (← shown.0) (Sorts-entries h.resources.echo_request count list _ order);
      nearest_first = order.ordered;
      present = omega (arith, shown.1);
      bounded = omega (arith, shown.1);
    }

Offers-single :
    (h : Handler) (info : RedirectInfo)
    → IsPlainInfo info
    → let (created, list, count) = create_broker_list h.printf h.memory info in
      created ≡ ok → count ≡ 1 → Offers info list
Offers-single h info p made one =
    let (created, list, count) = create_broker_list h.printf h.memory info in
    let shown = create_broker_list_ok h.printf h.memory info p made in
    record {
      offered = rw shown.0 (Perm.refl (requested info));
      nearest_first =
          IsSorted-single list (omega (arith, length-entries list, shown.1, ap length shown.0));
      present = omega (arith, shown.1);
      bounded = omega (arith, shown.1);
    }

module _ (h : Handler) where
  -- When a redirection on addresses without `%` is handled with the status OK, the list that the
  -- client goes through holds exactly the addresses of the redirection, with their types, nearest
  -- first; there is at least one and there are at most 50.
  pub handle_redirect_ok :
      (info : RedirectInfo) (list : List Broker)
      → IsPlainInfo info
      → (handle_redirect h (some info) list).0 ≡ ok
      → Offers info (handle_redirect h (some info) list).1
  unfolding handle_redirect
  handle_redirect_ok info list p e =
      let (created, list', count) = create_broker_list h.printf h.memory info in
      let (sorted, list'') = sort_broker_list h.resources list' count in
      elim (Bool-cases (is_ok created)) [
        | inl made ↦ elim (Bool-cases (ltb 1 count)) [
          | inl more ↦ elim (Bool-cases (is_ok sorted)) [
            | inl good ↦
                rw (made, more, good)
                  (Offers-sorted h info p (is_ok→ok _ made) (ltb→lt 1 count more) (is_ok→ok _ good))
            | inr bad ↦ absurd (ground arith)
          ]
          | inr few ↦ elim (Bool-cases (count == 0)) [
            | inl empty ↦ absurd (ground arith)
            | inr one ↦
                rw (made, few, one) (Offers-single h info p (is_ok→ok _ made) (ground arith))
          ]
        ]
        | inr failed ↦ absurd (ground arith)
      ]
