-- ===== src/Redirect/Listing/Laws.antt =====
-- What `tspCreateBrokerList` puts into the list, and when.
use mathlib.Core.List.{append_assoc, append-nil}
use native.Mathlib.Decide.{dec_le}
use gogoc_android.Prelude.{
  if◌then◌else◌, leb, ℕ, suc, ◌+◌, ◌≤◌, ◌<◌, ◌≡◌, ◌≢◌, refl, sym, ap, ◌⊎◌, inl, inr, Bool, true,
  List, [], ◌∷◌, ◌++◌, Option, none, some, arith, length, length-append, All, Bool-cases,
}
use gogoc_android.Cstring.{Text, IsPlain, Printf, snprintf_fits, length-snprintf}
use gogoc_android.Redirect.{
  RedirectStatus, ok, is_ok, cant_allocate_mem, address_truncated, cant_add_broker_to_list,
  too_many_brokers, AddressType, ipv4, ipv6, fqdn, Broker, RedirectInfo,
}
use gogoc_android.Redirect.Listing.{
  append_broker, add_broker, add_brokers, then_add, create_broker_list,
}

-- what a list says of each broker, and what a redirection asks for
abbrev pub Entry : Type 0
Entry = Option Text × AddressType

abbrev pub entries : List Broker → List Entry
entries [] = []
entries (b ∷ bs) = (some b.address, b.address_type) ∷ entries bs

abbrev pub tagged : AddressType → List (Option Text) → List Entry
tagged t [] = []
tagged t (v ∷ vs) = (v, t) ∷ tagged t vs

abbrev pub requested : RedirectInfo → List Entry
requested info =
    (tagged ipv4 info.broker_redirect_ipv4 ++ tagged ipv6 info.broker_redirect_ipv6)
    ++ tagged fqdn info.broker_redirect_dn

abbrev pub IsPlainValue : Option Text → Type 0
IsPlainValue none = Unit
IsPlainValue (some a) = IsPlain a

abbrev pub FitsValue : Option Text → Type 0
FitsValue none = ⊥
FitsValue (some a) = IsPlain a × (length a ≤ 254)

pub record IsPlainInfo (info : RedirectInfo) : Type 0 where
  pub ipv4_plain : All IsPlainValue info.broker_redirect_ipv4
  pub ipv6_plain : All IsPlainValue info.broker_redirect_ipv6
  pub dn_plain : All IsPlainValue info.broker_redirect_dn

pub append_broker-eq : (bs : List Broker) (b : Broker) → append_broker bs b ≡ bs ++ (b ∷ [])
unfolding append_broker
append_broker-eq [] b = refl
append_broker-eq (c ∷ bs) b = ap (λ r. c ∷ r) (append_broker-eq bs b)

entries-append_broker :
    (bs : List Broker) (b : Broker)
    → entries (append_broker bs b) ≡ entries bs ++ ((some b.address, b.address_type) ∷ [])
unfolding append_broker
entries-append_broker [] b = refl
entries-append_broker (c ∷ bs) b =
    ap (λ r. (some c.address, c.address_type) ∷ r) (entries-append_broker bs b)

length-tagged : (t : AddressType) (vs : List (Option Text)) → length (tagged t vs) ≡ length vs
length-tagged t [] = refl
length-tagged t (v ∷ vs) = ap suc (length-tagged t vs)

module _ (printf : Printf) where
  -- on an address without conversions the formatter only truncates
  add_broker-plain :
      (m : Bool) (bs : List Broker) (a : Text) (t : AddressType) (d : ℕ)
      → IsPlain a
      → add_broker printf m bs (some a) t d ≡ (
          if m
          then (if leb (length a) 254
              then (ok, append_broker bs (record { address = a; address_type = t; distance = d }))
              else (address_truncated, bs))
          else (cant_allocate_mem, bs))
  unfolding add_broker
  add_broker-plain m bs a t d p = elim (dec_le (length a) 254) [
    | yes h ↦ rw (snprintf_fits printf 255 a p (omega arith)) (ground arith)
    | no h ↦ ground (arith, length-snprintf printf 255 a p)
  ]

  pub add_broker_fits :
      (m : Bool) (bs : List Broker) (a : Text) (t : AddressType) (d : ℕ)
      → m ≡ true
      → IsPlain a
      → length a ≤ 254
      → add_broker printf m bs (some a) t d
        ≡ (ok, append_broker bs (record { address = a; address_type = t; distance = d }))
  add_broker_fits m bs a t d e p h = ground (arith, add_broker-plain m bs a t d p)

  module _ (memory : ℕ → Bool) where
    -- what a loop that returns OK has added, in order
    record Added (t : AddressType) (vs : List (Option Text)) (bs : List Broker) (n : ℕ)
        (r : RedirectStatus × List Broker × ℕ) : Type 0 where
      shown : entries r.1 ≡ entries bs ++ tagged t vs
      counted : r.2 ≡ n + length vs
      bounded : n ≤ 50 → r.2 ≤ 50

    add_brokers-Added :
        (t : AddressType) (vs : List (Option Text)) (bs : List Broker) (n : ℕ)
        → All IsPlainValue vs
        → (add_brokers printf memory t vs bs n).0 ≡ ok
        → Added t vs bs n (add_brokers printf memory t vs bs n)
    unfolding add_brokers add_broker
    add_brokers-Added t [] bs n p e = record {
      shown = sym (append-nil (entries bs));
      counted = omega arith;
      bounded = λ h. h;
    }
    add_brokers-Added t (none ∷ vs) bs n p e = ground arith
    add_brokers-Added t (some a ∷ vs) bs n p e = ground (
      arith,
      add_broker-plain (memory n) bs a t 0 p.0,
      entries-append_broker bs (record { address = a; address_type = t; distance = 0 }),
      append_assoc (entries bs) ((some a, t) ∷ []) (tagged t vs),
      add_brokers-Added t vs
          (append_broker bs (record { address = a; address_type = t; distance = 0 })) (n + 1) p.1,
    )

    then_add-Added :
        (t : AddressType) (vs : List (Option Text)) (r : RedirectStatus × List Broker × ℕ)
        → All IsPlainValue vs
        → (then_add printf memory t vs r).0 ≡ ok
        → (r.0 ≡ ok) × Added t vs r.1 r.2 (then_add printf memory t vs r)
    unfolding then_add
    then_add-Added t vs (s, bs, n) p e = elim (Bool-cases (is_ok s)) [
      | inl done ↦ (ground arith, rw done (add_brokers-Added t vs bs n p (rw done at e)))
      | inr failed ↦ absurd (ground arith)
    ]

    abbrev Failed : RedirectStatus × List Broker × ℕ → Type 0
    Failed (s, bs, n) =
        s ≢ ok → (bs ≡ []) × ((s ≡ cant_add_broker_to_list) ⊎ (s ≡ too_many_brokers))

    add_brokers-Failed :
        (t : AddressType) (vs : List (Option Text)) (bs : List Broker) (n : ℕ)
        → Failed (add_brokers printf memory t vs bs n)
    unfolding add_brokers
    add_brokers-Failed t [] bs n ne = absurd (ne refl)
    add_brokers-Failed t (v ∷ vs) bs n ne =
        ground (arith, add_brokers-Failed t vs (add_broker printf (memory n) bs v t 0).1 (n + 1))

    then_add-Failed :
        (t : AddressType) (vs : List (Option Text)) (r : RedirectStatus × List Broker × ℕ)
        → Failed r
        → Failed (then_add printf memory t vs r)
    unfolding then_add
    then_add-Failed t vs (s, bs, n) h = ground (arith, add_brokers-Failed t vs bs n)

    -- When `tspCreateBrokerList` returns OK on addresses that hold no `%`, the list holds exactly
    -- the addresses of the redirection, the IPv4 ones first, then the IPv6 ones, then the names,
    -- each in the order received and with its type; `*broker_count` is their number, at most 50.
    pub create_broker_list_ok :
        (info : RedirectInfo)
        → IsPlainInfo info
        → let (status, list, count) = create_broker_list printf memory info in
          status ≡ ok
          → (entries list ≡ requested info) × (count ≡ length (requested info)) × (count ≤ 50)
    unfolding create_broker_list
    create_broker_list_ok info p e =
        let v4 = add_brokers printf memory ipv4 info.broker_redirect_ipv4 [] 0 in
        let v6 = then_add printf memory ipv6 info.broker_redirect_ipv6 v4 in
        let (ok6, dn) = then_add-Added fqdn info.broker_redirect_dn v6 p.dn_plain e in
        let (ok4, more) = then_add-Added ipv6 info.broker_redirect_ipv6 v4 p.ipv6_plain ok6 in
        let first = add_brokers-Added ipv4 info.broker_redirect_ipv4 [] 0 p.ipv4_plain ok4 in
        (
          rw (dn.shown, more.shown, first.shown),
          omega (
            arith,
            dn.counted,
            more.counted,
            first.counted,
            length-tagged ipv4 info.broker_redirect_ipv4,
            length-tagged ipv6 info.broker_redirect_ipv6,
            length-tagged fqdn info.broker_redirect_dn,
            length-append (tagged ipv4 info.broker_redirect_ipv4)
                (tagged ipv6 info.broker_redirect_ipv6),
            length-append
                (tagged ipv4 info.broker_redirect_ipv4 ++ tagged ipv6 info.broker_redirect_ipv6)
                (tagged fqdn info.broker_redirect_dn),
          ),
          omega (arith, dn.bounded, more.bounded, first.bounded),
        )

    -- When it returns an error, the list has been freed and set to NULL, and the status is one of two.
    pub create_broker_list_error :
        (info : RedirectInfo)
        → let (status, list, count) = create_broker_list printf memory info in
          status ≢ ok
          → (list ≡ []) × ((status ≡ cant_add_broker_to_list) ⊎ (status ≡ too_many_brokers))
    unfolding create_broker_list
    create_broker_list_error info = then_add-Failed fqdn info.broker_redirect_dn _ (
        then_add-Failed ipv6 info.broker_redirect_ipv6 _
          (add_brokers-Failed ipv4 info.broker_redirect_ipv4 [] 0))

    add_brokers_total :
        ((i : ℕ) → i < 50 → memory i ≡ true)
        → (t : AddressType) (vs : List (Option Text)) (bs : List Broker) (n : ℕ) → All FitsValue vs
        → n + length vs ≤ 50
        → ((add_brokers printf memory t vs bs n).0 ≡ ok)
          × ((add_brokers printf memory t vs bs n).2 ≡ n + length vs)
    unfolding add_brokers
    add_brokers_total room t [] bs n p h = (refl, omega arith)
    add_brokers_total room t (none ∷ vs) bs n p h = absurd p.0
    add_brokers_total room t (some a ∷ vs) bs n p h = ground (
      arith,
      room n,
      add_broker-plain (memory n) bs a t 0 p.0.0,
      add_brokers_total room t vs
          (append_broker bs (record { address = a; address_type = t; distance = 0 })) (n + 1) p.1,
    )

    then_add_total :
        ((i : ℕ) → i < 50 → memory i ≡ true)
        → (t : AddressType) (vs : List (Option Text)) (r : RedirectStatus × List Broker × ℕ)
        → r.0 ≡ ok
        → All FitsValue vs
        → r.2 + length vs ≤ 50
        → ((then_add printf memory t vs r).0 ≡ ok)
          × ((then_add printf memory t vs r).2 ≡ r.2 + length vs)
    unfolding then_add
    then_add_total room t vs (s, bs, n) e p h = ground (arith, add_brokers_total room t vs bs n p h)

    -- With memory for each element, `tspCreateBrokerList` returns OK on at most 50 addresses in all,
    -- each present, without `%` and at most 254 bytes long.
    pub create_broker_list_total :
        (info : RedirectInfo)
        → ((i : ℕ) → i < 50 → memory i ≡ true)
        → All FitsValue info.broker_redirect_ipv4
        → All FitsValue info.broker_redirect_ipv6
        → All FitsValue info.broker_redirect_dn
        → length info.broker_redirect_ipv4
            + length info.broker_redirect_ipv6
            + length info.broker_redirect_dn
          ≤ 50
        → (create_broker_list printf memory info).0 ≡ ok
    unfolding create_broker_list
    create_broker_list_total info room p4 p6 pn h =
        let first = add_brokers_total room ipv4 info.broker_redirect_ipv4 [] 0 p4 (omega arith) in
        let more =
          then_add_total room ipv6 info.broker_redirect_ipv6 _ first.0 p6
            (omega (arith, first.1)) in
        (then_add_total room fqdn info.broker_redirect_dn _ more.0 pn
          (omega (arith, more.1, first.1))).0
