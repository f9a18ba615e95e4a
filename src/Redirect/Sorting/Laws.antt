-- ===== src/Redirect/Sorting/Laws.antt =====
-- The sorted broker list: a reordering of the measured one, nearest first.
use mathlib.Core.List.{Perm, reverse, append_assoc, append-nil, perm_middle, reverse-cons}
use mathlib.Core.List.Perm
use gogoc_android.Prelude.{
  ℕ, ◌+◌, ◌≤◌, ◌≡◌, refl, Bool, true, List, [], ◌∷◌, ◌++◌, some, arith, ltb, ◌==◌, if◌then◌else◌,
  All, Bool-cases, inl, inr,
}
use gogoc_android.Redirect.{ok, Broker}
use gogoc_android.Redirect.Sorting.{
  insert_in_broker_list, each_thread, store_distances, Resources, get_broker_distances, sort_loop,
  sort_broker_list,
}

-- no broker is farther than one behind it
abbrev pub IsSorted : List Broker → Type 0
IsSorted [] = Unit
IsSorted (b ∷ bs) = All (λ c. b.distance ≤ c.distance) bs × IsSorted bs

-- the brokers at one distance, in the order of the list
abbrev pub at_distance : ℕ → List Broker → List Broker
at_distance d [] = []
at_distance d (b ∷ bs) = if b.distance == d then b ∷ at_distance d bs else at_distance d bs

All-insert :
    (P : Broker → Type 0) (b : Broker) (bs : List Broker)
    → P b
    → All P bs
    → All P (insert_in_broker_list b bs)
unfolding insert_in_broker_list
All-insert P b [] h hs = (h, tt)
All-insert P b (c ∷ bs) h hs = elim (Bool-cases (ltb c.distance b.distance)) [
  | inl far ↦ rw far (hs.0, All-insert P b bs h hs.1)
  | inr near ↦ rw near (h, hs)
]

All-mono :
    (P Q : Broker → Type 0) (bs : List Broker) → ((b : Broker) → P b → Q b) → All P bs → All Q bs
All-mono P Q [] f h = tt
All-mono P Q (b ∷ bs) f h = (f b h.0, All-mono P Q bs f h.1)

insert-IsSorted :
    (b : Broker) (bs : List Broker) → IsSorted bs → IsSorted (insert_in_broker_list b bs)
unfolding insert_in_broker_list
insert-IsSorted b [] h = (tt, tt)
insert-IsSorted b (c ∷ bs) h = elim (Bool-cases (ltb c.distance b.distance)) [
  | inl far ↦
      rw far (
        All-insert (λ x. c.distance ≤ x.distance) b bs (ground arith) h.0,
        insert-IsSorted b bs h.1,
      )
  | inr near ↦ rw near (
    (
      ground arith,
      All-mono (λ x. c.distance ≤ x.distance) (λ x. b.distance ≤ x.distance) bs
          (λ x k. ground arith) h.0,
    ),
    h,
  )
]

insert-perm : (b : Broker) (bs : List Broker) → Perm (insert_in_broker_list b bs) (b ∷ bs)
unfolding insert_in_broker_list
insert-perm b [] = Perm.refl (b ∷ [])
insert-perm b (c ∷ bs) = elim (Bool-cases (ltb c.distance b.distance)) [
  | inl far ↦ rw far (Perm.trans (Perm.cons c (insert-perm b bs)) (Perm.swap b c bs))
  | inr near ↦ rw near (Perm.refl (b ∷ c ∷ bs))
]

at_distance-insert :
    (d : ℕ) (b : Broker) (bs : List Broker)
    → at_distance d (insert_in_broker_list b bs) ≡ at_distance d (b ∷ bs)
unfolding insert_in_broker_list
at_distance-insert d b [] = refl
at_distance-insert d b (c ∷ bs) = ground (arith, at_distance-insert d b bs)

-- What it is to sort `bs` into `out`. Brokers at one distance come out last received first.
pub record Sorts (bs out : List Broker) : Type 0 where
  pub ordered : IsSorted out
  pub reordered : Perm out bs
  pub ties : (d : ℕ) → at_distance d out ≡ reverse (at_distance d bs)

module _ (r : Resources) where
  sort_loop-IsSorted :
      (n : ℕ) (rest sorted : List Broker) {out : List Broker}
      → sort_loop r n rest sorted ≡ some out
      → IsSorted sorted
      → IsSorted out
  unfolding sort_loop
  sort_loop-IsSorted n [] sorted e h = ground arith
  sort_loop-IsSorted n (b ∷ bs) sorted e h = elim (Bool-cases (r.new_element n)) [
    | inl room ↦
        sort_loop-IsSorted (n + 1) bs (insert_in_broker_list b sorted) (rw room at e)
          (insert-IsSorted b sorted h)
    | inr full ↦ absurd (ground arith)
  ]

  sort_loop-perm :
      (n : ℕ) (rest sorted : List Broker) {out : List Broker}
      → sort_loop r n rest sorted ≡ some out
      → Perm out (rest ++ sorted)
  unfolding sort_loop
  sort_loop-perm n [] sorted {out} e = let same : out ≡ sorted = cc in rw same (Perm.refl sorted)
  sort_loop-perm n (b ∷ bs) sorted e = elim (Bool-cases (r.new_element n)) [
    | inl room ↦
        Perm.trans (sort_loop-perm (n + 1) bs (insert_in_broker_list b sorted) (rw room at e))
          (Perm.trans (Perm.append (Perm.refl bs) (insert-perm b sorted)) (perm_middle bs sorted))
    | inr full ↦ absurd (ground arith)
  ]

  sort_loop_ties :
      (d n : ℕ) (rest sorted : List Broker) {out : List Broker}
      → sort_loop r n rest sorted ≡ some out
      → at_distance d out ≡ reverse (at_distance d rest) ++ at_distance d sorted
  unfolding sort_loop
  sort_loop_ties d n [] sorted {out} e = let same : out ≡ sorted = cc in rw same
  sort_loop_ties d n (b ∷ bs) sorted e = elim (Bool-cases (r.new_element n)) [
    | inl room ↦ ground (
      arith,
      sort_loop_ties d (n + 1) bs (insert_in_broker_list b sorted) (rw room at e),
      at_distance-insert d b sorted,
      reverse-cons b (at_distance d bs),
      append_assoc (reverse (at_distance d bs)) (b ∷ []) (at_distance d sorted),
    )
    | inr full ↦ absurd (ground arith)
  ]

  sort_loop_total :
      (n : ℕ) (rest sorted : List Broker)
      → ((i : ℕ) → r.new_element i ≡ true)
      → (out : List Broker) × (sort_loop r n rest sorted ≡ some out)
  unfolding sort_loop
  sort_loop_total n [] sorted room = (sorted, refl)
  sort_loop_total n (b ∷ bs) sorted room =
      rw (room n) (sort_loop_total (n + 1) bs (insert_in_broker_list b sorted) room)

  get_broker_distances_ok :
      (list : List Broker) (count : ℕ)
      → (get_broker_distances r list count).0 ≡ ok
      → (get_broker_distances r list count).1 ≡ store_distances r.echo_request 0 count list
  unfolding get_broker_distances
  get_broker_distances_ok list count e = ground arith

  sort_loop_of_ok :
      (list : List Broker) (count : ℕ)
      → (sort_broker_list r list count).0 ≡ ok
      → sort_loop r 0 (store_distances r.echo_request 0 count list) []
        ≡ some (sort_broker_list r list count).1
  unfolding sort_broker_list
  sort_loop_of_ok list count e = ground (arith, get_broker_distances_ok list count)

  each_thread_total :
      (call : ℕ → Bool)
      → ((i : ℕ) → call i ≡ true)
      → (t count : ℕ) (list : List Broker) → each_thread call t count list ≡ true
  unfolding each_thread
  each_thread_total call all t count [] = refl
  each_thread_total call all t count (b ∷ bs) =
      ground (arith, all t, each_thread_total call all (t + 1) count bs)

  -- With memory and threads for everyone, the sort returns OK.
  pub sort_broker_list_total :
      (list : List Broker) (count : ℕ)
      → r.thread_array ≡ true
      → r.thread_arguments ≡ true
      → ((i : ℕ) → r.thread_create i ≡ true)
      → ((i : ℕ) → r.thread_join i ≡ true)
      → ((i : ℕ) → r.new_element i ≡ true)
      → (sort_broker_list r list count).0 ≡ ok
  unfolding sort_broker_list get_broker_distances
  sort_broker_list_total list count a b c j m = ground (
    arith,
    each_thread_total r.thread_create c 0 count list,
    each_thread_total r.thread_join j 0 count list,
    sort_loop_total 0 (store_distances r.echo_request 0 count list) [] m,
  )

  -- When `tspSortBrokerList` returns OK it has replaced the list by the same brokers, each with the
  -- distance that its thread measured, nearest first; brokers at equal distances come out in the
  -- reverse of the order in which the list had them.
  pub sort_broker_list_ok :
      (list : List Broker) (count : ℕ)
      → let (status, sorted) = sort_broker_list r list count in
        status ≡ ok → Sorts (store_distances r.echo_request 0 count list) sorted
  sort_broker_list_ok list count e =
      let measured = store_distances r.echo_request 0 count list in
      let run = sort_loop_of_ok list count e in
      record {
        ordered = sort_loop-IsSorted 0 measured [] run tt;
        reordered = rw append-nil at (sort_loop-perm 0 measured [] run);
        ties = λ d. rw append-nil at (sort_loop_ties d 0 measured [] run);
      }
