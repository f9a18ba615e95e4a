-- ===== src/Echo/Events/Queue.antt =====
-- The list of echo events as a queue of the requests that wait.
use gogoc_android.Prelude.{
  ℕ, ◌<◌, ◌≡◌, ◌≢◌, ◌⊎◌, inl, inr, refl, sym, ap, ◌∙◌, Bool, true, false, Bool-cases, List, [], ◌∷◌,
  ◌++◌, Option, none, some, ◌==◌, if◌then◌else◌, All, All-append, length, length-append, arith,
}
use mathlib.Core.Path.{subst}
use gogoc_android.Echo.Events.{EchoEvent, EventList, insert_echo_event, remove_free_echo_event}
use gogoc_android.Echo.Events.Leads.{Leads, AllDistinct, SameFields}
use gogoc_android.Echo.Events.Insertion.{IsEarlier}
use gogoc_android.Echo.Events.Laws.{insert_last}
use gogoc_android.Echo.Events.Removal.{IsOther, remove_found, remove_absent}

-- a request that waits: its number, and when it is due
pub record Request : Type 0 where
  pub number : ℕ
  pub due : ℕ

abbrev pub is_waiting : ℕ → List Request → Bool
is_waiting number [] = false
is_waiting number (r ∷ queue) = if r.number == number then true else is_waiting number queue

-- without the first request of the number
abbrev pub without : ℕ → List Request → List Request
without number [] = []
without number (r ∷ queue) = if r.number == number then queue else r ∷ without number queue

abbrev pub request_at : (ℕ → EchoEvent) → ℕ → Request
request_at node a = record { number = (node a).echo_seq; due = (node a).tv_timeout }

-- the requests of the events
abbrev pub requests_at : (ℕ → EchoEvent) → List ℕ → List Request
requests_at node [] = []
requests_at node (a ∷ events) = request_at node a ∷ requests_at node events

-- the list, with its events at these addresses, holds the requests
pub record Represents (l : EventList) (events : List ℕ) (queue : List Request) : Type 0 where
  pub leads : Leads l.node l.event_list events none
  pub distinct : AllDistinct events
  pub holds : requests_at l.node events ≡ queue

requests_at-SameFields :
    (l l' : EventList) (events : List ℕ)
    → ((b : ℕ) → SameFields (l.node b) (l'.node b))
    → requests_at l'.node events ≡ requests_at l.node events
requests_at-SameFields l l' [] h = refl
requests_at-SameFields l l' (a ∷ events) h =
    ground (arith, (h a).0, (h a).1, requests_at-SameFields l l' events h)

requests_at-append :
    (node : ℕ → EchoEvent) (events further : List ℕ)
    → requests_at node (events ++ further) ≡ requests_at node events ++ requests_at node further
requests_at-append node [] further = refl
requests_at-append node (a ∷ events) further =
    ap (λ q. request_at node a ∷ q) (requests_at-append node events further)

AllDistinct-snoc :
    (events : List ℕ) (a : ℕ)
    → AllDistinct events
    → All (λ b. b ≢ a) events
    → AllDistinct (events ++ (a ∷ []))
AllDistinct-snoc [] a d n = (tt, tt)
AllDistinct-snoc (b ∷ events) a d n = (
  All-append (λ c. c ≢ b) events (a ∷ []) d.0 (λ e. n.0 (sym e), tt),
  AllDistinct-snoc events a d.1 n.1,
)

IsEarlier-of_due :
    (l : EventList) (a : ℕ) (events : List ℕ)
    → All (λ (r : Request). r.due < (l.node a).tv_timeout) (requests_at l.node events)
    → All (IsEarlier l a) events
IsEarlier-of_due l a [] h = tt
IsEarlier-of_due l a (b ∷ events) h = (h.0, IsEarlier-of_due l a events h.1)

insert_refines :
    (l : EventList) (events : List ℕ) (queue : List Request) (a rounds : ℕ)
    → Represents l events queue
    → All (λ b. b ≢ a) events
    → All (λ (r : Request). r.due < (l.node a).tv_timeout) queue
    → length events < rounds
    → (l' : EventList) × (insert_echo_event rounds l a ≡ some l')
      × Represents l' (events ++ (a ∷ [])) (queue ++ (request_at l.node a ∷ []))
insert_refines l events queue a rounds h fresh later r =
    let due = subst (All (λ (x : Request). x.due < (l.node a).tv_timeout)) (sym h.holds) later in
    let (l', runs, leads, same) =
      insert_last l a events rounds h.leads h.distinct fresh (IsEarlier-of_due l a events due) r in
    (
      l',
      runs,
      record {
        leads = leads;
        distinct = AllDistinct-snoc events a h.distinct fresh;
        holds =
            requests_at-SameFields l l' (events ++ (a ∷ [])) same
            ∙ (requests_at-append l.node events (a ∷ [])
                ∙ ap (λ q. q ++ (request_at l.node a ∷ [])) h.holds);
      },
    )

-- where the first event with a number stands, if there is one
pub record Splits (l : EventList) (number : ℕ) (events : List ℕ) : Type 0 where
  pub before : List ℕ
  pub found : ℕ
  pub after : List ℕ
  pub whole : events ≡ before ++ (found ∷ after)
  pub number_found : (l.node found).echo_seq ≡ number
  pub others : All (IsOther l number) before
  pub waits : is_waiting number (requests_at l.node events) ≡ true
  pub rest : requests_at l.node (before ++ after) ≡ without number (requests_at l.node events)

abbrev IsAbsent : EventList → ℕ → List ℕ → Type 0
IsAbsent l number events =
    All (IsOther l number) events
    × (is_waiting number (requests_at l.node events) ≡ false)
    × (without number (requests_at l.node events) ≡ requests_at l.node events)

split_cases :
    (l : EventList) (number : ℕ) (events : List ℕ)
    → Splits l number events ⊎ IsAbsent l number events
split_cases l number [] = inr (tt, refl, refl)
split_cases l number (a ∷ events) = elim (Bool-cases ((l.node a).echo_seq == number)) [
  | inl e ↦ inl (record {
    before = [];
    found = a;
    after = events;
    whole = refl;
    number_found = ground (arith, e);
    others = tt;
    waits = ground (arith, e);
    rest = ground (arith, e);
  })
  | inr n ↦ elim (split_cases l number events) [
    | inl s ↦ inl (record {
      before = a ∷ s.before;
      found = s.found;
      after = s.after;
      whole = ap (λ x. a ∷ x) s.whole;
      number_found = s.number_found;
      others = (ground (arith, n), s.others);
      waits = ground (arith, n, s.waits);
      rest = ground (arith, n, s.rest);
    })
    | inr (o, w, u) ↦ inr ((ground (arith, n), o), ground (arith, n, w), ground (arith, n, u))
  ]
]

Leads-split :
    (node : ℕ → EchoEvent) (before : List ℕ) (b : ℕ) (after : List ℕ) (p q : Option ℕ)
    → Leads node p (before ++ (b ∷ after)) q
    → Leads node p before (some b) × Leads node (node b).next after q
Leads-split node [] b after p q h = (h.0, h.1)
Leads-split node (a ∷ before) b after p q h =
    let (left, right) = Leads-split node before b after (node a).next q h.1 in ((h.0, left), right)

All-split {ℓ} :
    (P : ℕ → Type ℓ) (before : List ℕ) (b : ℕ) (after : List ℕ)
    → All P (before ++ (b ∷ after))
    → All P before × All P after
All-split P [] b after h = (tt, h.1)
All-split P (a ∷ before) b after h =
    let (left, right) = All-split P before b after h.1 in ((h.0, left), right)

AllDistinct-split :
    (before : List ℕ) (b : ℕ) (after : List ℕ)
    → AllDistinct (before ++ (b ∷ after))
    → AllDistinct before × All (λ c. All (λ d. d ≢ c) after) before × AllDistinct (before ++ after)
AllDistinct-split [] b after h = (tt, tt, h.1)
AllDistinct-split (a ∷ before) b after h =
    let (left, apart, joined) = AllDistinct-split before b after h.1 in
    let (here, there) = All-split (λ c. c ≢ a) before b after h.0 in
    ((here, left), (there, apart), (All-append (λ c. c ≢ a) before after here there, joined))

remove_refines :
    (l : EventList) (events : List ℕ) (queue : List Request) (number rounds : ℕ)
    → Represents l events queue
    → length events < rounds
    → (l' : EventList) × (events' : List ℕ) × (remove_free_echo_event rounds l number
        ≡ some (is_waiting number queue, l'))
      × Represents l' events' (without number queue)
remove_refines l events queue number rounds h r = elim (split_cases l number events) [
  | inl s ↦
      let (left, right) =
        Leads-split l.node s.before s.found s.after l.event_list none
          (subst (λ x. Leads l.node l.event_list x none) s.whole h.leads) in
      let (distinct, apart, joined) =
        AllDistinct-split s.before s.found s.after (subst AllDistinct s.whole h.distinct) in
      let (l', runs, leads, same) =
        remove_found l s.found s.before s.after rounds left right distinct apart
          (subst (λ x. All (IsOther l x) s.before) (sym s.number_found) s.others)
          (omega
            (arith, r, length-append s.before (s.found ∷ s.after), ap (length {A = ℕ}) s.whole)) in
      (
        l',
        s.before ++ s.after,
        ground (arith, runs, s.number_found, s.waits, ap (is_waiting number) h.holds),
        record {
          leads = leads;
          distinct = joined;
          holds =
              requests_at-SameFields l l' (s.before ++ s.after) same
              ∙ (s.rest ∙ ap (without number) h.holds);
        },
      )
  | inr (o, w, u) ↦ (
    l,
    events,
    ground (
      arith,
      remove_absent l number events rounds h.leads o r,
      w,
      ap (is_waiting number) h.holds,
    ),
    record { leads = h.leads; distinct = h.distinct; holds = sym u ∙ ap (without number) h.holds },
  )
]

-- The linked list refines a queue of requests, with a round for each event and one more. Inserted at a new
-- address, an event that is due after all the others enters the queue at its end; a removal takes the
-- first request with its number out of the queue, leaves the others in their order, and says whether
-- there was one.
pub list_refines_queue :
    (l : EventList) (events : List ℕ) (queue : List Request) (a number rounds : ℕ)
    → Represents l events queue
    → length events < rounds
    → All (λ b. b ≢ a) events
    → All (λ (r : Request). r.due < (l.node a).tv_timeout) queue
    → ((l' : EventList) × (insert_echo_event rounds l a ≡ some l')
        × Represents l' (events ++ (a ∷ [])) (queue ++ (request_at l.node a ∷ [])))
      × ((l' : EventList) × (events' : List ℕ) × (remove_free_echo_event rounds l number
            ≡ some (is_waiting number queue, l'))
          × Represents l' events' (without number queue))
list_refines_queue l events queue a number rounds h r fresh later = (
  insert_refines l events queue a rounds h fresh later r,
  remove_refines l events queue number rounds h r,
)
