-- ===== src/Echo/Events/Leads.antt =====
-- Stretches of the list of echo events, and what updates of its nodes make of them.
use gogoc_android.Prelude.{
  ℕ, ◌≡◌, ◌≢◌, refl, sym, List, [], ◌∷◌, ◌++◌, Option, none, some, All, arith,
}
use gogoc_android.Echo.Events.{EventList, head, assign, EchoEvent, Slot, next_of, update}

-- the slot after the events
abbrev pub slot_after : Slot → List ℕ → Slot
slot_after s [] = s
slot_after s (b ∷ events) = slot_after (next_of b) events

-- from the pointer `p`, the events in order, and the pointer after them
abbrev pub Leads : (ℕ → EchoEvent) → Option ℕ → List ℕ → Option ℕ → Type 0
Leads node p [] q = p ≡ q
Leads node p (a ∷ events) q = (p ≡ some a) × Leads node (node a).next events q

abbrev pub AllDistinct : List ℕ → Type 0
AllDistinct [] = Unit
AllDistinct (a ∷ events) = All (λ b. b ≢ a) events × AllDistinct events

pub update_other :
    (node : ℕ → EchoEvent) (c b : ℕ) (r : Option ℕ) → b ≢ c → update node c r b ≡ node b
update_other node c b r h = ground (arith, h)

pub update_same : (node : ℕ → EchoEvent) (c : ℕ) (r : Option ℕ) → (update node c r c).next ≡ r
update_same node c r = ground arith

-- The updates of nodes outside a stretch leave it.
pub Leads-update :
    (events : List ℕ) (node : ℕ → EchoEvent) (c : ℕ) (p q r : Option ℕ)
    → All (λ b. b ≢ c) events
    → Leads node p events q
    → Leads (update node c r) p events q
Leads-update [] node c p q r d h = h
Leads-update (b ∷ events) node c p q r d h =
    (h.0, rw (update_other node c b r d.0) (Leads-update events node c (node b).next q r d.1 h.1))

abbrev pub last_of : ℕ → List ℕ → ℕ
last_of b [] = b
last_of b (c ∷ events) = last_of c events

pub last_of-All :
    (P : ℕ → Type 0) (b : ℕ) (events : List ℕ) → All P (b ∷ events) → P (last_of b events)
last_of-All P b [] h = h.0
last_of-All P b (c ∷ events) h = last_of-All P c events h.1

pub slot_after-last_of :
    (b : ℕ) (events : List ℕ) → slot_after (next_of b) events ≡ next_of (last_of b events)
slot_after-last_of b [] = refl
slot_after-last_of b (c ∷ events) = slot_after-last_of c events

-- The update of the last node of a stretch moves its end.
pub Leads-last_of :
    (b : ℕ) (events : List ℕ) (node : ℕ → EchoEvent) (p q r : Option ℕ)
    → AllDistinct (b ∷ events)
    → Leads node p (b ∷ events) q
    → Leads (update node (last_of b events) r) p (b ∷ events) r
Leads-last_of b [] node p q r d h = (h.0, update_same node b r)
Leads-last_of b (c ∷ events) node p q r d h = (
  h.0,
  rw (update_other node (last_of c events) b r (λ e. last_of-All (λ x. x ≢ b) c events d.0 (sym e)))
      (Leads-last_of c events node (node b).next q r d.1 h.1),
)

pub Leads-snoc :
    (events : List ℕ) (node : ℕ → EchoEvent) (a : ℕ) (p : Option ℕ)
    → Leads node p events (some a)
    → (node a).next ≡ none
    → Leads node p (events ++ (a ∷ [])) none
Leads-snoc [] node a p h e = (h, e)
Leads-snoc (b ∷ events) node a p h e = (h.0, Leads-snoc events node a (node b).next h.1 e)

-- the number and the time of an event
abbrev pub SameFields : EchoEvent → EchoEvent → Type 0
SameFields e e' = (e'.echo_seq ≡ e.echo_seq) × (e'.tv_timeout ≡ e.tv_timeout)

pub assign-SameFields :
    (l : EventList) (s : Slot) (p : Option ℕ) (b : ℕ)
    → SameFields (l.node b) ((assign l s p).node b)
unfolding assign
assign-SameFields l head p b = (refl, refl)
assign-SameFields l (next_of a) p b = (ground arith, ground arith)
