-- ===== src/Client/Loop/Invariant.antt =====
-- What a choice of transport and the outcome of an attempt keep of the connection loop's variables.
use gogoc_android.Prelude.{
  ℕ, ◌^◌, ◌≤◌, ◌<◌, ◌≡◌, ◌≢◌, ◌⊎◌, inl, inr, refl, Bool, true, false, List, [], ◌∷◌, Option, some,
  ◌&&◌, arith, Bool-cases,
}
use gogoc_android.Cstring.{Text}
use gogoc_android.Status.{evnt_broker_redirection, err_broker_redirection}
use gogoc_android.Redirect.{is_ok, Broker}
use gogoc_android.Redirect.Files.{read_broker_list_from_file}
use gogoc_android.Client.{Transport, Config, Client, Attempt, Flow, goto_end}
use gogoc_android.Client.Choice.{choose_version, choose_of_two, choose_transport}
use gogoc_android.Client.Outcome.{
  is_nil, format_broker_list_addr, try_broker, walk_list, try_broker_list_file, next_in_list,
  try_next_broker, mark_connect_failed, connect_failed, redirected, outcome,
}

-- The pointer into the broker list: to one of its elements.
pub PointsInto : List Broker → List Broker → Type 0
PointsInto current [] = ⊥
PointsInto current (b ∷ bs) = (current ≡ b ∷ bs) ⊎ PointsInto current bs

PointsInto-next :
    (failed b : Broker) (rest list : List Broker)
    → PointsInto (failed ∷ b ∷ rest) list
    → PointsInto (b ∷ rest) list
unfolding PointsInto
PointsInto-next failed b rest [] p = p
PointsInto-next failed b rest (c ∷ list) (inl e) =
    let same : list ≡ b ∷ rest = cc in rw same (inr (inl refl))
PointsInto-next failed b rest (c ∷ list) (inr p) = inr (PointsInto-next failed b rest list p)

PointsInto-not_nil :
    (current list : List Broker) → PointsInto current list → (current ≢ []) × (list ≢ [])
unfolding PointsInto
PointsInto-not_nil current [] p = absurd p
PointsInto-not_nil current (b ∷ bs) (inl e) = ground (arith, e)
PointsInto-not_nil current (b ∷ bs) (inr p) =
    let tail = PointsInto-not_nil current bs p in ground (arith, tail)

-- While neither the original nor the last server is being tried, the pointer is safe.
abbrev pub IsWalking : Client → Type 0
IsWalking c =
    c.trying_original_server ≡ false
    → c.read_last_server ≡ false
    → (c.trying_broker_list ≡ true) × PointsInto c.current_broker_in_list c.broker_list

-- The index of a version stays in the table of the four, and the widths are respected.
abbrev pub IsBounded : Client → Type 0
IsBounded c = (c.version_index ≤ 3) × (c.effective_retry_delay < 2 ^ 16) × (c.consec_retry < 2 ^ 8)

-- What `tspSetupTunnel` does to the broker list: a list that it changes comes with one of the two
-- statuses of a redirection.
abbrev pub Frames : Attempt → Type 0
Frames a =
    (t : Transport) (v : ℕ) (s : Option Text) (list : List Broker)
    → ((a.setup t v s list).1 ≡ list)
      ⊎ ((a.setup t v s list).0.1 ≡ evnt_broker_redirection)
      ⊎ ((a.setup t v s list).0.1 ≡ err_broker_redirection)

-- what a choice of transport leaves alone
abbrev pub SameWalk : Client → Client → Type 0
SameWalk c d =
    (c.trying_original_server ≡ d.trying_original_server)
    × (c.read_last_server ≡ d.read_last_server)
    × (c.trying_broker_list ≡ d.trying_broker_list)
    × (c.current_broker_in_list ≡ d.current_broker_in_list)
    × (c.broker_list ≡ d.broker_list)
    × (c.server ≡ d.server)

pub choose_transport-same :
    (conf : Config) (c d : Client) → choose_transport conf c ≡ some d → SameWalk d c
unfolding choose_transport choose_of_two choose_version
choose_transport-same conf c d e = ground arith

pub choose_transport-IsBounded :
    (conf : Config) (c d : Client) → IsBounded c → choose_transport conf c ≡ some d → IsBounded d
unfolding choose_transport choose_of_two choose_version
choose_transport-IsBounded conf c d b e = ground arith

abbrev pub Keeps : Flow × Client → Type 0
Keeps (flow, c) = flow ≢ goto_end → c.connected ≡ true → IsWalking c

try_broker-Keeps :
    (m : Bool) (b : Broker) (rest : List Broker) (c : Client)
    → PointsInto (b ∷ rest) c.broker_list
    → c.trying_broker_list ≡ true
    → Keeps (try_broker m b rest c)
unfolding try_broker
try_broker-Keeps m b rest c p w = elim (Bool-cases (format_broker_list_addr m b).0) [
  | inl done ↦ rw done (λ _ _ _ _. (w, p))
  | inr failed ↦ rw failed (ground arith)
]

walk_list-Keeps :
    (m : Bool) (bs : List Broker) (c : Client)
    → c.trying_original_server ≡ true
    → Keeps (walk_list m bs c)
unfolding walk_list PointsInto
walk_list-Keeps m [] c h = ground arith
walk_list-Keeps m (b ∷ rest) c h =
    try_broker-Keeps m b rest
      (record c {
        broker_list = b ∷ rest;
        trying_broker_list = true;
        trying_original_server = false;
      })
      (inl refl) refl

next_in_list-Keeps :
    (conf : Config) (m : Bool) (current : List Broker) (c : Client)
    → c.trying_broker_list ≡ true
    → PointsInto current c.broker_list
    → Keeps (next_in_list conf m current c)
unfolding next_in_list
next_in_list-Keeps conf m [] c w p = ground arith
next_in_list-Keeps conf m (b ∷ []) c w p = ground arith
next_in_list-Keeps conf m (b ∷ d ∷ rest) c w p =
    try_broker-Keeps m d rest c (PointsInto-next b d rest c.broker_list p) w

try_next_broker-Keeps :
    (conf : Config) (a : Attempt) (c : Client)
    → c.trying_broker_list ≡ true
    → PointsInto c.current_broker_in_list c.broker_list
    → Keeps (try_next_broker conf a c)
unfolding try_next_broker
try_next_broker-Keeps conf a c w p = elim (Bool-cases (is_nil c.broker_list)) [
  | inl empty ↦ rw empty (ground arith)
  | inr full ↦ rw full (next_in_list-Keeps conf a.address_memory c.current_broker_in_list c w p)
]

try_broker_list_file-Keeps :
    (conf : Config) (a : Attempt) (c : Client)
    → c.trying_original_server ≡ true
    → Keeps (try_broker_list_file conf a c)
unfolding try_broker_list_file
try_broker_list_file-Keeps conf a c h =
    let (status, list) = read_broker_list_from_file a.printf a.memory a.broker_list_file in
    elim (Bool-cases (conf.has_broker_list_file && is_ok status)) [
      | inl read ↦ rw read (walk_list-Keeps a.address_memory list c h)
      | inr unread ↦ rw unread (ground arith)
    ]

connect_failed-Keeps :
    (conf : Config) (a : Attempt) (c : Client) → IsWalking c → Keeps (connect_failed conf a c)
unfolding connect_failed
connect_failed-Keeps conf a c w = ground (
  arith,
  w,
  try_broker_list_file-Keeps conf a (mark_connect_failed conf c),
  try_next_broker-Keeps conf a (mark_connect_failed conf c),
)

redirected-Keeps : (a : Attempt) (c : Client) → Keeps (redirected a c)
unfolding redirected PointsInto
redirected-Keeps a c = ground arith

pub outcome-Keeps :
    (conf : Config) (a : Attempt) (c : Client)
    → IsWalking c ⊎ (c.status.1 ≡ evnt_broker_redirection) ⊎ (c.status.1 ≡ err_broker_redirection)
    → Keeps (outcome conf a c)
unfolding outcome
outcome-Keeps conf a c h = ground (arith, h, connect_failed-Keeps conf a c, redirected-Keeps a c)
