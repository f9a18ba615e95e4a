-- ===== src/Client/Loop/Fallback.antt =====
-- Servers that refuse the version of the protocol.
use gogoc_android.Prelude.{
  ℕ, ◌≡◌, refl, ◌∙◌, true, false, List, [], ◌∷◌, Option, none, some, arith, All, ◌==◌,
  if◌then◌else◌,
}
use gogoc_android.Cstring.{Text}
use gogoc_android.Status.{Context, err_inval_tsp_version}
use gogoc_android.Redirect.{Broker}
use gogoc_android.Client.{
  TunnelMode, v6v4, v6anyv4, Transport, rudp, tcp, Config, Client, Attempt, disconnected_error,
  uis_err_tsp_version_error,
}
use gogoc_android.Client.Choice.{choose_version, choose_of_two, choose_transport, is_quick_cycle}
use gogoc_android.Client.Outcome.{outcome}
use gogoc_android.Client.Loop.{
  again, loop_ended, attempt_tunnel, connection_step, run_attempts, enter_loop,
}

-- the transports and versions that the attempts are made with
pub tried : Config → List Attempt → Client → List (Transport × ℕ)
tried conf [] c = []
tried conf (a ∷ rest) c = elim (choose_transport conf c) [
  | none ↦ []
  | some chosen ↦ elim (connection_step conf a c) [
    | again c' ↦ (chosen.transport, chosen.version_index) ∷ tried conf rest c'
    | _ ↦ (chosen.transport, chosen.version_index) ∷ []
  ]
]

-- an attempt that the server answers with the status of a wrong version
pub record RefusesVersion (a : Attempt) : Type 0 where
  pub context : Context
  pub goes_on : a.stop ≡ false
  pub refuses :
      (t : Transport) (v : ℕ) (s : Option Text) (list : List Broker)
      → a.setup t v s list ≡ ((context, err_inval_tsp_version), list)

-- the client after such an attempt
abbrev after_refusal : Config → Context → Client → Client
after_refusal conf context c = record c {
  quick_cycle = is_quick_cycle conf c.transport;
  status = (context, err_inval_tsp_version);
  client_status = disconnected_error;
  ui_status = uis_err_tsp_version_error;
  tsp_version_fallback = true;
  cycle = if c.version_index == 2 then 1 else c.cycle;
}

refused_step :
    (conf : Config) (a : Attempt) (c chosen : Client) (r : RefusesVersion a)
    → choose_transport conf c ≡ some chosen
    → chosen.connected ≡ true
    → connection_step conf a c ≡ again (after_refusal conf r.context chosen)
unfolding connection_step attempt_tunnel outcome
refused_step conf a c chosen r e on = ground (
  arith,
  r.goes_on,
  e,
  r.refuses chosen.transport chosen.version_index chosen.server chosen.broker_list,
)

-- a pass that a server refuses
refused_pass :
    (conf : Config) (a : Attempt) (rest : List Attempt) (c chosen : Client) (r : RefusesVersion a)
    → choose_transport conf c ≡ some chosen
    → chosen.connected ≡ true
    → let d = after_refusal conf r.context chosen in
      (tried conf (a ∷ rest) c ≡ (chosen.transport, chosen.version_index) ∷ tried conf rest d)
      × (run_attempts conf (a ∷ rest) c ≡ run_attempts conf rest d)
unfolding tried run_attempts
refused_pass conf a rest c chosen r e on =
    let step = refused_step conf a c chosen r e on in
    (rw (tried, e, step) refl, rw (run_attempts, step) refl)

-- a pass with no version left
last_pass :
    (conf : Config) (a : Attempt) (rest : List Attempt) (c : Client)
    → a.stop ≡ false
    → choose_transport conf c ≡ none
    → (tried conf (a ∷ rest) c ≡ [])
      × (run_attempts conf (a ∷ rest) c ≡ loop_ended (record c { connected = false }))
unfolding connection_step tried run_attempts
last_pass conf a rest c go e = (rw (tried, e) refl, rw (run_attempts, go, e) refl)

-- the modes that start on UDP over IPv4 and may go on over TCP
abbrev pub IsV6v4 : TunnelMode → Type 0
IsV6v4 v6v4 = Unit
IsV6v4 v6anyv4 = Unit
IsV6v4 _ = ⊥

choose-v6v4 :
    (conf : Config) (c : Client)
    → IsV6v4 conf.tunnel_mode
    → choose_transport conf c ≡ choose_of_two 3 rudp tcp c
unfolding choose_transport
choose-v6v4 conf c m = ground arith

-- If every server refuses the version of the protocol, a client for IPv6 over IPv4 tries the three
-- newest versions over reliable UDP, then the oldest over TCP, and then leaves the loop.
pub version_fallback :
    (conf : Config) (a0 a1 a2 a3 a4 : Attempt) (rest : List Attempt) (c : Client)
    → IsV6v4 conf.tunnel_mode
    → All RefusesVersion (a0 ∷ a1 ∷ a2 ∷ a3 ∷ a4 ∷ [])
    → let attempts = a0 ∷ a1 ∷ a2 ∷ a3 ∷ a4 ∷ rest in
      (tried conf attempts (enter_loop c) ≡ (rudp, 0) ∷ (rudp, 1) ∷ (rudp, 2) ∷ (tcp, 3) ∷ [])
      × (d : Client) × (run_attempts conf attempts (enter_loop c) ≡ loop_ended d)
unfolding enter_loop choose_of_two choose_version
version_fallback conf a0 a1 a2 a3 a4 rest c m (r0, (r1, (r2, (r3, (r4, _))))) =
    let c0 = enter_loop c in
    let d0 : Client = record c0 { version_index = 0; cycle = 0; transport = rudp } in
    let c1 = after_refusal conf r0.context d0 in
    let d1 : Client = record c1 {
      version_index = 1;
      tsp_version_fallback = false;
      cycle = 0;
      transport = rudp;
    } in
    let c2 = after_refusal conf r1.context d1 in
    let d2 : Client = record c2 {
      version_index = 2;
      tsp_version_fallback = false;
      cycle = 0;
      transport = rudp;
    } in
    let c3 = after_refusal conf r2.context d2 in
    let d3 : Client = record c3 {
      version_index = 3;
      tsp_version_fallback = false;
      cycle = 1;
      transport = tcp;
    } in
    let c4 = after_refusal conf r3.context d3 in
    let p0 =
      refused_pass conf a0 (a1 ∷ a2 ∷ a3 ∷ a4 ∷ rest) c0 d0 r0 (choose-v6v4 conf c0 m) refl in
    let p1 = refused_pass conf a1 (a2 ∷ a3 ∷ a4 ∷ rest) c1 d1 r1 (choose-v6v4 conf c1 m) refl in
    let p2 = refused_pass conf a2 (a3 ∷ a4 ∷ rest) c2 d2 r2 (choose-v6v4 conf c2 m) refl in
    let p3 = refused_pass conf a3 (a4 ∷ rest) c3 d3 r3 (choose-v6v4 conf c3 m) refl in
    let p4 = last_pass conf a4 rest c4 r4.goes_on (choose-v6v4 conf c4 m) in
    (
      rw (p0.0, p1.0, p2.0, p3.0, p4.0) refl,
      record c4 { connected = false },
      p0.1 ∙ p1.1 ∙ p2.1 ∙ p3.1 ∙ p4.1,
    )
