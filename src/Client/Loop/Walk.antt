-- ===== src/Client/Loop/Walk.antt =====
-- Brokers that cannot be reached, one after the other.
use gogoc_android.Prelude.{
  ℕ, suc, ◌≡◌, refl, ◌∙◌, true, false, List, [], ◌∷◌, map, length, Option, some, arith, All,
}
use gogoc_android.Cstring.{Text}
use gogoc_android.Status.{Context, err_fail_socket_connect}
use gogoc_android.Redirect.{Broker}
use gogoc_android.Client.{
  v6udpv4, Transport, Config, Client, Attempt, rudp, connecting, uis_no_error,
}
use gogoc_android.Client.Choice.{choose_version, choose_transport, is_quick_cycle}
use gogoc_android.Client.Outcome.{
  is_nil, format_broker_list_addr, try_broker, next_in_list, try_next_broker, mark_connect_failed,
  connect_failed, outcome,
}
use gogoc_android.Client.Retry.{retry_wait}
use gogoc_android.Client.Loop.{
  again, attempt_tunnel, after_switch, connection_step, run_attempts, enter_loop,
}

-- the servers that the attempts go to
pub servers_tried : Config → List Attempt → Client → List (Option Text)
servers_tried conf [] c = []
servers_tried conf (a ∷ rest) c = elim (connection_step conf a c) [
  | again c' ↦ c.server ∷ servers_tried conf rest c'
  | _ ↦ c.server ∷ []
]

-- an attempt that cannot connect, with memory for an address
pub record ConnectFails (a : Attempt) : Type 0 where
  pub context : Context
  pub goes_on : a.stop ≡ false
  pub memory : a.address_memory ≡ true
  pub fails :
      (t : Transport) (v : ℕ) (s : Option Text) (list : List Broker)
      → a.setup t v s list ≡ ((context, err_fail_socket_connect), list)

-- what `FormatBrokerListAddr` makes of an address
abbrev pub address_of : Broker → Option Text
address_of b = (format_broker_list_addr true b).1

-- the client is at the head of the loop and tries the first of these brokers
pub record Tries (brokers : List Broker) (c : Client) : Type 0 where
  pub connected : c.connected ≡ true
  pub original : c.trying_original_server ≡ false
  pub last : c.read_last_server ≡ false
  pub walking : c.trying_broker_list ≡ true
  pub current : c.current_broker_in_list ≡ brokers
  pub list : is_nil c.broker_list ≡ false
  pub fallback : c.tsp_version_fallback ≡ false

-- no server is marked as the one being tried
pub record IsAbandoned (c : Client) : Type 0 where
  pub connected : c.connected ≡ true
  pub original : c.trying_original_server ≡ false
  pub last : c.read_last_server ≡ false
  pub walking : c.trying_broker_list ≡ false
  pub fallback : c.tsp_version_fallback ≡ false

-- a mode with one transport, outside boot mode
pub record HasOneTransport (conf : Config) : Type 0 where
  pub mode : conf.tunnel_mode ≡ v6udpv4
  pub boot : conf.boot_mode ≡ false

-- the client just after such an attempt
abbrev after_failure : Context → Client → Client
after_failure context c = record c {
  version_index = 0;
  cycle = 0;
  transport = rudp;
  quick_cycle = false;
  status = (context, err_fail_socket_connect);
  client_status = connecting;
  ui_status = uis_no_error;
}

format_broker_list_addr-memory : (b : Broker) → (format_broker_list_addr true b).0 ≡ true
unfolding format_broker_list_addr
format_broker_list_addr-memory b = ground arith

run_attempts-again :
    (conf : Config) (a : Attempt) (rest : List Attempt) (c d : Client)
    → connection_step conf a c ≡ again d
    → run_attempts conf (a ∷ rest) c ≡ run_attempts conf rest d
unfolding run_attempts
run_attempts-again conf a rest c d e = rw (run_attempts, e) refl

module _ (conf : Config) (one : HasOneTransport conf) (a : Attempt) (f : ConnectFails a) where
  choose_transport-one :
      (c : Client)
      → c.tsp_version_fallback ≡ false
      → choose_transport conf c ≡ some (record c { version_index = 0; cycle = 0; transport = rudp })
  unfolding choose_transport choose_version
  choose_transport-one c h = ground (arith, one.mode)

  failing_step :
      (c : Client)
      → c.tsp_version_fallback ≡ false
      → connection_step conf a c
        ≡ after_switch conf (connect_failed conf a (after_failure f.context c))
  unfolding connection_step attempt_tunnel outcome is_quick_cycle
  failing_step c h =
      ground (
        arith,
        f.goes_on,
        choose_transport-one c h,
        f.fails rudp 0 c.server c.broker_list,
        one.mode,
      )

  next_step :
      (failed b : Broker) (rest : List Broker) (c : Client)
      → Tries (failed ∷ b ∷ rest) c
      → (d : Client) × (connection_step conf a c ≡ again d)
        × Tries (b ∷ rest) d
        × (d.server ≡ address_of b)
  unfolding connect_failed try_next_broker next_in_list try_broker
  next_step failed b rest c w =
      let marked = mark_connect_failed conf (after_failure f.context c) in
      let next : Client = record marked {
        current_broker_in_list = b ∷ rest;
        server = address_of b;
        cycle = 0;
      } in
      (
        next,
        failing_step c w.fallback
            ∙ rw
                (
                  one.boot,
                  w.last,
                  w.original,
                  w.walking,
                  w.list,
                  w.current,
                  f.memory,
                  format_broker_list_addr-memory b,
                  w.connected,
                )
                refl,
        record {
          connected = w.connected;
          original = w.original;
          last = w.last;
          walking = w.walking;
          current = refl;
          list = w.list;
          fallback = w.fallback;
        },
        refl,
      )

  last_step :
      (failed : Broker) (c : Client)
      → Tries (failed ∷ []) c
      → (d : Client) × (connection_step conf a c ≡ again d)
        × (d.trying_original_server ≡ true)
        × (d.server ≡ some conf.original_server)
        × (d.tsp_version_fallback ≡ false)
  unfolding connect_failed try_next_broker next_in_list retry_wait
  last_step failed c w =
      let marked = mark_connect_failed conf (after_failure f.context c) in
      let back : Client = record marked {
        server = some conf.original_server;
        cycle = 0;
        trying_original_server = true;
        consec_retry = 2;
      } in
      (
        back,
        failing_step c w.fallback
            ∙ rw (one.boot, w.last, w.original, w.walking, w.list, w.current, f.memory, w.connected)
                refl,
        refl,
        refl,
        w.fallback,
      )

  IsAbandoned-step :
      (c : Client)
      → IsAbandoned c
      → (d : Client) × (connection_step conf a c ≡ again d) × IsAbandoned d × (d.server ≡ c.server)
  unfolding connect_failed retry_wait
  IsAbandoned-step c w =
      let marked = mark_connect_failed conf (after_failure f.context c) in
      (
        record marked { consec_retry = 2 },
        failing_step c w.fallback ∙ rw (one.boot, w.last, w.original, w.walking, w.connected) refl,
        record {
          connected = w.connected;
          original = w.original;
          last = w.last;
          walking = w.walking;
          fallback = w.fallback;
        },
        refl,
      )

IsAbandoned-run :
    (conf : Config) (attempts : List Attempt) (c : Client)
    → HasOneTransport conf
    → All ConnectFails attempts
    → IsAbandoned c
    → (d : Client) × (run_attempts conf attempts c ≡ again d)
      × IsAbandoned d
      × (d.server ≡ c.server)
unfolding run_attempts
IsAbandoned-run conf [] c one f w = (c, refl, w, refl)
IsAbandoned-run conf (a ∷ attempts) c one f w =
    let (d, step, w', server) = IsAbandoned-step conf one a f.0 c w in
    let (last, run, w'', server') = IsAbandoned-run conf attempts d one f.1 w' in
    (last, run_attempts-again conf a attempts c d step ∙ run, w'', server' ∙ server)

-- In the mode v6udpv4, which has one transport, and outside boot mode: a client that tries neither the
-- original nor the last server, as while a broker of a list is tried, and enters the connection loop
-- anew, is left with that server. After any number of attempts that fail to connect, with memory for
-- an address and without a stop notification, its address is still the server, and the client does
-- not try the original server.
pub abandoned_walk :
    (conf : Config) (attempts : List Attempt) (c : Client)
    → HasOneTransport conf
    → All ConnectFails attempts
    → c.trying_original_server ≡ false
    → c.read_last_server ≡ false
    → (d : Client) × (run_attempts conf attempts (enter_loop c) ≡ again d)
      × (d.server ≡ c.server)
      × (d.trying_original_server ≡ false)
unfolding enter_loop
abandoned_walk conf attempts c one f original last =
    let w : IsAbandoned (enter_loop c) = record {
      connected = refl;
      original = original;
      last = last;
      walking = refl;
      fallback = refl;
    } in
    let (d, run, w', server) = IsAbandoned-run conf attempts (enter_loop c) one f w in
    (d, run, server, w'.original)

-- The mode v6udpv4, which has one transport, outside boot mode; a list being walked, from its first
-- broker on, with no last server and no change of version under way; no broker that can be connected
-- to, memory for an address each time, and no stop notification: the attempts go to the brokers in
-- the order of the list, each once, with its address as `FormatBrokerListAddr` writes it; after the
-- last the client goes back to the original server.
pub broker_walk :
    (conf : Config) (attempts : List Attempt) (b : Broker) (rest : List Broker) (c : Client)
    → HasOneTransport conf
    → All ConnectFails attempts
    → length attempts ≡ suc (length rest)
    → Tries (b ∷ rest) c
    → c.server ≡ address_of b
    → (servers_tried conf attempts c ≡ map address_of (b ∷ rest))
      × (d : Client) × (run_attempts conf attempts c ≡ again d)
      × (d.trying_original_server ≡ true)
      × (d.server ≡ some conf.original_server)
unfolding servers_tried run_attempts
broker_walk conf [] b rest c one f n w e = absurd (omega arith)
broker_walk conf (a ∷ []) b [] c one f n w e =
    let (d, step, original, server, _) = last_step conf one a f.0 b c w in
    (rw (servers_tried, step, e) refl, d, run_attempts-again conf a [] c d step, original, server)
broker_walk conf (a ∷ a' ∷ attempts) b [] c one f n w e = absurd (omega arith)
broker_walk conf (a ∷ attempts) b (b' ∷ rest) c one f n w e =
    let (d, step, tries, server) = next_step conf one a f.0 b b' rest c w in
    let (servers, last, run, original, back) =
      broker_walk conf attempts b' rest d one f.1 (omega arith) tries server in
    (
      rw (servers_tried, step, e, servers) refl,
      last,
      run_attempts-again conf a attempts c d step ∙ run,
      original,
      back,
    )
