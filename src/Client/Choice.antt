-- ===== src/Client/Choice.antt =====
-- tsp_client.c, `tspMain`: the choice of the transport and of the protocol version at the head of the
-- connection loop.
use gogoc_android.Prelude.{
  ℕ, ◌+◌, Bool, true, false, Option, none, some, ltb, ◌==◌, ◌&&◌, if◌then◌else◌,
}
use gogoc_android.Client.{
  v6v4, v6udpv4, v6anyv4, v4v6, dslite, Transport, rudp, tcp, tcp6, rudp6, Config, Client,
}

abbrev pub client_version_index_2_0_0 : ℕ
client_version_index_2_0_0 = 2

abbrev pub client_version_index_oldest : ℕ
client_version_index_oldest = 3

-- One of the two cases of the inner `switch`: with a fallback asked for, the next older version, if
-- there is one before `start`; else the current version. `none` sets `connected` to 0.
unfoldable pub choose_version : ℕ → ℕ → Transport → Client → Option Client
choose_version start cycle transport c =
    if c.tsp_version_fallback
    then (if ltb c.version_index start && ltb c.version_index client_version_index_oldest
        then some (record c {
          version_index = c.version_index + 1;
          tsp_version_fallback = false;
          cycle = cycle;
          transport = transport;
        })
        else none)
    else some (record c { version_index = 0; cycle = cycle; transport = transport })

-- The two transports of a tunnel mode; any cycle but 1 is the first.
unfoldable pub choose_of_two : ℕ → Transport → Transport → Client → Option Client
choose_of_two start first second c =
    if c.cycle == 1 then choose_version start 1 second c else choose_version start 0 first c

unfoldable pub choose_transport : Config → Client → Option Client
choose_transport conf c = elim conf.tunnel_mode [
  | v6udpv4 ↦ choose_version client_version_index_2_0_0 0 rudp c
  | v6anyv4 ↦ choose_of_two client_version_index_oldest rudp tcp c
  | v6v4 ↦ choose_of_two client_version_index_oldest rudp tcp c
  | v4v6 ↦
      if conf.v4v6_support then choose_of_two client_version_index_2_0_0 rudp6 tcp6 c else some c
  | dslite ↦ some c
]

abbrev pub is_rudp : Transport → Bool
is_rudp rudp = true
is_rudp _ = false

abbrev pub is_rudp6 : Transport → Bool
is_rudp6 rudp6 = true
is_rudp6 _ = false

-- whether another transport remains to be tried at once
unfoldable pub is_quick_cycle : Config → Transport → Bool
is_quick_cycle conf transport = elim conf.tunnel_mode [
  | v6anyv4 ↦ is_rudp transport
  | v6v4 ↦ is_rudp transport
  | v4v6 ↦ conf.v4v6_support && is_rudp6 transport
  | _ ↦ false
]
