-- ===== src/Config/Tests.antt =====
-- The configuration at concrete inputs.
use gogoc_android.Prelude.{
  ℕ, zero, suc, ◌≡◌, ◌≢◌, refl, true, false, List, [], ◌∷◌, ◌++◌, Option, none, some, All, arith,
}
use gogoc_android.Cstring.{Text, text_eq}
use gogoc_android.Status.{cfg_validation, success}
use gogoc_android.Client.{v6anyv4, v6udpv4}
use gogoc_android.Config.{
  Settings, server_key, tunnel_mode_key, userid_key, key_name, defaults, set_key,
}
use gogoc_android.Config.Words
use gogoc_android.Config.Lines.{
  Realloc, moved, parsed, null_value, freed_block, unfinished, read_config_file,
}
use gogoc_android.Config.Lines.Laws.{
  Entry, setting, comment, blank, print_entries, apply_entries, read_config_file-print, IsShortLine,
  line_of,
}
use gogoc_android.Config.Lines.Ending.{read_config_file_ends}
use gogoc_android.Config.Lines.Faults.{missing_value_faults, long_line_faults}
use gogoc_android.Config.CommandLine.{System, started, switch_of, tsp_initialize}
use gogoc_android.Config.CommandLine.Laws.{
  settings_of, switches, tsp_initialize-options, prepared, first_exit, last_of,
}

abbrev zeroed : Settings
zeroed = record {
  tsp_dir = none;
  server = none;
  userid = none;
  passwd = none;
  auth_method = none;
  client_v4 = none;
  client_v6 = none;
  protocol = none;
  if_tunnel_v6v4 = none;
  if_tunnel_v6udpv4 = none;
  if_tunnel_v4v6 = none;
  dns_server = none;
  routing_info = none;
  if_prefix = none;
  template = none;
  host_type = none;
  log_filename = none;
  last_server_file = none;
  broker_list_file = none;
  dsa_key_file = none;
  keepalive_interval = 0;
  prefixlen = 0;
  retry_delay = 0;
  retry_delay_max = 0;
  syslog_facility = 0;
  log_rotation_size = 0;
  log_level_stderr = 0;
  log_level_syslog = 0;
  log_level_console = 0;
  log_level_file = 0;
  keepalive = false;
  syslog = false;
  proxy_client = false;
  log_rotation = false;
  log_rotation_delete = false;
  always_use_same_server = false;
  auto_retry_connect = false;
  tunnel_mode = v6anyv4;
  boot_mode = false;
  nodaemon = false;
  no_questions = false;
}

abbrev copied : Text → Option Text
copied s = some s

abbrev always_moved : ℕ → Realloc
always_moved _ = moved

abbrev name : Text
name = b'a' ∷ b'=' ∷ b'b' ∷ b' ' ∷ []

-- a comment, a user name with an `=` in it, a blank line and two tunnel modes
abbrev entries : List Entry
entries =
    comment name
    ∷ setting userid_key name
    ∷ blank
    ∷ setting tunnel_mode_key Words.v6udpv4
    ∷ setting server_key name
    ∷ setting tunnel_mode_key name
    ∷ []

entries-IsShortLine : All IsShortLine entries
unfolding line_of
entries-IsShortLine = ground arith

read_config_file-print_example :
    read_config_file copied true always_moved (some (print_entries entries)) zeroed
    ≡ parsed (apply_entries copied entries (defaults copied zeroed))
read_config_file-print_example =
    read_config_file-print copied always_moved entries zeroed entries-IsShortLine

-- the value keeps its `=`, and the unknown mode leaves the one before
entries_set :
    ((apply_entries copied entries (defaults copied zeroed)).userid ≡ some name)
    × ((apply_entries copied entries (defaults copied zeroed)).tunnel_mode ≡ v6udpv4)
    × ((apply_entries copied entries (defaults copied zeroed)).retry_delay ≡ 30)
unfolding apply_entries set_key defaults text_eq
entries_set = (refl, refl, refl)

read_config_file_ends_example :
    read_config_file copied true always_moved (some (b'a' ∷ 0 ∷ b'\n' ∷ b'b' ∷ [])) zeroed
    ≢ unfinished
read_config_file_ends_example =
    read_config_file_ends copied true always_moved (some (b'a' ∷ 0 ∷ b'\n' ∷ b'b' ∷ [])) zeroed

missing_value_faults_example :
    read_config_file copied true always_moved
      (some (print_entries entries ++ (key_name server_key ++ (b'\n' ∷ []))))
      zeroed
    ≡ null_value
missing_value_faults_example =
    missing_value_faults copied always_moved entries server_key [] zeroed entries-IsShortLine

abbrev repeat : ℕ → ℕ → Text
repeat zero c = []
repeat (suc n) c = c ∷ repeat n c

long_line_faults_example :
    read_config_file copied true always_moved
      (some (print_entries entries ++ (repeat 255 b'#' ++ (b'\n' ∷ []))))
      zeroed
    ≡ freed_block
long_line_faults_example =
    long_line_faults copied always_moved entries (repeat 255 b'#') b'\n' [] zeroed
      entries-IsShortLine (ground arith) refl refl

abbrev system : System
system = record {
  strdup = copied;
  malloc = true;
  realloc = always_moved;
  script_memory = true;
  files = λ _. some (print_entries entries);
  tsp_home_dir = Words.tsp_home_dir;
}

-- `-r 5 -m v6udpv4 -b -s a`
abbrev options : List (ℕ × Text)
options = (b'r', b'5' ∷ []) ∷ (b'm', Words.v6udpv4) ∷ (b'b', []) ∷ (b's', b'a' ∷ []) ∷ []

abbrev from_file : Settings
from_file = apply_entries copied entries (defaults copied (prepared system zeroed))

tsp_initialize-options_example :
    tsp_initialize system options zeroed
    ≡ started (record {
      status = (cfg_validation, success);
      settings = settings_of (switches options) from_file;
      home_dir = Words.data_dir;
      script_dir = some (Words.data_dir ++ (b'/' ∷ Words.template));
    })
unfolding first_exit apply_entries set_key defaults last_of switch_of text_eq
tsp_initialize-options_example =
    tsp_initialize-options system options zeroed from_file b'/' _ refl
      (read_config_file-print copied always_moved entries (prepared system zeroed)
        entries-IsShortLine)
      refl refl
