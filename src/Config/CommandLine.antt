-- ===== src/Config/CommandLine.antt =====
-- src/lib/cli.c: `ParseArguments`, on what getopt returns, and src/lib/config.c: `tspInitialize`.
pub mod Laws
use gogoc_android.Prelude.{
  ℕ, Bool, true, false, List, [], ◌∷◌, ◌++◌, Option, none, some, ◌==◌, ◌||◌, if◌then◌else◌,
}
use gogoc_android.Cstring.{Text, text_eq}
use gogoc_android.Cstring.Numbers.{ℤ, pos, atoi}
use gogoc_android.Status.{GogocStatus, cfg_validation, success, err_memory_starvation}
use gogoc_android.Client.{TunnelMode, v6v4, v6udpv4, v6anyv4, v4v6}
use gogoc_android.Config.{Settings}
use gogoc_android.Config.Words
use gogoc_android.Config.Lines.{
  Realloc, Parsed, parsed, null_value, freed_block, unfinished, read_config_file,
  read_config_status,
}

-- The `tConf` that the options fill, zeroed before: `none` for NULL and for the tunnel mode 0.
-- `file_name` is the variable `FileName`, which `-f` sets.
pub record CmdLine : Type 0 where
  pub boot_mode : Bool
  pub nodaemon : Bool
  pub no_questions : Bool
  pub client_v4 : Option Text
  pub if_tunnel_v6v4 : Option Text
  pub if_tunnel_v6udpv4 : Option Text
  pub tunnel_mode : Option TunnelMode
  pub retry_delay : ℤ
  pub file_name : Text

abbrev pub no_options : CmdLine
no_options = record {
  boot_mode = false;
  nodaemon = false;
  no_questions = false;
  client_v4 = none;
  if_tunnel_v6v4 = none;
  if_tunnel_v6udpv4 = none;
  tunnel_mode = none;
  retry_delay = pos 0;
  file_name = Words.gogoc_conf;
}

-- the cases of the `switch`, with the argument that the code reads in each
pub data Switch : Type 0 where
  boot daemon questions help unknown : Switch
  source interface mode udp_interface file retry : Text → Switch

-- what getopt returns, with `optarg`
unfoldable pub switch_of : ℕ → Text → Switch
switch_of ch optarg =
    if ch == b'b'
    then boot
    else if ch == b'n'
    then daemon
    else if ch == b'y'
    then questions
    else if ch == b's'
    then source optarg
    else if ch == b'i'
    then interface optarg
    else if ch == b'm'
    then mode optarg
    else if ch == b'u'
    then udp_interface optarg
    else if ch == b'f'
    then file optarg
    else if ch == b'r'
    then retry optarg
    else if (ch == b'?') || (ch == b'h')
    then help
    else unknown

-- `-m`: any other word leaves the mode as it is
pub mode_option : Text → Option TunnelMode → Option TunnelMode
mode_option optarg old =
    if text_eq optarg Words.v6v4
    then some v6v4
    else if text_eq optarg Words.v6udpv4
    then some v6udpv4
    else if text_eq optarg Words.v4v6
    then some v4v6
    else if text_eq optarg Words.v6anyv4
    then some v6anyv4
    else old

-- the options, or the client exits with a code
pub data Arguments : Type 0 where
  given : CmdLine → Arguments
  exits : ℕ → Arguments

pub run_switch : Switch → CmdLine → (CmdLine → Arguments) → Arguments
unfolding mode_option
run_switch boot conf next = next (record conf { boot_mode = true })
run_switch daemon conf next = next (record conf { nodaemon = true })
run_switch questions conf next = next (record conf { no_questions = true })
run_switch (source optarg) conf next = next (record conf { client_v4 = some optarg })
run_switch (interface optarg) conf next = next (record conf { if_tunnel_v6v4 = some optarg })
run_switch (mode optarg) conf next =
    next (record conf { tunnel_mode = mode_option optarg conf.tunnel_mode })
run_switch (udp_interface optarg) conf next = next (record conf { if_tunnel_v6udpv4 = some optarg })
run_switch (file optarg) conf next = next (record conf { file_name = optarg })
run_switch (retry optarg) conf next = next (record conf { retry_delay = atoi optarg })
run_switch help conf next = exits 0
run_switch unknown conf next = exits 1

-- `ParseArguments`, on the characters and arguments that getopt returns before -1
pub parse_arguments : List (ℕ × Text) → CmdLine → Arguments
unfolding run_switch switch_of
parse_arguments [] conf = given conf
parse_arguments ((ch, optarg) ∷ options) conf =
    run_switch (switch_of ch optarg) conf (parse_arguments options)

-- `if (CmdLine.x) pConf->x = CmdLine.x;`
abbrev pub or_else {ℓ} : {A : Type ℓ} → Option A → Option A → Option A
or_else none old = old
or_else (some a) old = some a

abbrev pub mode_or : Option TunnelMode → TunnelMode → TunnelMode
mode_or none old = old
mode_or (some m) old = m

-- the options go over the file; the retry delay is not among them
pub override : CmdLine → Settings → Settings
override line conf = record conf {
  if_tunnel_v6v4 = or_else line.if_tunnel_v6v4 conf.if_tunnel_v6v4;
  if_tunnel_v6udpv4 = or_else line.if_tunnel_v6udpv4 conf.if_tunnel_v6udpv4;
  client_v4 = or_else line.client_v4 conf.client_v4;
  tunnel_mode = mode_or line.tunnel_mode conf.tunnel_mode;
  boot_mode = line.boot_mode;
  nodaemon = line.nodaemon;
  no_questions = line.no_questions;
}

-- `home_dir` and `script_dir` are `TspHomeDir` and `ScriptDir`.
pub record Startup : Type 0 where
  pub status : GogocStatus
  pub settings : Settings
  pub home_dir : Text
  pub script_dir : Option Text

pub data Started : Type 0 where
  started : Startup → Started
  exited : ℕ → Started
  crashed : Started

-- `sprintf(ScriptDir, "%s%c%s", home, DirSeparator, "template")`, if its memory is given
pub set_script_dir : Bool → Settings → Text → Started
set_script_dir memory conf home =
    if memory
    then started (record {
      status = (cfg_validation, success);
      settings = conf;
      home_dir = home;
      script_dir = some (home ++ (b'/' ∷ Words.template));
    })
    else started (record {
      status = (cfg_validation, err_memory_starvation);
      settings = conf;
      home_dir = home;
      script_dir = none;
    })

-- the directory of the templates: that of the settings, unless it is empty
pub find_script_dir : Bool → Text → Settings → Option Text → Started
unfolding set_script_dir
find_script_dir memory home conf none = crashed
find_script_dir memory home conf (some []) = set_script_dir memory conf home
find_script_dir memory home conf (some (c ∷ dir)) = set_script_dir memory conf (c ∷ dir)

-- the status of `tspReadConfigFile` is a success whenever it returns, and is not tested further
pub after_reading : Bool → Text → CmdLine → Parsed → Started
unfolding override find_script_dir
after_reading memory home line (parsed conf) =
    find_script_dir memory home (override line conf) conf.tsp_dir
after_reading memory home line null_value = crashed
after_reading memory home line freed_block = crashed
after_reading memory home line unfinished = crashed

-- What the system answers: the copies of strings, the allocation of the line buffer, its growth and
-- the allocation of the script directory; the files by name; and the directory built in.
pub record System : Type 0 where
  pub strdup : Text → Option Text
  pub malloc : Bool
  pub realloc : ℕ → Realloc
  pub script_memory : Bool
  pub files : Text → Option Text
  pub tsp_home_dir : Text

-- after the options: the fields that cannot be configured, the file and the rest
pub after_arguments : System → Settings → Arguments → Started
unfolding after_reading
after_arguments sys conf (exits code) = exited code
after_arguments sys conf (given line) = after_reading sys.script_memory sys.tsp_home_dir line (
    read_config_file sys.strdup sys.malloc sys.realloc (sys.files line.file_name) (record conf {
      syslog = false;
      protocol = sys.strdup Words.default_route;
      routing_info = sys.strdup [];
    }))

-- `tspInitialize`. With no argument the options are not read, which is as if there were none.
pub tsp_initialize : System → List (ℕ × Text) → Settings → Started
unfolding parse_arguments after_arguments
tsp_initialize sys options conf = after_arguments sys conf (parse_arguments options no_options)
