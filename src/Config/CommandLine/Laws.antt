-- ===== src/Config/CommandLine/Laws.antt =====
-- The options of the command line: each has the value of its last occurrence, and goes before what
-- the file says.
use gogoc_android.Prelude.{
  ℕ, ◌≡◌, ◌∙◌, refl, Bool, true, false, ◌||◌, List, [], ◌∷◌, ◌++◌, Option, none, some, arith,
}
use gogoc_android.Cstring.{Text}
use gogoc_android.Cstring.Numbers.{ℤ, atoi}
use gogoc_android.Status.{cfg_validation, success}
use gogoc_android.Client.{TunnelMode}
use gogoc_android.Config.{Settings}
use gogoc_android.Config.Words
use gogoc_android.Config.Lines.{parsed, read_config_file}
use gogoc_android.Config.CommandLine.{
  CmdLine, no_options, Switch, boot, daemon, questions, help, unknown, source, interface, mode,
  udp_interface, file, retry, switch_of, mode_option, Arguments, given, exits, run_switch,
  parse_arguments, or_else, override, started, set_script_dir, find_script_dir, after_reading,
  System, after_arguments, tsp_initialize,
}

-- the last value that an option gives
unfoldable pub last_of {ℓ} : {A : Type ℓ} → (Switch → Option A) → List Switch → Option A
last_of f [] = none
last_of f (sw ∷ rest) = or_else (last_of f rest) (f sw)

pub occurs : (Switch → Bool) → List Switch → Bool
occurs f [] = false
occurs f (sw ∷ rest) = occurs f rest || f sw

abbrev pub is_boot : Switch → Bool
is_boot boot = true
is_boot _ = false

abbrev pub is_daemon : Switch → Bool
is_daemon daemon = true
is_daemon _ = false

abbrev pub is_questions : Switch → Bool
is_questions questions = true
is_questions _ = false

abbrev pub source_of : Switch → Option Text
source_of (source optarg) = some optarg
source_of _ = none

abbrev pub interface_of : Switch → Option Text
interface_of (interface optarg) = some optarg
interface_of _ = none

abbrev pub udp_interface_of : Switch → Option Text
udp_interface_of (udp_interface optarg) = some optarg
udp_interface_of _ = none

abbrev pub mode_of : Switch → Option TunnelMode
mode_of (mode optarg) = mode_option optarg none
mode_of _ = none

abbrev pub file_of : Switch → Option Text
file_of (file optarg) = some optarg
file_of _ = none

abbrev pub retry_of : Switch → Option ℤ
retry_of (retry optarg) = some (atoi optarg)
retry_of _ = none

-- the code with which `-h`, `-?` or an unknown option ends the client
abbrev pub exit_of : Switch → Option ℕ
exit_of help = some 0
exit_of unknown = some 1
exit_of _ = none

unfoldable pub first_exit : List Switch → Option ℕ
first_exit [] = none
first_exit (sw ∷ rest) = or_else (exit_of sw) (first_exit rest)

abbrev pub switches : List (ℕ × Text) → List Switch
switches [] = []
switches ((ch, optarg) ∷ options) = switch_of ch optarg ∷ switches options

abbrev pub value_or {ℓ} : {A : Type ℓ} → Option A → A → A
value_or none old = old
value_or (some a) old = a

-- the options over what was set before them
pub options_line : List Switch → CmdLine → CmdLine
unfolding last_of occurs
options_line sws conf = record {
  boot_mode = occurs is_boot sws || conf.boot_mode;
  nodaemon = occurs is_daemon sws || conf.nodaemon;
  no_questions = occurs is_questions sws || conf.no_questions;
  client_v4 = or_else (last_of source_of sws) conf.client_v4;
  if_tunnel_v6v4 = or_else (last_of interface_of sws) conf.if_tunnel_v6v4;
  if_tunnel_v6udpv4 = or_else (last_of udp_interface_of sws) conf.if_tunnel_v6udpv4;
  tunnel_mode = or_else (last_of mode_of sws) conf.tunnel_mode;
  retry_delay = value_or (last_of retry_of sws) conf.retry_delay;
  file_name = value_or (last_of file_of sws) conf.file_name;
}

abbrev pub arguments_of : Option ℕ → CmdLine → Arguments
arguments_of none conf = given conf
arguments_of (some code) conf = exits code

or_else-none {ℓ} : {A : Type ℓ} (o old : Option A) → or_else (or_else o none) old ≡ or_else o old
or_else-none none old = refl
or_else-none (some a) old = refl

mode_option-or_else :
    (optarg : Text) (old : Option TunnelMode)
    → mode_option optarg old ≡ or_else (mode_option optarg none) old
unfolding mode_option
mode_option-or_else optarg old = ground arith

run_switch-line :
    (sw : Switch) (sws : List Switch) (conf : CmdLine) (next : CmdLine → Arguments)
    → ((line : CmdLine) → next line ≡ arguments_of (first_exit sws) (options_line sws line))
    → run_switch sw conf next ≡ arguments_of (first_exit (sw ∷ sws)) (options_line (sw ∷ sws) conf)
unfolding run_switch first_exit options_line
run_switch-line boot sws conf next h = h (record conf { boot_mode = true }) ∙ ground arith
run_switch-line daemon sws conf next h = h (record conf { nodaemon = true }) ∙ ground arith
run_switch-line questions sws conf next h = h (record conf { no_questions = true }) ∙ ground arith
run_switch-line help sws conf next h = refl
run_switch-line unknown sws conf next h = refl
run_switch-line (source optarg) sws conf next h =
    h (record conf { client_v4 = some optarg }) ∙ ground arith
run_switch-line (interface optarg) sws conf next h =
    h (record conf { if_tunnel_v6v4 = some optarg }) ∙ ground arith
run_switch-line (mode optarg) sws conf next h =
    h (record conf { tunnel_mode = mode_option optarg conf.tunnel_mode })
    ∙ ground (arith, mode_option-or_else optarg conf.tunnel_mode)
run_switch-line (udp_interface optarg) sws conf next h =
    h (record conf { if_tunnel_v6udpv4 = some optarg }) ∙ ground arith
run_switch-line (file optarg) sws conf next h =
    h (record conf { file_name = optarg }) ∙ ground arith
run_switch-line (retry optarg) sws conf next h =
    h (record conf { retry_delay = atoi optarg }) ∙ ground arith

-- The first option that ends the client does so; without one, every option has the value of its last
-- occurrence, in whatever order the options stand.
pub parse_arguments-last :
    (options : List (ℕ × Text)) (conf : CmdLine)
    → parse_arguments options conf
      ≡ arguments_of (first_exit (switches options)) (options_line (switches options) conf)
unfolding parse_arguments options_line first_exit
parse_arguments-last [] conf = refl
parse_arguments-last ((ch, optarg) ∷ options) conf =
    run_switch-line (switch_of ch optarg) (switches options) conf (parse_arguments options)
      (parse_arguments-last options)

-- what is set before the file is read
abbrev pub prepared : System → Settings → Settings
prepared sys conf = record conf {
  syslog = false;
  protocol = sys.strdup Words.default_route;
  routing_info = sys.strdup [];
}

-- the settings of the file under the options
abbrev pub settings_of : List Switch → Settings → Settings
settings_of sws s = record s {
  if_tunnel_v6v4 = or_else (last_of interface_of sws) s.if_tunnel_v6v4;
  if_tunnel_v6udpv4 = or_else (last_of udp_interface_of sws) s.if_tunnel_v6udpv4;
  client_v4 = or_else (last_of source_of sws) s.client_v4;
  tunnel_mode = value_or (last_of mode_of sws) s.tunnel_mode;
  boot_mode = occurs is_boot sws;
  nodaemon = occurs is_daemon sws;
  no_questions = occurs is_questions sws;
}

override-options :
    (sws : List Switch) (s : Settings)
    → override (options_line sws no_options) s ≡ settings_of sws s
unfolding override options_line
override-options sws s = ground arith

-- With options of which none ends the client, a file that is read (the one that the last `-f`
-- names, or gogoc.conf), a directory in its settings that is not empty, and memory for the directory
-- of the scripts, tspInitialize succeeds; the settings are
-- those of the file with the last value of each option over them, but the retry delay stays that
-- of the file whatever `-r` says; the scripts are in the directory `template` of that directory.
pub tsp_initialize-options :
    (sys : System) (options : List (ℕ × Text)) (conf s : Settings) (c : ℕ) (dir : Text)
    → first_exit (switches options) ≡ none
    → read_config_file sys.strdup sys.malloc sys.realloc
        (sys.files (value_or (last_of file_of (switches options)) Words.gogoc_conf))
        (prepared sys conf)
      ≡ parsed s
    → s.tsp_dir ≡ some (c ∷ dir)
    → sys.script_memory ≡ true
    → tsp_initialize sys options conf
      ≡ started (record {
        status = (cfg_validation, success);
        settings = settings_of (switches options) s;
        home_dir = c ∷ dir;
        script_dir = some ((c ∷ dir) ++ (b'/' ∷ Words.template));
      })
unfolding tsp_initialize after_arguments after_reading find_script_dir set_script_dir options_line
tsp_initialize-options sys options conf s c dir safe read home memory =
    rw
      (
        parse_arguments-last options no_options,
        safe,
        read,
        override-options (switches options) s,
        home,
        memory,
      )
      refl
