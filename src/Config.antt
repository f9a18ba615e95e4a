-- ===== src/Config.antt =====
-- src/lib/config.c in its Android branch, with src/lib/cli.c and src/lib/cnfchk.c: the settings of
-- the client, the words of the configuration file and what each of its lines sets.
pub mod Words
pub mod Lines
pub mod CommandLine
pub mod Fix
mod Tests
use gogoc_android.Prelude.{ℕ, Bool, true, false, List, [], ◌∷◌, Option, none, some, if◌then◌else◌}
use gogoc_android.Cstring.{Text, text_eq}
use gogoc_android.Client.{TunnelMode, v6v4, v6udpv4, v6anyv4, v4v6}
use gogoc_android.Config.Words

-- `tConf`: what the Android branch and the command line set. A `char *` is `none` where it is NULL.
pub record Settings : Type 0 where
  pub tsp_dir : Option Text
  pub server : Option Text
  pub userid : Option Text
  pub passwd : Option Text
  pub auth_method : Option Text
  pub client_v4 : Option Text
  pub client_v6 : Option Text
  pub protocol : Option Text
  pub if_tunnel_v6v4 : Option Text
  pub if_tunnel_v6udpv4 : Option Text
  pub if_tunnel_v4v6 : Option Text
  pub dns_server : Option Text
  pub routing_info : Option Text
  pub if_prefix : Option Text
  pub template : Option Text
  pub host_type : Option Text
  pub log_filename : Option Text
  pub last_server_file : Option Text
  pub broker_list_file : Option Text
  pub dsa_key_file : Option Text
  pub keepalive_interval : ℕ
  pub prefixlen : ℕ
  pub retry_delay : ℕ
  pub retry_delay_max : ℕ
  pub syslog_facility : ℕ
  pub log_rotation_size : ℕ
  pub log_level_stderr : ℕ
  pub log_level_syslog : ℕ
  pub log_level_console : ℕ
  pub log_level_file : ℕ
  pub keepalive : Bool
  pub syslog : Bool
  pub proxy_client : Bool
  pub log_rotation : Bool
  pub log_rotation_delete : Bool
  pub always_use_same_server : Bool
  pub auto_retry_connect : Bool
  pub tunnel_mode : TunnelMode
  pub boot_mode : Bool
  pub nodaemon : Bool
  pub no_questions : Bool

-- the names that a line may set
pub data Key : Type 0 where
  userid_key : Key
  passwd_key : Key
  server_key : Key
  auth_method_key : Key
  gogoc_dir_key : Key
  template_key : Key
  broker_list_key : Key
  dsa_keys_key : Key
  last_server_key : Key
  if_prefix_key : Key
  dns_server_key : Key
  tunnel_mode_key : Key
  if_tunnel_v6v4_key : Key
  if_tunnel_v6udpv4_key : Key
  if_tunnel_v4v6_key : Key

abbrev pub key_name : Key → Text
key_name userid_key = Words.userid
key_name passwd_key = Words.passwd
key_name server_key = Words.server
key_name auth_method_key = Words.auth_method
key_name gogoc_dir_key = Words.gogoc_dir
key_name template_key = Words.template
key_name broker_list_key = Words.broker_list
key_name dsa_keys_key = Words.dsa_keys
key_name last_server_key = Words.last_server
key_name if_prefix_key = Words.if_prefix
key_name dns_server_key = Words.dns_server
key_name tunnel_mode_key = Words.tunnel_mode
key_name if_tunnel_v6v4_key = Words.if_tunnel_v6v4
key_name if_tunnel_v6udpv4_key = Words.if_tunnel_v6udpv4
key_name if_tunnel_v4v6_key = Words.if_tunnel_v4v6

-- the chain of `strcmp(name, ...)`
pub find_key : List Key → Text → Option Key
find_key [] name = none
find_key (key ∷ keys) name =
    let rest = find_key keys name in if text_eq name (key_name key) then some key else rest

abbrev pub keys : List Key
keys =
    userid_key ∷ passwd_key ∷ server_key ∷ auth_method_key ∷ gogoc_dir_key ∷ template_key
    ∷ broker_list_key ∷ dsa_keys_key ∷ last_server_key ∷ if_prefix_key ∷ dns_server_key
    ∷ tunnel_mode_key ∷ if_tunnel_v6v4_key ∷ if_tunnel_v6udpv4_key ∷ if_tunnel_v4v6_key ∷ []

-- the chain of `strcmp(value, ...)`: any other value leaves the mode as it is. `v6udpv4` is tested
-- twice.
pub tunnel_mode_of : Text → TunnelMode → TunnelMode
tunnel_mode_of value mode =
    if text_eq value Words.v6v4
    then v6v4
    else if text_eq value Words.v6udpv4
    then v6udpv4
    else if text_eq value Words.v4v6
    then v4v6
    else if text_eq value Words.v6udpv4
    then v6udpv4
    else if text_eq value Words.v6anyv4
    then v6anyv4
    else mode

-- `ParseSyslogFacility`: the first word of the table that is equal sets the facility; 1 if none is.
pub parse_syslog_facility : List (Text × ℕ) → Text → Settings → ℕ × Settings
parse_syslog_facility [] facility s = (1, s)
parse_syslog_facility ((string, value) ∷ table) facility s =
    let rest = parse_syslog_facility table facility s in
    if text_eq facility string then (0, record s { syslog_facility = value }) else rest

-- `syslog_facilities`, with the numbers of syslog.h
abbrev pub syslog_facilities : List (Text × ℕ)
syslog_facilities =
    (Words.user, 8)
    ∷ (Words.local0, 128)
    ∷ (Words.local1, 136)
    ∷ (Words.local2, 144)
    ∷ (Words.local3, 152)
    ∷ (Words.local4, 160)
    ∷ (Words.local5, 168)
    ∷ (Words.local6, 176)
    ∷ (Words.local7, 184)
    ∷ []

-- `pal_strdup` answers `none` where memory is short.
module _ (strdup : Text → Option Text) where
  -- what a line with a known name and a value does
  pub set_key : Key → Text → Settings → Settings
  unfolding tunnel_mode_of
  set_key userid_key value s = record s { userid = strdup value }
  set_key passwd_key value s = record s { passwd = strdup value }
  set_key server_key value s = record s { server = strdup value }
  set_key auth_method_key value s = record s { auth_method = strdup value }
  set_key gogoc_dir_key value s = record s { tsp_dir = strdup value }
  set_key template_key value s = record s { template = strdup value }
  set_key broker_list_key value s = record s { broker_list_file = strdup value }
  set_key dsa_keys_key value s = record s { dsa_key_file = strdup value }
  set_key last_server_key value s = record s { last_server_file = strdup value }
  set_key if_prefix_key value s = record s { if_prefix = strdup value }
  set_key dns_server_key value s = record s { dns_server = strdup value }
  set_key tunnel_mode_key value s = record s { tunnel_mode = tunnel_mode_of value s.tunnel_mode }
  set_key if_tunnel_v6v4_key value s = record s { if_tunnel_v6v4 = strdup value }
  set_key if_tunnel_v6udpv4_key value s = record s { if_tunnel_v6udpv4 = strdup value }
  set_key if_tunnel_v4v6_key value s = record s { if_tunnel_v4v6 = strdup value }

  -- the assignments before the file is opened
  pub defaults : Settings → Settings
  unfolding parse_syslog_facility
  defaults s =
      (parse_syslog_facility syslog_facilities Words.user (record s {
        auth_method = strdup Words.anonymous;
        server = strdup Words.anonymous_server;
        tsp_dir = strdup Words.data_dir;
        template = strdup Words.android;
        broker_list_file = strdup Words.broker_list_file_path;
        last_server_file = strdup Words.last_server_file_path;
        dsa_key_file = strdup Words.gogockeys_pub;
        if_prefix = strdup [];
        dns_server = strdup [];
        if_tunnel_v6v4 = strdup Words.sit1;
        if_tunnel_v6udpv4 = strdup Words.tun;
        if_tunnel_v4v6 = strdup Words.sit0;
        userid = strdup [];
        passwd = strdup [];
        host_type = strdup Words.host;
        client_v4 = strdup Words.auto;
        client_v6 = strdup Words.auto;
        log_filename = strdup Words.log_filename_path;
        prefixlen = 64;
        retry_delay = 30;
        retry_delay_max = 300;
        keepalive_interval = 30;
        log_level_console = 0;
        log_level_stderr = 0;
        log_level_syslog = 0;
        log_level_file = 3;
        log_rotation_size = 32;
        auto_retry_connect = true;
        keepalive = true;
        proxy_client = false;
        always_use_same_server = false;
        log_rotation = true;
        log_rotation_delete = true;
        tunnel_mode = v6anyv4;
      })).1
