-- ===== src/Config/Words.antt =====
-- The strings of src/lib/config.c, src/lib/cli.c and include/config.h.
use gogoc_android.Prelude.{[], ◌∷◌, ◌++◌}
use gogoc_android.Cstring.{Text}

abbrev pub data_dir : Text
data_dir =
    b'/' ∷ b'd' ∷ b'a' ∷ b't' ∷ b'a' ∷ b'/' ∷ b'd' ∷ b'a' ∷ b't' ∷ b'a' ∷ b'/' ∷ b'o' ∷ b'r' ∷ b'g'
    ∷ b'.' ∷ b'n' ∷ b'k' ∷ b'l' ∷ b'o' ∷ b'g' ∷ b'.' ∷ b'g' ∷ b'o' ∷ b'g' ∷ b'o' ∷ b'c' ∷ []

abbrev pub userid : Text
userid = b'u' ∷ b's' ∷ b'e' ∷ b'r' ∷ b'i' ∷ b'd' ∷ []

abbrev pub passwd : Text
passwd = b'p' ∷ b'a' ∷ b's' ∷ b's' ∷ b'w' ∷ b'd' ∷ []

abbrev pub server : Text
server = b's' ∷ b'e' ∷ b'r' ∷ b'v' ∷ b'e' ∷ b'r' ∷ []

abbrev pub auth_method : Text
auth_method = b'a' ∷ b'u' ∷ b't' ∷ b'h' ∷ b'_' ∷ b'm' ∷ b'e' ∷ b't' ∷ b'h' ∷ b'o' ∷ b'd' ∷ []

abbrev pub gogoc_dir : Text
gogoc_dir = b'g' ∷ b'o' ∷ b'g' ∷ b'o' ∷ b'c' ∷ b'_' ∷ b'd' ∷ b'i' ∷ b'r' ∷ []

abbrev pub template : Text
template = b't' ∷ b'e' ∷ b'm' ∷ b'p' ∷ b'l' ∷ b'a' ∷ b't' ∷ b'e' ∷ []

abbrev pub broker_list : Text
broker_list = b'b' ∷ b'r' ∷ b'o' ∷ b'k' ∷ b'e' ∷ b'r' ∷ b'_' ∷ b'l' ∷ b'i' ∷ b's' ∷ b't' ∷ []

abbrev pub dsa_keys : Text
dsa_keys = b'd' ∷ b's' ∷ b'a' ∷ b'_' ∷ b'k' ∷ b'e' ∷ b'y' ∷ b's' ∷ []

abbrev pub last_server : Text
last_server = b'l' ∷ b'a' ∷ b's' ∷ b't' ∷ b'_' ∷ b's' ∷ b'e' ∷ b'r' ∷ b'v' ∷ b'e' ∷ b'r' ∷ []

abbrev pub if_prefix : Text
if_prefix = b'i' ∷ b'f' ∷ b'_' ∷ b'p' ∷ b'r' ∷ b'e' ∷ b'f' ∷ b'i' ∷ b'x' ∷ []

abbrev pub dns_server : Text
dns_server = b'd' ∷ b'n' ∷ b's' ∷ b'_' ∷ b's' ∷ b'e' ∷ b'r' ∷ b'v' ∷ b'e' ∷ b'r' ∷ []

abbrev pub tunnel_mode : Text
tunnel_mode = b't' ∷ b'u' ∷ b'n' ∷ b'n' ∷ b'e' ∷ b'l' ∷ b'_' ∷ b'm' ∷ b'o' ∷ b'd' ∷ b'e' ∷ []

abbrev pub if_tunnel_v6v4 : Text
if_tunnel_v6v4 =
    b'i' ∷ b'f' ∷ b'_' ∷ b't' ∷ b'u' ∷ b'n' ∷ b'n' ∷ b'e' ∷ b'l' ∷ b'_' ∷ b'v' ∷ b'6' ∷ b'v' ∷ b'4'
    ∷ []

abbrev pub if_tunnel_v6udpv4 : Text
if_tunnel_v6udpv4 =
    b'i' ∷ b'f' ∷ b'_' ∷ b't' ∷ b'u' ∷ b'n' ∷ b'n' ∷ b'e' ∷ b'l' ∷ b'_' ∷ b'v' ∷ b'6' ∷ b'u' ∷ b'd'
    ∷ b'p' ∷ b'v' ∷ b'4' ∷ []

abbrev pub if_tunnel_v4v6 : Text
if_tunnel_v4v6 =
    b'i' ∷ b'f' ∷ b'_' ∷ b't' ∷ b'u' ∷ b'n' ∷ b'n' ∷ b'e' ∷ b'l' ∷ b'_' ∷ b'v' ∷ b'4' ∷ b'v' ∷ b'6'
    ∷ []

abbrev pub v6v4 : Text
v6v4 = b'v' ∷ b'6' ∷ b'v' ∷ b'4' ∷ []

abbrev pub v6udpv4 : Text
v6udpv4 = b'v' ∷ b'6' ∷ b'u' ∷ b'd' ∷ b'p' ∷ b'v' ∷ b'4' ∷ []

abbrev pub v4v6 : Text
v4v6 = b'v' ∷ b'4' ∷ b'v' ∷ b'6' ∷ []

abbrev pub v6anyv4 : Text
v6anyv4 = b'v' ∷ b'6' ∷ b'a' ∷ b'n' ∷ b'y' ∷ b'v' ∷ b'4' ∷ []

abbrev pub user : Text
user = b'U' ∷ b'S' ∷ b'E' ∷ b'R' ∷ []

abbrev pub local0 : Text
local0 = b'L' ∷ b'O' ∷ b'C' ∷ b'A' ∷ b'L' ∷ b'0' ∷ []

abbrev pub local1 : Text
local1 = b'L' ∷ b'O' ∷ b'C' ∷ b'A' ∷ b'L' ∷ b'1' ∷ []

abbrev pub local2 : Text
local2 = b'L' ∷ b'O' ∷ b'C' ∷ b'A' ∷ b'L' ∷ b'2' ∷ []

abbrev pub local3 : Text
local3 = b'L' ∷ b'O' ∷ b'C' ∷ b'A' ∷ b'L' ∷ b'3' ∷ []

abbrev pub local4 : Text
local4 = b'L' ∷ b'O' ∷ b'C' ∷ b'A' ∷ b'L' ∷ b'4' ∷ []

abbrev pub local5 : Text
local5 = b'L' ∷ b'O' ∷ b'C' ∷ b'A' ∷ b'L' ∷ b'5' ∷ []

abbrev pub local6 : Text
local6 = b'L' ∷ b'O' ∷ b'C' ∷ b'A' ∷ b'L' ∷ b'6' ∷ []

abbrev pub local7 : Text
local7 = b'L' ∷ b'O' ∷ b'C' ∷ b'A' ∷ b'L' ∷ b'7' ∷ []

abbrev pub anonymous : Text
anonymous = b'a' ∷ b'n' ∷ b'o' ∷ b'n' ∷ b'y' ∷ b'm' ∷ b'o' ∷ b'u' ∷ b's' ∷ []

abbrev pub anonymous_server : Text
anonymous_server =
    b'a' ∷ b'n' ∷ b'o' ∷ b'n' ∷ b'y' ∷ b'm' ∷ b'o' ∷ b'u' ∷ b's' ∷ b'.' ∷ b'f' ∷ b'r' ∷ b'e' ∷ b'e'
    ∷ b'n' ∷ b'e' ∷ b't' ∷ b'6' ∷ b'.' ∷ b'n' ∷ b'e' ∷ b't' ∷ []

abbrev pub android : Text
android = b'a' ∷ b'n' ∷ b'd' ∷ b'r' ∷ b'o' ∷ b'i' ∷ b'd' ∷ []

abbrev pub broker_list_file_path : Text
broker_list_file_path =
    data_dir
    ++ (b'/' ∷ b'f' ∷ b'i' ∷ b'l' ∷ b'e' ∷ b's' ∷ b'/' ∷ b'b' ∷ b'r' ∷ b'o' ∷ b'k' ∷ b'e' ∷ b'r'
        ∷ b'_' ∷ b'l' ∷ b'i' ∷ b's' ∷ b't' ∷ b'_' ∷ b'f' ∷ b'i' ∷ b'l' ∷ b'e' ∷ [])

abbrev pub last_server_file_path : Text
last_server_file_path =
    data_dir
    ++ (b'/' ∷ b'f' ∷ b'i' ∷ b'l' ∷ b'e' ∷ b's' ∷ b'/' ∷ b'l' ∷ b'a' ∷ b's' ∷ b't' ∷ b'_' ∷ b's'
        ∷ b'e' ∷ b'r' ∷ b'v' ∷ b'e' ∷ b'r' ∷ b'_' ∷ b'f' ∷ b'i' ∷ b'l' ∷ b'e' ∷ [])

abbrev pub gogockeys_pub : Text
gogockeys_pub =
    b'g' ∷ b'o' ∷ b'g' ∷ b'o' ∷ b'c' ∷ b'k' ∷ b'e' ∷ b'y' ∷ b's' ∷ b'.' ∷ b'p' ∷ b'u' ∷ b'b' ∷ []

abbrev pub sit1 : Text
sit1 = b's' ∷ b'i' ∷ b't' ∷ b'1' ∷ []

abbrev pub tun : Text
tun = b't' ∷ b'u' ∷ b'n' ∷ []

abbrev pub sit0 : Text
sit0 = b's' ∷ b'i' ∷ b't' ∷ b'0' ∷ []

abbrev pub host : Text
host = b'h' ∷ b'o' ∷ b's' ∷ b't' ∷ []

abbrev pub auto : Text
auto = b'a' ∷ b'u' ∷ b't' ∷ b'o' ∷ []

abbrev pub log_filename_path : Text
log_filename_path =
    data_dir
    ++ (b'/' ∷ b'f' ∷ b'i' ∷ b'l' ∷ b'e' ∷ b's' ∷ b'/' ∷ b'g' ∷ b'o' ∷ b'g' ∷ b'o' ∷ b'c' ∷ b'.'
        ∷ b'l' ∷ b'o' ∷ b'g' ∷ [])

abbrev pub default_route : Text
default_route =
    b'd' ∷ b'e' ∷ b'f' ∷ b'a' ∷ b'u' ∷ b'l' ∷ b't' ∷ b'_' ∷ b'r' ∷ b'o' ∷ b'u' ∷ b't' ∷ b'e' ∷ []

abbrev pub gogoc_conf : Text
gogoc_conf = b'g' ∷ b'o' ∷ b'g' ∷ b'o' ∷ b'c' ∷ b'.' ∷ b'c' ∷ b'o' ∷ b'n' ∷ b'f' ∷ []

abbrev pub tsp_home_dir : Text
tsp_home_dir =
    b'/' ∷ b'u' ∷ b's' ∷ b'r' ∷ b'/' ∷ b'l' ∷ b'o' ∷ b'c' ∷ b'a' ∷ b'l' ∷ b'/' ∷ b'e' ∷ b't' ∷ b'c'
    ∷ b'/' ∷ b'g' ∷ b'o' ∷ b'g' ∷ b'o' ∷ b'c' ∷ []
