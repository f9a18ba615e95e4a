-- ===== src/Session/Tests.antt =====
-- Sessions and their parts at concrete inputs.
use gogoc_android.Prelude.{
  length, ◌-◌, ◌<◌, ◌≡◌, ◌⊎◌, inl, refl, true, false, [], ◌∷◌, ◌++◌, none, some, arith,
}
use gogoc_android.Cstring.{Text, verbatim, text_eq}
use gogoc_android.Cstring.Numbers.{pos, atoi, digits_value}
use gogoc_android.Status.{
  tsp_tun_negotiation, unspecified, tsp_capabilities, err_fail_socket_connect, success,
  err_tsp_generic_error, evnt_broker_redirection, err_broker_redirection,
}
use gogoc_android.Redirect.{ipv6, Broker, is_redirect_status}
use gogoc_android.Redirect.Files.{no_name, not_opened}
use gogoc_android.Redirect.Sorting.{Resources}
use gogoc_android.Client.{
  v6v4, v6udpv4, rudp, Attempt, Config, Client, disconnected_idle, disconnected_error, uis_no_error,
  uis_err_fail_socket_connect,
}
use gogoc_android.Client.Choice.{choose_transport, choose_version, is_quick_cycle}
use gogoc_android.Client.Retry.{retry_wait}
use gogoc_android.Client.Loop.{again, run_attempts, enter_loop, connection_step, attempt_tunnel}
use gogoc_android.Client.Loop.Invariant.{IsWalking, IsBounded}
use gogoc_android.Client.Outcome.{
  format_broker_list_addr, outcome, connect_failed, try_broker_list_file,
}
use gogoc_android.Session.Address.{
  parsed, parse_addr_port, parse_buffer, parse_host, parse_name, parse_port, strtok, skip_all,
  break_at, contains,
}
use gogoc_android.Session.Address.Laws.{broker_address_roundtrip}
use gogoc_android.Session.Reply.{Peer, get_status_code}
use gogoc_android.Session.Capability.{extract_capability, get_capabilities, after_prefix}
use gogoc_android.Session.Capability.Laws.{
  Pair, IsPair, print_pairs, flags_of, extract_capability_roundtrip,
}
use gogoc_android.Session.Challenge.{
  extract_challenge, challenge_loop, record_value, chop_quotes, chop_last_quote,
  insert_in_challenge_struct,
}
use gogoc_android.Session.Response.{
  Digest, Fields, Credentials, prepare, digest_response, digest_a1, hash_a1, is_bug1455, version_at,
  is_after, before_nul,
}
use gogoc_android.Session.Authenticate.{
  auth_digest_md5, answer_challenge, server_proof, check_server, final_reply, respond,
}
use gogoc_android.Session.Authenticate.Laws.{Proved, digest_mutual}
use gogoc_android.Session.Exchange.{
  connected, connect, complete, protocol_error, content_length_prefix, after_newline,
  receive_payload, receive_rest, send_recv, Payload,
}
use gogoc_android.Session.Exchange.Laws.{send_recv_complete}
use gogoc_android.Session.Setup.{
  Session, tunnel_negotiation, setup_tunnel, setup_server, talk, go_on, capability_failure,
  session_attempt,
}
use gogoc_android.Session.Setup.Laws.{setup_tunnel_frames, client_loop_safe}
use gogoc_android.Session.Setup.Truncation.{truncated_reply_is_generic_error}

abbrev ipv6_broker : Broker
ipv6_broker = record { address = b'f' ∷ b':' ∷ b':' ∷ b'1' ∷ []; address_type = ipv6; distance = 3 }

broker_address_roundtrip_example :
    (server : Text) × (format_broker_list_addr true ipv6_broker ≡ (true, some server))
    × (parse_addr_port true server 3653 ≡ parsed (b'f' ∷ b':' ∷ b':' ∷ b'1' ∷ []) 3653)
broker_address_roundtrip_example =
    broker_address_roundtrip ipv6_broker 3653 (ground arith) (omega arith)

abbrev anonymous_pair : Pair
anonymous_pair = (b'A' ∷ b'U' ∷ b'T' ∷ b'H' ∷ [], b'P' ∷ b'L' ∷ b'A' ∷ b'I' ∷ b'N' ∷ [])

abbrev tunnel_pair : Pair
tunnel_pair = (b'T' ∷ b'U' ∷ b'N' ∷ b'N' ∷ b'E' ∷ b'L' ∷ [], b'V' ∷ b'6' ∷ b'V' ∷ b'4' ∷ [])

anonymous_pair-IsPair : IsPair anonymous_pair
anonymous_pair-IsPair = ground arith

tunnel_pair-IsPair : IsPair tunnel_pair
tunnel_pair-IsPair = ground arith

extract_capability_roundtrip_example :
    extract_capability (print_pairs tunnel_pair (anonymous_pair ∷ []) (b'\r' ∷ b'\n' ∷ []))
    ≡ flags_of 0 (tunnel_pair ∷ anonymous_pair ∷ [])
extract_capability_roundtrip_example =
    extract_capability_roundtrip tunnel_pair (anonymous_pair ∷ []) tunnel_pair-IsPair
      (anonymous_pair-IsPair, tt)

abbrev user : Text
user = b'm' ∷ b'"' ∷ []

abbrev frame : Text
frame = content_length_prefix ++ (b' ' ∷ b'3' ∷ b'\r' ∷ b'\n' ∷ b'2' ∷ [])

abbrev declared_text : Text
declared_text = b' ' ∷ b'3' ∷ b'\r' ∷ b'\n' ∷ b'2' ∷ []

frame-declared : atoi declared_text ≡ pos 3
unfolding atoi digits_value
frame-declared = refl

frame-prefix : after_prefix content_length_prefix frame ≡ some declared_text
unfolding after_prefix
frame-prefix = refl

frame-body : after_newline frame ≡ some (b'2' ∷ [])
unfolding after_newline
frame-body = refl

frame-complete :
    send_recv (some frame) (some (b'0' ∷ b'0' ∷ []) ∷ []) ≡ complete (b'2' ∷ b'0' ∷ b'0' ∷ [])
unfolding send_recv receive_payload receive_rest after_prefix after_newline atoi digits_value
frame-complete = refl

send_recv_complete_example :
    (buffer declared body more : Text) × (some frame ≡ some buffer)
    × (after_prefix content_length_prefix buffer ≡ some declared)
    × (atoi declared ≡ pos 3)
    × (0 < 3)
    × (after_newline buffer ≡ some body)
    × ((b'2' ∷ b'0' ∷ b'0' ∷ []) ≡ body ++ more)
    × (receive_rest (3 - length body) (some (b'0' ∷ b'0' ∷ []) ∷ []) ≡ (true, more))
send_recv_complete_example =
    send_recv_complete (some frame) (some (b'0' ∷ b'0' ∷ []) ∷ []) (b'2' ∷ b'0' ∷ b'0' ∷ [])
      frame-complete

abbrev payload : Payload
payload = record { capacity = 2048; size = 10 }

abbrev resources : Resources
resources = record {
  thread_array = true;
  thread_arguments = true;
  thread_create = λ n. true;
  thread_join = λ n. true;
  new_element = λ n. true;
  echo_request = λ b. b.distance;
}

abbrev peer : Peer
peer = record {
  handler = record {
    printf = verbatim;
    memory = λ n. true;
    resources = resources;
    broker_list_file = no_name;
  };
  extract = λ s. none;
}

-- `realm=r,nonce=q,qop=a,charset=u`
abbrev challenge_text : Text
challenge_text =
    b'r' ∷ b'e' ∷ b'a' ∷ b'l' ∷ b'm' ∷ b'=' ∷ b'r' ∷ b',' ∷ b'n' ∷ b'o' ∷ b'n' ∷ b'c' ∷ b'e' ∷ b'='
    ∷ b'q' ∷ b',' ∷ b'q' ∷ b'o' ∷ b'p' ∷ b'=' ∷ b'a' ∷ b',' ∷ b'c' ∷ b'h' ∷ b'a' ∷ b'r' ∷ b's'
    ∷ b'e' ∷ b't' ∷ b'=' ∷ b'u' ∷ []

-- 16 bytes, with a 0 behind the first
abbrev digest_bytes : Text
digest_bytes =
    b'd' ∷ 0 ∷ b'e' ∷ b'e' ∷ b'e' ∷ b'e' ∷ b'e' ∷ b'e' ∷ b'e' ∷ b'e' ∷ b'e' ∷ b'e' ∷ b'e' ∷ b'e'
    ∷ b'e' ∷ b'e' ∷ []

-- the digest of every text is `x`
abbrev digest : Digest
digest = record {
  memory = λ n. true;
  base64decode = λ s. s;
  base64encode = λ s. s;
  md5 = λ s. b'x' ∷ [];
  md5digest = λ s. digest_bytes;
  cnonce = b'7' ∷ [];
  challenge_reply = some challenge_text;
  response_reply = λ s. some (b'r' ∷ b's' ∷ b'p' ∷ b'a' ∷ b'u' ∷ b't' ∷ b'h' ∷ b'=' ∷ b'x' ∷ []);
  last_reply = some (b'2' ∷ b'0' ∷ b'0' ∷ []);
}

abbrev credentials : Credentials
credentials = record {
  server = b's' ∷ [];
  userid = user;
  passwd = b'p' ∷ [];
  auth_method = b'a' ∷ b'n' ∷ b'y' ∷ [];
}

digest-success : (auth_digest_md5 peer digest credentials 2 []).0.1 ≡ success
unfolding auth_digest_md5 answer_challenge server_proof check_server final_reply prepare respond
    extract_challenge challenge_loop record_value chop_quotes chop_last_quote
    insert_in_challenge_struct text_eq atoi digits_value get_status_code is_redirect_status
    digest_response
digest-success = refl

-- the text that is digested for A1, with and without the part behind the 0
abbrev plain_digest : Digest
plain_digest = record digest { md5 = λ s. s }

abbrev challenge : Fields
challenge = record { realm = b'r' ∷ []; nonce = b'q' ∷ []; qop = b'a' ∷ []; charset = b'u' ∷ [] }

digest_a1-2_0_1 :
    digest_a1 plain_digest credentials challenge 1
    ≡ digest_bytes ++ (b':' ∷ b'q' ∷ b':' ∷ b'7' ∷ [])
unfolding digest_a1 hash_a1 is_bug1455 version_at is_after before_nul
digest_a1-2_0_1 = refl

digest_a1-2_0_0 : digest_a1 plain_digest credentials challenge 2 ≡ b'd' ∷ []
unfolding digest_a1 hash_a1 is_bug1455 version_at is_after before_nul
digest_a1-2_0_0 = refl

digest_a1-1_0_1 : digest_a1 plain_digest credentials challenge 3 ≡ b'd' ∷ []
unfolding digest_a1 hash_a1 is_bug1455 version_at is_after before_nul
digest_a1-1_0_1 = refl

digest_mutual_example : Proved digest credentials 2
digest_mutual_example = digest_mutual peer digest credentials [] 2 digest-success

abbrev cut_frame : Text
cut_frame = content_length_prefix ++ (b' ' ∷ b'9' ∷ b'\r' ∷ b'\n' ∷ b'2' ∷ b'0' ∷ b'0' ∷ [])

abbrev session : Session
session = record {
  peer = peer;
  tunnel_mode = v6v4;
  credentials = credentials;
  name_memory = true;
  opening = connected;
  capability_reply = none;
  replies = record {
    digest = digest;
    plain_sent = true;
    plain_reply = none;
    anonymous_reply = none;
  };
  source_addr = (unspecified, success);
  negotiation_memory = true;
  received = send_recv (some cut_frame) [];
  acknowledged = true;
  start_local = (unspecified, success);
}

cut_frame-protocol_error : send_recv (some cut_frame) [] ≡ protocol_error cut_frame
unfolding send_recv receive_payload receive_rest after_prefix after_newline atoi digits_value
cut_frame-protocol_error = refl

truncated_reply_is_generic_error_example :
    tunnel_negotiation session 0 [] ≡ ((tsp_tun_negotiation, err_tsp_generic_error), [])
truncated_reply_is_generic_error_example =
    truncated_reply_is_generic_error session 0 [] (some cut_frame) [] cut_frame refl refl
      cut_frame-protocol_error

setup_tunnel_frames_example :
    let ((context, number), list') =
      setup_tunnel session rudp 0 (some (b's' ∷ [])) (ipv6_broker ∷ []) in
    (list' ≡ ipv6_broker ∷ [])
    ⊎ (number ≡ evnt_broker_redirection)
    ⊎ (number ≡ err_broker_redirection)
setup_tunnel_frames_example =
    setup_tunnel_frames session rudp 0 (some (b's' ∷ [])) (ipv6_broker ∷ [])

abbrev config : Config
config = record {
  tunnel_mode = v6udpv4;
  retry_delay = 30;
  retry_delay_max = 300;
  auto_retry_connect = true;
  boot_mode = false;
  has_broker_list_file = false;
  original_server = b's' ∷ [];
  v4v6_support = false;
}

abbrev client : Client
client = record {
  transport = rudp;
  server = some (b's' ∷ []);
  broker_list = [];
  trying_original_server = true;
  read_last_server = false;
  version_index = 0;
  connected = true;
  cycle = 0;
  tsp_version_fallback = false;
  quick_cycle = false;
  current_broker_in_list = [];
  trying_broker_list = false;
  effective_retry_delay = 0;
  consec_retry = 0;
  status = (unspecified, success);
  client_status = disconnected_idle;
  ui_status = uis_no_error;
}

-- a pass that makes the session above, whose server does not answer
abbrev attempt : Attempt
attempt = record {
  stop = false;
  setup = λ t v s list. ((unspecified, success), list);
  broker_list_file = not_opened;
  printf = verbatim;
  memory = λ n. true;
  address_memory = true;
}

abbrev after_silence : Client
after_silence = record client {
  cycle = 1;
  effective_retry_delay = 30;
  consec_retry = 2;
  status = (tsp_capabilities, err_fail_socket_connect);
  client_status = disconnected_error;
  ui_status = uis_err_fail_socket_connect;
}

silence :
    run_attempts config (session_attempt (attempt, session) ∷ []) (enter_loop client)
    ≡ again after_silence
unfolding run_attempts enter_loop connection_step choose_transport choose_version attempt_tunnel
    is_quick_cycle outcome connect_failed try_broker_list_file retry_wait setup_tunnel setup_server
    connect talk go_on get_capabilities capability_failure parse_addr_port parse_buffer parse_host
    parse_name parse_port strtok skip_all break_at contains
silence = refl

client_loop_safe_example : IsWalking after_silence × IsBounded after_silence
client_loop_safe_example =
    client_loop_safe config ((attempt, session) ∷ []) client after_silence (inl refl) silence
