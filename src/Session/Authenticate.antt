-- ===== src/Session/Authenticate.antt =====
-- tsp_auth.c: the authentication methods and the choice of one, on the server's replies.
pub mod Laws
use gogoc_android.Prelude.{
  ℕ, bit_and, Bool, not, List, [], ◌∷◌, Option, none, some, ltb, if◌then◌else◌, take,
}
use gogoc_android.Cstring.{Text, text_eq}
use gogoc_android.Cstring.Numbers.{is_number}
use gogoc_android.Status.{
  tsp_authentication, success, err_socket_io, err_authentication_failure, err_tsp_generic_error,
  err_memory_starvation, err_no_common_authentication,
}
use gogoc_android.Redirect.{is_redirect_status, Broker}
use gogoc_android.Session.Reply.{
  tsp_protocol_success, tsp_protocol_auth_failed, get_status_code, Peer, Answer, redirect_reply,
}
use gogoc_android.Session.Capability.{
  text_eq_nocase, set_capability, auth_token, auth_any, auth_digest_md5_flag, auth_plain_flag,
  auth_anonymous_flag,
}
use gogoc_android.Session.Challenge.{extract_challenge}
use gogoc_android.Session.Response.{
  Digest, Credentials, digest_response, digest_answer, digest_allocations, Prepared, prepare,
  prepared, starved, null_field,
}

-- a reply that is no redirection and no success
abbrev pub generic_error : List Broker → Answer
generic_error list = ((tsp_authentication, err_tsp_generic_error), list)

unfoldable pub auth_anonymous : Peer → Option Text → List Broker → Answer
auth_anonymous peer none list = ((tsp_authentication, err_socket_io), list)
auth_anonymous peer (some reply) list =
    let status = get_status_code (some reply) in
    if is_redirect_status status
    then redirect_reply peer tsp_authentication reply list
    else if is_number status tsp_protocol_success
    then ((tsp_authentication, success), list)
    else generic_error list

-- the end of the plain and of the digest authentication
unfoldable pub final_reply : Peer → Option Text → List Broker → Answer
final_reply peer none list = ((tsp_authentication, err_socket_io), list)
final_reply peer (some reply) list =
    let status = get_status_code (some reply) in
    if is_redirect_status status
    then redirect_reply peer tsp_authentication reply list
    else if is_number status tsp_protocol_success
    then ((tsp_authentication, success), list)
    else if is_number status tsp_protocol_auth_failed
    then ((tsp_authentication, err_authentication_failure), list)
    else generic_error list

-- `sent` says whether the name of the method could be sent.
unfoldable pub auth_plain : Peer → Bool → Option Text → List Broker → Answer
auth_plain peer sent reply list =
    if sent then final_reply peer reply list else ((tsp_authentication, err_socket_io), list)

-- The last part: the server's proof is compared with the response that it should have computed, and
-- its last reply is read. `proof` is the `rspauth` of its second challenge; `memcmp` of a NULL one ends
-- the program, for which the model gives the generic error.
unfoldable pub check_server : Peer → Digest → Text → Option Text → List Broker → Answer
check_server peer d expected none list = generic_error list
check_server peer d expected (some proof) list =
    if text_eq (take 32 proof) (take 32 expected)
    then final_reply peer d.last_reply list
    else ((tsp_authentication, err_authentication_failure), list)

-- after the response was sent
unfoldable pub server_proof : Peer → Digest → Text → Option Text → List Broker → Answer
server_proof peer d expected none list = ((tsp_authentication, err_socket_io), list)
server_proof peer d expected (some reply) list =
    let status = get_status_code (some reply) in
    if is_redirect_status status
    then redirect_reply peer tsp_authentication reply list
    else if is_number status tsp_protocol_auth_failed
    then ((tsp_authentication, err_authentication_failure), list)
    else if d.memory digest_allocations
    then check_server peer d expected (extract_challenge (d.base64decode reply)).rspauth list
    else ((tsp_authentication, err_memory_starvation), list)

-- The response to the challenge; for the end of the program at a NULL field the model gives the generic
-- error.
unfoldable pub respond : Peer → Digest → Credentials → ℕ → Prepared → List Broker → Answer
respond peer d u version_index (prepared c) list =
    server_proof peer d (digest_response d u c version_index [])
      (d.response_reply (d.base64encode (digest_answer d u c version_index))) list
respond peer d u version_index starved list = ((tsp_authentication, err_memory_starvation), list)
respond peer d u version_index null_field list = generic_error list

-- after the challenge came
unfoldable pub answer_challenge :
    Peer → Digest → Credentials → ℕ → Option Text → List Broker → Answer
answer_challenge peer d u version_index none list = ((tsp_authentication, err_socket_io), list)
answer_challenge peer d u version_index (some reply) list =
    let status = get_status_code (some reply) in
    let c = extract_challenge (d.base64decode reply) in
    if is_redirect_status status
    then redirect_reply peer tsp_authentication reply list
    else if is_number status tsp_protocol_auth_failed
    then ((tsp_authentication, err_authentication_failure), list)
    else respond peer d u version_index (prepare d.memory c) list

-- `AuthDIGEST_MD5`
unfoldable pub auth_digest_md5 : Peer → Digest → Credentials → ℕ → List Broker → Answer
auth_digest_md5 peer d u version_index list =
    answer_challenge peer d u version_index d.challenge_reply list

-- the replies that the other two methods get
pub record Replies : Type 0 where
  pub digest : Digest
  pub plain_sent : Bool
  pub plain_reply : Option Text
  pub anonymous_reply : Option Text

abbrev pub any_word : Text
any_word = b'a' ∷ b'n' ∷ b'y' ∷ []

abbrev pub anonymous_word : Text
anonymous_word = b'a' ∷ b'n' ∷ b'o' ∷ b'n' ∷ b'y' ∷ b'm' ∷ b'o' ∷ b'u' ∷ b's' ∷ []

-- the flags of the methods that the settings allow
unfoldable pub mechanism : Text → ℕ
mechanism auth_method =
    if text_eq_nocase auth_method any_word then auth_any else set_capability auth_token auth_method

-- whether the settings and the server share a method
abbrev pub shares : ℕ → ℕ → ℕ → Bool
shares allowed cap flag = ltb 0 (bit_and (bit_and allowed cap) flag)

-- `tspAuthenticate`: digest, then plain; anonymous only if that is the setting.
unfoldable pub authenticate : Peer → Replies → Credentials → ℕ → ℕ → List Broker → Answer
authenticate peer r u cap version_index list =
    let allowed = mechanism u.auth_method in
    let none_common : Answer = ((tsp_authentication, err_no_common_authentication), list) in
    if not (text_eq_nocase u.auth_method anonymous_word)
    then (if shares allowed cap auth_digest_md5_flag
        then auth_digest_md5 peer r.digest u version_index list
        else if shares allowed cap auth_plain_flag
        then auth_plain peer r.plain_sent r.plain_reply list
        else none_common)
    else (if shares allowed cap auth_anonymous_flag
        then auth_anonymous peer r.anonymous_reply list
        else none_common)
