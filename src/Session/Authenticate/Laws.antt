-- ===== src/Session/Authenticate/Laws.antt =====
-- Who is authenticated, and what a session does to the broker list.
use gogoc_android.Prelude.{
  ℕ, ◌≡◌, ◌≢◌, ◌⊎◌, refl, Bool, true, List, [], Option, none, some, arith, take,
}
use gogoc_android.Cstring.{Text, text_eq}
use gogoc_android.Status.{
  Context, tsp_capabilities, tsp_authentication, success, evnt_broker_redirection,
  err_broker_redirection,
}
use gogoc_android.Redirect.{Broker}
use gogoc_android.Session.Reply.{Peer, Answer, redirect_reply}
use gogoc_android.Session.Capability.{capability_status, get_capabilities}
use gogoc_android.Session.Challenge.{extract_challenge}
use gogoc_android.Session.Response.{
  Digest, Fields, Credentials, digest_answer, Prepared, prepared, starved, null_field, prepare,
  digest_response,
}
use gogoc_android.Session.Authenticate.{
  auth_anonymous, final_reply, auth_plain, check_server, server_proof, respond, answer_challenge,
  auth_digest_md5, Replies, authenticate,
}

-- the list is the one given, or the status is one of a redirection
abbrev pub Framed : List Broker → Answer → Type 0
Framed list ((context, number), list') =
    (list' ≡ list) ⊎ (number ≡ evnt_broker_redirection) ⊎ (number ≡ err_broker_redirection)

module _ (peer : Peer) (list : List Broker) where
  pub redirect_reply-Framed :
      (context : Context) (payload : Text) → Framed list (redirect_reply peer context payload list)
  unfolding redirect_reply
  redirect_reply-Framed context payload = ground arith

  pub capability_status-Framed : (datain : Text) → Framed list (capability_status peer datain list)
  unfolding capability_status
  capability_status-Framed datain = ground (arith, redirect_reply-Framed tsp_capabilities datain)

  pub get_capabilities-Framed :
      (reply : Option Text) → Framed list (get_capabilities peer reply list).0
  unfolding get_capabilities
  get_capabilities-Framed none = ground arith
  get_capabilities-Framed (some datain) = ground (arith, capability_status-Framed datain)

  final_reply-Framed : (reply : Option Text) → Framed list (final_reply peer reply list)
  unfolding final_reply
  final_reply-Framed none = ground arith
  final_reply-Framed (some reply) = ground (arith, redirect_reply-Framed tsp_authentication reply)

  auth_anonymous-Framed : (reply : Option Text) → Framed list (auth_anonymous peer reply list)
  unfolding auth_anonymous
  auth_anonymous-Framed none = ground arith
  auth_anonymous-Framed (some reply) =
      ground (arith, redirect_reply-Framed tsp_authentication reply)

  auth_plain-Framed :
      (sent : Bool) (reply : Option Text) → Framed list (auth_plain peer sent reply list)
  unfolding auth_plain
  auth_plain-Framed sent reply = ground (arith, final_reply-Framed reply)

  module _ (d : Digest) (u : Credentials) where
    check_server-Framed :
        (expected : Text) (proof : Option Text)
        → Framed list (check_server peer d expected proof list)
    unfolding check_server
    check_server-Framed expected none = ground arith
    check_server-Framed expected (some proof) = ground (arith, final_reply-Framed d.last_reply)

    server_proof-Framed :
        (expected : Text) (reply : Option Text)
        → Framed list (server_proof peer d expected reply list)
    unfolding server_proof
    server_proof-Framed expected none = ground arith
    server_proof-Framed expected (some reply) = ground (
      arith,
      redirect_reply-Framed tsp_authentication reply,
      check_server-Framed expected (extract_challenge (d.base64decode reply)).rspauth,
    )

    respond-Framed :
        (version_index : ℕ) (p : Prepared) → Framed list (respond peer d u version_index p list)
    unfolding respond
    respond-Framed version_index (prepared c) =
        server_proof-Framed (digest_response d u c version_index [])
          (d.response_reply (d.base64encode (digest_answer d u c version_index)))
    respond-Framed version_index starved = ground arith
    respond-Framed version_index null_field = ground arith

    answer_challenge-Framed :
        (version_index : ℕ) (reply : Option Text)
        → Framed list (answer_challenge peer d u version_index reply list)
    unfolding answer_challenge
    answer_challenge-Framed version_index none = ground arith
    answer_challenge-Framed version_index (some reply) =
        let c = extract_challenge (d.base64decode reply) in
        ground (
          arith,
          redirect_reply-Framed tsp_authentication reply,
          respond-Framed version_index (prepare d.memory c),
        )

    auth_digest_md5-Framed :
        (version_index : ℕ) → Framed list (auth_digest_md5 peer d u version_index list)
    unfolding auth_digest_md5
    auth_digest_md5-Framed version_index = answer_challenge-Framed version_index d.challenge_reply

  pub authenticate-Framed :
      (r : Replies) (u : Credentials) (cap version_index : ℕ)
      → Framed list (authenticate peer r u cap version_index list)
  unfolding authenticate
  authenticate-Framed r u cap version_index = ground (
    arith,
    auth_digest_md5-Framed r.digest u version_index,
    auth_plain-Framed r.plain_sent r.plain_reply,
    auth_anonymous-Framed r.anonymous_reply,
  )

-- the proof that the server gave
pub record Proved (d : Digest) (u : Credentials) (version_index : ℕ) : Type 0 where
  pub challenge : Text
  pub received : d.challenge_reply ≡ some challenge
  pub fields : Fields
  pub ready : prepare d.memory (extract_challenge (d.base64decode challenge)) ≡ prepared fields
  pub proof : Text
  pub answered :
      d.response_reply (d.base64encode (digest_answer d u fields version_index)) ≡ some proof
  pub rspauth : Text
  pub given : (extract_challenge (d.base64decode proof)).rspauth ≡ some rspauth
  pub matches :
      text_eq (take 32 rspauth) (take 32 (digest_response d u fields version_index [])) ≡ true

module _ (peer : Peer) (d : Digest) (u : Credentials) (list : List Broker) where
  redirect_reply-fails :
      (context : Context) (payload : Text)
      → (redirect_reply peer context payload list).0.1 ≢ success
  unfolding redirect_reply
  redirect_reply-fails context payload = ground arith

  check_server-success :
      (expected : Text) (proof : Option Text)
      → (check_server peer d expected proof list).0.1 ≡ success
      → (rspauth : Text) × (proof ≡ some rspauth)
        × (text_eq (take 32 rspauth) (take 32 expected) ≡ true)
  unfolding check_server
  check_server-success expected none e = absurd (ground arith)
  check_server-success expected (some rspauth) e = (rspauth, refl, ground (arith, e))

  server_proof-success :
      (expected : Text) (reply : Option Text)
      → (server_proof peer d expected reply list).0.1 ≡ success
      → (proof rspauth : Text) × (reply ≡ some proof)
        × ((extract_challenge (d.base64decode proof)).rspauth ≡ some rspauth)
        × (text_eq (take 32 rspauth) (take 32 expected) ≡ true)
  unfolding server_proof
  server_proof-success expected none e = absurd (ground arith)
  server_proof-success expected (some reply) e =
      let got = (extract_challenge (d.base64decode reply)).rspauth in
      let checked : (check_server peer d expected got list).0.1 ≡ success =
        ground (arith, e, redirect_reply-fails tsp_authentication reply) in
      let (rspauth, given, matches) = check_server-success expected got checked in
      (reply, rspauth, refl, given, matches)

  respond-success :
      (version_index : ℕ) (p : Prepared)
      → (respond peer d u version_index p list).0.1 ≡ success
      → (fields : Fields) × (proof rspauth : Text) × (p ≡ prepared fields)
        × (d.response_reply (d.base64encode (digest_answer d u fields version_index)) ≡ some proof)
        × ((extract_challenge (d.base64decode proof)).rspauth ≡ some rspauth)
        × (text_eq (take 32 rspauth) (take 32 (digest_response d u fields version_index [])) ≡ true)
  unfolding respond
  respond-success version_index (prepared fields) e =
      let (proof, rspauth, answered, given, matches) =
        server_proof-success (digest_response d u fields version_index []) _ e in
      (fields, proof, rspauth, refl, answered, given, matches)
  respond-success version_index starved e = absurd (ground (arith, e))
  respond-success version_index null_field e = absurd (ground (arith, e))

  answer_challenge-success :
      (version_index : ℕ) (reply : Option Text)
      → d.challenge_reply ≡ reply
      → (answer_challenge peer d u version_index reply list).0.1 ≡ success
      → Proved d u version_index
  unfolding answer_challenge
  answer_challenge-success version_index none got e = absurd (ground arith)
  answer_challenge-success version_index (some reply) got e =
      let c = extract_challenge (d.base64decode reply) in
      let passed : (respond peer d u version_index (prepare d.memory c) list).0.1 ≡ success =
        ground (arith, e, redirect_reply-fails tsp_authentication reply) in
      let (fields, proof, rspauth, ready, answered, given, matches) =
        respond-success version_index (prepare d.memory c) passed in
      record {
        challenge = reply;
        received = got;
        fields = fields;
        ready = ready;
        proof = proof;
        answered = answered;
        rspauth = rspauth;
        given = given;
        matches = matches;
      }

  -- For any version of the protocol, the digest authentication succeeds only with a server whose
  -- challenge gives all the fields that the response is made from, and that proves that it knows the
  -- password: its answer to the client's response has an `rspauth`, whose first 32 bytes are those of
  -- the digest that the client computes for itself from the password, those fields and the version.
  pub digest_mutual :
      (version_index : ℕ)
      → (auth_digest_md5 peer d u version_index list).0.1 ≡ success
      → Proved d u version_index
  unfolding auth_digest_md5
  digest_mutual version_index e = answer_challenge-success version_index d.challenge_reply refl e
