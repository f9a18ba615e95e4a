-- ===== src/Session/Challenge.antt =====
-- tsp_auth.c: `ExtractChallenge`, which reads the fields of a challenge, and the escaping of the user
-- name in `AuthDIGEST_MD5`.
pub mod Laws
use gogoc_android.Prelude.{
  ℕ, ◌+◌, Bool, true, false, List, [], ◌∷◌, ◌++◌, Option, none, some, ltb, ◌==◌, ◌&&◌, ◌||◌, not,
  if◌then◌else◌,
}
use gogoc_android.Cstring.{Text, text_eq}

-- `tChallenge`; a field that the challenge does not give is NULL
pub record Challenge : Type 0 where
  pub realm : Option Text
  pub nonce : Option Text
  pub qop : Option Text
  pub algorithm : Option Text
  pub charset : Option Text
  pub rspauth : Option Text

abbrev pub no_challenge : Challenge
no_challenge = record {
  realm = none;
  nonce = none;
  qop = none;
  algorithm = none;
  charset = none;
  rspauth = none;
}

abbrev pub realm_token : Text
realm_token = b'r' ∷ b'e' ∷ b'a' ∷ b'l' ∷ b'm' ∷ []

abbrev pub nonce_token : Text
nonce_token = b'n' ∷ b'o' ∷ b'n' ∷ b'c' ∷ b'e' ∷ []

abbrev pub qop_token : Text
qop_token = b'q' ∷ b'o' ∷ b'p' ∷ []

abbrev pub algorithm_token : Text
algorithm_token = b'a' ∷ b'l' ∷ b'g' ∷ b'o' ∷ b'r' ∷ b'i' ∷ b't' ∷ b'h' ∷ b'm' ∷ []

abbrev pub charset_token : Text
charset_token = b'c' ∷ b'h' ∷ b'a' ∷ b'r' ∷ b's' ∷ b'e' ∷ b't' ∷ []

abbrev pub rspauth_token : Text
rspauth_token = b'r' ∷ b's' ∷ b'p' ∷ b'a' ∷ b'u' ∷ b't' ∷ b'h' ∷ []

-- `InsertInChallegeStruct`, with memory for the copy
unfoldable pub insert_in_challenge_struct : Challenge → Text → Text → Challenge
insert_in_challenge_struct c token value =
    if text_eq token realm_token
    then record c { realm = some value }
    else if text_eq token nonce_token
    then record c { nonce = some value }
    else if text_eq token qop_token
    then record c { qop = some value }
    else if text_eq token algorithm_token
    then record c { algorithm = some value }
    else if text_eq token charset_token
    then record c { charset = some value }
    else if text_eq token rspauth_token
    then record c { rspauth = some value }
    else c

abbrev pub is_empty : Text → Bool
is_empty [] = true
is_empty (_ ∷ _) = false

-- a quote at the end is chopped
unfoldable pub chop_last_quote : Text → Text
chop_last_quote [] = []
chop_last_quote (c ∷ []) = if c == b'"' then [] else c ∷ []
chop_last_quote (c ∷ d ∷ s) = c ∷ chop_last_quote (d ∷ s)

-- then the one at the beginning
unfoldable pub chop_quotes : Text → Text
chop_quotes [] = []
chop_quotes (c ∷ s) = if c == b'"' then chop_last_quote s else chop_last_quote (c ∷ s)

-- What a value does to the challenge and to the token: an empty one is not recorded, and leaves the
-- token in place.
unfoldable pub record_value : Challenge → Text → Text → Challenge × Text
record_value c token part =
    if is_empty token || is_empty (chop_quotes part)
    then (c, token)
    else (insert_in_challenge_struct c token (chop_quotes part), [])

abbrev pub is_field_end : ℕ → Bool
is_field_end c = (c == b',') || ((c == b'\r') || (c == b'\n'))

-- The loop of `ExtractChallenge`; `skip`, `token` and `part` as in `tspExtractCapability`. Here the end
-- of the text ends a field too. A field that ends with the text's last byte makes the loop step past
-- the final 0; the model takes the bytes there to be 0.
unfoldable pub challenge_loop : Bool → Challenge → Text → Text → Text → Challenge
challenge_loop skip c token part [] = if is_empty part then c else (record_value c token part).0
challenge_loop true c token part (b ∷ rest) = challenge_loop false c token (b ∷ []) rest
challenge_loop false c token part (b ∷ rest) =
    let (c', token') = record_value c token part in
    let next = challenge_loop true c' token' [] rest in
    let passed = challenge_loop true c token [] rest in
    let named = challenge_loop true c part [] rest in
    let longer = challenge_loop false c token (part ++ (b ∷ [])) rest in
    if is_field_end b
    then (if is_empty part then passed else next)
    else if (b == b'=') && (is_empty token && not (is_empty part))
    then named
    else longer

unfoldable pub extract_challenge : Text → Challenge
extract_challenge text = challenge_loop false no_challenge [] [] text

abbrev pub needs_escape : ℕ → Bool
needs_escape c = (c == b'"') || (c == b'\\')

-- The loop that escapes the user name into `userid[512]`, from the index `i`: the bytes stored. The
-- final 0 is stored after them.
pub escape_userid : ℕ → Text → Text
escape_userid i [] = []
escape_userid i (c ∷ s) =
    let escaped = b'\\' ∷ c ∷ escape_userid (i + 2) s in
    let plain = c ∷ escape_userid (i + 1) s in
    if ltb i 512 then (if needs_escape c then escaped else plain) else []
