-- ===== src/Session/Response.antt =====
-- tsp_auth.c, `AuthDIGEST_MD5`: the strings of the response to a challenge. MD5, base64 and the clock
-- are outside: MD5 and base64 are copies of other projects' code.
use gogoc_android.Prelude.{
  ℕ, zero, suc, Bool, true, false, not, List, [], ◌∷◌, ◌++◌, Option, none, some, ltb, ◌==◌, ◌&&◌,
  ◌||◌, if◌then◌else◌, take, length,
}
use gogoc_android.Cstring.{Text}
use gogoc_android.Session.Challenge.{
  Challenge, escape_userid, charset_token, realm_token, nonce_token,
}

-- What the digest authentication takes from outside: the allocations in their order, base64, the
-- digest in hexadecimal and in bytes, the decimal client nonce, and the server's three replies, of
-- which the second answers the text that was sent.
pub record Digest : Type 0 where
  pub memory : ℕ → Bool
  pub base64decode : Text → Text
  pub base64encode : Text → Text
  pub md5 : Text → Text
  pub md5digest : Text → Text
  pub cnonce : Text
  pub challenge_reply : Option Text
  pub response_reply : Text → Option Text
  pub last_reply : Option Text

-- the settings that the methods read
pub record Credentials : Type 0 where
  pub server : Text
  pub userid : Text
  pub passwd : Text
  pub auth_method : Text

-- the fields of a challenge that the response is made from, none of them NULL
pub record Fields : Type 0 where
  pub realm : Text
  pub nonce : Text
  pub qop : Text
  pub charset : Text

abbrev pub colon : Text → Text → Text
colon s t = s ++ (b':' ∷ t)

abbrev pub authenticate_word : Text
authenticate_word =
    b'A' ∷ b'U' ∷ b'T' ∷ b'H' ∷ b'E' ∷ b'N' ∷ b'T' ∷ b'I' ∷ b'C' ∷ b'A' ∷ b'T' ∷ b'E' ∷ []

abbrev pub tsp_uri : Text → Text
tsp_uri server = b't' ∷ b's' ∷ b'p' ∷ b'/' ∷ server

-- the versions of the protocol that the client tries in turn, `TSPProtoVerStr`
abbrev pub client_version_string_2_0_0 : Text
client_version_string_2_0_0 = b'2' ∷ b'.' ∷ b'0' ∷ b'.' ∷ b'0' ∷ []

abbrev pub protocol_versions : List Text
protocol_versions =
    (b'2' ∷ b'.' ∷ b'0' ∷ b'.' ∷ b'2' ∷ [])
    ∷ (b'2' ∷ b'.' ∷ b'0' ∷ b'.' ∷ b'1' ∷ [])
    ∷ client_version_string_2_0_0
    ∷ (b'1' ∷ b'.' ∷ b'0' ∷ b'.' ∷ b'1' ∷ [])
    ∷ []

-- `TSPProtoVerStr[version_index]`; behind the table, which the client does not reach, an empty string
unfoldable pub version_at : List Text → ℕ → Text
version_at [] i = []
version_at (v ∷ vs) zero = v
version_at (v ∷ vs) (suc i) = version_at vs i

-- `strcmp(s, t) > 0`
unfoldable pub is_after : Text → Text → Bool
is_after [] t = false
is_after (c ∷ s) [] = true
is_after (c ∷ s) (d ∷ t) = let more = is_after s t in if c == d then more else ltb d c

-- what `pal_strlen` counts of bytes that may hold a 0
unfoldable pub before_nul : Text → Text
before_nul [] = []
before_nul (c ∷ s) = let more = c ∷ before_nul s in if c == 0 then [] else more

-- whether the digest of A1 is made as earlier servers make it
unfoldable pub is_bug1455 : Text → Text → Bool
is_bug1455 first version =
    ltb (length (before_nul first)) 16
    && not (ltb 5 (length version) || is_after version client_version_string_2_0_0)

-- HEX(H(A1)), from the 16 bytes of the first digest, copied as they are, and the rest of A1. Up to
-- the version 2.0.0 of the protocol, a 0 among the 16 bytes ends the text (SUPPORT_MD5_BUG1455).
unfoldable pub hash_a1 : Digest → Text → Text → Text → Text
hash_a1 d first rest version =
    if is_bug1455 first version then d.md5 (before_nul (first ++ rest)) else d.md5 (first ++ rest)

unfoldable pub digest_a1 : Digest → Credentials → Fields → ℕ → Text
digest_a1 d u c version_index =
    hash_a1 d (take 16 (d.md5digest (colon u.userid (colon c.realm u.passwd))))
      (b':' ∷ colon c.nonce d.cnonce) (version_at protocol_versions version_index)

abbrev pub nonce_count : Text
nonce_count = b'0' ∷ b'0' ∷ b'0' ∷ b'0' ∷ b'0' ∷ b'0' ∷ b'0' ∷ b'1' ∷ []

-- the response to a challenge, with HEX(H(A2)) for the word that begins A2
unfoldable pub digest_response : Digest → Credentials → Fields → ℕ → Text → Text
digest_response d u c version_index word = d.md5 (
    colon (digest_a1 d u c version_index) (
      colon c.nonce
        (colon nonce_count (colon d.cnonce (colon c.qop (d.md5 (colon word (tsp_uri u.server))))))))

-- the text sent to the server, before its base64; `quoted name value` is `name="value",`
abbrev pub quoted : Text → Text → Text
quoted name value = name ++ (b'=' ∷ b'"' ∷ (value ++ (b'"' ∷ b',' ∷ [])))

abbrev pub unquoted : Text → Text → Text
unquoted name value = name ++ (b'=' ∷ (value ++ (b',' ∷ [])))

abbrev pub username_word : Text
username_word = b'u' ∷ b's' ∷ b'e' ∷ b'r' ∷ b'n' ∷ b'a' ∷ b'm' ∷ b'e' ∷ []

abbrev pub count_word : Text
count_word = b'n' ∷ b'c' ∷ []

abbrev pub cnonce_word : Text
cnonce_word = b'c' ∷ b'n' ∷ b'o' ∷ b'n' ∷ b'c' ∷ b'e' ∷ []

abbrev pub uri_word : Text
uri_word = b'd' ∷ b'i' ∷ b'g' ∷ b'e' ∷ b's' ∷ b't' ∷ b'-' ∷ b'u' ∷ b'r' ∷ b'i' ∷ []

abbrev pub response_word : Text
response_word = b'r' ∷ b'e' ∷ b's' ∷ b'p' ∷ b'o' ∷ b'n' ∷ b's' ∷ b'e' ∷ []

abbrev pub end_word : Text
end_word = b'q' ∷ b'o' ∷ b'p' ∷ b'=' ∷ b'a' ∷ b'u' ∷ b't' ∷ b'h' ∷ []

-- the answer to a challenge
unfoldable pub digest_answer : Digest → Credentials → Fields → ℕ → Text
digest_answer d u c version_index =
    unquoted charset_token c.charset
    ++ (quoted username_word (escape_userid 0 u.userid)
        ++ (quoted realm_token c.realm
            ++ (quoted nonce_token c.nonce
                ++ (unquoted count_word nonce_count
                    ++ (quoted cnonce_word d.cnonce
                        ++ (quoted uri_word (tsp_uri u.server)
                            ++ (unquoted response_word
                                  (digest_response d u c version_index authenticate_word)
                                ++ end_word)))))))

-- the allocations made before the response is sent
abbrev pub digest_allocations : ℕ
digest_allocations = 6

-- how the strings of the digest are built: from these fields, not for want of memory, or with the
-- `pal_strlen` of a field that the challenge does not give
pub data Prepared : Type 0 where
  prepared : Fields → Prepared
  starved null_field : Prepared

-- The allocations, with the fields whose length is taken before each.
unfoldable pub prepare : (ℕ → Bool) → Challenge → Prepared
prepare memory c =
    if memory 0 && memory 1
    then elim c.realm [
      | none ↦ null_field
      | some realm ↦
          if memory 2
          then elim c.nonce [
            | none ↦ null_field
            | some nonce ↦
                if memory 3
                then elim c.qop [
                  | none ↦ null_field
                  | some qop ↦
                      if memory 4
                      then elim c.charset [
                        | none ↦ null_field
                        | some charset ↦
                            if memory 5
                            then prepared (record {
                              realm = realm;
                              nonce = nonce;
                              qop = qop;
                              charset = charset;
                            })
                            else starved
                      ]
                      else starved
                ]
                else starved
          ]
          else starved
    ]
    else starved
