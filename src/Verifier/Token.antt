-- ===== src/Verifier/Token.antt =====
-- internal/infrastructure/jwkscache/verifier.go: `VerifyBearer`, which reads a token, selects a key
-- and checks the signature and the claims.
pub mod Sound
mod Tests
use lumen_mcp_server.Base.{
  ℕ, suc, String, Bool, true, false, not, ◌&&◌, Option, none, some, List, [], ◌∷◌, any, pos, lt_int,
  Result, ok, err, ◌>>=◌, if◌then◌else◌, ◌==◌, ◌<>◌, trim_space, trim_prefix, split, fields,
  equal_fold, map_err,
}
use lumen_mcp_server.Domain.{Claims}
use lumen_mcp_server.Ports.{TokenVerifier}
use lumen_mcp_server.Json.{Value, str, arr, items}
use lumen_mcp_server.Verifier.{
  Bytes, VerifyError, missing_bearer, malformed_jwt, invalid_alg, invalid_sig, issuer_mismatch,
  audience_missing, token_expired, error_text, Verifier, Cache, JwtHeader, JwtClaims, Codec,
  Ambient, same_bytes, select_hmac_secret,
}

-- A token that has been read: the text that is signed, the signature, the header and the claims.
pub record Token (F : Type 0) : Type 0 where
  pub signed : String
  pub signature : Bytes
  pub header : JwtHeader
  pub claims : JwtClaims F

is_text : {F : Type 0} → String → Value F → Bool
is_text want (str s) = s == want
is_text want v = false

aud_matches : {F : Type 0} → String → Value F → Bool
unfolding is_text
aud_matches want (str s) = s == want
aud_matches want (arr vs) = any (is_text want) (items vs)
aud_matches want v = false

unfoldable pub aud_contains : {F : Type 0} → Value F → String → Bool
unfolding aud_matches
aud_contains aud want = if trim_space want == "" then true else aud_matches (trim_space want) aud

-- what follows "Bearer "
unfoldable pub token_of : String → String
token_of bearer = trim_space (trim_prefix (trim_space bearer) "Bearer ")

or_malformed : {A : Type 0} → Option A → Result VerifyError A
or_malformed none = err malformed_jwt
or_malformed (some a) = ok a

-- The verifier's state as the application uses it: the cache, and what each later call will meet.
abbrev pub Running : Type 0
Running = Cache × (ℕ → Ambient) × ℕ

module _ {F : Type 0} (codec : Codec F) where
  -- the test of the algorithm, and what follows it
  read_claims : String → Bytes → Bytes → JwtHeader → Result VerifyError (Token F)
  unfolding or_malformed
  read_claims signed payload_bytes signature header =
      if equal_fold header.alg "HS256"
      then (or_malformed (codec.parse_claims payload_bytes) >>= λ c.
          ok (record { signed = signed; signature = signature; header = header; claims = c }))
      else err invalid_alg

  -- the three parts of a token
  unfoldable pub read_parts : List String → Result VerifyError (Token F)
  unfolding or_malformed read_claims
  read_parts (h ∷ p ∷ s ∷ []) = do
    header_bytes ← or_malformed (codec.decode_base64 h)
    payload_bytes ← or_malformed (codec.decode_base64 p)
    signature ← or_malformed (codec.decode_base64 s)
    header ← or_malformed (codec.parse_header header_bytes)
    read_claims (h <> ("." <> p)) payload_bytes signature header
  read_parts _ = err malformed_jwt

  unfoldable pub read_token : String → Result VerifyError (Token F)
  read_token bearer =
      if token_of bearer == ""
      then err missing_bearer
      else read_parts (split b'.' (token_of bearer))

  -- the claims that the application sees
  abbrev pub claims_of : JwtClaims F → Claims
  claims_of c = record {
    subject = c.sub;
    client = if c.client_id == "" then c.sub else c.client_id;
    scopes = fields (trim_space c.scope);
  }

  check_claims : Verifier → Ambient → JwtClaims F → Result VerifyError Claims
  check_claims v env c =
      if not (trim_space v.issuer == "") && not (c.iss == v.issuer)
      then err issuer_mismatch
      else if not (trim_space v.audience == "") && not (aud_contains c.aud v.audience)
      then err audience_missing
      else if lt_int (pos 0) c.exp && not (lt_int env.unix_now c.exp)
      then err token_expired
      else ok (claims_of c)

  check_token : Verifier → Ambient → Token F → Bytes → Result VerifyError Claims
  unfolding check_claims
  check_token v env t secret =
      if same_bytes (codec.hmac secret t.signed) t.signature
      then check_claims v env t.claims
      else err invalid_sig

  verify_token :
      Verifier → Ambient → Cache → Result VerifyError (Token F) → Result VerifyError Claims × Cache
  unfolding check_token
  verify_token v env cache (err e) = (err e, cache)
  verify_token v env cache (ok t) =
      let (secret, cache') = select_hmac_secret codec v env cache t.header.kid in
      (secret >>= check_token v env t, cache')

  unfoldable pub verify_bearer :
      Verifier → Ambient → Cache → String → Result VerifyError Claims × Cache
  unfolding verify_token
  verify_bearer v env cache bearer = verify_token v env cache (read_token bearer)

  unfoldable pub token_verifier : Verifier → TokenVerifier Running
  token_verifier v = record {
    verify_bearer = λ (cache, later, n) bearer.
        let (r, cache') = verify_bearer v (later n) cache bearer in
        (map_err error_text r, (cache', later, suc n));
  }
