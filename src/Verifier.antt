-- ===== src/Verifier.antt =====
-- internal/infrastructure/jwkscache/verifier.go: the check of a bearer token against keys that are
-- fetched and cached. Decoding, JSON and HMAC are parameters; so is what one call reads from its
-- surroundings: the clock, the answer of the key server, and the key that the iteration over the map
-- meets first.
pub mod Token
pub mod Keys
pub mod Cached
use lumen_mcp_server.Base.{
  ℕ, zero, suc, ◌+◌, ◌%◌, ◌*◌, ◌^◌, String, Bool, true, false, not, ◌&&◌, ◌||◌, Option, none, some,
  List, [], ◌∷◌, map, length, get_elem?, ℤ, pos, lt_int, not_pos, to_nat, Result, ok, err, ◌>>=◌,
  ltb, leb, eqb, if◌then◌else◌, ◌==◌, ◌<>◌, lookup, assign, itoa, trim_space, trim_prefix, split,
  fields, equal_fold,
}
use lumen_mcp_server.Domain.{Claims}
use lumen_mcp_server.Ports.{TokenVerifier}
use lumen_mcp_server.Json.{Value, str, arr, items}

abbrev pub Bytes : Type 0
Bytes = List ℕ

pub data VerifyError : Type 0 where
  missing_bearer malformed_jwt invalid_alg invalid_sig issuer_mismatch audience_missing :
      VerifyError
  token_expired jwks_key_not_found : VerifyError
  fetch_failed : String → VerifyError

abbrev pub error_text : VerifyError → String
error_text missing_bearer = "missing bearer token"
error_text malformed_jwt = "malformed jwt"
error_text invalid_alg = "invalid jwt alg"
error_text invalid_sig = "invalid jwt signature"
error_text issuer_mismatch = "issuer mismatch"
error_text audience_missing = "audience mismatch"
error_text token_expired = "token expired"
error_text jwks_key_not_found = "jwks key not found"
error_text (fetch_failed e) = e

-- The configured fields; a refresh interval is a number of nanoseconds.
pub record Verifier : Type 0 where
  pub issuer : String
  pub audience : String
  pub refresh_interval : ℤ

pub record Cache : Type 0 where
  pub cached_at : ℕ
  pub cached_oct_hs : List (String × Bytes)

pub record JwtHeader : Type 0 where
  pub alg : String
  pub kid : String
  pub typ : String

pub record JwtClaims (F : Type 0) : Type 0 where
  pub iss : String
  pub sub : String
  pub aud : Value F
  pub client_id : String
  pub scope : String
  pub exp : ℤ

pub record JwkKey : Type 0 where
  pub kty : String
  pub k : String
  pub kid : String
  pub alg : String

-- The answer of the key server: its status, and its keys or the error of decoding them.
pub record JwksResponse : Type 0 where
  pub status : ℕ
  pub decoded : Result String (List JwkKey)

-- base64.RawURLEncoding, json.Unmarshal, and HMAC with SHA-256 under a key.
pub record Codec (F : Type 0) : Type 0 where
  pub decode_base64 : String → Option Bytes
  pub parse_header : Bytes → Option JwtHeader
  pub parse_claims : Bytes → Option (JwtClaims F)
  pub hmac : Bytes → String → Bytes

-- What one call reads from its surroundings.
pub record Ambient : Type 0 where
  pub read_at : ℕ
  pub stored_at : ℕ
  pub unix_now : ℤ
  pub choice : ℕ
  pub response : Result String JwksResponse

-- subtle.ConstantTimeCompare
unfoldable pub same_bytes : Bytes → Bytes → Bool
same_bytes [] [] = true
same_bytes [] (b ∷ bs) = false
same_bytes (a ∷ as_) [] = false
same_bytes (a ∷ as_) (b ∷ bs) = eqb a b && same_bytes as_ bs

unfoldable pub refresh_of : Verifier → ℕ
refresh_of v = if not_pos v.refresh_interval then 60000000000 else to_nat v.refresh_interval

module _ {F : Type 0} (codec : Codec F) where
  key_id : ℕ → JwkKey → String
  key_id i k = if trim_space k.kid == "" then "idx-" <> itoa (pos i) else trim_space k.kid

  -- one round of the loop over the response's keys
  add_key : ℕ → JwkKey → Option Bytes → List (String × Bytes) → List (String × Bytes)
  unfolding key_id
  add_key i k none keys = keys
  add_key i k (some []) keys = keys
  add_key i k (some (b ∷ raw)) keys =
      if equal_fold k.kty "oct" then assign (key_id i k) (b ∷ raw) keys else keys

  pub collect_keys : ℕ → List JwkKey → List (String × Bytes) → List (String × Bytes)
  unfolding add_key
  collect_keys i [] keys = keys
  collect_keys i (k ∷ ks) keys =
      collect_keys (suc i) ks (add_key i k (codec.decode_base64 k.k) keys)

  store_keys :
      Ambient → Cache → List (String × Bytes) → Result VerifyError (List (String × Bytes)) × Cache
  store_keys env cache [] = (err jwks_key_not_found, cache)
  store_keys env cache (k ∷ keys) =
      (ok (k ∷ keys), record { cached_at = env.stored_at; cached_oct_hs = k ∷ keys })

  decoded_keys :
      Ambient
      → Cache
      → Result String (List JwkKey)
      → Result VerifyError (List (String × Bytes)) × Cache
  unfolding store_keys collect_keys
  decoded_keys env cache (err e) = (err (fetch_failed e), cache)
  decoded_keys env cache (ok ks) = store_keys env cache (collect_keys 0 ks [])

  fetch_keys :
      Ambient
      → Cache
      → Result String JwksResponse
      → Result VerifyError (List (String × Bytes)) × Cache
  unfolding decoded_keys
  fetch_keys env cache (err e) = (err (fetch_failed e), cache)
  fetch_keys env cache (ok r) =
      if leb 400 r.status
      then (err (fetch_failed ("jwks fetch failed: status=" <> itoa (pos r.status))), cache)
      else decoded_keys env cache r.decoded

  -- `len(v.cachedOctHS) > 0 && time.Since(v.cachedAt) < refresh`
  unfoldable pub is_fresh : Verifier → Ambient → Cache → Bool
  unfolding refresh_of
  is_fresh v env cache =
      ltb 0 (length cache.cached_oct_hs) && ltb env.read_at (cache.cached_at + refresh_of v)

  unfoldable pub load_jwks_keys :
      Verifier → Ambient → Cache → Result VerifyError (List (String × Bytes)) × Cache
  unfolding fetch_keys
  load_jwks_keys v env cache =
      if is_fresh v env cache
      then (ok cache.cached_oct_hs, cache)
      else fetch_keys env cache env.response

  or_missing : Option Bytes → Result VerifyError Bytes
  or_missing none = err jwks_key_not_found
  or_missing (some secret) = ok secret

  any_secret : ℕ → List (String × Bytes) → Option Bytes
  any_secret choice [] = none
  any_secret choice (k ∷ keys) = get_elem? (map (λ e. e.1) (k ∷ keys)) (choice % length (k ∷ keys))

  -- the choice of a secret from the loaded keys
  choose_secret : ℕ → String → List (String × Bytes) → Result VerifyError Bytes
  unfolding or_missing any_secret
  choose_secret choice kid keys =
      if kid == "" then or_missing (any_secret choice keys) else or_missing (lookup kid keys)

  unfoldable pub select_hmac_secret :
      Verifier → Ambient → Cache → String → Result VerifyError Bytes × Cache
  unfolding choose_secret
  select_hmac_secret v env cache kid =
      let (loaded, cache') = load_jwks_keys v env cache in
      (loaded >>= choose_secret env.choice kid, cache')
