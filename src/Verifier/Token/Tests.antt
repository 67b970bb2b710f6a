-- ===== src/Verifier/Token/Tests.antt =====
-- Tests: a token over small texts, checked against a key server that gives one key.
use lumen_mcp_server.Json.{items, str, arr, cons, nil}
use lumen_mcp_server.Domain.{Claims}
use lumen_mcp_server.Verifier.{
  same_bytes, select_hmac_secret, is_fresh, ◌∷◌, [], ℕ, pos, JwkKey, Codec, Verifier, Ambient,
  Cache, invalid_sig, malformed_jwt, load_jwks_keys,
}
use lumen_mcp_server.Verifier.Token.{read_token, token_of, read_parts, aud_contains, verify_bearer}
use lumen_mcp_server.Verifier.Token.Sound.{Verified, verify_bearer-Verified}
use lumen_mcp_server.Base.{
  trim_space, trim_prefix, split, equal_fold, assign, lookup, fields, some, none, ◌==◌, refl,
  if◌then◌else◌, err, ok, ◌≡◌,
}

-- A toy codec: a text decodes to one byte, and the HMAC of anything is the key.
abbrev toy : Codec ℕ
toy = record {
  decode_base64 =
      λ s. if s == "" then none else if s == "s" then some (115 ∷ []) else some (120 ∷ []);
  parse_header = λ b. some (record { alg = "HS256"; kid = "k1"; typ = "JWT" });
  parse_claims = λ b. some (record {
    iss = "https://issuer";
    sub = "alice";
    aud = arr (cons (str "mcp") nil);
    client_id = "";
    scope = "mcp:tools read";
    exp = pos 2000;
  });
  hmac = λ key signed. key;
}

abbrev verifier : Verifier
verifier = record { issuer = "https://issuer"; audience = "mcp"; refresh_interval = pos 0 }

abbrev one_key : JwkKey
one_key = record { kty = "oct"; k = "s"; kid = "k1"; alg = "HS256" }

abbrev env : Ambient
env = record {
  read_at = 100;
  stored_at = 101;
  unix_now = pos 1000;
  choice = 0;
  response = ok (record { status = 200; decoded = ok (one_key ∷ []) });
}

abbrev empty : Cache
empty = record { cached_at = 0; cached_oct_hs = [] }

abbrev alice : Claims
alice = record { subject = "alice"; client = "alice"; scopes = "mcp:tools" ∷ "read" ∷ [] }

accepts : (verify_bearer toy verifier env empty "Bearer h.p.s").0 ≡ ok alice
unfolding verify_bearer read_token token_of trim_space trim_prefix read_parts split equal_fold
    select_hmac_secret load_jwks_keys is_fresh assign lookup same_bytes aud_contains items fields
accepts = refl

refuses_signature : (verify_bearer toy verifier env empty "Bearer h.p.x").0 ≡ err invalid_sig
unfolding verify_bearer read_token token_of trim_space trim_prefix read_parts split equal_fold
    select_hmac_secret load_jwks_keys is_fresh assign lookup same_bytes
refuses_signature = refl

refuses_parts : (verify_bearer toy verifier env empty "Bearer h.p").0 ≡ err malformed_jwt
unfolding verify_bearer read_token token_of trim_space trim_prefix read_parts split
refuses_parts = refl

loads_fresh :
    load_jwks_keys toy verifier env (load_jwks_keys toy verifier env empty).1
    ≡ (ok (("k1", 115 ∷ []) ∷ []), (load_jwks_keys toy verifier env empty).1)
unfolding load_jwks_keys is_fresh equal_fold assign trim_space
loads_fresh = refl

verify_bearer-Verified_example : Verified toy verifier env empty "Bearer h.p.s" alice
verify_bearer-Verified_example =
    verify_bearer-Verified toy verifier env empty "Bearer h.p.s" alice accepts
