-- ===== src/Verifier/Cached.antt =====
-- Loading the keys: what is returned, and what the cache holds afterwards.
use lumen_mcp_server.Base.{ℕ, String, ◌≡◌, ◌≢◌, true, false, List, [], All, Result, ok, err, leb}
use lumen_mcp_server.Verifier.{
  Bytes, VerifyError, JwkKey, Codec, Verifier, Cache, Ambient, is_fresh,
}
use lumen_mcp_server.Verifier.Keys.{IsFrom}

module _ {F : Type 0} (codec : Codec F) (v : Verifier) (env : Ambient) (cache : Cache) where
  -- What a load may come to: the cached keys; the keys of an answer with a status below 400, which
  -- are then cached with the time; or an error, which leaves the cache as it was.
  pub data Loaded : Result VerifyError (List (String × Bytes)) → Cache → Type 0 where
    cached : is_fresh codec v env cache ≡ true → Loaded (ok cache.cached_oct_hs) cache
    fetched :
        (status : ℕ) (ks : List JwkKey) (keys : List (String × Bytes))
        → is_fresh codec v env cache ≡ false
        → env.response ≡ ok (record { status = status; decoded = ok ks })
        → leb 400 status ≡ false
        → keys ≢ []
        → All (IsFrom codec ks) keys
        → Loaded (ok keys) (record { cached_at = env.stored_at; cached_oct_hs = keys })
    failed : (e : VerifyError) → is_fresh codec v env cache ≡ false → Loaded (err e) cache
