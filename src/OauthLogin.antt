-- ===== src/OauthLogin.antt =====
-- internal/infrastructure/oauthlogin: the data of login.go, dcr.go and pkce.go, the login by OAuth. The
-- listener, the random bytes, SHA-256, base64, JSON, the exchange of HTTP messages and the browser are
-- parameters. Of the callback and the end of the context, the one that the login takes first is what
-- arrives. The log lines and the text that is printed are left out.
pub mod Pkce
pub mod Dcr
pub mod Login
mod Tests
use lumen_mcp_server.Base.{
  ℕ, zero, suc, ◌+◌, ◌-◌, ◌≤◌, ◌<◌, String, Bool, true, false, not, ◌&&◌, ◌||◌, Option, none, some,
  List, [], ◌∷◌, ◌++◌, map, length, ℤ, pos, negsuc, lt_int, not_pos, to_nat, Result, ok, err,
  map_err, Result-cases, Option-cases, Bool-cases, ltb, leb, eqb, if◌then◌else◌, ◌==◌, ◌<>◌, lookup,
  assign, itoa, trim_space, trim_slashes, trim_prefix, has_prefix, split, fields, ◌≡◌, ◌≢◌, ◌↔◌,
  ◌⊎◌, inl, inr, refl, sym, ap, ◌∙◌, arith, eq_iff, All, Any, any, trim_right_char, join, map_err,
}
use lumen_mcp_server.Gateway.Client.{HttpResponse}

pub record Config : Type 0 where
  pub issuer : String
  pub audience : String
  pub scopes : List String
  pub client_id : String
  pub registration_url : String

pub record TokenResult : Type 0 where
  pub access_token : String
  pub token_type : String
  pub expires_in : ℤ
  pub refresh_token : String

pub record PkceChallenge : Type 0 where
  pub verifier : String
  pub challenge : String
  pub method : String

pub record DcrRequest : Type 0 where
  pub client_name : String
  pub redirect_uris : List String
  pub grant_types : List String
  pub response_types : List String
  pub token_endpoint_auth_method : String

pub record DcrResponse : Type 0 where
  pub client_id : String
  pub client_secret : String

pub record CallbackResult : Type 0 where
  pub code : String
  pub err : String

-- A request with its body, and the type of that.
pub record HttpRequest : Type 0 where
  pub method : String
  pub url : String
  pub content_type : String
  pub body : String

-- What the callback answers to the browser.
pub record Page : Type 0 where
  pub status : ℕ
  pub content_type : String
  pub content : String

-- What ends the wait: the context's end, with its error, or a request for the callback's path, with
-- its query.
pub data Arrival : Type 0 where
  cancelled : String → Arrival
  callback : List (String × String) → Arrival

-- Why there is no response: `Do` fails, or the request cannot be made or the body cannot be read.
pub data Failure : Type 0 where
  refused unusable : String → Failure

-- What the login does to its surroundings, whose state is `W`.
pub record Env (W : Type 0) : Type 0 where
  pub listen : W → Result String ℕ × W
  pub close : W → W
  -- 32 random bytes, as `base64` takes them
  pub random : W → Result String String × W
  pub sha256 : String → String
  pub base64 : String → String
  pub marshal : DcrRequest → Result String String
  pub read_registration : String → Result String DcrResponse
  pub read_token : String → Result String TokenResult
  pub exchange : W → HttpRequest → Result Failure HttpResponse × W
  pub open_browser : W → String → W
  pub arrival : W → Arrival × W
  pub answer : W → Page → W
  pub shutdown : W → W

abbrev pub failure_text : String → Failure → String
failure_text prefix (refused e) = prefix <> e
failure_text prefix (unusable e) = e

abbrev pub status_text : String → HttpResponse → String
status_text prefix r = prefix <> (": status=" <> (itoa (pos r.status) <> (" body=" <> r.content)))
