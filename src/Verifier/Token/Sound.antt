-- ===== src/Verifier/Token/Sound.antt =====
-- When a bearer token is accepted.
use lumen_mcp_server.Base.{
  zero, suc, map, length, ◌%◌, get_elem?, lookup, ap, ℕ, String, ◌≡◌, ◌≢◌, refl, true, false,
  Option, none, some, List, [], ◌∷◌, Any, any, ◌⊎◌, inl, inr, arith, eq_iff, Bool-cases,
  Option-cases, Result-cases, ok, succeeded, ◌==◌, ◌<>◌, split, equal_fold, trim_space, pos, lt_int,
  eqb,
}
use lumen_mcp_server.Domain.{Claims}
use lumen_mcp_server.Json.{Value, str, arr, items}
use lumen_mcp_server.Verifier.{
  or_missing, Bytes, Verifier, Cache, JwtHeader, JwtClaims, Codec, Ambient, any_secret, or_missing,
  same_bytes, select_hmac_secret, load_jwks_keys, choose_secret,
}
use lumen_mcp_server.Verifier.Token.{
  Token, aud_contains, aud_matches, is_text, token_of, or_malformed, read_claims, read_parts,
  read_token, claims_of, check_claims, check_token, verify_token, verify_bearer,
}

-- The `aud` claim is the text, or a list that holds it.
abbrev pub Names : {F : Type 0} → String → Value F → Type 0
Names want (str s) = s ≡ want
Names want (arr vs) = Any (λ x. x ≡ str want) (items vs)
Names want v = ⊥

module _ {F : Type 0} (codec : Codec F) where
  -- A bearer text holds a token: three parts joined by dots, of which the first two are what is
  -- signed, the first is a header that names HS256, the second the claims, and the third the signature.
  pub record Holds (bearer : String) (t : Token F) : Type 0 where
    pub head : String
    pub payload : String
    pub tail : String
    pub header_bytes : Bytes
    pub payload_bytes : Bytes
    pub parts : split b'.' (token_of bearer) ≡ head ∷ payload ∷ tail ∷ []
    pub signed : t.signed ≡ head <> ("." <> payload)
    pub header_read : codec.decode_base64 head ≡ some header_bytes
    pub payload_read : codec.decode_base64 payload ≡ some payload_bytes
    pub signature_read : codec.decode_base64 tail ≡ some t.signature
    pub header_parsed : codec.parse_header header_bytes ≡ some t.header
    pub claims_parsed : codec.parse_claims payload_bytes ≡ some t.claims
    pub algorithm : equal_fold t.header.alg "HS256" ≡ true

  or_malformed-ok : {A : Type 0} (o : Option A) (a : A) → or_malformed o ≡ ok a → o ≡ some a
  unfolding or_malformed
  or_malformed-ok none a h = cc
  or_malformed-ok (some b) a h = ground arith

  read_claims-ok :
      (signed : String) (payload_bytes signature : Bytes) (header : JwtHeader) (t : Token F)
      → read_claims codec signed payload_bytes signature header ≡ ok t
      → (equal_fold header.alg "HS256" ≡ true)
        × (codec.parse_claims payload_bytes ≡ some t.claims)
        × (t.signed ≡ signed)
        × (t.signature ≡ signature)
        × (t.header ≡ header)
  unfolding read_claims
  read_claims-ok signed payload_bytes signature header t h = ground arith

  read_parts-Holds :
      (bearer : String) (parts : List String) (t : Token F)
      → split b'.' (token_of bearer) ≡ parts
      → read_parts codec parts ≡ ok t
      → Holds bearer t
  unfolding read_parts
  read_parts-Holds bearer (h ∷ p ∷ s ∷ []) t cut e =
      let (hb, e1, r1) = succeeded (or_malformed (codec.decode_base64 h)) _ t e in
      let (pb, e2, r2) = succeeded (or_malformed (codec.decode_base64 p)) _ t r1 in
      let (sb, e3, r3) = succeeded (or_malformed (codec.decode_base64 s)) _ t r2 in
      let (hd, e4, r4) = succeeded (or_malformed (codec.parse_header hb)) _ t r3 in
      let (alg, parsed, same_text, same_sig, same_header) =
        read_claims-ok (h <> ("." <> p)) pb sb hd t r4 in
      record {
        head = h;
        payload = p;
        tail = s;
        header_bytes = hb;
        payload_bytes = pb;
        parts = cut;
        signed = same_text;
        header_read = or_malformed-ok (codec.decode_base64 h) hb e1;
        payload_read = or_malformed-ok (codec.decode_base64 p) pb e2;
        signature_read = cc (or_malformed-ok (codec.decode_base64 s) sb e3, same_sig);
        header_parsed = cc (or_malformed-ok (codec.parse_header hb) hd e4, same_header);
        claims_parsed = parsed;
        algorithm = rw same_header alg;
      }
  read_parts-Holds bearer [] t cut e = cc
  read_parts-Holds bearer (h ∷ []) t cut e = cc
  read_parts-Holds bearer (h ∷ p ∷ []) t cut e = cc
  read_parts-Holds bearer (h ∷ p ∷ s ∷ x ∷ l) t cut e = cc

  read_token-Holds :
      (bearer : String) (t : Token F)
      → read_token codec bearer ≡ ok t
      → (token_of bearer ≢ "") × Holds bearer t
  unfolding read_token
  read_token-Holds bearer t h = elim (Bool-cases (token_of bearer == "")) [
    | inl blank ↦ cc (rw (blank, read_token) at h)
    | inr full ↦ (
      λ p. cc ((eq_iff (token_of bearer) "").1 p),
      read_parts-Holds bearer (split b'.' (token_of bearer)) t refl (rw (full, read_token) at h),
    )
  ]

  eqb-eq : (x y : ℕ) → eqb x y ≡ true → x ≡ y
  eqb-eq x y h = ground arith

  same_bytes-eq : (a b : Bytes) → same_bytes a b ≡ true → a ≡ b
  unfolding same_bytes
  same_bytes-eq [] [] h = refl
  same_bytes-eq [] (y ∷ b) h = cc
  same_bytes-eq (x ∷ a) [] h = cc
  same_bytes-eq (x ∷ a) (y ∷ b) h = elim (Bool-cases (eqb x y)) [
    | inl e ↦ cc (same_bytes-eq a b (rw e at h), eqb-eq x y e)
    | inr e ↦ cc (rw e at h)
  ]

  is_text-eq : (want : String) (v : Value F) → is_text want v ≡ true → v ≡ str want
  unfolding is_text
  is_text-eq want (str s) h = ap str ((eq_iff s want).0 h)
  is_text-eq want v h = cc

  any-Names :
      (want : String) (vs : List (Value F))
      → any (is_text want) vs ≡ true
      → Any (λ x. x ≡ str want) vs
  unfolding aud_matches
  any-Names want [] h = cc
  any-Names want (x ∷ vs) h = elim (Bool-cases (is_text want x)) [
    | inl e ↦ inl (is_text-eq want x e)
    | inr e ↦ inr (any-Names want vs (rw e at h))
  ]

  aud_matches-Names : (want : String) (v : Value F) → aud_matches want v ≡ true → Names want v
  unfolding aud_matches
  aud_matches-Names want (str s) h = (eq_iff s want).0 h
  aud_matches-Names want (arr vs) h = any-Names want (items vs) h
  aud_matches-Names want v h = cc

  -- What an accepted token has.
  pub record Verified (v : Verifier) (env : Ambient) (cache : Cache) (bearer : String)
      (claims : Claims) : Type 0 where
    pub token : Token F
    pub secret : Bytes
    pub present : token_of bearer ≢ ""
    pub held : Holds bearer token
    pub keys : List (String × Bytes)
    pub loaded : (load_jwks_keys codec v env cache).0 ≡ ok keys
    pub selected :
        ((token.header.kid ≡ "") × Any (λ e. e.1 ≡ secret) keys)
        ⊎ (lookup token.header.kid keys ≡ some secret)
    pub signature : codec.hmac secret token.signed ≡ token.signature
    pub issuer : (trim_space v.issuer ≡ "") ⊎ (token.claims.iss ≡ v.issuer)
    pub audience : (trim_space v.audience ≡ "") ⊎ Names (trim_space v.audience) token.claims.aud
    pub unexpired :
        (lt_int (pos 0) token.claims.exp ≡ false) ⊎ (lt_int env.unix_now token.claims.exp ≡ true)
    pub shown : claims ≡ claims_of codec token.claims

  issuer-ok :
      (v : Verifier) (env : Ambient) (c : JwtClaims F) (claims : Claims)
      → check_claims codec v env c ≡ ok claims
      → (trim_space v.issuer ≡ "") ⊎ (c.iss ≡ v.issuer)
  unfolding check_claims
  issuer-ok v env c claims h =
      ground (arith, eq_iff (trim_space v.issuer) "", eq_iff c.iss v.issuer)

  audience-ok :
      (v : Verifier) (env : Ambient) (c : JwtClaims F) (claims : Claims)
      → check_claims codec v env c ≡ ok claims
      → (trim_space v.audience ≡ "") ⊎ (aud_matches (trim_space v.audience) c.aud ≡ true)
  unfolding check_claims aud_contains
  audience-ok v env c claims h = ground (arith, eq_iff (trim_space v.audience) "")

  expiry-ok :
      (v : Verifier) (env : Ambient) (c : JwtClaims F) (claims : Claims)
      → check_claims codec v env c ≡ ok claims
      → ((lt_int (pos 0) c.exp ≡ false) ⊎ (lt_int env.unix_now c.exp ≡ true))
        × (claims ≡ claims_of codec c)
  unfolding check_claims
  expiry-ok v env c claims h = ground arith

  get_elem?-Any :
      (keys : List (String × Bytes)) (n : ℕ) (s : Bytes)
      → get_elem? (map (λ e. e.1) keys) n ≡ some s
      → Any (λ e. e.1 ≡ s) keys
  get_elem?-Any [] n s h = cc
  get_elem?-Any (k ∷ keys) zero s h = inl (cc h)
  get_elem?-Any (k ∷ keys) (suc n) s h = inr (get_elem?-Any keys n s h)

  any_secret-Any :
      (choice : ℕ) (keys : List (String × Bytes)) (s : Bytes)
      → any_secret codec choice keys ≡ some s
      → Any (λ e. e.1 ≡ s) keys
  unfolding any_secret
  any_secret-Any choice [] s h = cc
  any_secret-Any choice (k ∷ keys) s h = get_elem?-Any (k ∷ keys) (choice % length (k ∷ keys)) s h

  choose_secret-keyed :
      (choice : ℕ) (kid : String) (keys : List (String × Bytes)) (s : Bytes)
      → choose_secret codec choice kid keys ≡ ok s
      → ((kid ≡ "") × Any (λ e. e.1 ≡ s) keys) ⊎ (lookup kid keys ≡ some s)
  unfolding choose_secret or_missing
  choose_secret-keyed choice kid keys s h = elim (Bool-cases (kid == "")) [
    | inl blank ↦ elim (Option-cases (any_secret codec choice keys)) [
      | inl gone ↦ cc (rw (blank, gone, choose_secret, or_missing) at h)
      | inr (b, found) ↦ inl (
        (eq_iff kid "").0 blank,
        any_secret-Any choice keys s
            (cc (found, rw (blank, found, choose_secret, or_missing) at h)),
      )
    ]
    | inr full ↦ elim (Option-cases (lookup kid keys)) [
      | inl gone ↦ cc (rw (full, gone, choose_secret, or_missing) at h)
      | inr (b, found) ↦ inr (cc (found, rw (full, found, choose_secret, or_missing) at h))
    ]
  ]

  select-keys :
      (v : Verifier) (env : Ambient) (cache : Cache) (kid : String) (s : Bytes)
      → (select_hmac_secret codec v env cache kid).0 ≡ ok s
      → (keys : List (String × Bytes)) × ((load_jwks_keys codec v env cache).0 ≡ ok keys)
        × (((kid ≡ "") × Any (λ e. e.1 ≡ s) keys) ⊎ (lookup kid keys ≡ some s))
  unfolding select_hmac_secret
  select-keys v env cache kid s h =
      let (keys, loaded, chosen) =
        succeeded (load_jwks_keys codec v env cache).0 (choose_secret codec env.choice kid) s h in
      (keys, loaded, choose_secret-keyed env.choice kid keys s chosen)

  check_token-Verified :
      (v : Verifier) (env : Ambient) (cache : Cache) (bearer : String) (t : Token F) (s : Bytes)
      (claims : Claims)
      → token_of bearer ≢ ""
      → Holds bearer t
      → (select_hmac_secret codec v env cache t.header.kid).0 ≡ ok s
      → check_token codec v env t s ≡ ok claims
      → Verified v env cache bearer claims
  unfolding check_token
  check_token-Verified v env cache bearer t s claims present held selected h =
      elim (Bool-cases (same_bytes (codec.hmac s t.signed) t.signature)) [
        | inl good ↦
            let checked = rw (good, check_token) at h in
            let (keys, loaded, chosen) = select-keys v env cache t.header.kid s selected in
            let (fresh, same) = expiry-ok v env t.claims claims checked in
            record {
              token = t;
              secret = s;
              present = present;
              held = held;
              keys = keys;
              loaded = loaded;
              selected = chosen;
              signature = same_bytes-eq (codec.hmac s t.signed) t.signature good;
              issuer = issuer-ok v env t.claims claims checked;
              audience = elim (audience-ok v env t.claims claims checked) [
                | inl blank ↦ inl blank
                | inr named ↦ inr (aud_matches-Names (trim_space v.audience) t.claims.aud named)
              ];
              unexpired = fresh;
              shown = same;
            }
        | inr bad ↦ cc (rw (bad, check_token) at h)
      ]

  -- A bearer text is accepted only if it holds a token that names HS256, whose signature is the HMAC of
  -- its first two parts under a loaded key, that of its key id where it has one, whose
  -- issuer and audience are the configured ones where these are not blank, and that is not past a
  -- positive expiry; the claims that are returned are those of the token.
  pub verify_bearer-Verified :
      (v : Verifier) (env : Ambient) (cache : Cache) (bearer : String) (claims : Claims)
      → (verify_bearer codec v env cache bearer).0 ≡ ok claims
      → Verified v env cache bearer claims
  unfolding verify_bearer verify_token
  verify_bearer-Verified v env cache bearer claims h =
      elim (Result-cases (read_token codec bearer)) [
        | inr (e, bad) ↦ cc (rw bad at h)
        | inl (t, read) ↦
            let (present, held) = read_token-Holds bearer t read in
            let (s, selected, checked) =
              succeeded (select_hmac_secret codec v env cache t.header.kid).0
                (check_token codec v env t) claims (rw read at h) in
            check_token-Verified v env cache bearer t s claims present held selected checked
      ]
