-- ===== src/SessionToken.antt =====
-- Session tokens: `issue_session_token` and `verify_session_token` of crates/overlay-crypto/src/lib.rs.
-- What serde_json, base64 and hmac do is a record of functions; `Utc::now` is an argument, in
-- nanoseconds.
pub mod Acceptance
pub mod Examples
use medium.Common.{
  ℕ, ◌+◌, ◌*◌, Bool, true, false, not, List, [], ◌∷◌, ◌++◌, Option, none, some, Bytes, bytes_eq,
  ltb, ◌==◌, if◌then◌else◌, Result, ok, err, ◌>>=◌, ◌>>◌, ensure, ok_or,
}

pub record SessionTokenClaims : Type 0 where
  pub session_id : Bytes
  pub service_id : Bytes
  pub node_id : Bytes
  pub expires_at : ℕ

pub record Crypto : Type 0 where
  pub to_json : SessionTokenClaims → Option Bytes
  pub from_json : Bytes → Option SessionTokenClaims
  pub encode : Bytes → Bytes
  pub decode : Bytes → Option Bytes
  pub hmac : Bytes → Bytes → Option Bytes

pub data TokenError : Type 0 where
  not_serialized invalid_key invalid_format invalid_payload invalid_signature_encoding : TokenError
  invalid_signature invalid_claims token_expired : TokenError

abbrev pub minutes : ℕ → ℕ
minutes n = n * 60000000000

abbrev pub session_token_ttl_minutes : ℕ
session_token_ttl_minutes = 10

abbrev pub session_token_clock_skew_minutes : ℕ
session_token_clock_skew_minutes = 5

abbrev pub period : ℕ
period = 46

abbrev pub split_again : ℕ → Option (Bytes × Bytes) → Option (Bytes × Bytes)
split_again b none = none
split_again b (some (before, after)) = some (b ∷ before, after)

-- `split_once`.
unfoldable pub split_once : ℕ → Bytes → Option (Bytes × Bytes)
split_once c [] = none
split_once c (b ∷ bs) = if b == c then some ([], bs) else split_again b (split_once c bs)

unfoldable pub sign_payload : Crypto → Bytes → Bytes → Result TokenError Bytes
sign_payload c shared_secret payload = ok_or (c.hmac shared_secret payload) invalid_key

unfoldable pub issue_session_token :
    Crypto → ℕ → Bytes → Bytes → Bytes → Bytes → Result TokenError Bytes
issue_session_token c now shared_secret session_id service_id node_id =
    let claims : SessionTokenClaims = record {
      session_id = session_id;
      service_id = service_id;
      node_id = node_id;
      expires_at = now + minutes session_token_ttl_minutes;
    } in
    ok_or (c.to_json claims) not_serialized >>= λ payload.
    sign_payload c shared_secret payload >>= λ signature.
    ok (c.encode payload ++ period ∷ c.encode signature)

-- The checks on the parts of a token.
unfoldable pub verify_parts :
    Crypto → ℕ → Bytes → Bytes × Bytes → Result TokenError SessionTokenClaims
verify_parts c now shared_secret (payload_b64, signature_b64) =
    ok_or (c.decode payload_b64) invalid_payload >>= λ payload.
    ok_or (c.decode signature_b64) invalid_signature_encoding >>= λ signature.
    sign_payload c shared_secret payload >>= λ expected_signature.
    ensure (bytes_eq signature expected_signature) invalid_signature
    >> (ok_or (c.from_json payload) invalid_claims >>= λ claims.
        ensure (not (ltb (claims.expires_at + minutes session_token_clock_skew_minutes) now))
          token_expired
        >> ok claims)

unfoldable pub verify_session_token :
    Crypto → ℕ → Bytes → Bytes → Result TokenError SessionTokenClaims
verify_session_token c now shared_secret token =
    ok_or (split_once period token) invalid_format >>= verify_parts c now shared_secret
