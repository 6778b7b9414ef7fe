-- ===== src/SessionToken/Examples.antt =====
-- The theorems about session tokens at a concrete input, with functions that have the laws.
use medium.Common.{
  some_injective, ◌+◌, ◌-◌, ◌≤◌, ◌≡◌, ◌≢◌, refl, [], ◌∷◌, ◌++◌, map, arith, Bytes, All, Option,
  none, some, ok, err, ltb, if◌then◌else◌, take, drop, length, take-append, drop-append, bytes_eq,
}
use medium.SessionToken.{
  SessionTokenClaims, Crypto, token_expired, minutes, period, split_once, sign_payload,
  issue_session_token, verify_parts, verify_session_token,
}
use medium.SessionToken.Acceptance.{
  IsLawful, claims_at, issued_token_expires, accepted_token_is_signed, other_secret_is_refused,
}

abbrev pub written : SessionTokenClaims → Bytes
written c =
    c.expires_at
    ∷ length c.session_id
    ∷ length c.service_id
    ∷ (c.session_id ++ (c.service_id ++ c.node_id))

abbrev pub read_claims : Bytes → Option SessionTokenClaims
read_claims (e ∷ s ∷ v ∷ rest) = some (record {
  session_id = take s rest;
  service_id = take v (drop s rest);
  node_id = drop v (drop s rest);
  expires_at = e;
})
read_claims _ = none

abbrev pub toy : Crypto
toy = record {
  to_json = λ claims. some (written claims);
  from_json = read_claims;
  encode = map (λ b. b + 100);
  decode = λ bytes. some (map (λ b. b - 100) bytes);
  hmac = λ secret payload. some (secret ++ payload);
}

decoded : (bytes : Bytes) → map (λ b. b - 100) (map (λ b. b + 100) bytes) ≡ bytes
decoded [] = refl
decoded (b ∷ bs) = let e : b + 100 - 100 ≡ b = omega arith in rw (e, decoded bs) refl

without_period : (bytes : Bytes) → All (λ b. b ≢ period) (map (λ b. b + 100) bytes)
without_period [] = tt
without_period (b ∷ bs) = (λ e. omega arith, without_period bs)

claims_back : (c : SessionTokenClaims) → read_claims (written c) ≡ some c
claims_back c =
    rw
      (
        take-append (length c.session_id) c.session_id (c.service_id ++ c.node_id) refl,
        drop-append (length c.session_id) c.session_id (c.service_id ++ c.node_id) refl,
        take-append (length c.service_id) c.service_id c.node_id refl,
        drop-append (length c.service_id) c.service_id c.node_id refl,
      )
      refl

pub toy-IsLawful : IsLawful toy
toy-IsLawful = record {
  decode-encode = λ bytes. rw (decoded bytes) refl;
  no_period = without_period;
  from_json-to_json =
      λ claims bytes e. let same : written claims ≡ bytes = cc in rw (← same) (claims_back claims);
}

abbrev pub secret : Bytes
secret = 1 ∷ 2 ∷ []

abbrev pub token : Bytes
token =
    600000000100 ∷ 101 ∷ 101 ∷ 107 ∷ 108 ∷ 109 ∷ period ∷ 101 ∷ 102 ∷ 600000000100 ∷ 101 ∷ 101 ∷ 107
    ∷ 108 ∷ 109 ∷ []

issued : issue_session_token toy 0 secret (7 ∷ []) (8 ∷ []) (9 ∷ []) ≡ ok token
unfolding issue_session_token sign_payload
issued = refl

issued_token_expires_example : verify_session_token toy (minutes 14) secret token ≡ (
    if ltb (0 + minutes 15) (minutes 14)
    then err token_expired
    else ok (claims_at 0 (7 ∷ []) (8 ∷ []) (9 ∷ [])))
issued_token_expires_example =
    issued_token_expires toy 0 (minutes 14) secret (7 ∷ []) (8 ∷ []) (9 ∷ []) token toy-IsLawful
      issued

late_test : verify_session_token toy (minutes 16) secret token ≡ err token_expired
unfolding verify_session_token verify_parts split_once sign_payload bytes_eq
late_test = refl

accepted :
    verify_session_token toy (minutes 14) secret token ≡ ok (claims_at 0 (7 ∷ []) (8 ∷ []) (9 ∷ []))
unfolding verify_session_token verify_parts split_once sign_payload bytes_eq
accepted = refl

accepted_token_is_signed_example :
    (before : Bytes) × (after : Bytes) × (payload : Bytes) × (signature : Bytes) × (token
      ≡ before ++ period ∷ after)
    × (toy.decode before ≡ some payload)
    × (toy.decode after ≡ some signature)
    × (toy.hmac secret payload ≡ some signature)
    × (toy.from_json payload ≡ some (claims_at 0 (7 ∷ []) (8 ∷ []) (9 ∷ [])))
    × (minutes 14 ≤ 0 + minutes 10 + minutes 5)
accepted_token_is_signed_example =
    accepted_token_is_signed toy (minutes 14) secret token (claims_at 0 (7 ∷ []) (8 ∷ []) (9 ∷ []))
      accepted

abbrev issued_claims : SessionTokenClaims
issued_claims = claims_at 0 (7 ∷ []) (8 ∷ []) (9 ∷ [])

signs_otherwise :
    toy.hmac (3 ∷ []) (written issued_claims) ≢ toy.hmac secret (written issued_claims)
signs_otherwise same =
    let same' : 3 ∷ written issued_claims ≡ 1 ∷ 2 ∷ written issued_claims = some_injective same in
    cc

other_secret_is_refused_example :
    verify_session_token toy (minutes 1) (3 ∷ []) token
    ≢ ok (claims_at 0 (7 ∷ []) (8 ∷ []) (9 ∷ []))
other_secret_is_refused_example =
    other_secret_is_refused toy 0 (minutes 1) secret (3 ∷ []) (7 ∷ []) (8 ∷ []) (9 ∷ [])
      (written issued_claims) token toy-IsLawful refl signs_otherwise issued
      (claims_at 0 (7 ∷ []) (8 ∷ []) (9 ∷ []))
