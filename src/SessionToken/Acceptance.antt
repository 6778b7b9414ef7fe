-- ===== src/SessionToken/Acceptance.antt =====
-- Which session tokens are accepted.
use medium.Common.{
  some_injective, chained, was_some, was_true, ap, ℕ, ◌+◌, ◌≤◌, ◌≡◌, ◌≢◌, inl, inr, refl, sym, ◌∙◌,
  Bool, true, false, not, [], ◌∷◌, ◌++◌, arith, Option, none, some, Bytes, bytes_eq, bytes_eq_iff,
  bytes_eq_refl, ltb, ◌==◌, Bool-cases, All, if◌then◌else◌, Result, ok, err, ◌>>=◌, ◌>>◌, ensure,
  ok_or, Option-cases,
}
use medium.SessionToken.{
  SessionTokenClaims, Crypto, TokenError, invalid_signature, token_expired, minutes, period,
  split_again, split_once, sign_payload, issue_session_token, verify_parts, verify_session_token,
}

-- What the tokens rely on: decoding undoes encoding, base64 text has no period, and JSON gives back
-- the claims.
pub record IsLawful (c : Crypto) : Type 0 where
  pub decode-encode : (bytes : Bytes) → c.decode (c.encode bytes) ≡ some bytes
  pub no_period : (bytes : Bytes) → All (λ b. b ≢ period) (c.encode bytes)
  pub from_json-to_json :
      (claims : SessionTokenClaims) (bytes : Bytes)
      → c.to_json claims ≡ some bytes
      → c.from_json bytes ≡ some claims

split_once-append :
    (c : ℕ) (xs ys : Bytes) → All (λ b. b ≢ c) xs → split_once c (xs ++ c ∷ ys) ≡ some (xs, ys)
unfolding split_once
split_once-append c [] ys h = let e : (c == c) ≡ true = ground arith in rw e refl
split_once-append c (x ∷ xs) ys h =
    let e : (x == c) ≡ false = ground (arith, h.0) in rw (e, split_once-append c xs ys h.1) refl

abbrev parted : Bytes → Bytes → Option (Bytes × Bytes)
parted before after = some (before, after)

split_again_joined :
    (c x : ℕ) (xs before after : Bytes) (o : Option (Bytes × Bytes))
    → ((b a : Bytes) → o ≡ some (b, a) → xs ≡ b ++ c ∷ a)
    → split_again x o ≡ some (before, after)
    → x ∷ xs ≡ before ++ c ∷ after
split_again_joined c x xs before after none h e = cc
split_again_joined c x xs before after (some (b, a)) h e =
    let same = h b a refl in
    let first : x ∷ b ≡ before = parts e in
    let rest : a ≡ after = ends e in rw (← first, ← rest, same) refl
  where
    parts : parted (x ∷ b) a ≡ parted before after → x ∷ b ≡ before
    parts e = cc

    ends : parted (x ∷ b) a ≡ parted before after → a ≡ after
    ends e = cc

split_once-joined :
    (c : ℕ) (token before after : Bytes)
    → split_once c token ≡ some (before, after)
    → token ≡ before ++ c ∷ after
unfolding split_once
split_once-joined c [] before after e = cc
split_once-joined c (x ∷ xs) before after e = elim (Bool-cases (x == c)) [
  | inl same ↦ here (rw same at e) (ground (arith, same))
  | inr other ↦
      split_again_joined c x xs before after (split_once c xs) (λ b a. split_once-joined c xs b a)
        (rw other at e)
]
  where
    here : parted [] xs ≡ parted before after → x ≡ c → x ∷ xs ≡ before ++ c ∷ after
    here e same = let b : [] ≡ before = cc in let a : xs ≡ after = cc in rw (← b, ← a, same) refl

pub record Issued (c : Crypto) (claims : SessionTokenClaims) (secret token : Bytes) : Type 0 where
  payload : Bytes
  signature : Bytes
  written : c.to_json claims ≡ some payload
  signed : c.hmac secret payload ≡ some signature
  joined : token ≡ c.encode payload ++ period ∷ c.encode signature

abbrev pub claims_at : ℕ → Bytes → Bytes → Bytes → SessionTokenClaims
claims_at now session_id service_id node_id = record {
  session_id = session_id;
  service_id = service_id;
  node_id = node_id;
  expires_at = now + minutes 10;
}

issue-Issued :
    (c : Crypto) (now : ℕ) (secret session_id service_id node_id token : Bytes)
    → issue_session_token c now secret session_id service_id node_id ≡ ok token
    → Issued c (claims_at now session_id service_id node_id) secret token
unfolding issue_session_token sign_payload
issue-Issued c now secret session_id service_id node_id token e =
    elim (Option-cases (c.to_json (claims_at now session_id service_id node_id))) [
      | inl bad ↦ let e' = rw bad at e in cc
      | inr (payload, written) ↦ elim (Option-cases (c.hmac secret payload)) [
        | inl bad ↦ let e' = rw (written, bad) at e in cc
        | inr (signature, signed) ↦
            let joined : made _ ≡ made token = rw (written, signed) at e in
            record {
              payload = payload;
              signature = signature;
              written = written;
              signed = signed;
              joined = sym (unwrapped joined);
            }
      ]
    ]
  where
    made : Bytes → Result TokenError Bytes
    made a = ok a

    unwrapped : {a b : Bytes} → made a ≡ made b → a ≡ b
    unwrapped e = cc

-- What is left to check of a token that was issued.
Issued-is_checked :
    (c : Crypto) (claims : SessionTokenClaims) (later : ℕ) (secret other token : Bytes)
    → IsLawful c
    → (i : Issued c claims secret token)
    → verify_session_token c later other token ≡ (
        sign_payload c other i.payload >>= λ expected.
        ensure (bytes_eq i.signature expected) invalid_signature
        >> (ensure (not (ltb (claims.expires_at + minutes 5) later)) token_expired >> ok claims))
unfolding verify_session_token verify_parts
Issued-is_checked c claims later secret other token laws i =
    rw
      (
        i.joined,
        split_once-append period (c.encode i.payload) (c.encode i.signature)
            (laws.no_period i.payload),
        laws.decode-encode i.payload,
        laws.decode-encode i.signature,
        laws.from_json-to_json claims i.payload i.written,
      )
      refl

-- A token that was issued is accepted with its secret, and gives the claims it was issued for, up to
-- fifteen minutes later: the ten of its life and the five of leeway. After that it is refused as
-- expired.
pub issued_token_expires :
    (c : Crypto) (now later : ℕ) (secret session_id service_id node_id token : Bytes)
    → IsLawful c
    → issue_session_token c now secret session_id service_id node_id ≡ ok token
    → verify_session_token c later secret token ≡ (
        if ltb (now + minutes 15) later
        then err token_expired
        else ok (claims_at now session_id service_id node_id))
unfolding sign_payload
issued_token_expires c now later secret session_id service_id node_id token laws e =
    let i = issue-Issued c now secret session_id service_id node_id token e in
    let sum : now + minutes 10 + minutes 5 ≡ now + minutes 15 = omega arith in
    Issued-is_checked c _ later secret secret token laws i
    ∙ rw (i.signed, bytes_eq_refl i.signature, sum) (tested (ltb (now + minutes 15) later))
  where
    claims : SessionTokenClaims
    claims = claims_at now session_id service_id node_id

    tested :
        (b : Bool)
        → (ensure (not b) token_expired >> ok claims) ≡ (if b then err token_expired else ok claims)
    tested true = refl
    tested false = refl

-- A token is accepted only if it is a payload and a signature of that payload under the secret, the
-- claims are those of the payload, and at most five minutes have passed since their end.
pub accepted_token_is_signed :
    (c : Crypto) (now : ℕ) (secret token : Bytes) (claims : SessionTokenClaims)
    → verify_session_token c now secret token ≡ ok claims
    → (before : Bytes) × (after : Bytes) × (payload : Bytes) × (signature : Bytes) × (token
        ≡ before ++ period ∷ after)
      × (c.decode before ≡ some payload)
      × (c.decode after ≡ some signature)
      × (c.hmac secret payload ≡ some signature)
      × (c.from_json payload ≡ some claims)
      × (now ≤ claims.expires_at + minutes 5)
unfolding verify_session_token verify_parts sign_payload
accepted_token_is_signed c now secret token claims e =
    let ((before, after), split, parts) = chained (ok_or (split_once period token) _) _ e in
    let (payload, opened, rest) = chained (ok_or (c.decode before) _) _ parts in
    let (signature, sealed, rest) = chained (ok_or (c.decode after) _) _ rest in
    let (expected, signed, rest) = chained (ok_or (c.hmac secret payload) _) _ rest in
    let (_, equal, rest) = chained (ensure (bytes_eq signature expected) _) _ rest in
    let (given, read, rest) = chained (ok_or (c.from_json payload) _) _ rest in
    let (_, fresh, last) =
      chained (ensure (not (ltb (given.expires_at + minutes 5) now)) _) _ rest in
    let same : signature ≡ expected = (bytes_eq_iff signature expected).0 (was_true _ _ equal) in
    let claimed : given ≡ claims = unwrapped last in
    (
      before,
      after,
      payload,
      signature,
      split_once-joined period token before after (was_some _ _ split),
      was_some _ _ opened,
      was_some _ _ sealed,
      was_some _ _ signed ∙ rw same refl,
      was_some _ _ read ∙ ap some claimed,
      rw (← claimed) (in_time given (was_true _ _ fresh)),
    )
  where
    given_claims : SessionTokenClaims → Result TokenError SessionTokenClaims
    given_claims a = ok a

    unwrapped : {a b : SessionTokenClaims} → given_claims a ≡ given_claims b → a ≡ b
    unwrapped e = cc

    in_time :
        (given : SessionTokenClaims)
        → not (ltb (given.expires_at + minutes 5) now) ≡ true
        → now ≤ given.expires_at + minutes 5
    in_time given e = ground arith

-- A token that was issued under one secret is refused under another, whenever that is, if the other
-- secret signs the token's claims, as JSON, differently.
pub other_secret_is_refused :
    (c : Crypto) (now later : ℕ) (secret other session_id service_id node_id payload token : Bytes)
    → IsLawful c
    → c.to_json (claims_at now session_id service_id node_id) ≡ some payload
    → c.hmac other payload ≢ c.hmac secret payload
    → issue_session_token c now secret session_id service_id node_id ≡ ok token
    → (claims : SessionTokenClaims) → verify_session_token c later other token ≢ ok claims
unfolding sign_payload
other_secret_is_refused c now later secret other session_id service_id node_id payload token laws
      written differ e claims accepted =
    let i = issue-Issued c now secret session_id service_id node_id token e in
    let same : payload ≡ i.payload = some_injective (sym written ∙ i.written) in
    let checked = sym (Issued-is_checked c _ later secret other token laws i) ∙ accepted in
    elim (Option-cases (c.hmac other i.payload)) [
      | inl bad ↦ let e' = rw bad at checked in cc
      | inr (b, signed) ↦ elim (Bool-cases (bytes_eq i.signature b)) [
        | inl equal ↦
            let is : i.signature ≡ b = (bytes_eq_iff i.signature b).0 equal in
            differ (rw same (signed ∙ ap some (sym is) ∙ sym i.signed))
        | inr other' ↦ let e' = rw (signed, other') at checked in cc
      ]
    ]
