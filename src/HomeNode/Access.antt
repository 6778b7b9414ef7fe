-- ===== src/HomeNode/Access.antt =====
-- Which connections to a node reach which service.
use medium.Common.{
  ℕ, ◌≡◌, refl, sym, ap, ◌∙◌, subst, Bool, true, false, ◌&&◌, List, [], ◌∷◌, map, Option, none,
  some, Bytes, bytes_eq, bytes_eq_iff, if◌then◌else◌, Result, ok, ◌>>=◌, ensure, chained, was_some,
  was_true, ok_injective, some_injective, map_err, map_err-ok, ◌+◌, ◌≤◌,
}
use medium.Netstack.Network.{to_ascii_lowercase}
use medium.SessionToken.{SessionTokenClaims, Crypto, minutes, verify_session_token}
use medium.SessionToken.Acceptance.{accepted_token_is_signed}
use medium.Candidates.Greeting.{SessionHello}
use medium.ControlPlane.Requests.{or_else}
use medium.HomeNode.Config.{ServiceConfig, NodeConfig}
use medium.HomeNode.Proxy.{
  ProxyService, AccessError, bad_token, service_hostname, tls_mode_of, get, tls_for, proxy_service,
  insert_services, proxy_services_from_config, authorized_service, handle_connection_with_hello,
}

abbrev pub is_for : Bytes → ServiceConfig → Bool
is_for id s = s.enabled && bytes_eq s.id id

-- The last service with this id that is enabled.
abbrev pub last_enabled : Bytes → List ServiceConfig → Option ServiceConfig
last_enabled id [] = none
last_enabled id (s ∷ ss) = or_else (last_enabled id ss) (if is_for id s then some s else none)

module _ {T : Type 0} (issue_tls : Bytes → Bytes → Option T) (to_lowercase : ℕ → Bytes) where
  -- The entry of a service is found, or what was there before.
  abbrev pub Shows :
      Option ServiceConfig → Option (ProxyService T) → Option (ProxyService T) → Type 0
  Shows none before found = found ≡ before
  Shows (some s) before found =
      (entry : ProxyService T) × (found ≡ some entry)
      × (proxy_service issue_tls to_lowercase s ≡ ok entry)

  Shows-or_else :
      (o : Option ServiceConfig) (b : Bool) (s : ServiceConfig) (entry : ProxyService T)
      (before found : Option (ProxyService T))
      → proxy_service issue_tls to_lowercase s ≡ ok entry
      → Shows o (if b then some entry else before) found
      → Shows (or_else o (if b then some s else none)) before found
  Shows-or_else (some s') b s entry before found p h = h
  Shows-or_else none true s entry before found p h = (entry, h, p)
  Shows-or_else none false s entry before found p h = h

  proxy_service-id :
      (s : ServiceConfig) (entry : ProxyService T)
      → proxy_service issue_tls to_lowercase s ≡ ok entry
      → (entry.id ≡ s.id)
        × (entry.target ≡ s.target)
        × (entry.tls_mode ≡ tls_mode_of (map to_ascii_lowercase s.kind))
  unfolding proxy_service
  proxy_service-id s entry h =
      let (tls, _, rest) =
        chained
          (tls_for issue_tls to_lowercase (tls_mode_of (map to_ascii_lowercase s.kind)) s.id
            (service_hostname to_lowercase s))
          _ h in
      let same = ok_injective AccessError rest in
      (
        ap (λ (e : ProxyService T). e.id) (sym same),
        ap (λ (e : ProxyService T). e.target) (sym same),
        ap (λ (e : ProxyService T). e.tls_mode) (sym same),
      )

  Shows-kept :
      (o : Option ServiceConfig) (before found : Option (ProxyService T))
      → Shows o before found
      → Shows (or_else o none) before found
  Shows-kept none before found h = h
  Shows-kept (some s) before found h = h

  module _ (id : Bytes) (s : ServiceConfig) (ss : List ServiceConfig) (out : List (ProxyService T))
      (ih : (services : List (ProxyService T))
        → insert_services issue_tls to_lowercase ss services ≡ ok out
        → Shows (last_enabled id ss) (get id services) (get id out)) where
    step-Shows :
        (b : Bool) (services : List (ProxyService T))
        → (if b
            then (proxy_service issue_tls to_lowercase s >>= λ entry.
                insert_services issue_tls to_lowercase ss (entry ∷ services))
            else insert_services issue_tls to_lowercase ss services)
          ≡ ok out
        → Shows
            (or_else (last_enabled id ss) (if b && bytes_eq s.id id then some s else none))
            (get id services)
            (get id out)
    unfolding get
    step-Shows true services h =
        let (entry, made, rest) = chained (proxy_service issue_tls to_lowercase s) _ h in
        Shows-or_else (last_enabled id ss) (bytes_eq s.id id) s entry (get id services) (get id out)
          made
          (subst
            (λ x.
              Shows (last_enabled id ss) (if bytes_eq x id then some entry else get id services)
                (get id out))
            (proxy_service-id s entry made).0 (ih (entry ∷ services) rest))
    step-Shows false services h =
        Shows-kept (last_enabled id ss) (get id services) (get id out) (ih services h)

  pub insert_services-Shows :
      (id : Bytes) (ss : List ServiceConfig) (services out : List (ProxyService T))
      → insert_services issue_tls to_lowercase ss services ≡ ok out
      → Shows (last_enabled id ss) (get id services) (get id out)
  unfolding insert_services get
  insert_services-Shows id [] services out h = ap (get id) (sym (ok_injective AccessError h))
  insert_services-Shows id (s ∷ ss) services out h =
      step-Shows id s ss out (λ before e. insert_services-Shows id ss before out e) s.enabled
        services h

  -- The node's map has, for each id, the entry of the last enabled service with that id.
  pub get-Shows :
      (cfg : NodeConfig) (services : List (ProxyService T)) (id : Bytes)
      → proxy_services_from_config issue_tls to_lowercase cfg ≡ ok services
      → Shows (last_enabled id cfg.services) none (get id services)
  unfolding proxy_services_from_config get
  get-Shows cfg services id h = insert_services-Shows id cfg.services [] services h

  abbrev pub Reached : NodeConfig → Bytes → ProxyService T → Type 0
  Reached cfg service_id entry =
      (s : ServiceConfig) × (last_enabled service_id cfg.services ≡ some s)
      × (entry.target ≡ s.target)
      × (entry.tls_mode ≡ tls_mode_of (map to_ascii_lowercase s.kind))

  pub found-Reached :
      (cfg : NodeConfig) (id : Bytes) (o : Option ServiceConfig) (found : Option (ProxyService T))
      (entry : ProxyService T)
      → last_enabled id cfg.services ≡ o
      → Shows o none found
      → found ≡ some entry
      → Reached cfg id entry
  found-Reached cfg id none found entry is h e = cc
  found-Reached cfg id (some s) found entry is (made, e', p) e =
      let same : made ≡ entry = some_injective (sym e' ∙ e) in
      let (_, target, mode) = proxy_service-id s made p in
      (s, is, rw (← same) target, rw (← same) mode)

  -- A node lets a connection through only with a token, signed with its secret and not expired, whose
  -- claims name the service that the greeting asks for and this node; the connection then goes to the target
  -- of the last enabled service with that id, with the TLS mode of its kind.
  pub handle_connection_with_hello_reaches :
      {A : Type 0} (proxy_stream_to_service : ProxyService T → Result AccessError A) (c : Crypto)
      (now : ℕ) (hello : SessionHello) (cfg : NodeConfig) (services : List (ProxyService T))
      (shared_secret : Bytes) (a : A)
      → proxy_services_from_config issue_tls to_lowercase cfg ≡ ok services
      → handle_connection_with_hello proxy_stream_to_service c now hello services cfg.node_id
          shared_secret
        ≡ ok a
      → (claims : SessionTokenClaims) × (entry : ProxyService T) × (payload : Bytes)
        × (signature : Bytes) × (c.hmac shared_secret payload ≡ some signature)
        × (c.from_json payload ≡ some claims)
        × (now ≤ claims.expires_at + minutes 5)
        × (claims.service_id ≡ hello.service_id)
        × (claims.node_id ≡ cfg.node_id)
        × Reached cfg hello.service_id entry
        × (proxy_stream_to_service entry ≡ ok a)
  unfolding handle_connection_with_hello authorized_service
  handle_connection_with_hello_reaches f c now hello cfg services secret a h k =
      let (entry, allowed, went) =
        chained (authorized_service c now hello services cfg.node_id secret) f k in
      let (claims, verified, rest) =
        chained (map_err bad_token (verify_session_token c now secret hello.token)) _ allowed in
      let (_, service, rest) =
        chained (ensure (bytes_eq claims.service_id hello.service_id) _) _ rest in
      let (_, node, rest) = chained (ensure (bytes_eq claims.node_id cfg.node_id) _) _ rest in
      let (_, _, payload, signature, _, _, _, signed, read, fresh) =
        accepted_token_is_signed c now secret hello.token claims
          (map_err-ok bad_token _ verified) in
      (
        claims,
        entry,
        payload,
        signature,
        signed,
        read,
        fresh,
        (bytes_eq_iff claims.service_id hello.service_id).0 (was_true _ _ service),
        (bytes_eq_iff claims.node_id cfg.node_id).0 (was_true _ _ node),
        found-Reached cfg hello.service_id _ _ entry refl
            (get-Shows cfg services hello.service_id h) (was_some _ _ rest),
        went,
      )
