-- ===== src/ControlPlane/Granted.antt =====
-- What a session grant consists of.
use medium.Common.{
  ℕ, ◌≡◌, sym, ap, ◌∷◌, ◌++◌, Bytes, codes, ok, chained, map_err, map_err-ok, ok_injective,
}
use medium.Candidates.{direct_tcp, relay_tcp, wss_relay}
use medium.SessionToken.{Crypto, issue_session_token}
use medium.ControlPlane.Registry.{ServiceRoute}
use medium.ControlPlane.Grants.{
  SessionOpenRequest, SessionOpenGrant, SessionSettings, GrantError, no_route, no_token, Parsers,
  Ids, candidate, push_candidate, route_for, build_ice_grant, issue_session_grant,
}

pub record Granted (p : Parsers) (c : Crypto) (ids : Ids) (now : ℕ) (request : SessionOpenRequest)
    (settings : SessionSettings) (grant : SessionOpenGrant) : Type 0 where
  pub route : ServiceRoute
  pub found : route_for request settings.registry ≡ ok route
  pub token : Bytes
  pub issued :
      issue_session_token c now settings.shared_secret
        (codes "sess_" ++ ids.session)
        request.service_id
        route.node_id
      ≡ ok token
  pub carried : grant.authorization.token ≡ token
  pub service : grant.service_id ≡ request.service_id
  pub node : grant.node_id ≡ route.node_id
  pub candidates :
      grant.authorization.candidates
      ≡ candidate direct_tcp 100 route.tcp_addr
        ∷ (push_candidate relay_tcp settings.relay_addr
            ++ push_candidate wss_relay settings.wss_relay_url)

pub issue_session_grant-Granted :
    (p : Parsers) (c : Crypto) (ids : Ids) (now : ℕ) (request : SessionOpenRequest)
    (settings : SessionSettings) (grant : SessionOpenGrant)
    → issue_session_grant p c ids now request settings ≡ ok grant
    → Granted p c ids now request settings grant
unfolding issue_session_grant
issue_session_grant-Granted p c ids now request settings grant h =
    let (route, found, rest) =
      chained (map_err no_route (route_for request settings.registry)) _ h in
    let (token, issued, rest) = chained (map_err no_token _) _ rest in
    let (ice, built, rest) = chained (build_ice_grant p ids now _ _) _ rest in
    let same = ok_injective GrantError rest in
    record {
      route = route;
      found = map_err-ok no_route _ found;
      token = token;
      issued = map_err-ok no_token _ issued;
      carried = ap (λ (g : SessionOpenGrant). g.authorization.token) (sym same);
      service = ap (λ (g : SessionOpenGrant). g.service_id) (sym same);
      node = ap (λ (g : SessionOpenGrant). g.node_id) (sym same);
      candidates = ap (λ (g : SessionOpenGrant). g.authorization.candidates) (sym same);
    }
