-- ===== src/Proxy/Routes.antt =====
-- Where the proxy forwards after a route was set or removed.
use pumpkin_pie.Prelude.{
  ◌≡◌, refl, ◌∙◌, ap, ℕ, String, Bool, true, false, not, Option, none, some, List, [], ◌∷◌, any,
  find, keep, nat_eq, if◌then◌else◌, arith,
}
use pumpkin_pie.AgentMgr.State.{Session, session_of}
use pumpkin_pie.Proxy.{
  Route, Proxy, route_of, host_of, target, register_route, unregister_route, upstream,
}

route_of-removed :
    (q port : ℕ) (rs : List Route)
    → route_of q (keep (λ r. not (nat_eq r.port port)) rs)
      ≡ (if nat_eq q port then none else route_of q rs)
unfolding route_of find keep
route_of-removed q port [] = ground arith
route_of-removed q port (r ∷ rs) = ground (arith, route_of-removed q port rs)

any-keep_port :
    (q port : ℕ) (ls : List ℕ)
    → any (nat_eq q) (keep (λ l. not (nat_eq port l)) ls)
      ≡ (if nat_eq q port then false else any (nat_eq q) ls)
unfolding any keep
any-keep_port q port [] = ground arith
any-keep_port q port (l ∷ ls) = ground (arith, any-keep_port q port ls)

target-if :
    (sessions : List Session) (b : Bool) (r : Option Route)
    → target sessions (if b then none else r) ≡ (if b then none else target sessions r)
unfolding target
target-if sessions true r = refl
target-if sessions false r = refl

-- After a port is unregistered, connections on it go nowhere and its listener is gone, so that it
-- can be bound again; every other port forwards where it did and keeps its listener.
pub unregister_route-upstream :
    (q port : ℕ) (sessions : List Session) (p : Proxy)
    → (upstream q sessions (unregister_route port p).1
        ≡ (if nat_eq q port then none else upstream q sessions p))
      × (any (nat_eq q) (unregister_route port p).1.listeners
          ≡ (if nat_eq q port then false else any (nat_eq q) p.listeners))
unfolding upstream unregister_route
unregister_route-upstream q port sessions p = (
  ap (target sessions) (route_of-removed q port p.routes)
      ∙ target-if sessions (nat_eq q port) (route_of q p.routes),
  any-keep_port q port p.listeners,
)

route_of-registered :
    (q : ℕ) (r : Route) (rs : List Route)
    → route_of q (r ∷ keep (λ x. not (nat_eq x.port r.port)) rs)
      ≡ (if nat_eq q r.port then some r else route_of q rs)
unfolding route_of find
route_of-registered q r rs = ground (arith, route_of-removed q r.port rs)

target-if_registered :
    (sessions : List Session) (b : Bool) (r : Route) (o : Option Route)
    → target sessions (if b then some r else o)
      ≡ (if b then host_of r.host_port (session_of r.node_id sessions) else target sessions o)
unfolding target
target-if_registered sessions true r o = refl
target-if_registered sessions false r o = refl

-- A connection on a port whose route was just registered goes to the peer host of the node's
-- session and the host port of the route, and is closed where there is no session or no host; every
-- other port forwards where it did.
pub register_route-upstream :
    (q port : ℕ) (container node : String) (host_port : ℕ) (sessions : List Session) (p : Proxy)
    → upstream q sessions (register_route port container node host_port p) ≡ (
        if nat_eq q port
        then host_of host_port (session_of node sessions)
        else upstream q sessions p)
unfolding upstream register_route
register_route-upstream q port container node host_port sessions p =
    let r : Route = record {
      port = port;
      container_id = container;
      node_id = node;
      host_port = host_port;
    } in
    ap (target sessions) (route_of-registered q r p.routes)
    ∙ target-if_registered sessions (nat_eq q port) r (route_of q p.routes)
