-- ===== src/Proxy.antt =====
-- internal/master/proxy/proxy.go: the routes and the listeners of the reverse proxy.
pub mod Routes
pub mod Pipe
pub mod Connections
pub mod Startup
use pumpkin_pie.Prelude.{
  ℕ, String, Bool, not, ◌==◌, Option, none, some, List, [], ◌∷◌, any, find, keep, nat_eq,
  if◌then◌else◌,
}
use pumpkin_pie.Exec.{Result, ok, err, Exec}
use pumpkin_pie.AgentMgr.State.{Session, session_of}

-- routeEntry, with the port that is its key
pub record Route : Type 0 where
  pub port : ℕ
  pub container_id : String
  pub node_id : String
  pub host_port : ℕ

-- Server: the keys of `listeners`, the map `routes`, and the oracle of net.Listen, which takes the
-- next entry, and fails with that message if the entry has one. A listener on a port has that
-- port as its address.
pub record Proxy : Type 0 where
  pub listeners : List ℕ
  pub routes : List Route
  pub listen_faults : List (Option String)

pub data BindError : Type 0 where
  already_bound : ℕ → BindError
  listen_failed : ℕ → String → BindError

unfoldable pub listen : ℕ → Option String → List (Option String) → Exec Proxy BindError Unit
listen port none rest p = (ok tt, record p { listeners = port ∷ p.listeners; listen_faults = rest })
listen port (some why) rest p = (err (listen_failed port why), record p { listen_faults = rest })

-- net.Listen
unfoldable pub open_port : ℕ → List (Option String) → Exec Proxy BindError Unit
unfolding listen
open_port port [] p = listen port none [] p
open_port port (f ∷ fs) p = listen port f fs p

-- BindPort
unfoldable pub bind_port : ℕ → Exec Proxy BindError Unit
unfolding open_port
bind_port port p =
    let opened = open_port port p.listen_faults p in
    if any (nat_eq port) p.listeners then (err (already_bound port), p) else opened

unfoldable pub route_of : ℕ → List Route → Option Route
route_of port = find (λ r. nat_eq r.port port)

-- RegisterRoute, and LoadExistingRoute, whose assignment is the same
unfoldable pub register_route : ℕ → String → String → ℕ → Proxy → Proxy
register_route port container node host_port p = record p {
  routes =
      record { port = port; container_id = container; node_id = node; host_port = host_port }
      ∷ keep (λ r. not (nat_eq r.port port)) p.routes;
}

unfoldable pub load_existing_route : ℕ → String → String → ℕ → Proxy → Proxy
unfolding register_route
load_existing_route port container node host_port p = register_route port container node host_port p

-- UnregisterRoute: the port it returns, and what is left
unfoldable pub unregister_route : ℕ → Proxy → ℕ × Proxy
unregister_route port p = (
  port,
  record p {
    routes = keep (λ r. not (nat_eq r.port port)) p.routes;
    listeners = keep (λ q. not (nat_eq port q)) p.listeners;
  },
)

unfoldable pub host_of : ℕ → Option Session → Option (String × ℕ)
host_of host_port none = none
host_of host_port (some s) = if s.remote_host == "" then none else some (s.remote_host, host_port)

unfoldable pub target : List Session → Option Route → Option (String × ℕ)
unfolding host_of session_of
target sessions none = none
target sessions (some r) = host_of r.host_port (session_of r.node_id sessions)

-- Where forward dials for a connection on the port: the peer host of the node's session, and the
-- port that Docker bound there; `none` where the connection is closed.
unfoldable pub upstream : ℕ → List Session → Proxy → Option (String × ℕ)
unfolding route_of target
upstream port sessions p = target sessions (route_of port p.routes)
