-- ===== src/Proxy/Startup.antt =====
-- internal/cmd/master/master.go: rebindExistingProxyRoutes, when the master starts.
use pumpkin_pie.Prelude.{
  ◌≡◌, refl, ◌∙◌, ap, ℕ, String, ◌==◌, ◌||◌, Option, none, some, List, [], ◌∷◌, any, nat_eq,
  if◌then◌else◌, Bool-cases, inl, inr, List-cases,
}
use pumpkin_pie.Exec.{Result, ok, err, Exec}
use pumpkin_pie.Store.Tables.{Container, Db, Error}
use pumpkin_pie.Store.Containers.{list_containers}
use pumpkin_pie.AgentMgr.Messages.{PortMapping}
use pumpkin_pie.AgentMgr.State.{Session, session_of}
use pumpkin_pie.Proxy.{
  Proxy, open_port, bind_port, register_route, load_existing_route, host_of, route_of, target,
  upstream,
}
use pumpkin_pie.Proxy.Routes.{register_route-upstream}

-- json.Unmarshal of ports_json, none on an error.
abbrev pub PortsIn : Type 0
PortsIn = String → Option (List PortMapping)

-- The mapping that a container's route is for: the first of those stored, if it has an external port.
unfoldable pub routed : PortsIn → Container → Option PortMapping
routed ports_in c =
    if nat_eq c.external_port 0 || c.ports_json == ""
    then none
    else elim (ports_in c.ports_json) [ none ↦ none | some [] ↦ none | some (m ∷ ms) ↦ some m ]

-- An error of BindPort is only logged.
unfoldable pub rebind : Container → Option PortMapping → Proxy → Proxy
unfolding load_existing_route bind_port
rebind c none p = p
rebind c (some m) p =
    (bind_port c.external_port (load_existing_route c.external_port c.id c.node_id m.host_port p)).1

unfoldable pub rebind_all : PortsIn → List Container → Proxy → Proxy
unfolding routed rebind
rebind_all ports_in [] p = p
rebind_all ports_in (c ∷ cs) p = rebind_all ports_in cs (rebind c (routed ports_in c) p)

unfoldable pub rebind_listed :
    PortsIn → Result Error (List Container) → Exec (Db × Proxy) Error Unit
unfolding rebind_all
rebind_listed ports_in (err e) s = (err e, s)
rebind_listed ports_in (ok cs) (db, p) = (ok tt, (db, rebind_all ports_in cs p))

unfoldable pub rebind_existing_proxy_routes : PortsIn → Exec (Db × Proxy) Error Unit
unfolding rebind_listed list_containers
rebind_existing_proxy_routes ports_in (db, p) =
    let (r, db') = list_containers db in rebind_listed ports_in r (db', p)

-- Binding a port changes no route.
bind_port-routes : (port : ℕ) (p : Proxy) → (bind_port port p).1.routes ≡ p.routes
unfolding bind_port open_port
bind_port-routes port p = elim (Bool-cases (any (nat_eq port) p.listeners)) [
  | inl e ↦ rw e refl
  | inr e ↦ elim (List-cases p.listen_faults) [
    | inl f ↦ rw (e, f) refl
    | inr (none, fs, f) ↦ rw (e, f) refl
    | inr (some why, fs, f) ↦ rw (e, f) refl
  ]
]

-- Where a port forwards by a container that has a route, and by one that has none.
unfoldable pub restored_by :
    ℕ → List Session → Container → Option PortMapping → Option (String × ℕ) → Option (String × ℕ)
restored_by q sessions c none before = before
restored_by q sessions c (some m) before =
    if nat_eq q c.external_port then host_of m.host_port (session_of c.node_id sessions) else before

unfoldable pub restored :
    PortsIn → ℕ → List Session → List Container → Option (String × ℕ) → Option (String × ℕ)
unfolding restored_by
restored ports_in q sessions [] before = before
restored ports_in q sessions (c ∷ cs) before =
    restored ports_in q sessions cs (restored_by q sessions c (routed ports_in c) before)

rebind-upstream :
    (q : ℕ) (sessions : List Session) (c : Container) (o : Option PortMapping) (p : Proxy)
    → upstream q sessions (rebind c o p) ≡ restored_by q sessions c o (upstream q sessions p)
unfolding rebind restored_by upstream
rebind-upstream q sessions c none p = refl
rebind-upstream q sessions c (some m) p =
    ap (λ rs. target sessions (route_of q rs))
      (bind_port-routes c.external_port
        (register_route c.external_port c.id c.node_id m.host_port p))
    ∙ register_route-upstream q c.external_port c.id c.node_id m.host_port sessions p

-- When the master starts, the routes of the containers in its store are restored: a connection on a
-- port goes to the node of the last container listed that has the port and a stored mapping, at the
-- host port of its first mapping, and as it did before
-- where there is none. A port that cannot be bound has its route all the same.
pub rebind_all-upstream :
    (ports_in : PortsIn) (q : ℕ) (sessions : List Session) (cs : List Container) (p : Proxy)
    → upstream q sessions (rebind_all ports_in cs p)
      ≡ restored ports_in q sessions cs (upstream q sessions p)
unfolding rebind_all restored
rebind_all-upstream ports_in q sessions [] p = refl
rebind_all-upstream ports_in q sessions (c ∷ cs) p =
    rebind_all-upstream ports_in q sessions cs (rebind c (routed ports_in c) p)
    ∙ ap (restored ports_in q sessions cs) (rebind-upstream q sessions c (routed ports_in c) p)
