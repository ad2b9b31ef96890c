-- ===== src/Proxy/Connections.antt =====
-- internal/master/proxy/proxy.go: acceptLoop and forward, what becomes of the connections on a port.
use pumpkin_pie.Prelude.{
  ◌≡◌, refl, ℕ, String, ◌==◌, Option, none, some, List, [], ◌∷◌, if◌then◌else◌, inl, inr,
  Bool-cases,
}
use pumpkin_pie.Exec.{Result, ok, err}
use pumpkin_pie.AgentMgr.State.{Session, session_of}
use pumpkin_pie.Proxy.{Proxy, Route, route_of, host_of, target, upstream}

-- What forward does with a connection before it closes it.
pub data Connection : Type 0 where
  -- no route registered, node offline, or no remote host known
  no_route : Connection
  offline : String → Connection
  no_host : String → Connection
  not_dialed : String → ℕ → String → Connection
  -- pipe, with this address as the other side
  bridged : String → ℕ → Connection

-- net.DialTimeout
abbrev pub Dial : Type 0
Dial = String → ℕ → Result String Unit

unfoldable pub on_dial : String → ℕ → Result String Unit → Connection
on_dial host port (ok done) = bridged host port
on_dial host port (err why) = not_dialed host port why

unfoldable pub on_session : Dial → Route → Option Session → Connection
unfolding on_dial
on_session dial r none = offline r.node_id
on_session dial r (some s) =
    if s.remote_host == ""
    then no_host r.node_id
    else on_dial s.remote_host r.host_port (dial s.remote_host r.host_port)

unfoldable pub on_route : Dial → List Session → Option Route → Connection
unfolding on_session
on_route dial sessions none = no_route
on_route dial sessions (some r) = on_session dial r (session_of r.node_id sessions)

unfoldable pub forward : Dial → ℕ → List Session → Proxy → Connection
unfolding on_route
forward dial port sessions p = on_route dial sessions (route_of port p.routes)

-- What Accept returns, with the sessions and the proxy as forward finds them.
pub data Accepted : Type 0 where
  accepted : List Session → Proxy → Accepted
  closed : String → Accepted

-- acceptLoop: it ends with the first error of Accept.
unfoldable pub accept_loop : Dial → ℕ → List Accepted → List Connection
unfolding forward
accept_loop dial port [] = []
accept_loop dial port (accepted sessions p ∷ later) =
    forward dial port sessions p ∷ accept_loop dial port later
accept_loop dial port (closed why ∷ later) = []

-- The address to dial.
unfoldable pub dialed : Connection → Option (String × ℕ)
dialed no_route = none
dialed (offline node) = none
dialed (no_host node) = none
dialed (not_dialed host port why) = some (host, port)
dialed (bridged host port) = some (host, port)

on_dial-dialed :
    (host : String) (port : ℕ) (r : Result String Unit)
    → dialed (on_dial host port r) ≡ some (host, port)
unfolding on_dial dialed
on_dial-dialed host port (ok done) = refl
on_dial-dialed host port (err why) = refl

on_session-dialed :
    (dial : Dial) (r : Route) (o : Option Session)
    → dialed (on_session dial r o) ≡ host_of r.host_port o
unfolding on_session dialed host_of
on_session-dialed dial r none = refl
on_session-dialed dial r (some s) = elim (Bool-cases (s.remote_host == "")) [
  | inl e ↦ rw e refl
  | inr e ↦ rw e (on_dial-dialed s.remote_host r.host_port (dial s.remote_host r.host_port))
]

on_route-dialed :
    (dial : Dial) (sessions : List Session) (o : Option Route)
    → dialed (on_route dial sessions o) ≡ target sessions o
unfolding on_route dialed target
on_route-dialed dial sessions none = refl
on_route-dialed dial sessions (some r) = on_session-dialed dial r (session_of r.node_id sessions)

-- forward dials the upstream of the port, whether the dial succeeds or not, and nothing else.
pub forward-dialed :
    (dial : Dial) (port : ℕ) (sessions : List Session) (p : Proxy)
    → dialed (forward dial port sessions p) ≡ upstream port sessions p
unfolding forward upstream
forward-dialed dial port sessions p = on_route-dialed dial sessions (route_of port p.routes)
