-- ===== src/Command/Master.antt =====
-- internal/cmd/master/master.go: Run, with what it opens and closes.
use pumpkin_pie.Prelude.{
  ◌≡◌, refl, ℕ, ◌⊎◌, inl, inr, String, Bool, true, false, not, Option, none, some, List, [], ◌∷◌,
  any, keep, nat_eq,
}
use pumpkin_pie.Exec.{Result, ok, err, Exec}
use pumpkin_pie.Store.Tables.{Db}
use pumpkin_pie.Config.{MasterConfig, File, load_master_config}
use pumpkin_pie.Proxy.{Proxy}
use pumpkin_pie.Proxy.Startup.{PortsIn, rebind_existing_proxy_routes}

pub data Resource : Type 0 where
  store : Resource
  sink : Resource
  grpc_listener : Resource
  http_server : Resource

pub data Event : Type 0 where
  opened : Resource → Event
  closed : Resource → Event

-- What Run works with, and what it opened and closed, newest first.
pub record Running : Type 0 where
  pub db : Option Db
  pub proxy : Proxy
  pub events : List Event

-- The files and yaml.Unmarshal, Open of the store, net.Listen of the gRPC address with its error,
-- and json.Unmarshal of ports_json. NewSink returns no error, and an error of the HTTP server or of
-- the gRPC server after Listen is only logged.
pub record Host : Type 0 where
  pub decode : String → MasterConfig → Result String MasterConfig
  pub disk : String → File
  pub open_store : String → Result String Db
  pub listen_grpc : String → Option String
  pub ports_in : PortsIn

unfoldable pub note : Event → Running → Running
note e s = record s { events = e ∷ s.events }

-- A resource that is there, with its deferred Close.
unfoldable pub with_close : Resource → Exec Running String Unit → Exec Running String Unit
unfolding note
with_close r body s = let (result, s') = body (note (opened r) s) in (result, note (closed r) s')

unfoldable pub rebound : PortsIn → Option Db → Running → Running
unfolding rebind_existing_proxy_routes
rebound ports_in none s = s
rebound ports_in (some db) s =
    let (r, (db', p)) = rebind_existing_proxy_routes ports_in (db, s.proxy) in
    record s { db = some db'; proxy = p }

-- From the gRPC server on: the routes are rebound, the HTTP server runs until the context or a
-- signal ends the master, and both servers are shut down.
unfoldable pub serve : PortsIn → Exec Running String Unit
unfolding note rebound
serve ports_in s = (
  ok tt,
  note (closed grpc_listener)
      (note (closed http_server) (note (opened http_server) (rebound ports_in s.db s))),
)

unfoldable pub on_listen : PortsIn → Option String → Exec Running String Unit
unfolding serve note
on_listen ports_in (some why) s = (err why, s)
on_listen ports_in none s = serve ports_in (note (opened grpc_listener) s)

-- The manager: its deferred Shutdown closes the sink, before the deferred Close of the sink does.
unfoldable pub manage : Host → MasterConfig → Exec Running String Unit
unfolding on_listen note
manage h c s =
    let (result, s') = on_listen h.ports_in (h.listen_grpc c.grpc) s in
    (result, note (closed sink) s')

unfoldable pub on_store : Host → MasterConfig → Result String Db → Exec Running String Unit
unfolding with_close manage
on_store h c (err why) s = (err why, s)
on_store h c (ok db) s = with_close store (with_close sink (manage h c)) (record s { db = some db })

unfoldable pub on_config : Host → Result String MasterConfig → Exec Running String Unit
unfolding on_store
on_config h (err why) s = (err why, s)
on_config h (ok c) s = on_store h c (h.open_store c.db) s

-- Run, given the path of the flag --config.
unfoldable pub run : Host → String → Proxy → Result String Unit × Running
unfolding on_config load_master_config
run h given px =
    on_config h (load_master_config h.decode h.disk given).0
      (record { db = none; proxy = px; events = [] })

abbrev tag : Resource → ℕ
tag store = 0
tag sink = 1
tag grpc_listener = 2
tag http_server = 3

abbrev pub is_same : Resource → Resource → Bool
is_same r s = nat_eq (tag r) (tag s)

-- What is open after the events, the newest of which comes first.
unfoldable pub left_open : List Event → List Resource
unfolding keep
left_open [] = []
left_open (opened r ∷ es) = r ∷ left_open es
left_open (closed r ∷ es) = keep (λ s. not (is_same s r)) (left_open es)

unfoldable pub is_opening : Resource → Event → Bool
is_opening r (opened s) = is_same r s
is_opening r (closed s) = false

-- The proxy that the master serves with, from the store that it opened.
abbrev pub IsRestored : Host → Proxy → Proxy → Type 0
IsRestored h px after =
    (path : String) × (db : Db) × (h.open_store path ≡ ok db)
    × (after ≡ (rebind_existing_proxy_routes h.ports_in (db, px)).1.1)

-- How Run ends, from the proxy that it was given.
abbrev pub Ends : Host → Proxy → Result String Unit × Running → Type 0
Ends h px (result, s) =
    (left_open s.events ≡ [])
    × (((result ≡ ok tt) × (any (is_opening http_server) s.events ≡ true) × IsRestored h px s.proxy)
        ⊎ ((why : String) × (result ≡ err why)
            × (any (is_opening http_server) s.events ≡ false)
            × (s.proxy ≡ px)))

module _ (h : Host) (px : Proxy) where
  on_listen-Ends :
      (c : MasterConfig) (db : Db) (o : Option String)
      → h.open_store c.db ≡ ok db
      → h.listen_grpc c.grpc ≡ o
      → Ends h px (on_store h c (ok db) (record { db = none; proxy = px; events = [] }))
  unfolding on_store with_close manage on_listen serve note left_open is_opening any keep rebound
  on_listen-Ends c db (some why) found e = rw e (refl, inr (why, refl, refl, refl))
  on_listen-Ends c db none found e = rw e (refl, inl (refl, refl, (c.db, db, found, refl)))

  on_store-Ends :
      (c : MasterConfig) (r : Result String Db)
      → h.open_store c.db ≡ r
      → Ends h px (on_store h c r (record { db = none; proxy = px; events = [] }))
  unfolding on_store left_open any
  on_store-Ends c (err why) found = (refl, inr (why, refl, refl, refl))
  on_store-Ends c (ok db) found = on_listen-Ends c db (h.listen_grpc c.grpc) found refl

  on_config-Ends :
      (r : Result String MasterConfig)
      → Ends h px (on_config h r (record { db = none; proxy = px; events = [] }))
  unfolding on_config left_open any
  on_config-Ends (err why) = (refl, inr (why, refl, refl, refl))
  on_config-Ends (ok c) = on_store-Ends c (h.open_store c.db) refl

  -- However the master's Run ends, the store, the sink, the gRPC listener and the HTTP server that
  -- it opened are closed. If it returns an error, the HTTP server was not opened and the proxy is
  -- as it was; else the HTTP server was opened, and the proxy is what rebindExistingProxyRoutes made of
  -- it with the store that was opened, which is the proxy as it was where the containers cannot be
  -- listed.
  pub run-Ends : (given : String) → Ends h px (run h given px)
  unfolding run
  run-Ends given = on_config-Ends (load_master_config h.decode h.disk given).0
