-- ===== src/Docker.antt =====
-- internal/agent/docker/client.go: the Docker Engine's HTTP API, as the agent asks for it.
pub mod Create
pub mod Requests
pub mod Pulls
pub mod Stops
pub mod Listing
pub mod Client
pub mod Mapped
pub mod Streams
use pumpkin_pie.Prelude.{
  ℕ, ◌*◌, ◌/◌, String, ◌<>◌, Bool, true, false, not, ◌||◌, ◌&&◌, ◌==◌, Option, none, some, List, [],
  ◌∷◌, map, ltb, leb, nat_eq, if◌then◌else◌,
}
use Prim.Native.Char.{Char, code}
use pumpkin_pie.Prelude.Texts.{contains, decimal, replace}
use pumpkin_pie.Prelude.Dicts.{Dict, insert}
use pumpkin_pie.Exec.{Result, ok, err, Exec}
use pumpkin_pie.Store.Tables.{Float64}
use pumpkin_pie.Float.{FloatOps}
use pumpkin_pie.AgentMgr.Messages.{CreateContainerCommand, PortMapping, ResourceSpec}

pub data DeviceRequest : Type 0 where
  of_ids : List String → DeviceRequest
  of_count : ℕ → DeviceRequest

-- The body of POST /containers/create; `name`, the limits and the device request are left out where
-- there is none, AutoRemove is always false and the label pumpkinpie.managed always "true".
pub record CreateBody : Type 0 where
  pub image : String
  pub env : List String
  pub cmd : List String
  pub exposed_ports : List String
  pub port_bindings : Dict String
  pub binds : List String
  pub container_id : String
  pub name : Option String
  pub cpu_quota : Option ℕ
  pub memory : Option ℕ
  pub device_requests : Option DeviceRequest

-- A body before json.Marshal.
pub data Body : Type 0 where
  no_body : Body
  image_body : String → Body
  create_body : CreateBody → Body

pub record Request : Type 0 where
  pub method : String
  pub path : String
  pub body : Body

pub record Response : Type 0 where
  pub status_code : ℕ
  pub body : String

-- What is not of this repository: http.NewRequest and http.Client on the daemon's socket, the
-- daemon with its state `D`, json.Unmarshal of the answer to a create, and int64 of a float64.
pub record Engine (D : Type 0) : Type 0 where
  pub perform : Request → Exec D String Response
  pub id_of : String → Result String String
  pub floats : FloatOps
  pub to_int64 : Float64 → ℕ

unfoldable pub request_of : String → String → Body → Request
request_of method path body = record { method = method; path = path; body = body }

unfoldable pub refusal : String → String → Response → String
refusal method path r =
    "docker " <> method <> " " <> path <> " -> " <> decimal r.status_code <> ": " <> r.body

unfoldable pub checked : String → String → Result String Response → Result String String
checked method path (err why) = err why
checked method path (ok r) =
    if leb 400 r.status_code then err (refusal method path r) else ok r.body

-- urlPathEscape
unfoldable pub escaped_in_path : Char → String
escaped_in_path c =
    if nat_eq (code c) b' '
    then "%20"
    else if nat_eq (code c) b'"'
    then "%22"
    else if nat_eq (code c) b'#'
    then "%23"
    else if nat_eq (code c) b'?'
    then "%3F"
    else if nat_eq (code c) b'@'
    then "%40"
    else if nat_eq (code c) b':'
    then "%3A"
    else String.◌∷◌ c ""

unfoldable pub url_path_escape : String → String
unfolding escaped_in_path
url_path_escape s = replace escaped_in_path s

-- The result of (*Client).ImageExists.
unfoldable pub existing : Result String String → Result String Bool
existing (ok body) = ok true
existing (err why) = if contains why " -> 404" then ok false else err why

unfoldable pub done : Result String String → Result String Unit
done (ok body) = ok tt
done (err why) = err why

module _ {D : Type 0} (engine : Engine D) where
  -- do and doJSON
  unfoldable pub do_request : String → String → Body → Exec D String String
  unfolding request_of checked
  do_request method path body d =
      let (r, d') = engine.perform (request_of method path body) d in (checked method path r, d')

  unfoldable pub image_exists : String → Exec D String Bool
  unfolding existing do_request
  image_exists image d =
      let (r, d') = do_request "GET" ("/images/" <> url_path_escape image <> "/json") no_body d in
      (existing r, d')

  unfoldable pub pull : String → Exec D String Unit
  unfolding done do_request
  pull image d =
      let (r, d') = do_request "POST" ("/images/create?fromImage=" <> image) (image_body image) d in
      (done r, d')

  -- `err.Error()` says that there is nothing to stop.
  unfoldable pub is_stopped_already : String → Bool
  is_stopped_already why = contains why "is not running" || contains why "No such container"

  unfoldable pub remove_if : String → Bool → Exec D String Unit
  unfolding done do_request
  remove_if id false d = (ok tt, d)
  remove_if id true d =
      let (r, d') = do_request "DELETE" ("/containers/" <> id <> "?v=1&force=1") no_body d in
      (done r, d')

  unfoldable pub on_stop : String → Bool → Result String String → Exec D String Unit
  unfolding is_stopped_already remove_if
  on_stop id remove (ok body) d = remove_if id remove d
  on_stop id remove (err why) d =
      if is_stopped_already why then remove_if id remove d else (err why, d)

  unfoldable pub stop : String → Bool → Exec D String Unit
  unfolding on_stop do_request
  stop id remove d =
      let (r, d') = do_request "POST" ("/containers/" <> id <> "/stop?t=10") no_body d in
      on_stop id remove r d'

  unfoldable pub start : String → Exec D String Unit
  unfolding done do_request
  start id d =
      let (r, d') = do_request "POST" ("/containers/" <> id <> "/start") no_body d in (done r, d')

  unfoldable pub ping : Exec D String Unit
  unfolding done do_request
  ping d = let (r, d') = do_request "GET" "/_ping" no_body d in (done r, d')
