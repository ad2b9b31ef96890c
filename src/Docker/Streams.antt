-- ===== src/Docker/Streams.antt =====
-- internal/agent/docker/client.go: Events, from the request to the channel. What json.Decode returns
-- for each value of the stream is a parameter.
use pumpkin_pie.Prelude.{
  ap, ◌++◌, leb, ◌≡◌, refl, ℕ, ◌*◌, ◌/◌, ◌^◌, String, ◌<>◌, not, ◌&&◌, ◌==◌, List, [], ◌∷◌, map,
  nat_eq, ltb, if◌then◌else◌,
}
use pumpkin_pie.Prelude.Texts.{decimal}
use pumpkin_pie.Exec.{Result, ok, err, Exec}
use pumpkin_pie.Agent.Events.{ContainerEvent}
use pumpkin_pie.Agent.Events.{Subscription, refused, streamed}
use pumpkin_pie.Docker.{Response, refusal}
use pumpkin_pie.Docker.Listing.{query_escape}

abbrev pub events_filter : String
events_filter = "{\"label\":{\"pumpkinpie.managed\":\"true\"},\"type\":\"container\"}"

-- The path that Events asks for; `since` is in nanoseconds, 0 being the zero time.
unfoldable pub events_path : ℕ → String
unfolding query_escape
events_path since =
    "/events?filters="
    <> query_escape events_filter
    <> (if nat_eq since 0 then "" else "&since=" <> decimal (since / 1000000000))

-- An event of the stream after Decode, its time an int64, with the label of its actor.
pub record RawEvent : Type 0 where
  pub id : String
  pub kind : String
  pub action : String
  pub seconds : ℕ
  pub actor_id : String
  pub container_id : String

unfoldable pub event_of : RawEvent → ContainerEvent
event_of raw = record {
  id = if not (raw.id == "") && raw.actor_id == "" then raw.id else raw.actor_id;
  action = raw.action;
  at = if ltb raw.seconds (2 ^ 63) then raw.seconds * 1000000000 else 0;
  container_id = raw.container_id;
}

unfoldable pub events_of : List RawEvent → List ContainerEvent
unfolding event_of
events_of [] = []
events_of (raw ∷ raws) =
    let rest = events_of raws in
    if not (raw.kind == "") && not (raw.kind == "container") then rest else event_of raw ∷ rest

-- A response whose body is read as it comes: its status, the whole body where it is read at once,
-- and what each Decode returns, until the context ends.
pub record Opened : Type 0 where
  pub response : Response
  pub decodes : List (Result String RawEvent)

-- http.NewRequest and http.Client on the daemon's socket, for a request without a body
pub record Streams (D : Type 0) : Type 0 where
  pub new_request : String → String → Result String String
  pub connect : String → Exec D String Opened

-- The loop of the goroutine: the first Decode that fails ends it.
unfoldable pub raws_of : List (Result String RawEvent) → List RawEvent
raws_of [] = []
raws_of (err why ∷ rest) = []
raws_of (ok raw ∷ rest) = raw ∷ raws_of rest

unfoldable pub opened : String → Result String Opened → Result String (List ContainerEvent)
unfolding events_of raws_of refusal
opened path (err why) = err ("docker events: " <> why)
opened path (ok o) =
    if leb 400 o.response.status_code
    then err (refusal "GET" path o.response)
    else ok (events_of (raws_of o.decodes))

unfoldable pub events : {D : Type 0} → Streams D → ℕ → Exec D String (List ContainerEvent)
unfolding opened events_path
events streams since d =
    let path = events_path since in
    elim (streams.new_request "GET" ("http://localhost" <> path)) [
      | err why ↦ (err why, d)
      | ok request ↦ let (r, d') = streams.connect request d in (opened path r, d')
    ]

-- The call of Events in the agent's loop.
unfoldable pub subscription_of : ℕ → Result String (List ContainerEvent) → Subscription
subscription_of now (err why) = refused now
subscription_of now (ok es) = streamed es now

-- A stream forwards the events before the first value that does not decode, and nothing behind it.
pub raws_of-append :
    (raws : List RawEvent) (why : String) (more : List (Result String RawEvent))
    → raws_of (map (λ raw. ok raw) raws ++ (err why ∷ more)) ≡ raws
unfolding raws_of
raws_of-append [] why more = refl
raws_of-append (raw ∷ raws) why more = ap (λ rs. raw ∷ rs) (raws_of-append raws why more)
