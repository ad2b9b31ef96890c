-- ===== src/Docker/Stops.antt =====
-- What a stop of the Docker client asks of the daemon, and how it ends.
use pumpkin_pie.Prelude.{
  ◌≡◌, refl, ◌⊎◌, inl, inr, String, ◌<>◌, Bool, true, false, List, [], ◌∷◌, if◌then◌else◌,
  Bool-cases,
}
use pumpkin_pie.Prelude.Texts.{contains}
use pumpkin_pie.Exec.{Result, ok, err}
use pumpkin_pie.Docker.{
  Engine, Request, no_body, request_of, do_request, done, is_stopped_already, remove_if, on_stop,
  stop,
}
use pumpkin_pie.Docker.Requests.{logged}

abbrev pub stop_request : String → Request
stop_request id = record {
  method = "POST";
  path = "/containers/" <> id <> "/stop?t=10";
  body = no_body;
}

-- With the volumes, and by force.
abbrev pub remove_request : String → Request
remove_request id = record {
  method = "DELETE";
  path = "/containers/" <> id <> "?v=1&force=1";
  body = no_body;
}

-- How a stop ends, with the requests that were sent, newest first. It succeeds with the requests that
-- it is for, the removal only if asked for. It fails either on the request to remove, if asked for,
-- or on the stop alone, and then the error is neither that the container does not run nor that
-- it is not there, and nothing is removed.
abbrev pub Ends : {D : Type 0} → String → Bool → Result String Unit × (List Request × D) → Type 0
Ends id remove (ok done, (log, d)) =
    log ≡ (if remove then remove_request id ∷ stop_request id ∷ [] else stop_request id ∷ [])
Ends id remove (err why, (log, d)) =
    ((remove ≡ true) × (log ≡ remove_request id ∷ stop_request id ∷ []))
    ⊎ ((log ≡ stop_request id ∷ [])
        × (contains why "is not running" ≡ false)
        × (contains why "No such container" ≡ false))

module _ {D : Type 0} (engine : Engine D) where
  removed-Ends :
      (id : String) (r : Result String String) (d : D)
      → Ends id true (done r, (remove_request id ∷ stop_request id ∷ [], d))
  unfolding done
  removed-Ends id (ok body) d = refl
  removed-Ends id (err why) d = inl (refl, refl)

  remove_if-Ends :
      (id : String) (remove : Bool) (d : D)
      → Ends id remove (remove_if (logged engine) id remove (stop_request id ∷ [], d))
  unfolding remove_if do_request logged request_of
  remove_if-Ends id false d = refl
  remove_if-Ends id true d =
      let (r, s) =
        do_request (logged engine) "DELETE" ("/containers/" <> id <> "?v=1&force=1") no_body
          (stop_request id ∷ [], d) in
      removed-Ends id r s.1

  on_stop-Ends :
      (id : String) (remove : Bool) (r : Result String String) (d : D)
      → Ends id remove (on_stop (logged engine) id remove r (stop_request id ∷ [], d))
  unfolding on_stop is_stopped_already
  on_stop-Ends id remove (ok body) d = remove_if-Ends id remove d
  on_stop-Ends id remove (err why) d = elim (Bool-cases (contains why "is not running")) [
    | inl e ↦ rw e (remove_if-Ends id remove d)
    | inr e ↦ elim (Bool-cases (contains why "No such container")) [
      | inl f ↦ rw (e, f) (remove_if-Ends id remove d)
      | inr f ↦ rw (e, f) (inr (refl, e, f))
    ]
  ]

  -- Whatever the daemon answers, Stop sends the request to stop the container first. If it succeeds, it
  -- has sent the request to remove it too exactly if that was asked for. If it fails, it has either
  -- been asked to remove the container and has sent both requests, or it has sent the first alone, and
  -- the error says neither that the container is not running nor that there is no such container.
  pub stop-Ends :
      (id : String) (remove : Bool) (d : D)
      → Ends id remove (stop (logged engine) id remove ([], d))
  unfolding stop do_request logged request_of
  stop-Ends id remove d =
      let (r, s) =
        do_request (logged engine) "POST" ("/containers/" <> id <> "/stop?t=10") no_body ([], d) in
      on_stop-Ends id remove r s.1
