-- ===== src/Docker/Requests.antt =====
-- The requests of a call of the Docker client.
use pumpkin_pie.Prelude.{
  ◌≡◌, refl, ap, subst, ◌∙◌, String, ◌<>◌, Bool, true, false, ◌==◌, List, [], ◌∷◌, if◌then◌else◌,
  arith,
}
use pumpkin_pie.Exec.{Result, ok, err}
use pumpkin_pie.AgentMgr.Messages.{CreateContainerCommand}
use pumpkin_pie.Docker.{
  Engine, Request, no_body, create_body, request_of, checked, do_request, image_exists, pull, done,
}
use pumpkin_pie.Docker.Create.{
  body_of, on_started, start_created, on_id, on_created, create_and_start, on_pull, if_not_present,
  create,
}

-- The daemon with a record of the requests, the newest first.
unfoldable pub logged : {D : Type 0} → Engine D → Engine (List Request × D)
logged engine = record {
  perform = λ r s. let (x, d) = engine.perform r s.1 in (x, (r ∷ s.0, d));
  id_of = engine.id_of;
  floats = engine.floats;
  to_int64 = engine.to_int64;
}

abbrev pub start_request : String → Request
start_request id = record {
  method = "POST";
  path = "/containers/" <> id <> "/start";
  body = no_body;
}

module _ {D : Type 0} (engine : Engine D) where
  abbrev pub create_request : CreateContainerCommand → Request
  create_request c = record {
    method = "POST";
    path = "/containers/create";
    body = create_body (body_of (logged engine) c);
  }

  -- The call sent the two requests last, and returned the id that it started.
  abbrev pub Started :
      CreateContainerCommand → String → Result String String × (List Request × D) → Type 0
  Started c id r =
      (rest : List Request) × (r.1.0 ≡ start_request id ∷ create_request c ∷ rest)
      × ((id == "") ≡ false)

  on_started-ok :
      (id found : String) (r : Result String String) (s : List Request × D)
      → (on_started found r s).0 ≡ ok id
      → (found ≡ id) × ((on_started found r s).1 ≡ s)
  unfolding on_started
  on_started-ok id found (ok body) s h = (ground (arith, h), refl)
  on_started-ok id found (err why) s h = absurd (ground (arith, h))

  start_created-ok :
      (id found : String) (log : List Request) (d : D)
      → (start_created (logged engine) found (log, d)).0 ≡ ok id
      → (found ≡ id)
        × ((start_created (logged engine) found (log, d)).1.0 ≡ start_request found ∷ log)
  unfolding start_created do_request logged request_of
  start_created-ok id found log d h =
      let (r, d') = engine.perform (start_request found) d in
      let path = "/containers/" <> found <> "/start" in
      let (same, left) =
        on_started-ok id found (checked "POST" path r) (start_request found ∷ log, d') h in
      (same, ap (λ s. s.0) left)

  -- What a create that follows the pull policy does with the id in the answer.
  abbrev pub Began : String → List Request → Result String String × (List Request × D) → Type 0
  Began id log r = (r.1.0 ≡ start_request id ∷ log) × ((id == "") ≡ false)

  on_id-ok :
      (id body found : String) (b : Bool) (log : List Request) (d : D)
      → (found == "") ≡ b
      → let r =
          if b
          then (err ("empty container id; response: " <> body), (log, d))
          else start_created (logged engine) found (log, d) in
        r.0 ≡ ok id → Began id log r
  on_id-ok id body found true log d e h = absurd (ground (arith, h))
  on_id-ok id body found false log d e h =
      let (same, left) = start_created-ok id found log d h in
      (left ∙ ap (λ x. start_request x ∷ log) same, subst (λ x. (x == "") ≡ false) same e)

  on_decoded-ok :
      (id body : String) (r : Result String String) (log : List Request) (d : D)
      → (on_id (logged engine) body r (log, d)).0 ≡ ok id
      → Began id log (on_id (logged engine) body r (log, d))
  unfolding on_id
  on_decoded-ok id body (err why) log d h = absurd (ground (arith, h))
  on_decoded-ok id body (ok found) log d h = on_id-ok id body found (found == "") log d refl h

  on_created-ok :
      (id : String) (r : Result String String) (log : List Request) (d : D)
      → (on_created (logged engine) r (log, d)).0 ≡ ok id
      → Began id log (on_created (logged engine) r (log, d))
  unfolding on_created
  on_created-ok id (err why) log d h = absurd (ground (arith, h))
  on_created-ok id (ok body) log d h = on_decoded-ok id body ((logged engine).id_of body) log d h

  create_and_start-ok :
      (c : CreateContainerCommand) (id : String) (log : List Request) (d : D)
      → (create_and_start (logged engine) c (log, d)).0 ≡ ok id
      → Began id (create_request c ∷ log) (create_and_start (logged engine) c (log, d))
  unfolding create_and_start do_request logged request_of
  create_and_start-ok c id log d h =
      let (r, d') = engine.perform (create_request c) d in
      on_created-ok id (checked "POST" "/containers/create" r) (create_request c ∷ log) d' h

  started :
      (c : CreateContainerCommand) (id : String) (s : List Request × D)
      → (create_and_start (logged engine) c s).0 ≡ ok id
      → Started c id (create_and_start (logged engine) c s)
  started c id s h = let (sent, named) = create_and_start-ok c id s.0 s.1 h in (s.0, sent, named)

  on_pull-ok :
      (c : CreateContainerCommand) (id label : String) (r : Result String Unit)
      (s : List Request × D)
      → (on_pull (logged engine) label c r s).0 ≡ ok id
      → Started c id (on_pull (logged engine) label c r s)
  unfolding on_pull
  on_pull-ok c id label (err why) s h = absurd (ground (arith, h))
  on_pull-ok c id label (ok done) s h = started c id s h

  if_not_present-ok :
      (c : CreateContainerCommand) (id : String) (r : Result String Bool) (s : List Request × D)
      → (if_not_present (logged engine) c r s).0 ≡ ok id
      → Started c id (if_not_present (logged engine) c r s)
  unfolding if_not_present
  if_not_present-ok c id (err why) s h = started c id s h
  if_not_present-ok c id (ok true) s h = started c id s h
  if_not_present-ok c id (ok false) s h =
      let (r, s') = pull (logged engine) c.image s in
      on_pull-ok c id (c.image <> " (IfNotPresent)") r s' h

  policy-ok :
      (c : CreateContainerCommand) (id : String) (b : Bool) (s s' s'' : List Request × D)
      (pulled : Result String Unit) (found : Result String Bool)
      → let r =
          if b
          then on_pull (logged engine) c.image c pulled s'
          else if_not_present (logged engine) c found s'' in
        r.0 ≡ ok id → Started c id r
  policy-ok c id true s s' s'' pulled found h = on_pull-ok c id c.image pulled s' h
  policy-ok c id false s s' s'' pulled found h = if_not_present-ok c id found s'' h

  -- A Create that returns an id has sent, last, the creation of the container that the command
  -- describes and the start of that id, which is not empty.
  pub create-ok :
      (c : CreateContainerCommand) (id : String) (d : D)
      → (create (logged engine) c ([], d)).0 ≡ ok id
      → Started c id (create (logged engine) c ([], d))
  unfolding create
  create-ok c id d h =
      let (pulled, s') = pull (logged engine) c.image ([], d) in
      let (found, s'') = image_exists (logged engine) c.image ([], d) in
      policy-ok c id c.pull ([], d) s' s'' pulled found h
