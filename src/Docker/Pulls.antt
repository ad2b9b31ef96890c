-- ===== src/Docker/Pulls.antt =====
-- When a create pulls the image.
use pumpkin_pie.Prelude.{
  ◌≡◌, refl, ap, ◌∙◌, String, ◌<>◌, Bool, true, false, ◌||◌, ◌==◌, List, [], ◌∷◌, any, Bool-cases,
  inl, inr,
}
use pumpkin_pie.Exec.{Result, ok, err}
use pumpkin_pie.AgentMgr.Messages.{CreateContainerCommand}
use pumpkin_pie.Docker.{
  Engine, Request, Body, no_body, image_body, create_body, request_of, checked, do_request, done,
  image_exists, pull,
}
use pumpkin_pie.Docker.Create.{
  on_started, start_created, on_id, on_created, create_and_start, on_pull, if_not_present, create,
}
use pumpkin_pie.Docker.Requests.{logged, start_request, create_request}

unfoldable pub pulls : Body → Bool
pulls no_body = false
pulls (image_body image) = true
pulls (create_body b) = false

unfoldable pub is_pull : Request → Bool
unfolding pulls
is_pull r = pulls r.body

-- The check found that the image is not there; a check that failed did not.
unfoldable pub is_absent : Result String Bool → Bool
is_absent (ok true) = false
is_absent (ok false) = true
is_absent (err why) = false

module _ {D : Type 0} (engine : Engine D) where
  on_started-pulls :
      (id : String) (r : Result String String) (s : List Request × D) → (on_started id r s).1 ≡ s
  unfolding on_started
  on_started-pulls id (ok body) s = refl
  on_started-pulls id (err why) s = refl

  start_created-pulls :
      (id : String) (s : List Request × D)
      → any is_pull (start_created (logged engine) id s).1.0 ≡ any is_pull s.0
  unfolding start_created do_request logged request_of any is_pull
  start_created-pulls id s =
      let (r, d) = engine.perform (start_request id) s.1 in
      let path = "/containers/" <> id <> "/start" in
      ap (λ t. any is_pull t.0)
        (on_started-pulls id (checked "POST" path r) (start_request id ∷ s.0, d))

  on_id-pulls :
      (body : String) (r : Result String String) (s : List Request × D)
      → any is_pull (on_id (logged engine) body r s).1.0 ≡ any is_pull s.0
  unfolding on_id
  on_id-pulls body (err why) s = refl
  on_id-pulls body (ok id) s = elim (Bool-cases (id == "")) [
    | inl e ↦ rw e refl
    | inr e ↦ rw e (start_created-pulls id s)
  ]

  on_created-pulls :
      (r : Result String String) (s : List Request × D)
      → any is_pull (on_created (logged engine) r s).1.0 ≡ any is_pull s.0
  unfolding on_created
  on_created-pulls (err why) s = refl
  on_created-pulls (ok body) s = on_id-pulls body ((logged engine).id_of body) s

  create_and_start-pulls :
      (c : CreateContainerCommand) (s : List Request × D)
      → any is_pull (create_and_start (logged engine) c s).1.0 ≡ any is_pull s.0
  unfolding create_and_start do_request logged request_of any is_pull
  create_and_start-pulls c s =
      let (r, d) = engine.perform (create_request engine c) s.1 in
      on_created-pulls (checked "POST" "/containers/create" r) (create_request engine c ∷ s.0, d)

  on_pull-pulls :
      (label : String) (c : CreateContainerCommand) (r : Result String Unit) (s : List Request × D)
      → any is_pull (on_pull (logged engine) label c r s).1.0 ≡ any is_pull s.0
  unfolding on_pull
  on_pull-pulls label c (err why) s = refl
  on_pull-pulls label c (ok done) s = create_and_start-pulls c s

  pull-pulls :
      (image : String) (s : List Request × D)
      → any is_pull (pull (logged engine) image s).1.0 ≡ true
  unfolding pull do_request logged request_of any is_pull
  pull-pulls image s = refl

  image_exists-pulls :
      (image : String) (s : List Request × D)
      → any is_pull (image_exists (logged engine) image s).1.0 ≡ any is_pull s.0
  unfolding image_exists do_request logged request_of any is_pull
  image_exists-pulls image s = refl

  if_not_present-pulls :
      (c : CreateContainerCommand) (r : Result String Bool) (s : List Request × D)
      → any is_pull s.0 ≡ false
      → any is_pull (if_not_present (logged engine) c r s).1.0 ≡ is_absent r
  unfolding if_not_present is_absent
  if_not_present-pulls c (err why) s h = create_and_start-pulls c s ∙ h
  if_not_present-pulls c (ok true) s h = create_and_start-pulls c s ∙ h
  if_not_present-pulls c (ok false) s h =
      let (r, s') = pull (logged engine) c.image s in
      on_pull-pulls (c.image <> " (IfNotPresent)") c r s' ∙ pull-pulls c.image s

  -- A Create pulls the image exactly if the command asks for it or the daemon, asked for the image,
  -- says that there is none; not where this check fails in another way.
  pub create-pulls :
      (c : CreateContainerCommand) (d : D)
      → any is_pull (create (logged engine) c ([], d)).1.0
        ≡ c.pull || is_absent (image_exists (logged engine) c.image ([], d)).0
  unfolding create any
  create-pulls c d = elim (Bool-cases c.pull) [
    | inl e ↦
        let (r, s) = pull (logged engine) c.image ([], d) in
        rw e (on_pull-pulls c.image c r s ∙ pull-pulls c.image ([], d))
    | inr e ↦
        let (r, s) = image_exists (logged engine) c.image ([], d) in
        rw e (if_not_present-pulls c r s (image_exists-pulls c.image ([], d)))
  ]
