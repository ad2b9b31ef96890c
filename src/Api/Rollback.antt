-- ===== src/Api/Rollback.antt =====
-- What a stop that could not be sent leaves behind.
use pumpkin_pie.Prelude.{
  ◌≡◌, refl, ◌∙◌, ap, String, Bool, false, ◌==◌, Option, none, some, List, [], ◌∷◌, change,
  Bool-cases, inl, inr,
}
use pumpkin_pie.Exec.{Result, ok, err, ◌>>=◌}
use pumpkin_pie.Store.Tables.{Container, Tables, Time, calm}
use pumpkin_pie.Store.Containers.{set_state}
use pumpkin_pie.AgentMgr.Messages.{MasterMessage}
use pumpkin_pie.AgentMgr.State.{Session, Failure, get, send}
use pumpkin_pie.AgentMgr.Lifecycle.{stated}
use pumpkin_pie.Api.State.{Master, Refusal, doing, send_to, sent}
use pumpkin_pie.Api.Create.{finally, undoing}
use pumpkin_pie.Api.Failures.{send-db}
use pumpkin_pie.Api.Lifecycle.{or_node_offline, send_stop_command, set_state_of, let_go, stop_found}

set_state-set_state :
    (now : Time) (docker_id state status state' status' : String) (c : Container)
    → set_state now docker_id state' status' (set_state now docker_id state status c)
      ≡ set_state now docker_id state' status' c
unfolding set_state
set_state-set_state now docker_id state status state' status' c =
    elim (Bool-cases (docker_id == "")) [ inl e ↦ rw e refl | inr e ↦ rw e refl ]

-- Two updates of the same row, of which the second overwrites the first.
change-change {ℓ} :
    {A : Type ℓ} (p : A → Bool) (f g : A → A) (xs : List A)
    → ((x : A) → p (f x) ≡ p x)
    → ((x : A) → g (f x) ≡ g x)
    → change p g (change p f xs) ≡ change p g xs
unfolding change
change-change p f g [] k h = refl
change-change p f g (x ∷ xs) k h = elim (Bool-cases (p x)) [
  | inl e ↦ rw (e, k x, e, h x, change-change p f g xs k h) refl
  | inr e ↦ rw (e, e, change-change p f g xs k h) refl
]

set_state-id :
    (now : Time) (docker_id state status : String) (c : Container)
    → (set_state now docker_id state status c).id ≡ c.id
unfolding set_state
set_state-id now docker_id state status c = refl

stated-stated :
    (now : Time) (id docker_id state status state' status' : String) (t : Tables)
    → stated now id docker_id state' status' (stated now id docker_id state status t)
      ≡ stated now id docker_id state' status' t
unfolding stated
stated-stated now id docker_id state status state' status' t =
    ap (λ cs. record t { containers = cs })
      (change-change (λ c. c.id == id) (set_state now docker_id state status)
        (set_state now docker_id state' status') t.containers
        (λ c. ap (λ i. i == id) (set_state-id now docker_id state status c))
        (λ c. set_state-set_state now docker_id state status state' status' c))

set_state_of-tables :
    (now : Time) (c : Container) (state status : String) (s : Master) (t : Tables)
    → s.manager.db ≡ calm t
    → (set_state_of now c state status s).manager.db
      ≡ calm (stated now c.id c.docker_id state status t)
unfolding set_state_of stated
set_state_of-tables now c state status s t e = rw e refl

sent-state : (r : Result Failure Unit) (s : Master) → (sent r s).1 ≡ s
unfolding sent
sent-state (ok _) s = refl
sent-state (err why) s = refl

offline-db :
    (o : Option Session) (message : MasterMessage) (s : Master)
    → (◌>>=◌ (or_node_offline o) (λ session. send_to session message) s).1.manager.db ≡ s.manager.db
unfolding or_node_offline send_to ◌>>=◌
offline-db none message s = refl
offline-db (some session) message s =
    let (r, m) = send session.stream message s.manager in
    ap (λ x. x.manager.db) (sent-state r (record s { manager = m }))
    ∙ send-db session.stream message s.manager

send_stop_command-db :
    (c : Container) (remove : Bool) (s : Master)
    → (send_stop_command c remove s).1.manager.db ≡ s.manager.db
unfolding send_stop_command
send_stop_command-db c remove s = offline-db (get c.node_id s.manager) _ s

-- The roll-back, if the send failed.
settled-failed :
    (now : Time) (c : Container) (t : Tables) (e : Refusal) (r : Result Refusal Unit) (s : Master)
    → s.manager.db ≡ calm (stated now c.id c.docker_id "stopping" "stopping" t)
    → (◌>>=◌
        (λ _. finally (set_state_of now c c.state c.status) (r, s))
        (λ _. doing (let_go c))
        s).0
      ≡ err e
    → (◌>>=◌
        (λ _. finally (set_state_of now c c.state c.status) (r, s))
        (λ _. doing (let_go c))
        s).1.manager.db
      ≡ calm (stated now c.id c.docker_id c.state c.status t)
unfolding finally doing ◌>>=◌
settled-failed now c t e (ok _) s db h = absurd (cc)
settled-failed now c t e (err why) s db h =
    set_state_of-tables now c c.state c.status s _ db
    ∙ ap calm (stated-stated now c.id c.docker_id "stopping" "stopping" c.state c.status t)

-- Where a stop is refused after its container was found, because the node is offline or the
-- command cannot be sent, and the driver fails nothing, the row has the state and status with which
-- it was found (as after one update that sets them), and no other row is changed.
pub stop_found-failed :
    (now : Time) (c : Container) (s : Master) (t : Tables) (e : Refusal)
    → s.manager.db ≡ calm t
    → (stop_found now c s).0 ≡ err e
    → (stop_found now c s).1.manager.db ≡ calm (stated now c.id c.docker_id c.state c.status t)
unfolding stop_found undoing doing ◌>>=◌
stop_found-failed now c s t e db h =
    let stopping = set_state_of now c "stopping" "stopping" s in
    let (r, s') = send_stop_command c false stopping in
    settled-failed now c t e r s'
      (send_stop_command-db c false stopping
        ∙ set_state_of-tables now c "stopping" "stopping" s t db)
      h
