-- ===== src/AgentMgr/Connecting.antt =====
-- internal/master/agentmgr/manager.go: what OnAgentConnect leaves, on every branch.
use pumpkin_pie.Prelude.{
  ◌≡◌, refl, ap, ◌∙◌, ◌⊎◌, inl, inr, ℕ, String, Bool, true, false, Option, none, some, ◌∷◌, ◌==◌,
  eq_refl, if◌then◌else◌, List-cases,
}
use pumpkin_pie.Prelude.Rows.{find-head}
use pumpkin_pie.Exec.{Result, ok, err, raise, ◌>>=◌}
use pumpkin_pie.Store.Tables.{
  Node, Error, Time, no_rows, driver, insufficient_gpus, gpu_taken, no_free_port,
}
use pumpkin_pie.Store.Nodes.{upsert_node, get_node_by_machine_id, update_node_state}
use pumpkin_pie.AgentMgr.Messages.{RegisterRequest, AgentMessage, MasterMessage, register_resp}
use pumpkin_pie.AgentMgr.State.{
  Session, Manager, Failure, or_fail, says, on_store, send, deliver, supersede, close_found, get,
  publish, session_of,
}
use pumpkin_pie.AgentMgr.Register.{
  Connection, save_node, register_new, register_found, resolve_node_id, open_session, answer,
  welcome, connect_with, on_agent_connect, session_for, new_node, refreshed, get_register,
}

-- The sessions and what was sent are as before.
abbrev IsCalm : {A : Type 0} → Manager → Result Failure A × Manager → Type 0
IsCalm m (r, m') = (m'.sessions ≡ m.sessions) × (m'.sent ≡ m.sent)

saved-IsCalm :
    (id : String) (r : Result Error Unit) (m : Manager)
    → IsCalm m (or_fail (λ _ m'. (ok id, m')) r m)
unfolding or_fail
saved-IsCalm id (ok _) m = (refl, refl)
saved-IsCalm id (err e) m = (refl, refl)

save_node-IsCalm : (now : Time) (n : Node) (m : Manager) → IsCalm m (save_node now n m)
unfolding save_node on_store
save_node-IsCalm now n m =
    saved-IsCalm n.id (upsert_node now n m.db).0 (record m { db = (upsert_node now n m.db).1 })

register_found-IsCalm :
    (now : Time) (reg : RegisterRequest) (random : Result String String) (r : Result Error Node)
    (m : Manager)
    → IsCalm m (register_found now reg random r m)
unfolding register_found register_new raise
register_found-IsCalm now reg random (ok existing) m =
    save_node-IsCalm now (refreshed now reg existing) m
register_found-IsCalm now reg (ok id) (err no_rows) m = save_node-IsCalm now (new_node now id reg) m
register_found-IsCalm now reg (err why) (err no_rows) m = (refl, refl)
register_found-IsCalm now reg random (err (driver message)) m = (refl, refl)
register_found-IsCalm now reg random (err (insufficient_gpus requested free total)) m = (refl, refl)
register_found-IsCalm now reg random (err (gpu_taken index node)) m = (refl, refl)
register_found-IsCalm now reg random (err (no_free_port start end)) m = (refl, refl)

resolve_node_id-IsCalm :
    (now : Time) (reg : RegisterRequest) (random : Result String String) (m : Manager)
    → IsCalm m (resolve_node_id now reg random m)
unfolding resolve_node_id on_store raise
resolve_node_id-IsCalm now reg random m = by_test (reg.machine_id == "")
  where
    by_test :
        (b : Bool)
        → IsCalm m (
            (if b
                then raise (says "register: machine_id required")
                else on_store
                    (get_node_by_machine_id reg.machine_id)
                    (register_found now reg random))
              m)
    by_test true = (refl, refl)
    by_test false =
        register_found-IsCalm now reg random (get_node_by_machine_id reg.machine_id m.db).0
          (record m { db = (get_node_by_machine_id reg.machine_id m.db).1 })

-- A send adds the message or, refused, nothing, and leaves the sessions.
send-cases :
    (stream : ℕ) (message : MasterMessage) (m : Manager)
    → ((send stream message m).1.sessions ≡ m.sessions)
      × ((((send stream message m).0 ≡ ok tt)
            × ((send stream message m).1.sent ≡ (stream, message) ∷ m.sent))
          ⊎ ((e : Failure) × ((send stream message m).0 ≡ err e)
              × ((send stream message m).1.sent ≡ m.sent)))
unfolding send deliver
send-cases stream message m = elim (List-cases m.send_faults) [
  | inl f ↦ rw f (refl, inl (refl, refl))
  | inr (none, fs, f) ↦ rw f (refl, inl (refl, refl))
  | inr (some why, fs, f) ↦ rw f (refl, inr (says why, refl, refl))
]

close_found-sent : (o : Option Session) (m : Manager) → (close_found o m).sent ≡ m.sent
unfolding close_found
close_found-sent none m = refl
close_found-sent (some s) m = refl

-- A connect that returns has the stream as the session of its node, and has answered on it. One
-- that fails has answered nothing, and has left the sessions or put the stream among them.
abbrev pub Connects : Connection → Manager → Result Failure (Session × String) × Manager → Type 0
Connects conn m (ok (s, id), m') =
    (get id m' ≡ some s)
    × (s.stream ≡ conn.stream)
    × (m'.sent ≡ (conn.stream, register_resp id true "" 5) ∷ m.sent)
Connects conn m (err e, m') =
    (m'.sent ≡ m.sent)
    × ((m'.sessions ≡ m.sessions)
        ⊎ ((id : String) × (s : Session) × (get id m' ≡ some s) × (s.stream ≡ conn.stream)))

module _ (conn : Connection) (reg : RegisterRequest) (id : String) (m : Manager) where
  abbrev IsOpen : Manager → Type 0
  IsOpen m' = get id m' ≡ some (session_for conn id reg)

  welcome-Connects :
      (r : Result Failure Unit) (before after : Manager)
      → IsOpen after
      → ((r ≡ ok tt) × (after.sent ≡ (conn.stream, register_resp id true "" 5) ∷ m.sent))
        ⊎ ((e : Failure) × (r ≡ err e) × (after.sent ≡ m.sent))
      → Connects conn m (◌>>=◌ (λ n. (r, after)) (welcome conn reg id) before)
  unfolding welcome ◌>>=◌ get publish session_for
  welcome-Connects (ok _) before after there (inl (e, told)) = (there, refl, told)
  welcome-Connects (ok _) before after there (inr (why, e, told)) = absurd (cc e)
  welcome-Connects (err e) before after there (inl (f, told)) = absurd (cc f)
  welcome-Connects (err e) before after there (inr (why, f, told)) =
      (told, inr (id, session_for conn id reg, there, refl))

  answer-Connects :
      (r : Result Error Unit) (m' : Manager)
      → IsOpen m'
      → m'.sent ≡ m.sent
      → Connects conn m (or_fail (λ _. answer conn reg id) r m')
  unfolding or_fail answer ◌>>=◌ get session_for
  answer-Connects (err e) m' there kept = (kept, inr (id, session_for conn id reg, there, refl))
  answer-Connects (ok _) m' there kept =
      let message = register_resp id true "" 5 in
      let (sessions, cases) = send-cases conn.stream message m' in
      welcome-Connects (send conn.stream message m').0 m' (send conn.stream message m').1
        (ap (λ ss. session_of id ss) sessions ∙ there)
        (elim cases [
          | inl (e, told) ↦ inl (e, told ∙ ap (λ older. (conn.stream, message) ∷ older) kept)
          | inr (why, e, told) ↦ inr (why, e, told ∙ kept)
        ])

  open_session-Connects :
      (before : Manager) → before.sent ≡ m.sent → Connects conn m (open_session conn reg id before)
  unfolding open_session on_store supersede get session_of session_for
  open_session-Connects before kept =
      let s = session_for conn id reg in
      let m' = supersede s before in
      answer-Connects (update_node_state conn.now id "online" m'.db).0
        (record m' { db = (update_node_state conn.now id "online" m'.db).1 })
        (find-head (λ (x : Session). x.node_id == id) s _ (eq_refl id))
        (close_found-sent (get id before) before ∙ kept)

resolved-Connects :
    (conn : Connection) (reg : RegisterRequest) (m m' : Manager) (r : Result Failure String)
    → IsCalm m (r, m')
    → Connects conn m (◌>>=◌ (λ before. (r, m')) (open_session conn reg) m)
unfolding ◌>>=◌
resolved-Connects conn reg m m' (ok id) calm = open_session-Connects conn reg id m m' calm.1
resolved-Connects conn reg m m' (err e) calm = (calm.1, inl calm.0)

connect_with-Connects :
    (conn : Connection) (reg : Option RegisterRequest) (m : Manager)
    → Connects conn m (connect_with conn reg m)
unfolding connect_with raise ◌>>=◌
connect_with-Connects conn none m = (refl, inl refl)
connect_with-Connects conn (some reg) m =
    let (r, m') = resolve_node_id conn.now reg conn.random m in
    resolved-Connects conn reg m m' r (resolve_node_id-IsCalm conn.now reg conn.random m)

-- Whatever fails in it: where OnAgentConnect returns a session and a node, the session is the one
-- that Get finds for the node, it is of this stream, and the one message sent is the answer that
-- accepts the registration, on this stream. Where it returns an error, no message was sent, and
-- either the sessions are as before, or this stream, which the caller then ends, is the session
-- of a node.
pub on_agent_connect-Connects :
    (conn : Connection) (first : Result String AgentMessage) (m : Manager)
    → Connects conn m (on_agent_connect conn first m)
unfolding on_agent_connect raise
on_agent_connect-Connects conn (err why) m = (refl, inl refl)
on_agent_connect-Connects conn (ok first) m = connect_with-Connects conn (get_register first) m
