-- ===== src/AgentMgr/Sessions.antt =====
-- Whose sessions a disconnect ends.
use pumpkin_pie.Prelude.{
  ◌≡◌, refl, ◌∙◌, String, not, ◌<>◌, ◌==◌, Option, none, some, List, [], ◌∷◌, ap, keep, find,
  if◌then◌else◌, Bool-cases, inl, inr, arith, eq_iff,
}
use pumpkin_pie.Exec.{Result, ok, err}
use pumpkin_pie.Store.Tables.{Container, Time, Error}
use pumpkin_pie.Store.Containers.{list_containers}
use pumpkin_pie.Store.Nodes.{update_node_state}
use pumpkin_pie.AgentMgr.State.{
  Session, Manager, ignoring, publish, session_of, get, close_found, drop_session,
}
use pumpkin_pie.AgentMgr.Handlers.{update_of}
use pumpkin_pie.AgentMgr.Disconnect.{
  is_transient, revert_one, revert_all, revert_listed, revert_transient_on_disconnect,
  handle_disconnect,
}

find-keep_other :
    (id node : String) (ss : List Session)
    → session_of id (keep (λ s. not (s.node_id == node)) ss)
      ≡ (if id == node then none else session_of id ss)
unfolding session_of find keep
find-keep_other id node [] = ground arith
find-keep_other id node (s ∷ ss) =
    ground (
      arith,
      find-keep_other id node ss,
      eq_iff s.node_id node,
      eq_iff id node,
      eq_iff s.node_id id,
    )

revert_all-sessions :
    (now : Time) (node status : String) (cs : List Container) (m : Manager)
    → (revert_all now node status cs m).sessions ≡ m.sessions
unfolding revert_all revert_one ignoring publish
revert_all-sessions now node status [] m = refl
revert_all-sessions now node status (c ∷ cs) m =
    revert_all-sessions now node status cs (revert_one now node status c m)
    ∙ elim (Bool-cases (is_transient node c)) [
      | inl e ↦ rw (e, revert_one, ignoring, publish) refl
      | inr e ↦ rw (e, revert_one) refl
    ]

revert_listed-sessions :
    (now : Time) (node status : String) (r : Result Error (List Container)) (m : Manager)
    → (revert_listed now node status r m).sessions ≡ m.sessions
unfolding revert_listed
revert_listed-sessions now node status (err e) m = refl
revert_listed-sessions now node status (ok all) m = revert_all-sessions now node status all m

revert_transient-sessions :
    (now : Time) (node reason : String) (m : Manager)
    → (revert_transient_on_disconnect now node reason m).sessions ≡ m.sessions
unfolding revert_transient_on_disconnect
revert_transient-sessions now node reason m =
    let (all, db) = list_containers m.db in
    revert_listed-sessions now node ("agent disconnected: " <> reason) all (record m { db = db })

close_found-sessions : (s : Option Session) (m : Manager) → (close_found s m).sessions ≡ m.sessions
unfolding close_found
close_found-sessions none m = refl
close_found-sessions (some s) m = refl

-- After a disconnect is reported for a node, on whichever of its streams, the node has no session,
-- not even one that a newer stream has opened, and every other node has the session it had.
pub get-handle_disconnect :
    (now : Time) (node why id : String) (m : Manager)
    → get id (handle_disconnect now node why m) ≡ (if id == node then none else get id m)
unfolding get handle_disconnect drop_session publish ignoring
get-handle_disconnect now node why id m =
    let left = close_found (get node m) (drop_session node m) in
    ap (session_of id) (
      revert_transient-sessions now node why (
        publish (update_of "state" now node) (ignoring (update_node_state now node "offline") left))
      ∙ close_found-sessions (get node m) (drop_session node m))
    ∙ find-keep_other id node m.sessions
