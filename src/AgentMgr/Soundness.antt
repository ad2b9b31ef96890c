-- ===== src/AgentMgr/Soundness.antt =====
-- The invariant of the manager, and that each part of its work keeps it.
use pumpkin_pie.Prelude.{
  ◌≡◌, refl, ◌≤◌, ℕ, String, Bool, false, not, ◌==◌, Option, none, some, List, [], ◌∷◌, length, any,
  keep, All, arith, ltb, Bool-cases, inl, inr, length-append,
}
use pumpkin_pie.Prelude.Rows.{Distinct, Distinct-keep, All-mono, All-keep_test}
use pumpkin_pie.Exec.Keeps.{Keeps}
use pumpkin_pie.Store.Tables.{Tables, Db}
use pumpkin_pie.Store.Sql.{Sql}
use pumpkin_pie.Store.Sql.Keeps.{Holds}
use pumpkin_pie.Store.Lasting.{Lasting}
use pumpkin_pie.Store.Validity.{IsValid}
use pumpkin_pie.Store.Validity.Registered.{IsRegistered, IsRegistered-Lasting}
use pumpkin_pie.Store.Validity.Histories.{IsValid-Lasting}
use pumpkin_pie.AgentMgr.State.{
  Session, NodeUpdate, Metric, Manager, updates_capacity, sink_capacity, ignoring, offer, publish,
  enqueue_metric, get, close_found, drop_session, supersede,
}

abbrev pub same_session : Session → Session → Bool
same_session a b = b.node_id == a.node_id

-- The tables meet their constraints; a node has at most one session, and the node of a session has
-- a row; the channels hold no more than their capacity.
pub record IsSound (m : Manager) : Type 0 where
  pub tables : IsValid m.db.tables
  pub registered : All (λ s. IsRegistered s.node_id m.db.tables) m.sessions
  pub single : Distinct same_session m.sessions
  pub updates_bound : length m.updates ≤ updates_capacity
  pub sink_bound : length m.sink_queue ≤ sink_capacity

-- What every store call does to the tables: whatever the statements keep, it keeps.
abbrev pub Endures : Tables → Tables → Type 1
Endures before after = (P : Tables → Type 0) → Lasting P → P before → P after

pub with_db-IsSound :
    (m : Manager) (db : Db)
    → Endures m.db.tables db.tables
    → IsSound m
    → IsSound (record m { db = db })
with_db-IsSound m db kept sound = record {
  tables = kept IsValid IsValid-Lasting sound.tables;
  registered =
      All-mono _ _ m.sessions (λ s. kept (IsRegistered s.node_id) (IsRegistered-Lasting s.node_id))
        sound.registered;
  single = sound.single;
  updates_bound = sound.updates_bound;
  sink_bound = sound.sink_bound;
}

pub ignoring-IsSound :
    {A : Type 0} (call : Sql A) (m : Manager)
    → ((P : Tables → Type 0) → Lasting P → Keeps (Holds P) call)
    → IsSound m
    → IsSound (ignoring call m)
unfolding ignoring
ignoring-IsSound call m kept sound =
    with_db-IsSound m (call m.db).1 (λ P w. (kept P w).at m.db) sound

pub offer-bound :
    {A : Type 0} (capacity : ℕ) (x : A) (waiting : List A)
    → length waiting ≤ capacity
    → length (offer capacity x waiting) ≤ capacity
unfolding offer
offer-bound capacity x waiting h = elim (Bool-cases (ltb (length waiting) capacity)) [
  | inl e ↦ rw e (ground (arith, length-append waiting (x ∷ [])))
  | inr e ↦ rw e h
]

pub publish-IsSound : (u : NodeUpdate) (m : Manager) → IsSound m → IsSound (publish u m)
unfolding publish
publish-IsSound u m sound = record {
  tables = sound.tables;
  registered = sound.registered;
  single = sound.single;
  updates_bound = offer-bound updates_capacity u m.updates sound.updates_bound;
  sink_bound = sound.sink_bound;
}

pub enqueue_metric-IsSound :
    (metric : Metric) (m : Manager) → IsSound m → IsSound (enqueue_metric metric m)
unfolding enqueue_metric
enqueue_metric-IsSound metric m sound = record {
  tables = sound.tables;
  registered = sound.registered;
  single = sound.single;
  updates_bound = sound.updates_bound;
  sink_bound = offer-bound sink_capacity metric m.sink_queue sound.sink_bound;
}

pub close_found-IsSound : (s : Option Session) (m : Manager) → IsSound m → IsSound (close_found s m)
unfolding close_found
close_found-IsSound none m sound = sound
close_found-IsSound (some s) m sound = record {
  tables = sound.tables;
  registered = sound.registered;
  single = sound.single;
  updates_bound = sound.updates_bound;
  sink_bound = sound.sink_bound;
}

pub drop_session-IsSound : (id : String) (m : Manager) → IsSound m → IsSound (drop_session id m)
unfolding drop_session
drop_session-IsSound id m sound = record {
  tables = sound.tables;
  registered = All-keep_test _ _ _ m.sessions (λ s e h. h) sound.registered;
  single = Distinct-keep same_session _ m.sessions sound.single;
  updates_bound = sound.updates_bound;
  sink_bound = sound.sink_bound;
}

-- What a deletion from the map leaves has another key.
pub any-keep_other :
    (id : String) (ss : List Session)
    → any (λ s. s.node_id == id) (keep (λ s. not (s.node_id == id)) ss) ≡ false
unfolding any keep
any-keep_other id [] = refl
any-keep_other id (s ∷ ss) = ground (arith, any-keep_other id ss)

pub close_found-db : (s : Option Session) (m : Manager) → (close_found s m).db ≡ m.db
unfolding close_found
close_found-db none m = refl
close_found-db (some s) m = refl

pub supersede-IsSound :
    (s : Session) (m : Manager)
    → IsRegistered s.node_id m.db.tables
    → IsSound m
    → IsSound (supersede s m)
unfolding supersede drop_session
supersede-IsSound s m row sound =
    let closed = close_found-IsSound (get s.node_id m) m sound in
    let left = drop_session-IsSound s.node_id (close_found (get s.node_id m) m) closed in
    record {
      tables = left.tables;
      registered = (rw (close_found-db (get s.node_id m) m) row, left.registered);
      single = (any-keep_other s.node_id _, left.single);
      updates_bound = left.updates_bound;
      sink_bound = left.sink_bound;
    }
