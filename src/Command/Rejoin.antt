-- ===== src/Command/Rejoin.antt =====
-- internal/cmd/agent/agent.go with internal/agent/identity and the master's registration: a node
-- that is started again is known to the master.
use pumpkin_pie.Prelude.{
  ◌≡◌, sym, ap, ◌∙◌, inl, inr, ℕ, String, ◌==◌, ◌<>◌, false, Option, none, some, List, Bool-cases,
}
use pumpkin_pie.Exec.{Result, ok}
use pumpkin_pie.Config.{AgentConfig}
use pumpkin_pie.Config.Command.{path_of, parse_args}
use pumpkin_pie.Identity.{Dir, load}
use pumpkin_pie.Identity.Again.{steady, id_in, load-again}
use pumpkin_pie.Store.Tables.{Node, Tables, Time, calm}
use pumpkin_pie.Store.Nodes.{node_by_machine}
use pumpkin_pie.Store.Validity.{IsValid}
use pumpkin_pie.AgentMgr.Messages.{RegisterRequest}
use pumpkin_pie.AgentMgr.State.{Manager, Failure}
use pumpkin_pie.AgentMgr.Register.{resolve_node_id}
use pumpkin_pie.AgentMgr.Identity.{resolve_node_id-known}
use pumpkin_pie.Command.Node.{Host, Launch, launches, state_dir_of, config_of, run}
use pumpkin_pie.Command.Launched.{Came, run-Came}

-- A load of an empty state directory fails.
dir_given :
    (trim : String → String) (random : Result String String) (dir id : String) (s s' : Dir)
    → load trim random dir s ≡ (ok id, s')
    → (dir == "") ≡ false
unfolding load
dir_given trim random dir id s s' e = elim (Bool-cases (dir == "")) [
  | inr given ↦ given
  | inl empty ↦ absurd (cc (rw (empty, load) at e))
]

id_in-nonempty :
    (trim : String → String) (random : String) (content : Option String)
    → (random == "") ≡ false
    → (id_in trim random content == "") ≡ false
unfolding id_in
id_in-nonempty trim random none given = given
id_in-nonempty trim random (some b) given = elim (Bool-cases (trim b == "")) [
  | inl e ↦ rw e given
  | inr e ↦ rw e e
]

ok_eq : {a b : String} → ◌≡◌ {A = Result String String} (ok a) (ok b) → a ≡ b
ok_eq e = cc e

module _ (h : Host) (random other : String) (host : Result String String) (args : List String)
    (content : Option String) (temps : ℕ) (l l' : Launch) (s s' : Dir)
    (drawn : h.random ≡ ok random) (trimmed : h.trim (random <> "\n") ≡ random)
    (given : (random == "") ≡ false) (first : run h args (steady content temps) ≡ (launches l, s))
    (second : run (record h { random = ok other; hostname = host }) args s
      ≡ (launches l', s')) where
  abbrev later : Host
  later = record h { random = ok other; hostname = host }

  -- Both launches read the same directory.
  same_id :
      (path path' : String)
      → parse_args h.pp_config args ≡ path_of path
      → parse_args h.pp_config args ≡ path_of path'
      → Came h path (steady content temps) s l
      → Came later path' s s' l'
      → (l.machine_id ≡ id_in h.trim random content) × (l'.machine_id ≡ id_in h.trim random content)
  unfolding config_of state_dir_of
  same_id path path' p p' a b =
      let read : path ≡ path' = cc (p, p') in
      let config : a.config ≡ b.config = cc (a.configured, b.configured, read) in
      let dir = state_dir_of h a.config in
      let there =
        dir_given h.trim h.random dir l.machine_id (steady content temps) s a.identified in
      let (one, two) = load-again h.trim random other dir content temps there trimmed given in
      let loaded : load h.trim (ok random) dir (steady content temps) ≡ (ok l.machine_id, s) =
        ap (λ (r : Result String String). load h.trim r dir (steady content temps)) (sym drawn)
        ∙ a.identified in
      let again : load h.trim (ok other) dir s ≡ (ok l'.machine_id, s') =
        ap (λ (c : AgentConfig). load h.trim (ok other) (state_dir_of h c) s) config
        ∙ b.identified in
      let left : (load h.trim (ok random) dir (steady content temps)).1 ≡ s =
        ap (λ (r : Result String String × Dir). r.1) loaded in
      (
        ok_eq (sym (ap (λ (r : Result String String × Dir). r.0) loaded) ∙ one),
        ok_eq (
            sym (ap (λ (r : Result String String × Dir). r.0) again)
            ∙ sym (ap (λ (d : Dir). (load h.trim (ok other) dir d).0) left)
            ∙ two),
      )

  -- An agent that is launched, and launched again later with the same arguments, configuration and
  -- environment, whatever random id it would make then and whatever the host is called then,
  -- registers as the node that it was, if the master has a row of its machine: where the calls on
  -- the state directory and the master's driver do not fail and nobody else writes that directory.
  -- The random id of the first launch is not empty, and TrimSpace takes off it no more than the
  -- newline behind it.
  pub run-Rejoins :
      (now : Time) (reg : RegisterRequest) (drawn_id : Result String String) (m : Manager)
      (t : Tables) (n : Node)
      → IsValid t
      → node_by_machine l.machine_id t ≡ some n
      → reg.machine_id ≡ l'.machine_id
      → (resolve_node_id now reg drawn_id (record m { db = calm t })).0 ≡ ok n.id
  run-Rejoins now reg drawn_id m t n v known same =
      let (path, p, a) = run-Came h args (steady content temps) s l first in
      let (path', p', b) = run-Came later args s s' l' second in
      let (one, two) = same_id path path' p p' a b in
      let id : reg.machine_id ≡ id_in h.trim random content = same ∙ two in
      ap (λ (r : Result Failure String × Manager). r.0)
        (resolve_node_id-known now reg drawn_id m t n v
          (ap (λ (i : String). i == "") id ∙ id_in-nonempty h.trim random content given)
          (ap (λ (i : String). node_by_machine i t) (id ∙ sym one) ∙ known))
