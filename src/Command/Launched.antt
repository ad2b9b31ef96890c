-- ===== src/Command/Launched.antt =====
-- internal/cmd/agent/agent.go: what an agent is launched with.
use pumpkin_pie.Prelude.{◌≡◌, refl, ap, subst, ℕ, String, List}
use pumpkin_pie.Exec.{Result, ok, err}
use pumpkin_pie.Config.{AgentConfig, docker_events_enabled}
use pumpkin_pie.Config.Command.{Parsed, path_of, usage, fatal, parse_args, resolve_docker_sock}
use pumpkin_pie.Identity.{Dir, load}
use pumpkin_pie.Agent.Run.{parse_duration, default_container_poll_interval}
use pumpkin_pie.Command.Node.{
  Host, Launch, Launched, launches, on_interval, on_identity, state_dir_of, on_name, name_of,
  on_config, config_of, on_args, run,
}

-- The steps of a run that launched an agent.
pub record Came (h : Host) (path : String) (s s' : Dir) (l : Launch) : Type 0 where
  pub config : AgentConfig
  pub configured : config_of h path ≡ ok config
  pub named : name_of h config ≡ ok l.name
  pub identified : load h.trim h.random (state_dir_of h config) s ≡ (ok l.machine_id, s')
  pub timed :
      parse_duration h.parse config.container_poll_interval default_container_poll_interval
      ≡ ok l.container_poll_interval
  pub settled :
      (l.master ≡ config.master)
      × (l.docker_sock ≡ resolve_docker_sock h.env config.docker_sock)
      × (l.docker_events_enabled ≡ docker_events_enabled config)

module _ (h : Host) (path : String) (s s' : Dir) (l : Launch) (c : AgentConfig)
    (configured : config_of h path ≡ ok c) where
  on_interval-Came :
      (name id : String) (r : Result String ℕ)
      → name_of h c ≡ ok name
      → load h.trim h.random (state_dir_of h c) s ≡ (ok id, s')
      → parse_duration h.parse c.container_poll_interval default_container_poll_interval ≡ r
      → on_interval c name id (resolve_docker_sock h.env c.docker_sock) r ≡ launches l
      → Came h path s s' l
  unfolding on_interval
  on_interval-Came name id (err why) n i t e = absurd (cc e)
  on_interval-Came name id (ok interval) n i t e =
      let made : Launch = record {
        master = c.master;
        name = name;
        machine_id = id;
        docker_sock = resolve_docker_sock h.env c.docker_sock;
        container_poll_interval = interval;
        docker_events_enabled = docker_events_enabled c;
      } in
      let same : made ≡ l = cc e in
      subst (Came h path s s') same (record {
        config = c;
        configured = configured;
        named = n;
        identified = i;
        timed = t;
        settled = (refl, refl, refl);
      })

  on_identity-Came :
      (name : String) (r : Result String String)
      → name_of h c ≡ ok name
      → load h.trim h.random (state_dir_of h c) s ≡ (r, s')
      → on_identity h c name r ≡ launches l
      → Came h path s s' l
  unfolding on_identity
  on_identity-Came name (err why) n i e = absurd (cc e)
  on_identity-Came name (ok id) n i e = on_interval-Came name id _ n i refl e

  on_name-Came :
      (r : Result String String)
      → name_of h c ≡ r
      → on_name h c r s ≡ (launches l, s')
      → Came h path s s' l
  unfolding on_name
  on_name-Came (err why) n e = absurd (cc e)
  on_name-Came (ok name) n e =
      let left : (load h.trim h.random (state_dir_of h c) s).1 ≡ s' =
        ap (λ (p : Launched × Dir). p.1) e in
      on_identity-Came name (load h.trim h.random (state_dir_of h c) s).0 n
        (ap (λ d. ((load h.trim h.random (state_dir_of h c) s).0, d)) left)
        (ap (λ (p : Launched × Dir). p.0) e)

on_config-Came :
    (h : Host) (path : String) (s s' : Dir) (l : Launch) (r : Result String AgentConfig)
    → config_of h path ≡ r
    → on_config h r s ≡ (launches l, s')
    → Came h path s s' l
unfolding on_config
on_config-Came h path s s' l (err why) c e = absurd (cc e)
on_config-Came h path s s' l (ok config) c e =
    on_name-Came h path s s' l config c (name_of h config) refl e

on_args-Came :
    (h : Host) (s s' : Dir) (l : Launch) (p : Parsed)
    → on_args h p s ≡ (launches l, s')
    → (path : String) × (p ≡ path_of path) × Came h path s s' l
unfolding on_args
on_args-Came h s s' l (path_of path) e =
    (path, refl, on_config-Came h path s s' l (config_of h path) refl e)
on_args-Came h s s' l usage e = absurd (cc e)
on_args-Came h s s' l (fatal why) e = absurd (cc e)

-- An agent that Run launches has the master, the events switch and the Docker socket of its
-- configuration (the socket with what replaces a missing one), the name of the configuration or,
-- where that is empty, the host's, the parsed polling interval, and the machine id that the state
-- directory gives; and the directory is as the load of the id leaves it.
pub run-Came :
    (h : Host) (args : List String) (s s' : Dir) (l : Launch)
    → run h args s ≡ (launches l, s')
    → (path : String) × (parse_args h.pp_config args ≡ path_of path) × Came h path s s' l
unfolding run
run-Came h args s s' l e = on_args-Came h s s' l (parse_args h.pp_config args) e
