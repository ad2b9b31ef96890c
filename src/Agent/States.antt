-- ===== src/Agent/States.antt =====
-- internal/agent/agent.go: the words of Docker for the state of a container, and the master's.
use pumpkin_pie.Prelude.{◌≡◌, refl, String, ◌==◌, if◌then◌else◌, text-cases, inl, inr}
use pumpkin_pie.AgentMgr.Handlers.{is_terminal_gpu_action}

-- mapDockerActionToState
unfoldable pub map_docker_action_to_state : String → String × String
map_docker_action_to_state action =
    if action == "start"
    then ("running", "running")
    else if action == "unpause"
    then ("running", "running")
    else if action == "restart"
    then ("running", "running")
    else if action == "die"
    then ("exited", "exited")
    else if action == "stop"
    then ("exited", "exited")
    else if action == "kill"
    then ("exited", "killed")
    else if action == "pause"
    then ("paused", "paused")
    else if action == "destroy"
    then ("exited", "exited")
    else ("", "")

-- mapDockerListState, which does not read its second argument
unfoldable pub map_docker_list_state : String → String → String × String
map_docker_list_state state status =
    if state == "running"
    then ("running", "running")
    else if state == "exited"
    then ("exited", "exited")
    else if state == "paused"
    then ("paused", "paused")
    else if state == "restarting"
    then ("running", "restarting")
    else if state == "dead"
    then ("exited", "dead")
    else if state == "created"
    then ("exited", "created")
    else if state == "removing"
    then ("exited", "removing")
    else ("", "")

-- The actions that the agent reports as an exit are those on which the master releases the GPUs.
pub is_terminal_gpu_action-exited :
    (action : String)
    → is_terminal_gpu_action action ≡ ((map_docker_action_to_state action).0 == "exited")
unfolding is_terminal_gpu_action map_docker_action_to_state
is_terminal_gpu_action-exited action = elim (text-cases action "start") [
  | inl e ↦ rw e refl
  | inr a ↦ elim (text-cases action "unpause") [
    | inl e ↦ rw e refl
    | inr b ↦ elim (text-cases action "restart") [
      | inl e ↦ rw e refl
      | inr c ↦ elim (text-cases action "die") [
        | inl e ↦ rw e refl
        | inr d ↦ elim (text-cases action "stop") [
          | inl e ↦ rw e refl
          | inr f ↦ elim (text-cases action "kill") [
            | inl e ↦ rw e refl
            | inr g ↦ elim (text-cases action "pause") [
              | inl e ↦ rw e refl
              | inr h ↦ elim (text-cases action "destroy") [
                | inl e ↦ rw e refl
                | inr k ↦ rw (a, b, c, d, f, g, h, k) refl
              ]
            ]
          ]
        ]
      ]
    ]
  ]
]
