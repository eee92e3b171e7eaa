-- ===== src/Runner/Tests.antt =====
-- The runner on concrete machines.
use go_grpcbridge.Base.{◌≡◌, false, [], ◌∷◌, if◌then◌else◌, Text, codes, eq_text}
use go_grpcbridge.Runner.{
  Effect, capture, read_file, make_temp, Process, Reply, gives, History, Machine,
}
use go_grpcbridge.Runner.Commands.Plans.{check, handle_command, plan}
use go_grpcbridge.Runner.Commands.Laws.{Ends, handle_command-Ends}
use go_grpcbridge.Runner.Publish.{handle_runner_canonical_publish_check}
use go_grpcbridge.Runner.Publish.Laws.{to_remove, to_remove-publish}

-- A machine on which every process succeeds, with what its captures and files hold.
abbrev pub process_output : Process → Text
process_output p = elim p.args [
  | [] ↦ []
  | (arg ∷ args) ↦
      if eq_text arg (codes "tool")
      then codes "total: (statements) 95%"
      else if eq_text arg (codes "remote")
      then codes "git@github.com:monstercameron/GoGRPCBridge.git"
      else codes "Benchmark 1 2 B/op"
]

abbrev pub answers : History → Effect → Reply
answers t (capture p) = gives (process_output p)
answers t (read_file path) = gives (codes "module github.com/monstercameron/GoGRPCBridge")
answers t make_temp = gives (codes "/tmp/smoke")
answers t _ = gives []

abbrev pub machine : Machine
machine = record { reply = answers; getenv = λ name. []; environ = []; root = codes "/repo" }

handle_command-Ends_example :
    Ends machine [] (plan false machine check) (handle_command false machine check [])
handle_command-Ends_example = handle_command-Ends false machine check []

to_remove-publish_example :
    to_remove machine (handle_runner_canonical_publish_check (λ s. s) machine []).1
    ≡ to_remove machine []
to_remove-publish_example = to_remove-publish (λ s. s) machine []
