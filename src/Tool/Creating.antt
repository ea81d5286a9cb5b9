-- ===== src/Tool/Creating.antt =====
-- The tool's create command, from the options to the module.
use bdtun.Base.{ℕ, ◌^◌, ◌<◌, ◌≡◌, refl, List, [], ◌∷◌, ◌++◌, if◌then◌else◌, Option, some, arith}
use mathlib.Core.Option
use bdtun.Base.Int.{ℤ, is_negative}
use bdtun.Device.{Ret, ok, err, Run, done, oops, ◌>>=◌}
use bdtun.Tunnel.Flags.{Kernel}
use bdtun.Registry.{Name, Registry}
use bdtun.Registry.Create.{bdtun_create_k}
use bdtun.Control.{Control, Env}
use bdtun.Client.Commands.{IsString, bdtun_create-reaches, answer}
use bdtun.Client.Link.{control_fd}
use bdtun.Tool.Options.{Arguments, create, no_arguments, Opt, argp_parse}
use bdtun.Tool.Main.{Line, operation_failed, capabilities_of, run_command, main}
use bdtun.Tool.Accepted.{argp_parse-Checked, no_arguments-Checked}

-- The exit status and the lines for what the module answered.
abbrev pub exit_status : Control → Ret × Registry → Run (Option (ℕ × List Line × Control))
exit_status s (ok n, r) = done (some (0, [], record s { registry = r }))
exit_status s (err e, r) = done (some (1, operation_failed ∷ [], record s { registry = r }))

capabilities_of-lt : (args : Arguments) → capabilities_of args < 2 ^ 32
unfolding capabilities_of
capabilities_of-lt args = ground arith

abbrev as_end : ℤ × Control → Run (Option (ℤ × List Line × Control))
as_end (ret, t) = done (some (ret, [], t))

abbrev as_exit : Option (ℤ × List Line × Control) → Run (Option (ℕ × List Line × Control))
as_exit end = done (
    Option.map
      (λ r. if is_negative r.0 then (1, r.1 ++ operation_failed ∷ [], r.2) else (0, r.1, r.2)) end)

finished :
    (s : Control) (m : Run (Ret × Registry))
    → (((m >>= answer s) >>= as_end) >>= as_exit) ≡ (m >>= exit_status s)
finished s (done (ok n, r)) = refl
finished s (done (err e, r)) = refl
finished s oops = refl

-- With arguments that the tool accepts for a create command, main runs the module's create command
-- on the name, the sizes and the capabilities that were given; it exits with 0 if that succeeds, and
-- if not prints that the operation failed and exits with 1.
pub main-create :
    (k : Kernel) (env : Env) (opts : List Opt) (args : Arguments) (name : Name) (fuel : ℕ)
    (s : Control)
    → argp_parse opts no_arguments ≡ some args
    → args.command ≡ create
    → args.name ≡ some name
    → IsString name
    → main (control_fd k env) fuel args s ≡ (
        bdtun_create_k k env.answers name args.blocksize args.size (capabilities_of args) s.registry
        >>= exit_status s)
unfolding main run_command
main-create k env opts args name fuel s e creates given str =
    let (c, passes) = argp_parse-Checked opts no_arguments e no_arguments-Checked in
    let reaches =
      bdtun_create-reaches k env name args.blocksize args.size (capabilities_of args) s str
        (c.named name given) (omega (arith, c.blocked)) c.sized (capabilities_of-lt args) in
    rw (creates, given, reaches)
      (finished s (
        bdtun_create_k k env.answers name args.blocksize args.size (capabilities_of args)
          s.registry))
