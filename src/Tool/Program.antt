-- ===== src/Tool/Program.antt =====
-- The whole tool, from the options (util/bdtun.c: open_ctrldev, main).
use bdtun.Base.{ℕ, ◌%◌, ◌≡◌, List, [], ◌∷◌, Option, none, some, ◌⊎◌, inl, inr, refl}
use bdtun.Device.{Run, done, ◌>>=◌}
use bdtun.Tunnel.Flags.{Kernel}
use bdtun.Registry.{Name}
use bdtun.Registry.Create.{bdtun_create_k}
use bdtun.Control.{Control, Env}
use bdtun.Client.{Fd}
use bdtun.Client.Commands.{IsString}
use bdtun.Client.Link.{control_fd}
use bdtun.Tool.Options.{Arguments, create, no_arguments, Opt, argp_parse}
use bdtun.Tool.Main.{Line, could_not_open, capabilities_of, main}
use bdtun.Tool.Creating.{exit_status, main-create}

-- The descriptor that `open` returns; or, where it sets an error number, the status that the program
-- exits with, which is the low byte of it, and the line that it prints.
unfoldable pub open_ctrldev : {S : Type 0} → ℕ ⊎ Fd S → (ℕ × List Line) ⊎ Fd S
open_ctrldev (inl errno) = inl (errno % 256, could_not_open ∷ [])
open_ctrldev (inr fd) = inr fd

-- The exit status and the lines. `usage` is the status that argp exits with on an error in the
-- options, whose message is not a line of the tool's own.
unfoldable pub program :
    {S : Type 0} → ℕ → ℕ → List Opt → ℕ ⊎ Fd S → S → Run (Option (ℕ × List Line × S))
unfolding open_ctrldev argp_parse main
program usage fuel opts opened s = elim (argp_parse opts no_arguments) [
  | none ↦ done (some (usage, [], s))
  | some args ↦ elim (open_ctrldev opened) [
    | inl (status, lines) ↦ done (some (status, lines, s))
    | inr fd ↦ main fd fuel args s
  ]
]

-- With options that the tool accepts for a create command: it runs the module's create command on the
-- name, the sizes and the capabilities that were given, and exits with 0 if that succeeds, and if not
-- prints that the operation failed and exits with 1; or, if the control device cannot be opened, it
-- says so, exits with the low byte of the error number and changes nothing.
pub program-create :
    (k : Kernel) (env : Env) (usage fuel errno : ℕ) (opts : List Opt) (args : Arguments)
    (name : Name) (s : Control)
    → argp_parse opts no_arguments ≡ some args
    → args.command ≡ create
    → args.name ≡ some name
    → IsString name
    → (program usage fuel opts (inr (control_fd k env)) s ≡ (
        bdtun_create_k k env.answers name args.blocksize args.size (capabilities_of args) s.registry
        >>= exit_status s))
      × (program {S = Control} usage fuel opts (inl errno) s
          ≡ done (some (errno % 256, could_not_open ∷ [], s)))
unfolding program
program-create k env usage fuel errno opts args name s e creates given str = (
  rw (e, program) (main-create k env opts args name fuel s e creates given str),
  rw (e, program) refl,
)
