-- ===== src/Tests/Tooling.antt =====
-- The command line tool at concrete inputs.
use mathlib.Core.Option
use bdtun.Base.{
  none, suc, inl, inr, ℕ, ◌-◌, ◌^◌, ◌<◌, ◌≡◌, ◌≢◌, refl, true, List, [], ◌∷◌, ◌++◌, some, arith,
  length,
}
use bdtun.Device.{eexist, done, ◌>>=◌}
use bdtun.Registry.{Name, Node, bdtun_find_device}
use bdtun.Registry.Create.{create_error, bdtun_create_k}
use bdtun.Registry.Pages.{entries}
use bdtun.Control.{Control}
use bdtun.Client.Link.{control_fd}
use bdtun.Tool.Options.{
  Arguments, list, no_arguments, Opt, key_create, key_name, key_size, key_bsize, key_fua,
  argp_parse, number_in,
}
use bdtun.Tool.Main.{could_not_open, heading, capabilities_of, main}
use bdtun.Tool.Walk.{walk, lines}
use bdtun.Tool.Answers.{FitsOne}
use bdtun.Tool.Listing.{main-list}
use bdtun.Tool.Accepted.{accepted_create}
use bdtun.Tool.Creating.{exit_status}
use bdtun.Tool.Safety.{Ends, opening, program-Ends}
use bdtun.Tool.Program.{program, program-create}
use bdtun.Tests.Samples.{linux, vda, idle_disk, no_devices, env, control}

-- "-c -n vda -s 8192 -b 512 --req-fua"
abbrev given_options : List Opt
given_options =
    key_create
    ∷ key_name vda
    ∷ key_size (56 ∷ 49 ∷ 57 ∷ 50 ∷ [])
    ∷ key_bsize (53 ∷ 49 ∷ 50 ∷ [])
    ∷ key_fua
    ∷ []

abbrev arguments : Arguments
arguments = record no_arguments { name = some vda; size = 8192; blocksize = 512; req_fua = true }

options_accepted : argp_parse given_options no_arguments ≡ some arguments
unfolding argp_parse
options_accepted = refl

accepted_create_example :
    (name : Name) × (some vda ≡ some name)
    × (length name < 32)
    × (8192 < 2 ^ 64)
    × (create_error linux name 512 8192 no_devices
        ≡ Option.map (λ d. eexist) (bdtun_find_device name no_devices))
accepted_create_example =
    accepted_create linux given_options arguments no_devices options_accepted refl refl

program-create_example :
    (program 64 0 given_options (inr (control_fd linux env)) control ≡ (
      bdtun_create_k linux env.answers vda 512 8192 (capabilities_of arguments) no_devices
      >>= exit_status control))
    × (program {S = Control} 64 0 given_options (inl 2) control
        ≡ done (some (2, could_not_open ∷ [], control)))
program-create_example =
    program-create linux env 64 0 2 given_options arguments vda control options_accepted refl refl
      ((λ e. cc), ((λ e. cc), ((λ e. cc), tt)))

-- A negative size is taken for a large one.
negative_size : number_in (45 ∷ 53 ∷ 49 ∷ 50 ∷ []) ≡ some (2 ^ 64 - 512)
unfolding number_in
negative_size = refl

abbrev disk_named : Name → Node
disk_named n = record {
  addr = 128;
  dev = record idle_disk { bd_gd = record idle_disk.bd_gd { disk_name = n } };
}

-- "a", "b" and "c".
abbrev three : List Node
three = disk_named (97 ∷ []) ∷ disk_named (98 ∷ []) ∷ disk_named (99 ∷ []) ∷ []

abbrev three_control : Control
three_control = record control { registry = record no_devices { device_list = three } }

three-FitsOne : FitsOne three
unfolding entries
three-FitsOne = record {
  named = (((λ e. cc), tt), (((λ e. cc), tt), (((λ e. cc), tt), tt)));
  few = omega arith;
  fits = omega arith;
}

abbrev list_arguments : Arguments
list_arguments = record no_arguments { command = list }

main-list_example :
    (t : Control) × (t.registry ≡ three_control.registry)
    × (main (control_fd linux env) 4 list_arguments three_control
        ≡ done (some (0, heading true 3 ++ lines (walk 3 three), t)))
main-list_example = main-list linux env list_arguments three_control refl three-FitsOne

differ : (a b : ℕ) → a ≢ b → (a ∷ []) ≢ (b ∷ [])
differ a b apart e = apart (ground arith)

three_listed : walk 3 three ≡ (97 ∷ []) ∷ (99 ∷ []) ∷ (99 ∷ []) ∷ []
unfolding walk
three_listed = refl

program-Ends_example :
    Ends (program 64 (suc (length three)) given_options (opening linux env none) three_control)
program-Ends_example =
    program-Ends linux env 64 given_options none three_control
      (tt, (((λ e. cc), ((λ e. cc), ((λ e. cc), tt))), (tt, (tt, (tt, tt))))) (omega arith)
      (omega arith) refl three-FitsOne
