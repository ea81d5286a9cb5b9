-- ===== src/Tool/Safety.antt =====
-- The tool on the control device comes to its end, whatever its options are (util/bdtun.c: main).
use bdtun.Base.{
  ℕ, suc, ◌^◌, ◌<◌, ◌≤◌, ◌≡◌, ◌⊎◌, refl, true, List, [], ◌∷◌, Option, none, some, inl, inr, arith,
  length, Option-cases, ◌≢◌,
}
use bdtun.Base.Int.{ℤ, pos, negsuc}
use bdtun.Device.{Errno, Ret, ok, err, Run, done, oops, ◌>>=◌}
use bdtun.Header.{BdtunInfo, info_bytes}
use bdtun.Tunnel.Flags.{Kernel}
use bdtun.Registry.{Name, Registry}
use bdtun.Registry.Create.{Answers, create_error, create_steps, bdtun_create_k}
use bdtun.Registry.Manage.{bdtun_resize_k, bdtun_remove_k, bdtun_info_k}
use bdtun.Control.{Control, Env, overlay}
use bdtun.Client.{Fd, error_or_zero}
use bdtun.Client.Commands.{IsString, bdtun_resize_remove-reach}
use bdtun.Client.Information.{bdtun_info-returns}
use bdtun.Client.Link.{control_fd, result}
use bdtun.Tool.Options.{
  Arguments, create, remove, resize, list, info, no_arguments, Opt, parse_success, argp_parse,
  Command,
}
use bdtun.Tool.Main.{Line, information, capabilities_of, run_command, main}
use bdtun.Tool.Accepted.{Checked, argp_parse-Checked, no_arguments-Checked}
use bdtun.Tool.Answers.{FitsOne}
use bdtun.Tool.Creating.{exit_status, main-create}
use bdtun.Tool.Listing.{main-list}
use bdtun.Tool.Strings.{IsStringOrNull, GiveStrings, argp_parse-IsStringOrNull}
use bdtun.Tool.Program.{program, open_ctrldev}

create_steps_runs :
    (k : Kernel) (ans : Answers) (name : Name) (block_size size capabilities : ℕ) (new : ℕ)
    (s : Registry)
    → length name < k.disk_name_len
    → ans.work_memory ≡ true
    → create_steps k ans name block_size size capabilities new s ≢ oops
unfolding create_steps
create_steps_runs k ans name block_size size capabilities new s short memory p = ground arith

-- A create command does not oops where the kernel's names have room for it and the memory for the
-- queued work is there.
bdtun_create_k_runs :
    (k : Kernel) (ans : Answers) (name : Name) (block_size size capabilities : ℕ) (s : Registry)
    → length name < k.bdevname_size
    → length name < k.disk_name_len
    → ans.work_memory ≡ true
    → bdtun_create_k k ans name block_size size capabilities s ≢ oops
unfolding bdtun_create_k
bdtun_create_k_runs k ans name block_size size capabilities s short short' memory p =
    elim (Option-cases (create_error k name block_size size s)) [
      | inr (x, refused) ↦ ground (arith, refused)
      | inl passed ↦ elim (Option-cases ans.device_memory) [
        | inl out ↦ ground (arith, passed, out)
        | inr (new, got) ↦
            create_steps_runs k ans name block_size size capabilities new s short' memory
              (ground (arith, passed, got))
      ]
    ]

-- What `open` on the control device returns: an error number, if there is one, or a descriptor.
abbrev pub opening : Kernel → Env → Option ℕ → ℕ ⊎ Fd Control
opening k env none = inr (control_fd k env)
opening k env (some errno) = inl errno

-- A run of the tool that has come to its end.
abbrev pub Ends : Run (Option (ℕ × List Line × Control)) → Type 0
Ends m = (status : ℕ) × (lines : List Line) × (t : Control) × (m ≡ done (some (status, lines, t)))

exit_status-Ends : (s : Control) (m : Run (Ret × Registry)) → m ≢ oops → Ends (m >>= exit_status s)
exit_status-Ends s (done (ok n, r)) h = (_, _, _, refl)
exit_status-Ends s (done (err e, r)) h = (_, _, _, refl)
exit_status-Ends s oops h = absurd (h refl)

module _ (k : Kernel) (env : Env) (fuel : ℕ) (args : Arguments) (s : Control) where
  run_command-Ends :
      (r : ℤ × List Line × Control)
      → run_command (control_fd k env) fuel args s ≡ done (some r)
      → Ends (main (control_fd k env) fuel args s)
  unfolding main
  run_command-Ends r e = rw e (_, _, _, refl)

  module _ (name : Name) (given : args.name ≡ some name) (str : IsString name)
      (short : length name < 32) where
    resize-Ends :
        args.command ≡ resize → args.size < 2 ^ 64 → Ends (main (control_fd k env) fuel args s)
    unfolding run_command
    resize-Ends c small =
        let (resizes, removes) = bdtun_resize_remove-reach k env name args.size s str short small in
        let (ret, r) = bdtun_resize_k env.revalidated name args.size s.registry in
        run_command-Ends (error_or_zero (result ret), [], record s { registry = r })
          (rw (c, given, resizes, run_command) refl)

    remove-Ends : args.command ≡ remove → Ends (main (control_fd k env) fuel args s)
    unfolding run_command
    remove-Ends c =
        let (resizes, removes) = bdtun_resize_remove-reach k env name 0 s str short (omega arith) in
        let (ret, r) = bdtun_remove_k name s.registry in
        run_command-Ends (error_or_zero (result ret), [], record s { registry = r })
          (rw (c, given, removes, run_command) refl)

    info-Ends : args.command ≡ info → Ends (main (control_fd k env) fuel args s)
    unfolding run_command
    info-Ends c = go (bdtun_info_k name s.registry) refl
      where
        go :
            (o : Errno ⊎ BdtunInfo)
            → bdtun_info_k name s.registry ≡ o
            → Ends (main (control_fd k env) fuel args s)
        go (inl e) p =
            run_command-Ends (negsuc 0, [], s)
              (rw (c, given, bdtun_info-returns k env name s str short, p, run_command) refl)
        go (inr i) p =
            let bytes = info_bytes i env.padding in
            run_command-Ends
              (
                pos 0,
                information name bytes ∷ [],
                record s {
                  ctrl_response_buf = overlay bytes s.ctrl_response_buf;
                  ctrl_response_size = 0;
                },
              )
              (rw (c, given, bdtun_info-returns k env name s str short, p, run_command) refl)

main-Ends :
    (k : Kernel) (env : Env) (args : Arguments) (s : Control)
    → Checked args
    → parse_success args ≡ some args
    → IsStringOrNull args.name
    → 32 ≤ k.bdevname_size
    → 32 ≤ k.disk_name_len
    → env.answers.work_memory ≡ true
    → FitsOne s.registry.device_list
    → (opts : List Opt) → argp_parse opts no_arguments ≡ some args
    → Ends (main (control_fd k env) (suc (length s.registry.device_list)) args s)
unfolding parse_success
main-Ends k env args s c passes str room room' memory f opts e =
    go args.command refl args.name refl str
  where
    go :
        (command : Command)
        → args.command ≡ command
        → (name : Option (List ℕ)) → args.name ≡ name
        → IsStringOrNull name
        → Ends (main (control_fd k env) (suc (length s.registry.device_list)) args s)
    go list p name q str = let (t, same, ends) = main-list k env args s p f in (_, _, _, ends)
    go create p none q str = absurd (ground (arith, passes))
    go resize p none q str = absurd (ground (arith, passes))
    go remove p none q str = absurd (ground (arith, passes))
    go info p none q str = absurd (ground (arith, passes))
    go create p (some name) q str =
        rw (main-create k env opts args name (suc (length s.registry.device_list)) s e p q str) (
          exit_status-Ends s _ (
            bdtun_create_k_runs k env.answers name args.blocksize args.size (capabilities_of args)
              s.registry (omega (arith, c.named name q)) (omega (arith, c.named name q)) memory))
    go resize p (some name) q str = resize-Ends k env _ args s name q str (c.named name q) p c.sized
    go remove p (some name) q str = remove-Ends k env _ args s name q str (c.named name q) p
    go info p (some name) q str = info-Ends k env _ args s name q str (c.named name q) p

-- On a kernel whose names have room for 32 bytes, where the memory for queued work is there, and where
-- every device has a name and all names fit one answer: whatever the options are, each name among
-- them a string, and whether or not the control device opens, the tool comes to its end without an
-- oops, within one round of its listing loop more than there are devices.
pub program-Ends :
    (k : Kernel) (env : Env) (usage : ℕ) (opts : List Opt) (errno : Option ℕ) (s : Control)
    → GiveStrings opts
    → 32 ≤ k.bdevname_size
    → 32 ≤ k.disk_name_len
    → env.answers.work_memory ≡ true
    → FitsOne s.registry.device_list
    → Ends (program usage (suc (length s.registry.device_list)) opts (opening k env errno) s)
unfolding program open_ctrldev
program-Ends k env usage opts errno s strings room room' memory f =
    elim (Option-cases (argp_parse opts no_arguments)) [
      | inl refused ↦ rw (refused, program) (_, _, _, refl)
      | inr (args, e) ↦ go args e errno
    ]
  where
    go :
        (args : Arguments)
        → argp_parse opts no_arguments ≡ some args
        → (errno : Option ℕ)
        → Ends (program usage (suc (length s.registry.device_list)) opts (opening k env errno) s)
    go args e (some number) = rw (e, program) (_, _, _, refl)
    go args e none =
        let (c, passes) = argp_parse-Checked opts no_arguments e no_arguments-Checked in
        rw (e, program)
          (main-Ends k env args s c passes
            (argp_parse-IsStringOrNull opts no_arguments e strings tt) room room' memory f opts e)
