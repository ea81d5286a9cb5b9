-- ===== src/Tool/Main.antt =====
-- What the tool does with its arguments (util/bdtun.c: main, from the switch on), over a descriptor
-- of the control device.
use bdtun.Base.{
  ℕ, zero, suc, ◌+◌, Bool, true, false, List, [], ◌∷◌, ◌++◌, Option, none, some, if◌then◌else◌,
  length,
}
use mathlib.Core.Option
use Prim.Native.Nat.{bit_or}
use bdtun.Base.Int.{ℤ, pos, negsuc, is_negative}
use bdtun.Header.{bdtun_flush, bdtun_fua, bdtun_discard, bdtun_secure}
use bdtun.Device.{Run, done, oops, ◌>>=◌}
use bdtun.Control.{string_at}
use bdtun.Client.{Fd, bdtun_create, bdtun_resize, bdtun_remove, bdtun_info, bdtun_list}
use bdtun.Tool.Options.{Arguments, create, remove, resize, list, info}

-- A line that is printed.
pub data Line : Type 0 where
  operation_failed none_found some_found could_not_open : Line
  tunnel : List ℕ → Line
  -- The name, and the bytes of `struct bdtun_info`.
  information : List ℕ → List ℕ → Line

unfoldable pub capabilities_of : Arguments → ℕ
capabilities_of args =
    let flush = if args.req_flush then bdtun_flush else 0 in
    let fua = if args.req_fua then bdtun_fua else 0 in
    let discard = if args.req_discard then bdtun_discard else 0 in
    let secure = if args.req_secure then bdtun_secure else 0 in
    bit_or (bit_or (bit_or flush fua) discard) secure

-- The names that the loop over an answer prints: `i` is stepped twice in a round.
unfoldable pub print_names : List ℕ → List ℕ → Run (List Line)
unfolding string_at
print_names buf [] = done []
print_names buf (at ∷ []) = do name ← string_at at buf; done (tunnel name ∷ [])
print_names buf (at ∷ skipped ∷ rest) = do
  name ← string_at at buf
  lines ← print_names buf rest
  done (tunnel name ∷ lines)

-- A null pointer for a name that is not given: the library reads through it.
abbrev with_name : {A : Type 0} → Option (List ℕ) → (List ℕ → Run A) → Run A
with_name none f = oops
with_name (some name) f = f name

abbrev pub heading : Bool → ℕ → List Line
heading first count =
    if first then (elim count [ zero ↦ none_found ∷ [] | suc n ↦ some_found ∷ [] ]) else []

module _ {S : Type 0} (fd : Fd S) where
  -- The listing loop from `off` on: the last result and the lines; none when the fuel is out.
  unfoldable pub list_tunnels : ℕ → Bool → ℕ → S → Run (Option (ℤ × List Line × S))
  unfolding print_names
  list_tunnels zero first off s = done none
  list_tunnels (suc fuel) first off s = do
    (ret, buf, names, s') ← bdtun_list fd off 32 s
    elim ret [
      | negsuc n ↦ done (some (negsuc n, operation_failed ∷ [], s'))
      | pos count ↦ do
        lines ← print_names buf names
        elim count [
          | zero ↦ done (some (pos 0, heading first 0 ++ lines, s'))
          | suc n ↦ do
            rest ← list_tunnels fuel false (off + length lines) s'
            done (Option.map (λ r. (r.0, heading first (suc n) ++ (lines ++ r.1), r.2)) rest)
        ]
    ]

  -- The command of the arguments: the last result, and what is printed.
  unfoldable pub run_command : ℕ → Arguments → S → Run (Option (ℤ × List Line × S))
  unfolding list_tunnels capabilities_of
  run_command fuel args s = elim args.command [
    | create ↦ with_name args.name (λ name. do
      (ret, s') ← bdtun_create fd name args.blocksize args.size (capabilities_of args) s
      done (some (ret, [], s')))
    | resize ↦
        with_name args.name
          (λ name. do (ret, s') ← bdtun_resize fd name args.size s; done (some (ret, [], s')))
    | remove ↦
        with_name args.name
          (λ name. do (ret, s') ← bdtun_remove fd name s; done (some (ret, [], s')))
    | list ↦ list_tunnels fuel true 0 s
    | info ↦ with_name args.name (λ name. do
      (ret, bytes, s') ← bdtun_info fd name s
      done (some (ret, (if is_negative ret then [] else information name bytes ∷ []), s')))
  ]

  -- The exit status and the lines.
  unfoldable pub main : ℕ → Arguments → S → Run (Option (ℕ × List Line × S))
  unfolding run_command
  main fuel args s = do
    end ← run_command fuel args s
    done (
        Option.map
          (λ r. if is_negative r.0 then (1, r.1 ++ operation_failed ∷ [], r.2) else (0, r.1, r.2))
          end)
