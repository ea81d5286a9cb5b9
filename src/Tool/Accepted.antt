-- ===== src/Tool/Accepted.antt =====
-- What the arguments satisfy that parse_opt accepts.
use Prim.Native.Nat.{bit_and}
use mathlib.Core.Option
use bdtun.Base.{
  ℕ, ◌-◌, ◌^◌, ◌≤◌, ◌<◌, ◌≡◌, ◌⊎◌, inl, inr, refl, List, [], ◌∷◌, some, arith, length, Option-cases,
  ap, subst,
}
use bdtun.Base.Int.{ℤ, pos, negsuc}
use bdtun.Device.{eexist}
use bdtun.Tunnel.Flags.{Kernel}
use bdtun.Registry.{Name, Registry, find_in, bdtun_find_device}
use bdtun.Registry.Create.{create_error}
use bdtun.Tool.Options.{
  Arguments, create, no_arguments, Opt, key_create, key_remove, key_resize, key_list, key_info,
  key_name, key_size, key_bsize, key_flush, key_fua, key_discard, key_secure, key_arg, key_success,
  as_uint64, strtoll, number_in, parse_size, parse_bsize, parse_success, parse_opt, argp_parse,
}

-- Each argument that is given is one that its option accepts.
pub record Checked (args : Arguments) : Type 0 where
  pub named : (name : List ℕ) → args.name ≡ some name → length name < 32
  pub sized : args.size < 2 ^ 64
  pub blocked :
      (args.blocksize ≡ 0)
      ⊎ ((512 ≤ args.blocksize)
          × (args.blocksize ≤ 4096)
          × (bit_and args.blocksize (args.blocksize - 1) ≡ 0))

as_uint64-lt : (z : ℤ) → as_uint64 z < 2 ^ 64
as_uint64-lt (pos n) = omega arith
as_uint64-lt (negsuc n) = omega arith

number_in-lt : (arg : List ℕ) {n : ℕ} → number_in arg ≡ some n → n < 2 ^ 64
unfolding number_in
number_in-lt arg e = ground (arith, as_uint64-lt (strtoll arg).0)

parse_size-Checked :
    (arg : List ℕ) (args : Arguments) {args' : Arguments}
    → parse_size arg args ≡ some args'
    → Checked args
    → Checked args'
unfolding parse_size
parse_size-Checked arg args {args'} e c = elim (Option-cases (number_in arg)) [
  | inl out ↦ absurd (ground (arith, out))
  | inr (n, found) ↦ record {
    named = λ name h. ground (arith, found, c.named name);
    sized = ground (arith, found, number_in-lt arg found);
    blocked = ground (arith, found, c.blocked);
  }
]

parse_bsize-Checked :
    (arg : List ℕ) (args : Arguments) {args' : Arguments}
    → parse_bsize arg args ≡ some args'
    → Checked args
    → Checked args'
unfolding parse_bsize
parse_bsize-Checked arg args {args'} e c = elim (Option-cases (number_in arg)) [
  | inl out ↦ absurd (ground (arith, out))
  | inr (n, found) ↦ record {
    named = λ name h. ground (arith, found, c.named name);
    sized = ground (arith, found, c.sized);
    blocked = inr (ground (arith, found));
  }
]

parse_success-same :
    (args : Arguments) {args' : Arguments} → parse_success args ≡ some args' → args ≡ args'
unfolding parse_success
parse_success-same args e = ground arith

-- An option that sets the command or a flag.
kept :
    {args args' args'' : Arguments}
    → Checked args
    → some args'' ≡ some args'
    → args''.name ≡ args.name
    → args''.size ≡ args.size
    → args''.blocksize ≡ args.blocksize
    → Checked args'
kept c e p q r = record {
  named = λ name h. ground (arith, c.named name);
  sized = ground (arith, c.sized);
  blocked = ground (arith, c.blocked);
}

parse_opt-Checked :
    (opt : Opt) (args : Arguments) {args' : Arguments}
    → parse_opt opt args ≡ some args'
    → Checked args
    → Checked args'
unfolding parse_opt
parse_opt-Checked key_create args e c = kept c e refl refl refl
parse_opt-Checked key_remove args e c = kept c e refl refl refl
parse_opt-Checked key_resize args e c = kept c e refl refl refl
parse_opt-Checked key_list args e c = kept c e refl refl refl
parse_opt-Checked key_info args e c = kept c e refl refl refl
parse_opt-Checked key_flush args e c = kept c e refl refl refl
parse_opt-Checked key_fua args e c = kept c e refl refl refl
parse_opt-Checked key_discard args e c = kept c e refl refl refl
parse_opt-Checked key_secure args e c = kept c e refl refl refl
parse_opt-Checked (key_name arg) args e c = record {
  named = λ name h. ground arith;
  sized = ground (arith, c.sized);
  blocked = ground (arith, c.blocked);
}
parse_opt-Checked (key_size arg) args e c = parse_size-Checked arg args e c
parse_opt-Checked (key_bsize arg) args e c = parse_bsize-Checked arg args e c
parse_opt-Checked key_arg args e c = absurd (ground arith)
parse_opt-Checked key_success args e c = subst Checked (parse_success-same args e) c

pub argp_parse-Checked :
    (opts : List Opt) (args : Arguments) {args' : Arguments}
    → argp_parse opts args ≡ some args'
    → Checked args
    → Checked args' × (parse_success args' ≡ some args')
unfolding argp_parse parse_opt
argp_parse-Checked [] args {args'} e c =
    let same = parse_success-same args e in
    (subst Checked same c, subst (λ a. parse_success a ≡ some args') same e)
argp_parse-Checked (opt ∷ opts) args e c = elim (Option-cases (parse_opt opt args)) [
  | inl out ↦ absurd (ground (arith, out))
  | inr (next, parsed) ↦
      argp_parse-Checked opts next (ground (arith, parsed)) (parse_opt-Checked opt args parsed c)
]

pub no_arguments-Checked : Checked no_arguments
no_arguments-Checked = record {
  named = λ name h. absurd (ground arith);
  sized = omega arith;
  blocked = inl refl;
}

-- A create command that the tool accepts has a name of less than 32 bytes and passes every check of
-- the module, on a kernel with pages of 4096 bytes, but the one for a device of that name.
pub accepted_create :
    (k : Kernel) (opts : List Opt) (args : Arguments) (s : Registry)
    → argp_parse opts no_arguments ≡ some args
    → args.command ≡ create
    → k.page_shift ≡ 12
    → (name : Name) × (args.name ≡ some name)
      × (length name < 32)
      × (args.size < 2 ^ 64)
      × (create_error k name args.blocksize args.size s
          ≡ Option.map (λ d. eexist) (bdtun_find_device name s))
unfolding create_error bdtun_find_device parse_success
accepted_create k opts args s e creates pages =
    let (c, passes) = argp_parse-Checked opts no_arguments e no_arguments-Checked in
    let page : 2 ^ k.page_shift ≡ 4096 = ap (◌^◌ 2) pages in
    elim (Option-cases args.name) [
      | inl out ↦ absurd (ground (arith, out))
      | inr (name, given) ↦ (
        name,
        given,
        c.named name given,
        c.sized,
        elim (Option-cases (find_in name s.device_list)) [
          | inl free ↦ ground (arith, free, page, given, c.blocked, passes)
          | inr (d, taken) ↦ ground (arith, taken)
        ],
      )
    ]
