-- ===== src/Tool/Strings.antt =====
-- The names that the tool's options give (util/bdtun.c: parse_opt).
use bdtun.Base.{
  ℕ, ◌≡◌, List, [], ◌∷◌, Option, none, some, inl, inr, arith, Option-cases, sym, subst,
}
use bdtun.Client.Commands.{IsString}
use bdtun.Tool.Options.{
  Arguments, Opt, key_name, key_success, parse_size, parse_bsize, parse_success, parse_opt,
  argp_parse,
}

-- A name, if there is one, is a string of C.
abbrev pub IsStringOrNull : Option (List ℕ) → Type 0
IsStringOrNull none = Unit {0}
IsStringOrNull (some name) = IsString name

-- The name after an option.
abbrev pub name_after : Opt → Option (List ℕ) → Option (List ℕ)
name_after opt name = elim opt [ key_name arg ↦ some arg | _ ↦ name ]

-- Each name that the options give is a string.
abbrev pub GiveStrings : List Opt → Type 0
GiveStrings [] = Unit {0}
GiveStrings (opt ∷ opts) = IsStringOrNull (name_after opt none) × GiveStrings opts

parse_opt-name :
    (opt : Opt) (args : Arguments) {args' : Arguments}
    → parse_opt opt args ≡ some args'
    → args'.name ≡ name_after opt args.name
unfolding parse_opt parse_size parse_bsize parse_success
parse_opt-name opt args e = ground arith

name_after-IsStringOrNull :
    (opt : Opt) (name : Option (List ℕ))
    → IsStringOrNull (name_after opt none)
    → IsStringOrNull name
    → IsStringOrNull (name_after opt name)
name_after-IsStringOrNull (key_name arg) name g h = g
name_after-IsStringOrNull _ name g h = ground arith

pub argp_parse-IsStringOrNull :
    (opts : List Opt) (args : Arguments) {args' : Arguments}
    → argp_parse opts args ≡ some args'
    → GiveStrings opts
    → IsStringOrNull args.name
    → IsStringOrNull args'.name
unfolding argp_parse
argp_parse-IsStringOrNull [] args e g h =
    subst IsStringOrNull (sym (parse_opt-name key_success args e)) h
argp_parse-IsStringOrNull (opt ∷ opts) args {args'} e g h =
    elim (Option-cases (parse_opt opt args)) [
      | inl out ↦ absurd (ground (arith, out))
      | inr (next, parsed) ↦
          argp_parse-IsStringOrNull opts next {args' = args'} (ground (arith, parsed)) g.1 (
            subst IsStringOrNull (sym (parse_opt-name opt args parsed))
              (name_after-IsStringOrNull opt args.name g.0 h))
    ]
