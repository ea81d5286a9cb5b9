-- ===== src/Tool/Options.antt =====
-- The options of the tool (util/bdtun.c: struct arguments, parse_opt).
use Prim.Native.Nat.{bit_and, min}
use bdtun.Base.{
  ℕ, ◌+◌, ◌-◌, ◌*◌, ◌%◌, ◌^◌, Bool, true, false, not, ◌&&◌, ◌||◌, List, [], ◌∷◌, Option, none, some,
  ◌==◌, ltb, leb, if◌then◌else◌, length,
}
use bdtun.Base.Int.{ℤ, pos, negsuc}

pub data Command : Type 0 where
  create remove resize list info : Command

-- `struct arguments`; `name` is NULL at first. The `req_*` are 1 or 0.
pub record Arguments : Type 0 where
  pub command : Command
  pub name : Option (List ℕ)
  pub size : ℕ
  pub blocksize : ℕ
  pub req_flush : Bool
  pub req_fua : Bool
  pub req_discard : Bool
  pub req_secure : Bool

abbrev pub no_arguments : Arguments
no_arguments = record {
  command = create;
  name = none;
  size = 0;
  blocksize = 0;
  req_flush = false;
  req_fua = false;
  req_discard = false;
  req_secure = false;
}

infixl 5 ◌>>=◌
abbrev ◌>>=◌ : {A B : Type 0} → Option A → (A → Option B) → Option B
none >>= f = none
some a >>= f = f a

-- What argp calls `parse_opt` with: a key and, where the option takes one, its argument.
pub data Opt : Type 0 where
  key_create key_remove key_resize key_list key_info : Opt
  key_name key_size key_bsize : List ℕ → Opt
  key_flush key_fua key_discard key_secure : Opt
  key_arg key_success : Opt

-- `strtoll (s, &end, 10)`: the number, and the bytes from `end` on. White space, a sign, digits; a
-- number that is too large becomes the limit.
abbrev is_space : ℕ → Bool
is_space b = (b == 32) || (leb 9 b && leb b 13)

abbrev pub is_digit : ℕ → Bool
is_digit b = leb 48 b && leb b 57

unfoldable skip_spaces : List ℕ → List ℕ
skip_spaces [] = []
skip_spaces (b ∷ bs) = if is_space b then skip_spaces bs else b ∷ bs

unfoldable pub read_digits : ℕ → List ℕ → ℕ × List ℕ
read_digits n [] = (n, [])
read_digits n (b ∷ bs) =
    let more = read_digits (n * 10 + (b - 48)) bs in if is_digit b then more else (n, b ∷ bs)

-- A number below 0 by its magnitude.
abbrev minus : ℕ → ℤ
minus n = if n == 0 then pos 0 else negsuc (n - 1)

unfoldable starts_number : List ℕ → Bool
starts_number [] = false
starts_number (b ∷ bs) = is_digit b

-- `s` is what is left where nothing is converted, `bs` follows the sign.
unfoldable read_number : Bool → List ℕ → List ℕ → ℤ × List ℕ
unfolding read_digits starts_number
read_number negative s bs =
    let (n, end) = read_digits 0 bs in
    if not (starts_number bs)
    then (pos 0, s)
    else (if negative then (minus (min n (2 ^ 63)), end) else (pos (min n (2 ^ 63 - 1)), end))

unfoldable signed_number : List ℕ → List ℕ → ℤ × List ℕ
unfolding read_number
signed_number s [] = (pos 0, s)
signed_number s (b ∷ bs) =
    if b == 45
    then read_number true s bs
    else (if b == 43 then read_number false s bs else read_number false s (b ∷ bs))

unfoldable pub strtoll : List ℕ → ℤ × List ℕ
unfolding signed_number skip_spaces
strtoll s = signed_number s (skip_spaces s)

-- The assignment to a `uint64_t`.
abbrev pub as_uint64 : ℤ → ℕ
as_uint64 (pos n) = n % 2 ^ 64
as_uint64 (negsuc n) = 2 ^ 64 - 1 - n % 2 ^ 64

-- The number that `arg` holds, if all of it is one.
unfoldable pub number_in : List ℕ → Option ℕ
unfolding strtoll
number_in arg =
    let (size, end) = strtoll arg in elim end [ [] ↦ some (as_uint64 size) | b ∷ bs ↦ none ]

unfoldable pub parse_size : List ℕ → Arguments → Option Arguments
unfolding number_in
parse_size arg args = do
  size ← number_in arg
  if ltb size 1 then none else some (record args { size = size })

unfoldable pub parse_bsize : List ℕ → Arguments → Option Arguments
unfolding number_in
parse_bsize arg args = do
  size ← number_in arg
  if ltb size 512
      then none
      else (if ltb 4096 size
          then none
          else (if not (bit_and size (size - 1) == 0)
              then none
              else some (record args { blocksize = size })))

-- The checks at the end of the options.
unfoldable pub parse_success : Arguments → Option Arguments
parse_success args = elim args.command [
  | create ↦ elim args.name [
    | none ↦ none
    | some name ↦
        if (args.size == 0) || (args.blocksize == 0)
        then none
        else (if args.size % args.blocksize == 0 then some args else none)
  ]
  | resize ↦ elim args.name [ none ↦ none | some name ↦ if args.size == 0 then none else some args ]
  | remove ↦ elim args.name [ none ↦ none | some name ↦ some args ]
  | info ↦ elim args.name [ none ↦ none | some name ↦ some args ]
  | list ↦ some args
]

-- `argp_error` ends the program: none.
unfoldable pub parse_opt : Opt → Arguments → Option Arguments
unfolding parse_size parse_bsize parse_success
parse_opt key_create args = some (record args { command = create })
parse_opt key_remove args = some (record args { command = remove })
parse_opt key_resize args = some (record args { command = resize })
parse_opt key_list args = some (record args { command = list })
parse_opt key_info args = some (record args { command = info })
parse_opt (key_name arg) args =
    if leb 32 (length arg) then none else some (record args { name = some arg })
parse_opt (key_size arg) args = parse_size arg args
parse_opt (key_bsize arg) args = parse_bsize arg args
parse_opt key_flush args = some (record args { req_flush = true })
parse_opt key_fua args = some (record args { req_fua = true })
parse_opt key_discard args = some (record args { req_discard = true })
parse_opt key_secure args = some (record args { req_secure = true })
parse_opt key_arg args = none
parse_opt key_success args = parse_success args

-- `argp_parse`: each option in order, and the end.
unfoldable pub argp_parse : List Opt → Arguments → Option Arguments
unfolding parse_opt
argp_parse [] args = parse_opt key_success args
argp_parse (opt ∷ opts) args = do args' ← parse_opt opt args; argp_parse opts args'
