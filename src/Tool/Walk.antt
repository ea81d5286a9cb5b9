-- ===== src/Tool/Walk.antt =====
-- What the tool's listing loop prints.
use bdtun.Base.{
  ◌≢◌, ◌≤◌, ℕ, zero, suc, ◌+◌, ◌≡◌, ◌∙◌, refl, List, [], ◌∷◌, ◌++◌, some, arith, length, drop,
  length-append, append_assoc, drop-append_self, ap, sym,
}
use mathlib.Core.Path.{ap₂}
use bdtun.Device.{done}
use bdtun.Registry.{Name, Node}
use bdtun.Registry.Names.{name_of}
use bdtun.Registry.Pages.{entries}
use bdtun.Control.{c_string, string_at}
use bdtun.Client.Commands.{IsString}
use bdtun.Client.Names.{AllNamed, IsName-IsString, starts}
use bdtun.Tool.Main.{Line, tunnel, print_names}

-- Every other name.
abbrev pub alternate : List Node → List Name
alternate [] = []
alternate (d ∷ []) = name_of d ∷ []
alternate (d ∷ e ∷ ds) = name_of d ∷ alternate ds

-- The names that the loop prints, in `rounds` rounds at most: each asks for what stands behind as
-- many devices as names have been printed.
unfoldable pub walk : ℕ → List Node → List Name
walk zero ds = []
walk (suc rounds) [] = []
walk (suc rounds) (d ∷ ds) =
    alternate (d ∷ ds) ++ walk rounds (drop (length (alternate (d ∷ ds))) (d ∷ ds))

abbrev pub lines : List Name → List Line
lines [] = []
lines (n ∷ ns) = tunnel n ∷ lines ns

c_string-ends : (name rest : List ℕ) → IsString name → c_string (name ++ 0 ∷ rest) ≡ some name
unfolding c_string
c_string-ends [] rest h = refl
c_string-ends (b ∷ bs) rest h = ground (arith, h.0, c_string-ends bs rest h.1)

string_at-entry :
    (before name rest : List ℕ)
    → IsString name
    → string_at (length before) (before ++ ((name ++ 0 ∷ []) ++ rest)) ≡ done name
unfolding string_at
string_at-entry before name rest h = ground (
  arith,
  drop-append_self before ((name ++ 0 ∷ []) ++ rest),
  append_assoc name (0 ∷ []) rest,
  c_string-ends name rest h,
)

length-entry : (name : Name) → length (name ++ 0 ∷ []) ≡ length name + 1
length-entry name = length-append name (0 ∷ [])

-- What is printed of an answer, with `before` standing before its first name.
pub print_names-entries :
    (before : List ℕ) (ds : List Node)
    → AllNamed ds
    → print_names (before ++ entries ds) (starts (length before) ds) ≡ done (lines (alternate ds))
unfolding print_names entries
print_names-entries before [] named = refl
print_names-entries before (d ∷ []) named =
    rw (string_at-entry before (name_of d) [] (IsName-IsString (name_of d) named.0)) refl
print_names-entries before (d ∷ e ∷ ds) named =
    let first = name_of d ++ 0 ∷ [] in
    let second = name_of e ++ 0 ∷ [] in
    let after = (before ++ first) ++ second in
    let same : before ++ entries (d ∷ e ∷ ds) ≡ after ++ entries ds =
      sym (append_assoc before first (second ++ entries ds))
      ∙ sym (append_assoc (before ++ first) second (entries ds)) in
    let at : length before + length (name_of d) + 1 + length (name_of e) + 1 ≡ length after =
      omega (
        arith,
        length-append (before ++ first) second,
        length-append before first,
        length-entry (name_of d),
        length-entry (name_of e),
      ) in
    let here =
      string_at-entry before (name_of d) (second ++ entries ds)
        (IsName-IsString (name_of d) named.0) in
    let others =
      ap₂ print_names same (ap (λ n. starts n ds) at) ∙ print_names-entries after ds named.1.1 in
    ground (arith, here, others)

-- A name that no device of a list has, and one that is not printed.
abbrev pub NotNamed : Name → List Node → Type 0
NotNamed n [] = Unit {0}
NotNamed n (d ∷ ds) = (name_of d ≢ n) × NotNamed n ds

abbrev pub NotIn : Name → List Name → Type 0
NotIn n [] = Unit {0}
NotIn n (m ∷ ms) = (m ≢ n) × NotIn n ms

NotIn-append : (n : Name) (xs ys : List Name) → NotIn n xs → NotIn n ys → NotIn n (xs ++ ys)
NotIn-append n [] ys h k = k
NotIn-append n (x ∷ xs) ys h k = (h.0, NotIn-append n xs ys h.1 k)

alternate-NotIn : (n : Name) (ds : List Node) → NotNamed n ds → NotIn n (alternate ds)
alternate-NotIn n [] h = tt
alternate-NotIn n (d ∷ []) h = h
alternate-NotIn n (d ∷ e ∷ ds) h = (h.0, alternate-NotIn n ds h.1.1)

drop-NotNamed : (n : Name) (m : ℕ) (ds : List Node) → NotNamed n ds → NotNamed n (drop m ds)
drop-NotNamed n zero ds h = h
drop-NotNamed n (suc m) [] h = tt
drop-NotNamed n (suc m) (d ∷ ds) h = drop-NotNamed n m ds h.1

walk-NotIn : (n : Name) (rounds : ℕ) (ds : List Node) → NotNamed n ds → NotIn n (walk rounds ds)
unfolding walk
walk-NotIn n zero ds h = tt
walk-NotIn n (suc rounds) [] h = tt
walk-NotIn n (suc rounds) (d ∷ ds) h =
    NotIn-append n (alternate (d ∷ ds)) _ (alternate-NotIn n (d ∷ ds) h)
      (walk-NotIn n rounds _ (drop-NotNamed n (length (alternate (d ∷ ds))) (d ∷ ds) h))

pub alternate_some : (d : Node) (ds : List Node) → 1 ≤ length (alternate (d ∷ ds))
alternate_some d [] = omega arith
alternate_some d (e ∷ ds) = omega arith

drop_past :
    (n : Name) (m : ℕ) (d : Node) (ds : List Node)
    → 1 ≤ m
    → NotNamed n ds
    → NotNamed n (drop m (d ∷ ds))
drop_past n zero d ds h k = absurd (omega arith)
drop_past n (suc m) d ds h k = drop-NotNamed n m ds k

pub walk_skips :
    (rounds : ℕ) (a b c : Node) (rest : List Node)
    → NotNamed (name_of b) (a ∷ c ∷ rest)
    → NotIn (name_of b) (walk rounds (a ∷ b ∷ c ∷ rest))
unfolding walk
walk_skips zero a b c rest h = tt
walk_skips (suc rounds) a b c rest h =
    let shown = a.dev.bd_gd.disk_name ∷ alternate (c ∷ rest) in
    NotIn-append (name_of b) shown _ (h.0, alternate-NotIn (name_of b) (c ∷ rest) h.1)
      (walk-NotIn (name_of b) rounds _ (
        drop_past (name_of b) (length (alternate (c ∷ rest))) b (c ∷ rest) (alternate_some c rest)
          h.1))
