-- ===== src/Registry/Names.antt =====
-- Names, and what the device list leads to under them.
use bdtun.Base.{
  suc, ◌≡◌, refl, true, List, [], ◌∷◌, ◌++◌, none, some, arith, ==_self, ==_iff, if◌then◌else◌,
  length,
}
use mathlib.Core.Path.{ap₂}
use mathlib.Core.Option
use bdtun.Device.{Bdtun}
use bdtun.Registry.{Name, Node, name_eq, find_in}
use bdtun.Registry.Manage.{change, remove_in}

pub name_eq_self : (n : Name) → name_eq n n ≡ true
unfolding name_eq
name_eq_self [] = refl
name_eq_self (a ∷ as') = ground (arith, ==_self a, name_eq_self as')

pub name_eq→eq : (n m : Name) → name_eq n m ≡ true → n ≡ m
unfolding name_eq
name_eq→eq [] [] h = refl
name_eq→eq [] (b ∷ bs) h = cc
name_eq→eq (a ∷ as') [] h = cc
name_eq→eq (a ∷ as') (b ∷ bs) h =
    ap₂ ◌∷◌ ((==_iff a b).0 (ground arith)) (name_eq→eq as' bs (ground arith))

abbrev pub name_of : Node → Name
name_of d = d.dev.bd_gd.disk_name

-- Looking up a name behind the devices of a list.
pub find_in-append :
    (name : Name) (ds : List Node) (d : Node)
    → find_in name ds ≡ none
    → find_in name (ds ++ d ∷ []) ≡ (if name_eq (name_of d) name then some d else none)
unfolding find_in
find_in-append name [] d out = refl
find_in-append name (x ∷ ds) d out = ground (arith, find_in-append name ds d)

pub find_in-append_found :
    (name : Name) (ds : List Node) (d e : Node)
    → find_in name ds ≡ some e
    → find_in name (ds ++ d ∷ []) ≡ some e
unfolding find_in
find_in-append_found name [] d e h = cc
find_in-append_found name (x ∷ ds) d e h = ground (arith, find_in-append_found name ds d e)

pub remove_in-append :
    (name : Name) (ds : List Node) (d : Node)
    → find_in name ds ≡ none
    → name_of d ≡ name
    → remove_in name (ds ++ d ∷ []) ≡ ds
unfolding find_in remove_in
remove_in-append name [] d out same = ground (arith, same, name_eq_self name)
remove_in-append name (x ∷ ds) d out same = ground (arith, remove_in-append name ds d)

-- Each name stands once.
abbrev pub NamesDistinct : List Node → Type 0
NamesDistinct [] = Unit {0}
NamesDistinct (d ∷ ds) = (find_in (name_of d) ds ≡ none) × NamesDistinct ds

pub NamesDistinct-append :
    (ds : List Node) (d : Node)
    → NamesDistinct ds
    → find_in (name_of d) ds ≡ none
    → NamesDistinct (ds ++ d ∷ [])
unfolding find_in
NamesDistinct-append [] d distinct out = (refl, tt)
NamesDistinct-append (x ∷ ds) d distinct out = (
  ground (
    arith,
    find_in-append (name_of x) ds d distinct.0,
    name_eq→eq (name_of d) (name_of x),
    name_eq_self (name_of x),
  ),
  NamesDistinct-append ds d distinct.1 (ground arith),
)

-- Removing a device leaves the others where they are.
pub find_in-remove_in :
    (name other : Name) (ds : List Node)
    → NamesDistinct ds
    → find_in other (remove_in name ds) ≡ (if name_eq name other then none else find_in other ds)
unfolding find_in remove_in
find_in-remove_in name other [] distinct = ground arith
find_in-remove_in name other (x ∷ ds) distinct = ground (
  arith,
  name_eq→eq (name_of x) name,
  name_eq→eq name other,
  name_eq→eq (name_of x) other,
  name_eq_self (name_of x),
  find_in-remove_in name other ds distinct.1,
)

pub remove_in-NamesDistinct :
    (name : Name) (ds : List Node) → NamesDistinct ds → NamesDistinct (remove_in name ds)
unfolding remove_in
remove_in-NamesDistinct name [] distinct = tt
remove_in-NamesDistinct name (x ∷ ds) distinct = ground (
  arith,
  find_in-remove_in name (name_of x) ds distinct.1,
  remove_in-NamesDistinct name ds distinct.1,
)

-- A change that keeps names keeps what each name leads to, but for the change.
module _ (name : Name) (f : Bdtun → Bdtun)
    (keeps : (d : Bdtun) → (f d).bd_gd.disk_name ≡ d.bd_gd.disk_name) where
  pub find_in-change :
      (other : Name) (ds : List Node)
      → find_in other (change name f ds)
        ≡ Option.map
            (λ d. if name_eq name other then record d { dev = f d.dev } else d)
            (find_in other ds)
  unfolding find_in change
  find_in-change other [] = refl
  find_in-change other (x ∷ ds) = ground (
    arith,
    keeps x.dev,
    name_eq→eq (name_of x) name,
    name_eq→eq name other,
    name_eq→eq (name_of x) other,
    name_eq_self (name_of x),
    find_in-change other ds,
  )

  pub change-NamesDistinct : (ds : List Node) → NamesDistinct ds → NamesDistinct (change name f ds)
  unfolding change
  change-NamesDistinct [] distinct = tt
  change-NamesDistinct (x ∷ ds) distinct =
      ground (arith, keeps x.dev, find_in-change (name_of x) ds, change-NamesDistinct ds distinct.1)

  pub length-change : (ds : List Node) → length (change name f ds) ≡ length ds
  unfolding change
  length-change [] = refl
  length-change (x ∷ ds) = ground (arith, length-change ds)

pub length-remove_in :
    (name : Name) (ds : List Node) (d : Node)
    → find_in name ds ≡ some d
    → suc (length (remove_in name ds)) ≡ length ds
unfolding remove_in find_in
length-remove_in name [] d h = cc
length-remove_in name (x ∷ ds) d h = ground (arith, length-remove_in name ds d)
