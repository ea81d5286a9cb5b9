-- ===== src/Tool/Labels.antt =====
-- The options of util/bdtun.c by name, and a description of each (options, parse_opt).
use Prim.Native.String.{String}
use text.Mathlib.Text
use text.Mathlib.TextEquality.{eq_iff}
use bdtun.Base.{
  ℕ, ◌≡◌, refl, Bool-cases, Option-cases, ◌⊎◌, List, [], ◌∷◌, Option, none, some, arith, subst, inl,
  inr, ap, sym, ◌∙◌, if◌then◌else◌, ◌↔◌,
}
use bdtun.Base.Int.{ℤ}
use bdtun.Tool.Options.{
  Opt, key_create, key_remove, key_resize, key_list, key_info, key_name, key_size, key_bsize,
  key_flush, key_fua, key_discard, key_secure, key_arg, key_success,
}
use bdtun.Tool.Table.{
  ArgpOption, heading_row, flag_row, setting_row, options, opt_for, find_option, named_option,
  same_shape,
}

-- The long name of an option, and its argument.
abbrev long_name : Opt → Option String
long_name key_create = some "create"
long_name key_remove = some "remove"
long_name key_resize = some "resize"
long_name key_list = some "list"
long_name key_info = some "info"
long_name (key_name arg) = some "name"
long_name (key_size arg) = some "size"
long_name (key_bsize arg) = some "block-size"
long_name key_flush = some "req-flush"
long_name key_fua = some "req-fua"
long_name key_discard = some "req-discard"
long_name key_secure = some "req-secure"
long_name key_arg = none
long_name key_success = none

abbrev argument : Opt → Option (List ℕ)
argument (key_name arg) = some arg
argument (key_size arg) = some arg
argument (key_bsize arg) = some arg
argument opt = none

-- The option of name `t` is that of `s`, if they are one name.
renamed :
    {s t : String} (given : Option (List ℕ)) (opt : Opt)
    → some t ≡ some s
    → named_option t given ≡ some opt
    → named_option s given ≡ some opt
renamed {s} {t} given opt q r =
    let same : t ≡ s = ground (arith, q) in subst (λ z. named_option z given ≡ some opt) same r

named_option_self :
    (opt : Opt) (s : String) → long_name opt ≡ some s → named_option s (argument opt) ≡ some opt
unfolding named_option find_option opt_for
named_option_self key_create s q = renamed _ _ q refl
named_option_self key_remove s q = renamed _ _ q refl
named_option_self key_resize s q = renamed _ _ q refl
named_option_self key_list s q = renamed _ _ q refl
named_option_self key_info s q = renamed _ _ q refl
named_option_self (key_name arg) s q = renamed _ _ q refl
named_option_self (key_size arg) s q = renamed _ _ q refl
named_option_self (key_bsize arg) s q = renamed _ _ q refl
named_option_self key_flush s q = renamed _ _ q refl
named_option_self key_fua s q = renamed _ _ q refl
named_option_self key_discard s q = renamed _ _ q refl
named_option_self key_secure s q = renamed _ _ q refl
named_option_self key_arg s q = ground (arith, q)
named_option_self key_success s q = ground (arith, q)

-- A row that leads to no option but that of its name, with the argument.
record IsLabelled (r : ArgpOption) : Type 0 where
  label :
      (given : Option (List ℕ)) (opt : Opt)
      → (if same_shape r.arg given then opt_for r.key given else none) ≡ some opt
      → (long_name opt ≡ r.name) × (argument opt ≡ given)

abbrev AreLabelled : List ArgpOption → Type 0
AreLabelled [] = Unit {0}
AreLabelled (r ∷ rs) = IsLabelled r × AreLabelled rs

find_option-cons :
    (s : String) (r : ArgpOption) (rs : List ArgpOption) {o : ArgpOption}
    → find_option s (r ∷ rs) ≡ some o
    → ((r ≡ o) × (o.name ≡ some s)) ⊎ (find_option s rs ≡ some o)
unfolding find_option
find_option-cons s r rs q = elim (Option-cases r.name) [
  | inl bare ↦ inr (ground (arith, bare))
  | inr (name, has) ↦ elim (Bool-cases (Text.◌==◌ s name)) [
    | inl same ↦
        let here : r ≡ _ = ground (arith, has, same) in
        inl (here, ap (λ z. z.name) (sym here) ∙ has ∙ ap some (sym ((eq_iff s name).0 same)))
    | inr other ↦ inr (ground (arith, has, other))
  ]
]

find_option-IsLabelled :
    (s : String) (rs : List ArgpOption) {o : ArgpOption}
    → AreLabelled rs
    → find_option s rs ≡ some o
    → IsLabelled o × (o.name ≡ some s)
unfolding find_option
find_option-IsLabelled s [] l q = absurd (ground (arith, q))
find_option-IsLabelled s (r ∷ rs) l q = elim (find_option-cons s r rs q) [
  | inl (here, has) ↦ (subst IsLabelled here l.0, has)
  | inr later ↦ find_option-IsLabelled s rs l.1 later
]

heading_row-IsLabelled : (doc : String) (group : ℤ) → IsLabelled (heading_row doc group)
unfolding opt_for
heading_row-IsLabelled doc group = record { label = go }
  where
    go :
        (given : Option (List ℕ)) (opt : Opt)
        → (if same_shape {A = String} none given then opt_for 0 given else none) ≡ some opt
        → (long_name opt ≡ none) × (argument opt ≡ given)
    go none opt q = absurd (ground (arith, q))
    go (some arg) opt q = absurd (ground (arith, q))

flag_row-IsLabelled :
    (name : String) (key : ℕ) (doc : String) (group : ℤ) (o : Opt)
    → opt_for key none ≡ some o
    → (long_name o ≡ some name) × (argument o ≡ none)
    → IsLabelled (flag_row name key doc group)
flag_row-IsLabelled name key doc group o at l = record { label = go }
  where
    go :
        (given : Option (List ℕ)) (opt : Opt)
        → (if same_shape {A = String} none given then opt_for key given else none) ≡ some opt
        → (long_name opt ≡ some name) × (argument opt ≡ given)
    go none opt q =
        let same : o ≡ opt = ground (arith, at, q) in
        subst (λ z. (long_name z ≡ some name) × (argument z ≡ none)) same l
    go (some arg) opt q = absurd (ground (arith, q))

setting_row-IsLabelled :
    (name : String) (key : ℕ) (arg doc : String) (group : ℤ) (o : List ℕ → Opt)
    → ((given : List ℕ) → opt_for key (some given) ≡ some (o given))
    → ((given : List ℕ) → (long_name (o given) ≡ some name) × (argument (o given) ≡ some given))
    → IsLabelled (setting_row name key arg doc group)
setting_row-IsLabelled name key arg doc group o at l = record { label = go }
  where
    go :
        (given : Option (List ℕ)) (opt : Opt)
        → (if same_shape (some arg) given then opt_for key given else none) ≡ some opt
        → (long_name opt ≡ some name) × (argument opt ≡ given)
    go none opt q = absurd (ground (arith, q))
    go (some given) opt q =
        let same : o given ≡ opt = ground (arith, at given, q) in
        subst (λ z. (long_name z ≡ some name) × (argument z ≡ some given)) same (l given)

options-AreLabelled : AreLabelled options
unfolding opt_for
options-AreLabelled = (
  heading_row-IsLabelled _ _,
  (
    heading_row-IsLabelled _ _,
    (
      flag_row-IsLabelled _ _ _ _ key_create refl (refl, refl),
      (
        flag_row-IsLabelled _ _ _ _ key_remove refl (refl, refl),
        (
          flag_row-IsLabelled _ _ _ _ key_resize refl (refl, refl),
          (
            flag_row-IsLabelled _ _ _ _ key_list refl (refl, refl),
            (
              flag_row-IsLabelled _ _ _ _ key_info refl (refl, refl),
              (
                heading_row-IsLabelled _ _,
                (
                  setting_row-IsLabelled _ _ _ _ _ key_name (λ g. refl) (λ g. (refl, refl)),
                  (
                    setting_row-IsLabelled _ _ _ _ _ key_size (λ g. refl) (λ g. (refl, refl)),
                    (
                      setting_row-IsLabelled _ _ _ _ _ key_bsize (λ g. refl) (λ g. (refl, refl)),
                      (
                        flag_row-IsLabelled _ _ _ _ key_flush refl (refl, refl),
                        (
                          flag_row-IsLabelled _ _ _ _ key_fua refl (refl, refl),
                          (
                            flag_row-IsLabelled _ _ _ _ key_discard refl (refl, refl),
                            (flag_row-IsLabelled _ _ _ _ key_secure refl (refl, refl), tt),
                          ),
                        ),
                      ),
                    ),
                  ),
                ),
              ),
            ),
          ),
        ),
      ),
    ),
  ),
)

-- An option of the command line, by its long name, leads to the case of parse_opt that is called
-- after it, with the argument that is given, and is refused if no case is or if the case takes an
-- argument and none is given, or the other way round.
named_option_iff :
    (s : String) (given : Option (List ℕ)) (opt : Opt)
    → (named_option s given ≡ some opt) ↔ ((long_name opt ≡ some s) × (argument opt ≡ given))
unfolding named_option
named_option_iff s given opt = (
  λ q. elim (Option-cases (find_option s options)) [
    | inl missing ↦ absurd (ground (arith, missing, q))
    | inr (o, found) ↦
        let (labelled, has) = find_option-IsLabelled s options options-AreLabelled found in
        let (name, arg) = labelled.label given opt (ground (arith, found, q)) in (name ∙ has, arg)
  ],
  λ (name, arg). ap (named_option s) (sym arg) ∙ named_option_self opt s name,
)
