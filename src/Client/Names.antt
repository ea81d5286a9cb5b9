-- ===== src/Client/Names.antt =====
-- How the library takes the answer to a list command apart (lib/libbdtun.c: bdtun_list).
use bdtun.Base.{
  ℕ, suc, ◌+◌, ◌≤◌, ◌≡◌, ◌∙◌, refl, List, [], ◌∷◌, ◌++◌, arith, leb, if◌then◌else◌, length,
  length-append, append_nil, append_assoc, inl, inr, Bool-cases,
}
use bdtun.Device.{done, oops}
use bdtun.Registry.{Name, Node}
use bdtun.Registry.Pages.{entries}
use bdtun.Client.{name_loop, split_names}
use bdtun.Client.Commands.{IsString}

-- A name is a string of at least one byte.
abbrev pub IsName : Name → Type 0
IsName [] = ⊥
IsName (b ∷ bs) = IsString (b ∷ bs)

abbrev pub AllNamed : List Node → Type 0
AllNamed [] = Unit {0}
AllNamed (d ∷ ds) = IsName d.dev.bd_gd.disk_name × AllNamed ds

-- Where the names of devices begin, from `at` on.
abbrev pub starts : ℕ → List Node → List ℕ
starts at [] = []
starts at (d ∷ ds) = at ∷ starts (at + length d.dev.bd_gd.disk_name + 1) ds

name_loop-through :
    (ret i : ℕ) (bs rest names : List ℕ)
    → IsString bs
    → name_loop ret i (bs ++ rest) names ≡ name_loop ret (i + length bs) rest names
unfolding name_loop
name_loop-through ret i [] rest names str = let same : i + 0 ≡ i = omega arith in rw same refl
name_loop-through ret i (b ∷ bs) rest names str =
    let next : i + suc (length bs) ≡ i + 1 + length bs = omega arith in
    rw next (ground (arith, str.0, name_loop-through ret (i + 1) bs rest names str.1))

pub IsName-IsString : (name : Name) → IsName name → IsString name
IsName-IsString [] h = absurd h
IsName-IsString (b ∷ bs) h = h

-- From the end of a name on.
name_loop-entries :
    (ds : List Node) (ret i : ℕ) (names : List ℕ)
    → AllNamed ds
    → i + 1 + length (entries ds) ≡ ret
    → length names ≤ 32
    → name_loop ret i (0 ∷ entries ds) names
      ≡ (if leb (length names + length ds) 32 then done (names ++ starts (i + 1) ds) else oops)
unfolding name_loop entries
name_loop-entries [] ret i names named whole few = ground (arith, append_nil names)
name_loop-entries (d ∷ ds) ret i names named whole few =
    let name = d.dev.bd_gd.disk_name in
    let names' = names ++ (i + 1) ∷ [] in
    let measured : length (entries (d ∷ ds)) ≡ length name + 1 + length (entries ds) =
      omega (arith, length-append (name ++ 0 ∷ []) (entries ds), length-append name (0 ∷ [])) in
    let through : name_loop ret (i + 1) ((name ++ 0 ∷ []) ++ entries ds) names'
        ≡ name_loop ret (i + 1 + length name) (0 ∷ entries ds) names' =
      rw (append_assoc name (0 ∷ []) (entries ds)) (
        name_loop-through ret (i + 1) name (0 ∷ entries ds) names'
          (IsName-IsString name named.0)) in
    let longer : length names' ≡ length names + 1 = length-append names ((i + 1) ∷ []) in
    elim (Bool-cases (leb 32 (length names))) [
      | inl full ↦ ground (arith, measured)
      | inr space ↦
          let rest =
            name_loop-entries ds ret (i + 1 + length name) names' named.1
              (omega (arith, measured, whole)) (ground arith) in
          ground (
            arith,
            measured,
            through,
            longer,
            rest,
            append_assoc names ((i + 1) ∷ []) (starts (i + 1 + length name + 1) ds),
          )
    ]

split_names-first :
    (name : Name) (rest : List ℕ)
    → IsName name
    → split_names ((name ++ 0 ∷ []) ++ rest)
      ≡ name_loop (length name + 1 + length rest) (length name) (0 ∷ rest) (0 ∷ [])
unfolding split_names
split_names-first [] rest h = absurd h
split_names-first (b ∷ bs) rest h =
    let one : 1 + length bs ≡ suc (length bs) = omega arith in
    let whole : suc (length (bs ++ 0 ∷ rest)) ≡ suc (length bs) + 1 + length rest =
      omega (arith, length-append bs (0 ∷ rest)) in
    rw (append_assoc bs (0 ∷ []) rest, whole)
      (name_loop-through (suc (length bs) + 1 + length rest) 1 bs (0 ∷ rest) (0 ∷ []) h.1
        ∙ rw one refl)

-- Whether an answer of whole names is split: up to 32 of them.
pub split_names-entries :
    (ds : List Node)
    → AllNamed ds
    → split_names (entries ds) ≡ (if leb (length ds) 32 then done (starts 0 ds) else oops)
unfolding split_names entries
split_names-entries [] named = refl
split_names-entries (d ∷ ds) named =
    let name = d.dev.bd_gd.disk_name in
    ground (
      arith,
      split_names-first name (entries ds) named.0,
      name_loop-entries ds (length name + 1 + length (entries ds)) (length name) (0 ∷ []) named.1
          refl (omega arith),
    )
