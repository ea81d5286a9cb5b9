-- ===== src/Tool/Listing.antt =====
-- The tool's listing loop on the control device.
use bdtun.Base.{
  ℕ, zero, suc, ◌+◌, ◌≤◌, ◌≡◌, ◌∙◌, refl, Bool, true, false, List, [], ◌∷◌, ◌++◌, some, arith,
  length, drop, length-drop, ap, sym, subst,
}
use mathlib.Core.Option
use bdtun.Base.Int.{pos}
use bdtun.Device.{done, ◌>>=◌}
use bdtun.Tunnel.Flags.{Kernel}
use bdtun.Registry.{Name, Node}
use bdtun.Registry.Names.{name_of}
use bdtun.Registry.Pages.{entries}
use bdtun.Control.{Control, Env}
use bdtun.Client.{Fd, bdtun_list}
use bdtun.Client.Link.{control_fd}
use bdtun.Client.Names.{AllNamed, starts}
use bdtun.Client.Listing.{AllNamed-drop}
use bdtun.Tool.Options.{Arguments, list}
use bdtun.Tool.Main.{
  Line, print_names, heading, some_found, tunnel, list_tunnels, run_command, main,
}
use bdtun.Tool.Walk.{
  alternate, walk, lines, print_names-entries, NotNamed, NotIn, walk_skips, alternate_some,
}
use bdtun.Tool.Answers.{FitsOne, answered, bdtun_list-all}

lines-append : (a b : List Name) → lines (a ++ b) ≡ lines a ++ lines b
lines-append [] b = refl
lines-append (n ∷ a) b = ap (◌∷◌ (tunnel n)) (lines-append a b)

length-lines : (a : List Name) → length (lines a) ≡ length a
length-lines [] = refl
length-lines (n ∷ a) = ap suc (length-lines a)

drop_empty : (n : ℕ) → drop {A = Node} n [] ≡ []
drop_empty zero = refl
drop_empty (suc n) = refl

drop-drop : (m n : ℕ) (ds : List Node) → drop n (drop m ds) ≡ drop (m + n) ds
drop-drop zero n ds = let same : 0 + n ≡ n = omega arith in rw same refl
drop-drop (suc m) n [] = drop_empty n ∙ sym (drop_empty (suc m + n))
drop-drop (suc m) n (d ∷ ds) =
    let same : suc m + n ≡ suc (m + n) = omega arith in rw same (drop-drop m n ds)

length-alternate : (ds : List Node) → length (alternate ds) ≤ length ds
length-alternate [] = omega arith
length-alternate (d ∷ []) = omega arith
length-alternate (d ∷ e ∷ ds) = omega (arith, length-alternate ds)

walk_none : (rounds : ℕ) → walk rounds [] ≡ []
unfolding walk
walk_none zero = refl
walk_none (suc rounds) = refl

-- One round of the loop, by what the library answers and what is printed.
module _ {S : Type 0} (fd : Fd S) (fuel : ℕ) (first : Bool) (off : ℕ) {buf names : List ℕ}
    {printed : List Line} {t : S} (s : S) (prints : print_names buf names ≡ done printed) where
  last_round :
      bdtun_list fd off 32 s ≡ done (pos 0, buf, names, t)
      → list_tunnels fd (suc fuel) first off s ≡ done (some (pos 0, heading first 0 ++ printed, t))
  unfolding list_tunnels
  last_round e = rw (e, prints) refl

  next_round :
      {n : ℕ}
      → bdtun_list fd off 32 s ≡ done (pos (suc n), buf, names, t)
      → list_tunnels fd (suc fuel) first off s ≡ (
          list_tunnels fd fuel false (off + length printed) t >>= λ rest.
          done (Option.map (λ r. (r.0, heading first (suc n) ++ (printed ++ r.1), r.2)) rest))
  unfolding list_tunnels
  next_round e = rw (e, prints) refl

module _ (k : Kernel) (env : Env) where
  answers_rest :
      (off : ℕ) (s : Control) (rest : List Node)
      → off ≤ length s.registry.device_list
      → FitsOne s.registry.device_list
      → drop off s.registry.device_list ≡ rest
      → (bdtun_list (control_fd k env) off 32 s
          ≡ done (pos (length rest), entries rest, starts 0 rest, answered off s))
        × (print_names (entries rest) (starts 0 rest) ≡ done (lines (alternate rest)))
  answers_rest off s rest inside f p = (
    subst
        (λ r.
          bdtun_list (control_fd k env) off 32 s
          ≡ done (pos (length r), entries r, starts 0 r, answered off s))
        p (bdtun_list-all k env off s inside f),
    print_names-entries [] rest
        (subst AllNamed p (AllNamed-drop off s.registry.device_list f.named)),
  )

  -- The loop ends within one round more than there are names left, whatever was printed before.
  list_tunnels-walk :
      (rounds off : ℕ) (first : Bool) (s : Control) (rest : List Node)
      → off ≤ length s.registry.device_list
      → FitsOne s.registry.device_list
      → drop off s.registry.device_list ≡ rest
      → length rest ≤ rounds
      → (t : Control) × (t.registry ≡ s.registry)
        × (list_tunnels (control_fd k env) (suc rounds) first off s
            ≡ done (some (pos 0, heading first (length rest) ++ lines (walk rounds rest), t)))
  unfolding walk
  list_tunnels-walk rounds off first s [] inside f p h =
      let (listed, prints) = answers_rest off s [] inside f p in
      (
        answered off s,
        refl,
        last_round (control_fd k env) rounds first off s prints listed
            ∙ ap (λ w. done (some (pos 0, heading first 0 ++ lines w, answered off s)))
                (sym (walk_none rounds)),
      )
  list_tunnels-walk zero off first s (d ∷ rest) inside f p h = absurd (omega arith)
  list_tunnels-walk (suc rounds) off first s (d ∷ rest) inside f p h =
      let shown = length (alternate (d ∷ rest)) in
      let ds = s.registry.device_list in
      let left : drop (off + shown) ds ≡ drop shown (d ∷ rest) =
        sym (drop-drop off shown ds) ∙ ap (drop shown) p in
      let size : length ds ≡ off + length (d ∷ rest) =
        omega (arith, ap length p, length-drop off ds, inside) in
      let (listed, prints) = answers_rest off s (d ∷ rest) inside f p in
      let (t, same, ends) =
        list_tunnels-walk rounds (off + shown) false (answered off s) (drop shown (d ∷ rest))
          (omega (arith, size, length-alternate (d ∷ rest))) f left
          (omega (arith, length-drop shown (d ∷ rest), alternate_some d rest, h)) in
      let next = next_round (control_fd k env) (suc rounds) first off s prints listed in
      (
        t,
        same,
        next
            ∙ rw
                (
                  length-lines (alternate (d ∷ rest)),
                  ends,
                  lines-append (alternate (d ∷ rest)) (walk rounds (drop shown (d ∷ rest))),
                )
                refl,
      )

-- The tool's list command, where every device has a name and all names fit one answer, ends within
-- one round more than there are devices and returns 0; it prints, in each round, every other name
-- behind as many devices as it has printed names before, and it changes no device.
pub main-list :
    (k : Kernel) (env : Env) (args : Arguments) (s : Control)
    → args.command ≡ list
    → FitsOne s.registry.device_list
    → (t : Control) × (t.registry ≡ s.registry)
      × (main (control_fd k env) (suc (length s.registry.device_list)) args s
          ≡ done (
              some (
                0,
                heading true (length s.registry.device_list)
                    ++ lines (walk (length s.registry.device_list) s.registry.device_list),
                t,
              )))
unfolding main run_command
main-list k env args s lists f =
    let ds = s.registry.device_list in
    let (t, same, ends) =
      list_tunnels-walk k env (length ds) 0 true s ds (omega arith) f refl (omega arith) in
    (t, same, rw (lists, ends) refl)

-- With three devices or more and the name of the second not used by another, under the same
-- conditions, the list command returns 0 without printing the name of the second device.
main-list_skips :
    (k : Kernel) (env : Env) (args : Arguments) (s : Control) (a b c : Node) (rest : List Node)
    → args.command ≡ list
    → FitsOne s.registry.device_list
    → s.registry.device_list ≡ a ∷ b ∷ c ∷ rest
    → NotNamed (name_of b) (a ∷ c ∷ rest)
    → (t : Control) × (shown : List Name) × (main
          (control_fd k env)
          (suc (length s.registry.device_list))
          args
          s
        ≡ done (some (0, some_found ∷ lines shown, t)))
      × NotIn (name_of b) shown
main-list_skips k env args s a b c rest lists f p other =
    let ds = s.registry.device_list in
    let (t, same, ends) = main-list k env args s lists f in
    (
      t,
      walk (length ds) ds,
      ends
          ∙ ap (λ n. done (some (0, heading true n ++ lines (walk (length ds) ds), t)))
              (ap length p),
      subst (λ w. NotIn (name_of b) (walk (length ds) w)) (sym p)
          (walk_skips (length ds) a b c rest other),
    )
