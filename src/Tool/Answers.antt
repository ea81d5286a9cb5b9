-- ===== src/Tool/Answers.antt =====
-- What the tool gets from the library when every name fits one answer.
use bdtun.Base.{
  ℕ, zero, suc, ◌+◌, ◌≤◌, ◌≡◌, ◌∙◌, List, [], ◌∷◌, ◌++◌, inl, inr, arith, length, take, drop,
  length-append, length-drop, take_self, ap,
}
use bdtun.Base.Int.{pos}
use bdtun.Device.{done}
use bdtun.Tunnel.Flags.{Kernel}
use bdtun.Registry.{Node}
use bdtun.Registry.Pages.{entries, IsPage}
use bdtun.Control.{Control, Env, overlay}
use bdtun.Client.{bdtun_list}
use bdtun.Client.Link.{control_fd}
use bdtun.Client.Names.{AllNamed, starts}
use bdtun.Client.Listing.{bdtun_list-IsPage}

entries-drop : (n : ℕ) (ds : List Node) → length (entries (drop n ds)) ≤ length (entries ds)
unfolding entries
entries-drop zero ds = omega arith
entries-drop (suc n) [] = omega arith
entries-drop (suc n) (d ∷ ds) =
    omega (arith, entries-drop n ds, length-append (d.dev.bd_gd.disk_name ++ 0 ∷ []) (entries ds))

entries-take :
    (n : ℕ) (ds : List Node)
    → length (entries (take n ds)) + length (entries (take 1 (drop n ds))) ≤ length (entries ds)
unfolding entries
entries-take zero [] = omega arith
entries-take zero (d ∷ ds) =
    let first = d.dev.bd_gd.disk_name ++ 0 ∷ [] in
    omega (arith, length-append first (entries ds), length-append first [])
entries-take (suc n) [] = omega arith
entries-take (suc n) (d ∷ ds) =
    let first = d.dev.bd_gd.disk_name ++ 0 ∷ [] in
    omega (
      arith,
      entries-take n ds,
      length-append first (entries ds),
      length-append first (entries (take n ds)),
    )

-- A page that no limit cuts off holds every name.
page-all :
    {ds : List Node} {buf : List ℕ} (p : IsPage 1024 32 0 [] ds buf)
    → length ds ≤ 32
    → length (entries ds) ≤ 1024
    → (p.count ≡ length ds) × (buf ≡ entries ds)
page-all {ds} {buf} p few fits =
    let all : p.count ≡ length ds = elim p.full [
      | inl whole ↦ whole
      | inr (inl most) ↦ absurd (omega (arith, most, p.there))
      | inr (inr next) ↦ absurd (omega (arith, next, entries-take p.count ds, ap length p.names))
    ] in
    (all, p.names ∙ ap entries (ap (λ n. take n ds) all ∙ take_self (length ds) ds (omega arith)))

-- Every device, with a name of at least one byte, is in one answer.
pub record FitsOne (ds : List Node) : Type 0 where
  pub named : AllNamed ds
  pub few : length ds ≤ 32
  pub fits : length (entries ds) ≤ 1024

-- The control device after an answer with the names from `off` on.
abbrev pub answered : ℕ → Control → Control
answered off s = record s {
  ctrl_response_buf = overlay (entries (drop off s.registry.device_list)) s.ctrl_response_buf;
  ctrl_response_size = 0;
}

pub bdtun_list-all :
    (k : Kernel) (env : Env) (off : ℕ) (s : Control)
    → off ≤ length s.registry.device_list
    → FitsOne s.registry.device_list
    → bdtun_list (control_fd k env) off 32 s
      ≡ done (
        pos (length (drop off s.registry.device_list)),
        entries (drop off s.registry.device_list),
        starts 0 (drop off s.registry.device_list),
        answered off s,
      )
bdtun_list-all k env off s inside f =
    let ds = s.registry.device_list in
    let (buf, p, answer) =
      bdtun_list-IsPage k env off 32 s (omega (arith, inside, f.few)) (omega arith) f.named in
    let few : length (drop off ds) ≤ 32 = omega (arith, length-drop off ds, f.few) in
    let (all, whole) = page-all p few (omega (arith, entries-drop off ds, f.fits)) in
    let taken : take p.count (drop off ds) ≡ drop off ds =
      ap (λ n. take n (drop off ds)) all
      ∙ take_self (length (drop off ds)) (drop off ds) (omega arith) in
    ground (arith, answer, all, whole, taken, few)
