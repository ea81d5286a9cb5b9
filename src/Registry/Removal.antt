-- ===== src/Registry/Removal.antt =====
-- What excludes the removal of a device pair and its use.
use bdtun.Base.{
  ℕ, suc, ◌+◌, ◌^◌, ◌<◌, ◌≤◌, ◌≡◌, refl, Option, none, some, arith, inl, inr, Bool-cases,
  Option-cases, ◌==◌, subst, sym, ◌⊎◌, if◌then◌else◌,
}
use bdtun.Device.{ebusy, Ret, ok, err, Bdtun}
use bdtun.Block.{bdtun_open, bdtun_release}
use bdtun.Tunnel.{bdtunch_open, bdtunch_release}
use bdtun.Registry.Manage.{mark_removing}
use bdtun.Registry.Usage.{
  Usage, End, disk, tunnel, open_at, release_at, opened, marked, UsageStep, arrives, opens, closes,
  marks, frees, UsageHistory, created, and_next, IsUnused, IsGuarded, Guarded, open_section,
  refusal,
}

opens-IsGuarded :
    (e : End) (limit : ℕ) (s : Usage) (d : Bdtun)
    → limit < 2 ^ 32
    → s.handles < limit
    → Guarded (some d) s.handles s.removers
    → IsGuarded (opened (open_at e d) s)
unfolding bdtun_open bdtunch_open
opens-IsGuarded disk limit s d small less (inl (idle, counted, alone)) =
    rw idle (inl (refl, omega arith, alone))
opens-IsGuarded tunnel limit s d small less (inl (idle, counted, alone)) =
    rw idle (inl (refl, omega arith, alone))
opens-IsGuarded disk limit s d small less (inr (going, out, one)) = rw going (inr (refl, out, one))
opens-IsGuarded tunnel limit s d small less (inr (going, out, one)) =
    rw going (inr (refl, out, one))

closes-IsGuarded :
    (e : End) (limit : ℕ) (s : Usage) (d : Bdtun) (n : ℕ)
    → limit < 2 ^ 32
    → s.handles ≤ limit
    → s.handles ≡ suc n
    → Guarded (some d) s.handles s.removers
    → Guarded (some (release_at e d)) n s.removers
unfolding bdtun_release bdtunch_release
closes-IsGuarded disk limit s d n small less p (inl (idle, counted, alone)) =
    inl (idle, omega arith, alone)
closes-IsGuarded tunnel limit s d n small less p (inl (idle, counted, alone)) =
    inl (idle, omega arith, alone)
closes-IsGuarded e limit s d n small less p (inr (going, out, one)) = absurd (omega arith)

marks-IsGuarded :
    (s : Usage) (d : Bdtun)
    → Guarded (some d) s.handles s.removers
    → IsGuarded (marked (mark_removing d) s)
unfolding mark_removing
marks-IsGuarded s d (inl (idle, counted, alone)) = elim (Bool-cases (d.ucnt == 0)) [
  | inl unused ↦ rw (idle, unused) (inr (refl, ground arith, omega arith))
  | inr used ↦ rw (idle, used) (inl (refl, counted, alone))
]
marks-IsGuarded s d (inr (going, out, one)) = rw going (inr (refl, out, one))

frees-Guarded :
    (o : Option Bdtun) (handles removers n : ℕ)
    → removers ≡ suc n
    → Guarded o handles removers
    → Guarded none handles n
frees-Guarded none handles removers n p g = absurd (omega arith)
frees-Guarded (some d) handles removers n p (inl (idle, counted, alone)) = absurd (omega arith)
frees-Guarded (some d) handles removers n p (inr (going, out, one)) = (out, omega arith)

at_dev :
    (s : Usage) {d : Bdtun} → s.dev ≡ some d → IsGuarded s → Guarded (some d) s.handles s.removers
at_dev s p g = subst (λ o. Guarded o s.handles s.removers) p g

UsageStep-IsGuarded :
    {limit : ℕ} {s t : Usage}
    → limit < 2 ^ 32
    → UsageStep limit s t
    → s.handles ≤ limit
    → IsGuarded s
    → IsGuarded t
unfolding open_section
UsageStep-IsGuarded small (arrives p) less g = g
UsageStep-IsGuarded {limit} {s} {t} small (opens e {n} p under q) less g =
    elim (Option-cases s.dev) [
      | inl gone ↦ absurd (ground (arith, gone))
      | inr (d, here) ↦
          let same : opened (open_at e d) (record s { opening = n }) ≡ t = ground (arith, here) in
          subst IsGuarded same
            (opens-IsGuarded e limit (record s { opening = n }) d small under (at_dev s here g))
    ]
UsageStep-IsGuarded {limit} {s} small (closes e {d} {n} p q) less g =
    closes-IsGuarded e limit s d n small less q (at_dev s p g)
UsageStep-IsGuarded {limit} {s} small (marks {d} p) less g = marks-IsGuarded s d (at_dev s p g)
UsageStep-IsGuarded {limit} {s} small (frees {n} p) less g =
    frees-Guarded s.dev s.handles s.removers n p g

marked-handles : (r : Ret × Bdtun) (s : Usage) → (marked r s).handles ≡ s.handles
marked-handles (ok n, d) s = refl
marked-handles (err e, d) s = refl

opened-handles : (r : Ret × Bdtun) (s : Usage) → (opened r s).handles ≤ s.handles + 1
opened-handles (ok n, d) s = omega arith
opened-handles (err e, d) s = omega arith

UsageStep-handles :
    {limit : ℕ} {s t : Usage} → UsageStep limit s t → s.handles ≤ limit → t.handles ≤ limit
unfolding open_section
UsageStep-handles (arrives p) less = less
UsageStep-handles {limit} {s} (opens e {n} p under q) less = elim (Option-cases s.dev) [
  | inl gone ↦ absurd (ground (arith, gone))
  | inr (d, here) ↦ ground (arith, here, opened-handles (open_at e d) (record s { opening = n }))
]
UsageStep-handles (closes e p q) less = omega arith
UsageStep-handles {s} (marks {d} p) less = omega (arith, marked-handles (mark_removing d) s)
UsageStep-handles (frees p) less = less

UsageHistory-IsGuarded :
    {limit : ℕ} {s t : Usage}
    → limit < 2 ^ 32
    → UsageHistory limit s t
    → IsUnused s
    → IsGuarded t × (t.handles ≤ limit)
UsageHistory-IsGuarded {s} small created (d, p, idle, zero_, none_, out, alone) = (
  subst (λ o. Guarded o s.handles s.removers) (sym p) (inl (idle, omega arith, alone)),
  omega arith,
)
UsageHistory-IsGuarded small (and_next h step) u =
    let (g, less) = UsageHistory-IsGuarded small h u in
    (UsageStep-IsGuarded small step less g, UsageStep-handles step less)

-- What a device's users meet. It is open to them: an open succeeds, `ucnt` is the number of handles,
-- and a removal is refused unless there is none. Or it is being removed by one thread: there is no
-- handle, and opens and further removals are refused. Or it is freed, and there is no handle.
abbrev pub Excluded : Usage → Type 0
Excluded s =
    ((d : Bdtun) × (s.dev ≡ some d)
      × ((e : End) → (open_at e d).0 ≡ ok 0)
      × (d.ucnt ≡ s.handles)
      × ((mark_removing d).0 ≡ (if s.handles == 0 then ok 0 else err ebusy))
      × (s.removers ≡ 0))
    ⊎ ((d : Bdtun) × (s.dev ≡ some d)
        × ((e : End) → open_at e d ≡ (err (refusal e), d))
        × (mark_removing d ≡ (err ebusy, d))
        × (s.handles ≡ 0)
        × (s.removers ≡ 1))
    ⊎ ((s.dev ≡ none) × (s.handles ≡ 0) × (s.removers ≡ 0))

usable-opens : (e : End) (d : Bdtun) → d.removing ≡ 0 → (open_at e d).0 ≡ ok 0
unfolding bdtun_open bdtunch_open
usable-opens disk d idle = ground (arith, idle)
usable-opens tunnel d idle = ground (arith, idle)

removing-refuses : (e : End) (d : Bdtun) → d.removing ≡ 1 → open_at e d ≡ (err (refusal e), d)
unfolding bdtun_open bdtunch_open
removing-refuses disk d going = ground (arith, going)
removing-refuses tunnel d going = ground (arith, going)

Guarded-Excluded :
    (o : Option Bdtun) (s : Usage) → s.dev ≡ o → Guarded o s.handles s.removers → Excluded s
unfolding mark_removing
Guarded-Excluded none s p (out, alone) = inr (inr (p, out, alone))
Guarded-Excluded (some d) s p (inl (idle, counted, alone)) =
    inl (d, p, (λ e. usable-opens e d idle), counted, ground (arith, idle, counted), alone)
Guarded-Excluded (some d) s p (inr (going, out, one)) =
    inr (inl (d, p, (λ e. removing-refuses e d going), ground (arith, going), out, one))

-- From a new device, with fewer than 2 ^ 32 files that the system opens, in every interleaving of the
-- sections of opens, closes and removals: either the device is open to its users, `ucnt` is the
-- number of handles, and a removal is refused unless there is none; or one thread is removing it,
-- there is no handle, and every open and every other removal is refused; or it is freed, and there
-- is no handle.
pub use_excludes_removal :
    {limit : ℕ} {s t : Usage} → limit < 2 ^ 32 → UsageHistory limit s t → IsUnused s → Excluded t
use_excludes_removal {t} small h u =
    Guarded-Excluded t.dev t refl (UsageHistory-IsGuarded small h u).0
