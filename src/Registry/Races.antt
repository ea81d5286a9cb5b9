-- ===== src/Registry/Races.antt =====
-- How a device pair can be freed while it is used.
use bdtun.Base.{ℕ, zero, suc, ◌+◌, ◌%◌, ◌^◌, ◌≤◌, ◌≡◌, refl, none, some, arith, u32_mod, subst}
use bdtun.Device.{oops, Bdtun}
use bdtun.Tunnel.{bdtunch_open}
use bdtun.Registry.Manage.{mark_removing}
use bdtun.Registry.Usage.{
  Usage, End, tunnel, marked, UsageStep, arrives, opens, marks, frees, UsageHistory, created,
  and_next, open_section,
}

abbrev pub unused : Bdtun → Usage
unused d = record { dev = some d; opening = 0; handles = 0; removers = 0 }

-- A device after `n` opens of its tunnel.
abbrev pub with_opens : ℕ → Bdtun → Usage
with_opens n d = record {
  dev = some (record d { ucnt = n % u32_mod });
  opening = 0;
  handles = n;
  removers = 0;
}

opens_many :
    (limit n : ℕ) (d : Bdtun)
    → d.removing ≡ 0
    → d.ucnt ≡ 0
    → n ≤ limit
    → UsageHistory limit (unused d) (with_opens n d)
unfolding open_section bdtunch_open
opens_many limit zero d idle clear less =
    subst (λ x. UsageHistory limit (unused d) x) (ground arith) created
opens_many limit (suc n) d idle clear less =
    and_next (and_next (opens_many limit n d idle clear (omega arith)) (arrives refl))
      (opens tunnel refl (omega arith) (ground (arith, idle)))

-- A device that is open to its users and counts no handle can be removed and freed.
removed_from :
    (limit : ℕ) {s : Usage} (t : Usage) {d : Bdtun}
    → UsageHistory limit s t
    → t.dev ≡ some d
    → d.removing ≡ 0
    → d.ucnt ≡ 0
    → UsageHistory limit s (record t { dev = none })
unfolding mark_removing
removed_from limit t {d} h here idle clear =
    let going : Usage = record t {
      dev = some (record d { removing = 1 });
      removers = t.removers + 1;
    } in
    let same : marked (mark_removing d) t ≡ going = ground (arith, idle, clear) in
    let one : going.removers ≡ suc t.removers = omega arith in
    and_next (and_next h (subst (UsageStep limit t) same (marks here))) (frees one)

-- Where the system opens 2 ^ 32 files or more, a device that as many handles as any multiple of
-- 2 ^ 32 are open on can be removed and freed with them open: `ucnt` has wrapped to 0.
pub handles_wrap :
    (limit n : ℕ) (d : Bdtun)
    → d.removing ≡ 0
    → d.ucnt ≡ 0
    → n ≤ limit
    → n % 2 ^ 32 ≡ 0
    → (t : Usage) × UsageHistory limit (unused d) t × (t.dev ≡ none) × (t.handles ≡ n)
handles_wrap limit n d idle clear less wraps = (
  record { dev = none; opening = 0; handles = n; removers = 0 },
  removed_from limit (with_opens n d) (opens_many limit n d idle clear less) refl idle wraps,
  refl,
  refl,
)

-- While a device is open to its users and counts no handle, it can be removed and freed, and calls of
-- open handlers that were given it and have not taken its lock do not hold that up: as many are still
-- to come, and the section of one, at either end, follows the pointer to the freed device.
pub open_overtaken :
    (e : End) (limit : ℕ) (s : Usage) (d : Bdtun)
    → s.dev ≡ some d
    → d.removing ≡ 0
    → d.ucnt ≡ 0
    → (t : Usage) × UsageHistory limit s t
      × (t.opening ≡ s.opening)
      × (t.handles ≡ s.handles)
      × (open_section e t ≡ oops)
unfolding open_section
open_overtaken e limit s d here idle clear =
    (record s { dev = none }, removed_from limit s created here idle clear, refl, refl, refl)
