-- ===== src/Registry/Usage.antt =====
-- The opens of a device pair against its removal (kernel/bdtun.c: bdtun_open, bdtunch_open,
-- bdtun_release, bdtunch_release and bdtun_remove_k), one section under ru_lock after the other.
use bdtun.Base.{ℕ, suc, ◌+◌, ◌<◌, ◌≡◌, ◌⊎◌, Option, none, some}
use bdtun.Device.{Errno, enoent, ebusy, Ret, ok, err, Run, done, oops, Bdtun}
use bdtun.Block.{bdtun_open, bdtun_release}
use bdtun.Tunnel.{bdtunch_open, bdtunch_release}
use bdtun.Registry.Manage.{mark_removing}

-- The device until it is freed. `opening`: calls of an open handler that have the device and not yet
-- its lock. `handles`: opens that succeeded and were not closed. `removers`: calls of bdtun_remove_k
-- that have marked the device and not yet freed it.
pub record Usage : Type 0 where
  pub dev : Option Bdtun
  pub opening : ℕ
  pub handles : ℕ
  pub removers : ℕ

-- The two ends of the pair.
pub data End : Type 0 where
  disk tunnel : End

abbrev pub open_at : End → Bdtun → Ret × Bdtun
open_at disk = bdtun_open
open_at tunnel = bdtunch_open

-- How an open is refused.
abbrev pub refusal : End → Errno
refusal disk = enoent
refusal tunnel = ebusy

abbrev pub release_at : End → Bdtun → Bdtun
release_at disk = bdtun_release
release_at tunnel = bdtunch_release

-- An open that succeeds makes a handle, and a marking that succeeds a remover.
abbrev pub opened : Ret × Bdtun → Usage → Usage
opened (ok n, d) s = record s { dev = some d; handles = s.handles + 1 }
opened (err e, d) s = record s { dev = some d }

abbrev pub marked : Ret × Bdtun → Usage → Usage
marked (ok n, d) s = record s { dev = some d; removers = s.removers + 1 }
marked (err e, d) s = record s { dev = some d }

-- The section of an open handler. It takes the lock of the device that its call was given.
unfoldable pub open_section : End → Usage → Run Usage
open_section e s = elim s.dev [ none ↦ oops | some d ↦ done (opened (open_at e d) s) ]

-- One section. The system opens no more than `limit` files.
pub data UsageStep (limit : ℕ) (s : Usage) : Usage → Type 0 where
  arrives : {d : Bdtun} → s.dev ≡ some d → UsageStep limit s (record s { opening = s.opening + 1 })
  opens :
      (e : End) {n : ℕ} {t : Usage}
      → s.opening ≡ suc n
      → s.handles < limit
      → open_section e (record s { opening = n }) ≡ done t
      → UsageStep limit s t
  closes :
      (e : End) {d : Bdtun} {n : ℕ}
      → s.dev ≡ some d
      → s.handles ≡ suc n
      → UsageStep limit s (record s { dev = some (release_at e d); handles = n })
  marks : {d : Bdtun} → s.dev ≡ some d → UsageStep limit s (marked (mark_removing d) s)
  frees : {n : ℕ} → s.removers ≡ suc n → UsageStep limit s (record s { dev = none; removers = n })

pub data UsageHistory (limit : ℕ) (s : Usage) : Usage → Type 0 where
  created : UsageHistory limit s s
  and_next : {t u : Usage} → UsageHistory limit s t → UsageStep limit t u → UsageHistory limit s u

-- A device as it is created.
abbrev pub IsUnused : Usage → Type 0
IsUnused s =
    (d : Bdtun) × (s.dev ≡ some d)
    × (d.removing ≡ 0)
    × (d.ucnt ≡ 0)
    × (s.opening ≡ 0)
    × (s.handles ≡ 0)
    × (s.removers ≡ 0)

-- Either the device can be opened and its count is that of the handles; or it is being removed, by
-- one thread, or freed, and there is no handle.
abbrev pub Guarded : Option Bdtun → ℕ → ℕ → Type 0
Guarded none handles removers = (handles ≡ 0) × (removers ≡ 0)
Guarded (some d) handles removers =
    ((d.removing ≡ 0) × (d.ucnt ≡ handles) × (removers ≡ 0))
    ⊎ ((d.removing ≡ 1) × (handles ≡ 0) × (removers ≡ 1))

abbrev pub IsGuarded : Usage → Type 0
IsGuarded s = Guarded s.dev s.handles s.removers
