-- ===== src/Registry/Manage.antt =====
-- Resizing, removing and describing a device pair (kernel/bdtun.c: bdtun_resize_k,
-- bdtun_remove_dev, bdtun_remove_k, bdtun_info_k).
use bdtun.Base.{
  ℕ, ◌-◌, ◌/◌, not, List, [], ◌∷◌, Option, none, some, ◌⊎◌, inl, inr, ◌==◌, if◌then◌else◌,
}
use bdtun.Header.{BdtunInfo}
use bdtun.Device.{Errno, enoent, ebusy, Ret, ok, err, Bdtun}
use bdtun.Block.{kernel_sector_size}
use bdtun.Registry.{Name, Resources, Node, Registry, name_eq, bdtun_find_device}

-- A change of the first device of that name, which is the one that is found.
unfoldable pub change : Name → (Bdtun → Bdtun) → List Node → List Node
unfolding name_eq
change name f [] = []
change name f (d ∷ ds) =
    if name_eq d.dev.bd_gd.disk_name name
    then record d { dev = f d.dev } ∷ ds
    else d ∷ change name f ds

-- `list_del` of that device.
unfoldable pub remove_in : Name → List Node → List Node
unfolding name_eq
remove_in name [] = []
remove_in name (d ∷ ds) = if name_eq d.dev.bd_gd.disk_name name then ds else d ∷ remove_in name ds

abbrev pub set_capacity : ℕ → Bdtun → Bdtun
set_capacity n d = record d { bd_gd = record d.bd_gd { capacity = n } }

-- `revalidated` is what `revalidate_disk` returns.
unfoldable pub bdtun_resize_k : Option Errno → Name → ℕ → Registry → Ret × Registry
unfolding bdtun_find_device change
bdtun_resize_k revalidated name size s = elim (bdtun_find_device name s) [
  | none ↦ (err enoent, s)
  | some d ↦ elim revalidated [
    | some e ↦ (
      err e,
      record s {
        device_list = change name (set_capacity (size / kernel_sector_size)) s.device_list;
      },
    )
    | none ↦ (
      ok 0,
      record s {
        device_list =
            change name
              (λ d. record (set_capacity (size / kernel_sector_size) d) { bd_size = size })
              s.device_list;
      },
    )
  ]
]

-- What is given back.
unfoldable pub bdtun_remove_dev : Resources → Resources
bdtun_remove_dev r = record r {
  chrdev_regions = r.chrdev_regions - 1;
  cdevs = r.cdevs - 1;
  device_nodes = r.device_nodes - 1;
  blkdevs = r.blkdevs - 1;
  queues = r.queues - 1;
  disks = r.disks - 1;
  module_refs = r.module_refs - 1;
}

-- The section under `ru_lock`: a device that is not in use is marked as being removed.
unfoldable pub mark_removing : Bdtun → Ret × Bdtun
mark_removing d =
    if not (d.removing == 0)
    then (err ebusy, d)
    else (if not (d.ucnt == 0) then (err ebusy, d) else (ok 0, record d { removing = 1 }))

-- A device that was marked is removed and freed.
unfoldable pub bdtun_remove_k : Name → Registry → Ret × Registry
unfolding bdtun_find_device mark_removing remove_in bdtun_remove_dev
bdtun_remove_k name s = elim (bdtun_find_device name s) [
  | none ↦ (err enoent, s)
  | some d ↦ elim (mark_removing d.dev).0 [
    | err e ↦ (err e, s)
    | ok n ↦ (
      ok n,
      record s {
        device_list = remove_in name s.device_list;
        resources = record (bdtun_remove_dev s.resources) { memory = s.resources.memory - 1 };
      },
    )
  ]
]

unfoldable pub info_of : Bdtun → BdtunInfo
info_of d = record {
  bd_size = d.bd_size;
  bd_block_size = d.bd_block_size;
  bd_major = d.bd_gd.major;
  bd_minor = d.bd_gd.first_minor;
  ch_major = d.ch_num.dev_major;
  ch_minor = d.ch_num.dev_minor;
  capabilities = d.capabilities;
}

unfoldable pub bdtun_info_k : Name → Registry → Errno ⊎ BdtunInfo
unfolding bdtun_find_device info_of
bdtun_info_k name s = elim (bdtun_find_device name s) [
  | none ↦ inl enoent
  | some d ↦ inr (info_of d.dev)
]
