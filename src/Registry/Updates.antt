-- ===== src/Registry/Updates.antt =====
-- What a lookup finds after a resize or a remove command.
use bdtun.Base.{
  ℕ, ◌/◌, ◌≡◌, ◌≢◌, ◌⊎◌, refl, Option, none, some, inl, inr, arith, ◌==◌, ==_iff, Option-cases,
  Bool-cases, if◌then◌else◌,
}
use mathlib.Core.Option
use bdtun.Device.{Errno, enoent, ebusy, ok, err, Bdtun}
use bdtun.Registry.{Name, Node, Registry, name_eq, find_in, bdtun_find_device}
use bdtun.Registry.Manage.{set_capacity, bdtun_resize_k, bdtun_remove_k}
use bdtun.Registry.Names.{NamesDistinct, name_eq→eq, find_in-remove_in, find_in-change}

-- A device after a resize command, of which `revalidate_disk` answered `revalidated`.
abbrev pub resized : Option Errno → ℕ → Bdtun → Bdtun
resized none size d = record d { bd_size = size; bd_gd = record d.bd_gd { capacity = size / 512 } }
resized (some e) size d = record d { bd_gd = record d.bd_gd { capacity = size / 512 } }

-- A resize command, with any size, sets the capacity of the disk of that name even if
-- revalidate_disk fails, sets bd_size only if it does not, leaves the block size and bd_nsectors as
-- they are, and changes nothing else of what any name leads to, no queued work and no kernel object.
pub bdtun_resize_k-finds :
    (revalidated : Option Errno) (name other : Name) (size : ℕ) (s : Registry)
    → (bdtun_find_device other (bdtun_resize_k revalidated name size s).1
        ≡ Option.map
            (λ d.
              if name_eq name other then record d { dev = resized revalidated size d.dev } else d)
            (bdtun_find_device other s))
      × ((bdtun_resize_k revalidated name size s).1
          ≡ record s { device_list = (bdtun_resize_k revalidated name size s).1.device_list })
unfolding bdtun_resize_k bdtun_find_device
bdtun_resize_k-finds revalidated name other size s =
    elim (Option-cases (find_in name s.device_list)) [
      | inl out ↦ elim (Option-cases (find_in other s.device_list)) [
        | inl missing ↦ ground (arith, out, missing)
        | inr (d, found) ↦ ground (arith, out, found, name_eq→eq name other)
      ]
      | inr (d, found) ↦ elim (Option-cases revalidated) [
        | inl fine ↦ ground (
          arith,
          found,
          fine,
          find_in-change name (λ d. record (set_capacity (size / 512) d) { bd_size = size })
              (λ d. refl) other s.device_list,
        )
        | inr (e, failed) ↦ ground (
          arith,
          found,
          failed,
          find_in-change name (set_capacity (size / 512)) (λ d. refl) other s.device_list,
        )
      ]
    ]

-- If each name stands once in the device list, a remove command either finds the device, neither in
-- use nor being removed, returns 0, and leaves what every other name leads to; or it returns ENOENT
-- for a name without a device or EBUSY for a device that is in use or being removed, and changes
-- nothing.
pub bdtun_remove_k-outcome :
    (name other : Name) (s : Registry)
    → NamesDistinct s.device_list
    → ((d : Node) × (bdtun_find_device name s ≡ some d)
        × (d.dev.removing ≡ 0)
        × (d.dev.ucnt ≡ 0)
        × ((bdtun_remove_k name s).0 ≡ ok 0)
        × (bdtun_find_device other (bdtun_remove_k name s).1
            ≡ (if name_eq name other then none else bdtun_find_device other s)))
      ⊎ (((bdtun_find_device name s ≡ none) × (bdtun_remove_k name s ≡ (err enoent, s)))
          ⊎ ((d : Node) × (bdtun_find_device name s ≡ some d)
              × ((d.dev.removing ≢ 0) ⊎ (d.dev.ucnt ≢ 0))
              × (bdtun_remove_k name s ≡ (err ebusy, s))))
unfolding bdtun_remove_k bdtun_find_device
bdtun_remove_k-outcome name other s distinct = elim (Option-cases (find_in name s.device_list)) [
  | inl out ↦ inr (inl (out, ground (arith, out)))
  | inr (d, found) ↦ elim (Bool-cases (d.dev.removing == 0)) [
    | inr leaving ↦ inr (inr (d, found, inl (ground arith), ground (arith, found)))
    | inl staying ↦ elim (Bool-cases (d.dev.ucnt == 0)) [
      | inr used ↦ inr (inr (d, found, inr (ground arith), ground (arith, found)))
      | inl unused ↦ inl (
        d,
        found,
        (==_iff d.dev.removing 0).0 staying,
        (==_iff d.dev.ucnt 0).0 unused,
        ground (arith, found),
        ground (arith, found, find_in-remove_in name other s.device_list distinct),
      )
    ]
  ]
]
