-- ===== src/Registry.antt =====
-- The devices that the module manages (kernel/bdtun.c: device_list, add_disk_q, bdtun_find_device).
-- The commands on them are in the modules below; what the kernel answers a command is an argument.
pub mod Create
pub mod Manage
pub mod Listing
pub mod Names
pub mod Outcomes
pub mod Invariant
pub mod Lifecycle
pub mod Updates
pub mod Pages
pub mod Usage
pub mod Removal
pub mod Races
use Prim.Native.Nat.{bit_and, bit_or}
use bdtun.Base.{
  ℕ, zero, suc, ◌+◌, ◌-◌, ◌/◌, ◌%◌, ◌^◌, Bool, true, false, not, ◌&&◌, ◌||◌, List, [], ◌∷◌, ◌++◌,
  Option, none, some, ◌⊎◌, inl, inr, ◌==◌, ltb, leb, if◌then◌else◌, length,
}
use bdtun.Header.{BdtunInfo, bdtun_flush, bdtun_fua, bdtun_discard}
use bdtun.Device.{
  Errno, enoent, ebusy, eexist, einval, enomem, Ret, ok, err, Run, done, oops, ◌>>=◌, Addr, DevT,
  DiskStats, RequestQueue, Gendisk, Bdtun,
}
use bdtun.Block.{kernel_sector_size}
use bdtun.Tunnel.Flags.{Kernel, Flag}

-- A name, without its terminating 0.
abbrev pub Name : Type 0
Name = List ℕ

-- `strcmp(…) == 0`.
unfoldable pub name_eq : Name → Name → Bool
name_eq [] [] = true
name_eq [] (b ∷ bs) = false
name_eq (a ∷ as') [] = false
name_eq (a ∷ as') (b ∷ bs) = (a == b) && name_eq as' bs

-- How many of each kernel object the module has and has not given back.
pub record Resources : Type 0 where
  pub memory : ℕ
  pub queues : ℕ
  pub blkdevs : ℕ
  pub chrdev_regions : ℕ
  pub cdevs : ℕ
  pub device_nodes : ℕ
  pub disks : ℕ
  pub module_refs : ℕ

-- A device with its address.
pub record Node : Type 0 where
  pub addr : Addr
  pub dev : Bdtun

-- `add_disk_q` holds the devices that queued work points to, first in first out.
pub record Registry : Type 0 where
  pub device_list : List Node
  pub add_disk_q : List Addr
  pub resources : Resources

unfoldable pub find_in : Name → List Node → Option Node
find_in name [] = none
find_in name (d ∷ ds) = if name_eq d.dev.bd_gd.disk_name name then some d else find_in name ds

unfoldable pub bdtun_find_device : Name → Registry → Option Node
unfolding find_in name_eq
bdtun_find_device name s = find_in name s.device_list
