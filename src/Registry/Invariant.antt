-- ===== src/Registry/Invariant.antt =====
-- What holds of the device list and of the kernel objects behind it, whatever is commanded.
use bdtun.Base.{
  ℕ, ◌/◌, ◌^◌, ◌≤◌, ◌≡◌, inl, inr, refl, List, [], ◌∷◌, ◌++◌, Option, arith, length, length-append,
  Option-cases,
}
use bdtun.Device.{Errno, Ret, ok, err, done, Addr, Bdtun}
use bdtun.Tunnel.Flags.{Kernel}
use bdtun.Registry.{Name, Resources, Node, Registry, find_in, bdtun_find_device}
use bdtun.Registry.Create.{Answers, create_error, create_steps, bdtun_create_k}
use bdtun.Registry.Manage.{
  change, remove_in, set_capacity, bdtun_resize_k, bdtun_remove_dev, bdtun_remove_k,
}
use bdtun.Registry.Names.{
  NamesDistinct, NamesDistinct-append, remove_in-NamesDistinct, change-NamesDistinct, length-change,
  length-remove_in,
}
use bdtun.Registry.Outcomes.{Created, bdtun_create_k-Created}

-- `n` of each kernel object, and `n` device nodes at least.
pub record Holds (n : ℕ) (r : Resources) : Type 0 where
  pub memory : r.memory ≡ n
  pub queues : r.queues ≡ n
  pub blkdevs : r.blkdevs ≡ n
  pub chrdev_regions : r.chrdev_regions ≡ n
  pub cdevs : r.cdevs ≡ n
  pub disks : r.disks ≡ n
  pub module_refs : r.module_refs ≡ n
  pub device_nodes : n ≤ r.device_nodes

-- The block size of a device is at least 512 and a power of two.
abbrev pub BlocksFit : List Node → Type 0
BlocksFit [] = Unit {0}
BlocksFit (d ∷ ds) =
    (512 ≤ d.dev.bd_block_size) × ((n : ℕ) × (d.dev.bd_block_size ≡ 2 ^ n)) × BlocksFit ds

pub record IsValid (s : Registry) : Type 0 where
  pub distinct : NamesDistinct s.device_list
  pub holds : Holds (length s.device_list) s.resources
  pub blocks : BlocksFit s.device_list

BlocksFit-append :
    (ds : List Node) (d : Node) → BlocksFit ds → BlocksFit (d ∷ []) → BlocksFit (ds ++ d ∷ [])
BlocksFit-append [] d b c = c
BlocksFit-append (x ∷ ds) d b c = (b.0, b.1, BlocksFit-append ds d b.2 c)

BlocksFit-remove_in : (name : Name) (ds : List Node) → BlocksFit ds → BlocksFit (remove_in name ds)
unfolding remove_in
BlocksFit-remove_in name [] b = tt
BlocksFit-remove_in name (x ∷ ds) b = ground (arith, BlocksFit-remove_in name ds b.2)

BlocksFit-change :
    (name : Name) (f : Bdtun → Bdtun) (ds : List Node)
    → ((d : Bdtun) → (f d).bd_block_size ≡ d.bd_block_size)
    → BlocksFit ds
    → BlocksFit (change name f ds)
unfolding change
BlocksFit-change name f [] keeps b = tt
BlocksFit-change name f (x ∷ ds) keeps b =
    ground (arith, keeps x.dev, BlocksFit-change name f ds keeps b.2)

create_steps_kept :
    (k : Kernel) (ans : Answers) (name : Name) (block_size size capabilities : ℕ) (new : Addr)
    (s : Registry) {e : Errno} {t : Registry}
    → create_steps k ans name block_size size capabilities new s ≡ done (err e, t)
    → (t.device_list ≡ s.device_list)
      × (t.resources ≡ record s.resources { device_nodes = t.resources.device_nodes })
      × (s.resources.device_nodes ≤ t.resources.device_nodes)
unfolding create_steps
create_steps_kept k ans name block_size size capabilities new s e = ground arith

bdtun_create_k-kept :
    (k : Kernel) (ans : Answers) (name : Name) (block_size size capabilities : ℕ) (s : Registry)
    {e : Errno} {t : Registry}
    → bdtun_create_k k ans name block_size size capabilities s ≡ done (err e, t)
    → (t.device_list ≡ s.device_list)
      × (t.resources ≡ record s.resources { device_nodes = t.resources.device_nodes })
      × (s.resources.device_nodes ≤ t.resources.device_nodes)
unfolding bdtun_create_k
bdtun_create_k-kept k ans name block_size size capabilities s {e} {t} h =
    elim (Option-cases (create_error k name block_size size s)) [
      | inr (x, refused) ↦ ground (arith, refused)
      | inl passed ↦ elim (Option-cases ans.device_memory) [
        | inl out ↦ ground (arith, passed, out)
        | inr (new, got) ↦
            create_steps_kept k ans name block_size size capabilities new s {e = e} {t = t}
              (ground (arith, passed, got))
      ]
    ]

Created-IsValid :
    (k : Kernel) (name : Name) (block_size size capabilities : ℕ) (s t : Registry)
    → Created k name block_size size capabilities s t
    → IsValid s
    → IsValid t
Created-IsValid k name block_size size capabilities s t c v = record {
  distinct = rw c.listed (NamesDistinct-append s.device_list c.node v.distinct (rw c.named c.free));
  holds = ground (arith, c.holds, c.listed, v.holds, length-append s.device_list (c.node ∷ []));
  blocks = rw c.listed (
      BlocksFit-append s.device_list c.node v.blocks
        (ground (arith, c.blocked, c.at_least), rw c.blocked c.power, tt));
}

pub bdtun_create_k-IsValid :
    (k : Kernel) (ans : Answers) (name : Name) (block_size size capabilities : ℕ) (s : Registry)
    {r : Ret} {t : Registry}
    → bdtun_create_k k ans name block_size size capabilities s ≡ done (r, t)
    → IsValid s
    → IsValid t
bdtun_create_k-IsValid k ans name block_size size capabilities s {r = ok n} {t} h v =
    Created-IsValid k name block_size size capabilities s t
      (bdtun_create_k-Created k ans name block_size size capabilities s h) v
bdtun_create_k-IsValid k ans name block_size size capabilities s {r = err e} {t} h v =
    let (list, same, more) = bdtun_create_k-kept k ans name block_size size capabilities s h in
    record {
      distinct = rw list v.distinct;
      holds = ground (arith, list, same, more, v.holds);
      blocks = rw list v.blocks;
    }

pub bdtun_resize_k-IsValid :
    (revalidated : Option Errno) (name : Name) (size : ℕ) (s : Registry)
    → IsValid s
    → IsValid (bdtun_resize_k revalidated name size s).1
unfolding bdtun_resize_k
bdtun_resize_k-IsValid revalidated name size s v = elim (Option-cases (bdtun_find_device name s)) [
  | inl out ↦ rw (out, bdtun_resize_k) v
  | inr (d, found) ↦ elim (Option-cases revalidated) [
    | inl fine ↦
        rw (found, bdtun_resize_k, fine)
          (changed (λ d. record (set_capacity (size / 512) d) { bd_size = size }) (λ d. refl)
            (λ d. refl))
    | inr (e, failed) ↦
        rw (found, bdtun_resize_k, failed)
          (changed (set_capacity (size / 512)) (λ d. refl) (λ d. refl))
  ]
]
  where
    changed :
        (f : Bdtun → Bdtun)
        → ((d : Bdtun) → (f d).bd_gd.disk_name ≡ d.bd_gd.disk_name)
        → ((d : Bdtun) → (f d).bd_block_size ≡ d.bd_block_size)
        → IsValid (record s { device_list = change name f s.device_list })
    changed f named blocked = record {
      distinct = change-NamesDistinct name f named s.device_list v.distinct;
      holds = rw (length-change name f named s.device_list) v.holds;
      blocks = BlocksFit-change name f s.device_list blocked v.blocks;
    }

pub bdtun_remove_k-IsValid :
    (name : Name) (s : Registry) → IsValid s → IsValid (bdtun_remove_k name s).1
unfolding bdtun_remove_k bdtun_remove_dev bdtun_find_device
bdtun_remove_k-IsValid name s v = elim (Option-cases (find_in name s.device_list)) [
  | inl out ↦ rw (out, bdtun_remove_k) v
  | inr (d, found) ↦ record {
    distinct =
        ground (arith, found, v.distinct, remove_in-NamesDistinct name s.device_list v.distinct);
    holds = ground (arith, found, v.holds, length-remove_in name s.device_list d found);
    blocks = ground (arith, found, v.blocks, BlocksFit-remove_in name s.device_list v.blocks);
  }
]
