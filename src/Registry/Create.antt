-- ===== src/Registry/Create.antt =====
-- Making a device pair (kernel/bdtun.c: bdtun_create_k, bdtun_do_add_disk).
use Prim.Native.Nat.{bit_and, bit_or}
use bdtun.Base.{
  ℕ, ◌+◌, ◌-◌, ◌/◌, ◌%◌, ◌^◌, Bool, true, false, not, ◌||◌, List, [], ◌∷◌, ◌++◌, Option, none, some,
  ◌⊎◌, inl, inr, ◌==◌, ltb, leb, if◌then◌else◌, length,
}
use bdtun.Header.{bdtun_flush, bdtun_fua, bdtun_discard}
use bdtun.Device.{
  Errno, eexist, einval, enomem, Ret, ok, err, Run, done, oops, Addr, DevT, PerDir, DiskStats,
  RequestQueue, Bdtun,
}
use bdtun.Block.{kernel_sector_size}
use bdtun.Tunnel.Flags.{Kernel, Flag}
use bdtun.Registry.{Name, Resources, Node, Registry, bdtun_find_device}

-- What the kernel answers `bdtun_create_k`, in the order of the calls.
pub record Answers : Type 0 where
  pub device_memory : Option Addr
  pub queue_allocated : Bool
  pub blkdev : Errno ⊎ ℕ
  pub chrdev_region : Errno ⊎ DevT
  pub cdev_error : Option Errno
  pub node_created : Bool
  pub disk_allocated : Bool
  pub work_memory : Bool

-- The tests that come before anything is allocated.
unfoldable pub create_error : Kernel → Name → ℕ → ℕ → Registry → Option Errno
unfolding bdtun_find_device
create_error k name block_size size s = elim (bdtun_find_device name s) [
  | some d ↦ some eexist
  | none ↦
      if ltb block_size 512 || ltb (2 ^ k.page_shift) block_size
      then some einval
      else (if not (bit_and block_size (block_size - 1) == 0)
          then some einval
          else (if not (size % block_size == 0) then some einval else none))
]

-- The labels that undo what has been done, in the order in which they fall through.
unfoldable pub out_kfree : Resources → Resources
out_kfree r = record r { memory = r.memory - 1 }

unfoldable pub out_cleanup_queue : Resources → Resources
unfolding out_kfree
out_cleanup_queue r = out_kfree (record r { queues = r.queues - 1 })

unfoldable pub out_unregister_blkdev : Resources → Resources
unfolding out_cleanup_queue
out_unregister_blkdev r = out_cleanup_queue (record r { blkdevs = r.blkdevs - 1 })

unfoldable pub out_unregister_chrdev_region : Resources → Resources
unfolding out_unregister_blkdev
out_unregister_chrdev_region r =
    out_unregister_blkdev (record r { chrdev_regions = r.chrdev_regions - 1 })

unfoldable pub out_cdev_del : Resources → Resources
unfolding out_unregister_chrdev_region
out_cdev_del r = out_unregister_chrdev_region (record r { cdevs = r.cdevs - 1 })

abbrev pub no_stats : DiskStats
no_stats =
    let zeros : PerDir = record { reads = 0; writes = 0 } in
    record { ios = zeros; sectors = zeros; ticks = zeros; in_flight = zeros }

-- A bit of `capabilities`.
abbrev pub capable : ℕ → ℕ → Bool
capable capabilities bit = not (bit_and capabilities bit == 0)

unfoldable pub request_queue : Kernel → ℕ → ℕ → RequestQueue
request_queue k block_size capabilities =
    let flush = if capable capabilities bdtun_flush then k.req Flag.flush else 0 in
    let fua = if capable capabilities bdtun_fua then k.req Flag.fua else 0 in
    record {
      logical_block_size = block_size;
      flush_flags = bit_or flush fua;
      discard = capable capabilities bdtun_discard;
    }

unfoldable pub new_device : Kernel → Name → ℕ → ℕ → ℕ → ℕ → DevT → Bdtun
unfolding request_queue
new_device k name block_size size capabilities major ch_num = record {
  ch_num = ch_num;
  incoming_bio_list = [];
  pending_bio_list = [];
  data_current_bio = 0;
  removing = 0;
  ucnt = 0;
  add_disk_finished = 0;
  bd_size = size;
  bd_block_size = block_size;
  bd_nsectors = size / block_size;
  capabilities = capabilities;
  bd_gd = record {
    major = major;
    first_minor = 0;
    disk_name = name;
    capacity = size / kernel_sector_size;
    queue = request_queue k block_size capabilities;
    part0 = no_stats;
  };
}

-- The steps from the first allocation on. `r` is what the module holds, `r₁` with the device's
-- memory, and so on.
unfoldable pub create_steps :
    Kernel → Answers → Name → ℕ → ℕ → ℕ → Addr → Registry → Run (Ret × Registry)
unfolding out_cdev_del new_device
create_steps k ans name block_size size capabilities new s =
    let r = s.resources in
    let r₁ = record r { memory = r.memory + 1 } in
    if not ans.queue_allocated
    then done (err enomem, record s { resources = out_kfree r₁ })
    else (let r₂ = record r₁ { queues = r₁.queues + 1 } in
        elim ans.blkdev [
          | inl e ↦ done (err e, record s { resources = out_cleanup_queue r₂ })
          | inr major ↦
              let r₃ = record r₂ { blkdevs = r₂.blkdevs + 1 } in
              elim ans.chrdev_region [
                | inl e ↦ done (err e, record s { resources = out_unregister_blkdev r₃ })
                | inr ch_num ↦
                    let r₄ = record r₃ { chrdev_regions = r₃.chrdev_regions + 1 } in
                    elim ans.cdev_error [
                      | some e ↦
                          done (err e, record s { resources = out_unregister_chrdev_region r₄ })
                      | none ↦
                          let r₅ = record r₄ { cdevs = r₄.cdevs + 1 } in
                          if not ans.node_created
                          then done (err enomem, record s { resources = out_cdev_del r₅ })
                          else (let r₆ = record r₅ { device_nodes = r₅.device_nodes + 1 } in
                              if not ans.disk_allocated
                              then done (err enomem, record s { resources = out_cdev_del r₆ })
                              else (if leb k.disk_name_len (length name) || not ans.work_memory
                                  then oops
                                  else (let r₇ = record r₆ { disks = r₆.disks + 1 } in
                                      let d =
                                        new_device k name block_size size capabilities major
                                          ch_num in
                                      done (
                                        ok 0,
                                        record s {
                                          device_list =
                                              s.device_list ++ record { addr = new; dev = d } ∷ [];
                                          add_disk_q = s.add_disk_q ++ new ∷ [];
                                          resources = record r₇ {
                                            module_refs = r₇.module_refs + 1;
                                          };
                                        },
                                      ))))
                    ]
              ]
        ])

-- `strncpy` leaves no terminator for `strcat` where the name fills BDEVNAME_SIZE. `INIT_WORK` writes
-- through the pointer to the work, which is not checked.
unfoldable pub bdtun_create_k :
    Kernel → Answers → Name → ℕ → ℕ → ℕ → Registry → Run (Ret × Registry)
unfolding create_error create_steps
bdtun_create_k k ans name block_size size capabilities s =
    elim (create_error k name block_size size s) [
      | some e ↦ done (err e, s)
      | none ↦ if leb k.bdevname_size (length name) then oops else elim ans.device_memory [
        | none ↦ done (err enomem, s)
        | some new ↦ create_steps k ans name block_size size capabilities new s
      ]
    ]

unfoldable pub set_added : Addr → List Node → List Node
set_added a [] = []
set_added a (d ∷ ds) =
    if d.addr == a
    then record d { dev = record d.dev { add_disk_finished = 1 } } ∷ ds
    else d ∷ set_added a ds

unfoldable pub lives_at : Addr → List Node → Bool
lives_at a [] = false
lives_at a (d ∷ ds) = if d.addr == a then true else lives_at a ds

-- The work queue runs its first work; with nothing queued it does nothing.
unfoldable pub bdtun_do_add_disk : Registry → Run Registry
unfolding set_added lives_at
bdtun_do_add_disk s = elim s.add_disk_q [
  | [] ↦ done s
  | a ∷ works ↦
      if lives_at a s.device_list
      then done (record s { device_list = set_added a s.device_list; add_disk_q = works })
      else oops
]
