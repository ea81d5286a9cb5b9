-- ===== src/Registry/Outcomes.antt =====
-- How each way through bdtun_create_k ends.
use Prim.Native.Nat.{bit_and}
use bdtun.Base.{
  ℕ, ◌+◌, ◌-◌, ◌/◌, ◌%◌, ◌^◌, ◌≤◌, ◌≡◌, ◌⊎◌, inl, inr, refl, Option, Bool, true, false, not, ◌&&◌,
  if◌then◌else◌, [], ◌∷◌, ◌++◌, none, some, arith, Option-cases,
}
use bdtun.Base.Bits.{is_power}
use bdtun.Device.{Errno, ok, err, done, Addr, DevT}
use bdtun.Tunnel.Flags.{Kernel}
use bdtun.Registry.{Name, Node, Registry, find_in, bdtun_find_device}
use bdtun.Registry.Create.{Answers, create_error, create_steps, new_device, bdtun_create_k}

abbrev is_none : {A : Type 0} → Option A → Bool
is_none none = true
is_none (some a) = false

abbrev is_right : {A B : Type 0} → A ⊎ B → Bool
is_right (inl a) = false
is_right (inr b) = true

-- Whether the calls up to the making of the device node succeed, and the allocation of the gendisk
-- then fails.
abbrev pub lacks_disk : Answers → Bool
lacks_disk ans =
    ans.queue_allocated
    && (is_right ans.blkdev
        && (is_right ans.chrdev_region
            && (is_none ans.cdev_error && (ans.node_created && not ans.disk_allocated))))

-- How many device nodes a command that fails leaves behind.
abbrev pub nodes_left : Kernel → Answers → Name → ℕ → ℕ → Registry → ℕ
nodes_left k ans name block_size size s =
    if is_none (create_error k name block_size size s)
    then (if is_none ans.device_memory then 0 else if lacks_disk ans then 1 else 0)
    else 0

create_steps_fails :
    (k : Kernel) (ans : Answers) (name : Name) (block_size size capabilities : ℕ) (new : Addr)
    (s : Registry) {e : Errno} {t : Registry}
    → create_steps k ans name block_size size capabilities new s ≡ done (err e, t)
    → t ≡ record s {
      resources = record s.resources {
        device_nodes = s.resources.device_nodes + (if lacks_disk ans then 1 else 0);
      };
    }
unfolding create_steps
create_steps_fails k ans name block_size size capabilities new s e = ground arith

-- A create command that fails, with any error, leaves the module as it was, the kernel objects that
-- it holds included; but where the calls up to the making of the device node succeeded, and the
-- allocation of the gendisk is what failed, that node is left behind.
pub bdtun_create_k-fails :
    (k : Kernel) (ans : Answers) (name : Name) (block_size size capabilities : ℕ) (s : Registry)
    {e : Errno} {t : Registry}
    → bdtun_create_k k ans name block_size size capabilities s ≡ done (err e, t)
    → t ≡ record s {
      resources = record s.resources {
        device_nodes = s.resources.device_nodes + nodes_left k ans name block_size size s;
      };
    }
unfolding bdtun_create_k
bdtun_create_k-fails k ans name block_size size capabilities s {e} {t} h =
    elim (Option-cases (create_error k name block_size size s)) [
      | inr (x, refused) ↦ ground (arith, refused)
      | inl passed ↦ elim (Option-cases ans.device_memory) [
        | inl out ↦ ground (arith, passed, out)
        | inr (new, got) ↦ ground (
          arith,
          passed,
          got,
          create_steps_fails k ans name block_size size capabilities new s {e = e} {t = t}
              (ground (arith, passed, got)),
        )
      ]
    ]

-- The command's checks, and the device and the kernel objects that it has made.
pub record Created (k : Kernel) (name : Name) (block_size size capabilities : ℕ) (s t : Registry)
    : Type 0 where
  pub node : Node
  pub free : find_in name s.device_list ≡ none
  pub at_least : 512 ≤ block_size
  pub at_most : block_size ≤ 2 ^ k.page_shift
  pub power : (n : ℕ) × (block_size ≡ 2 ^ n)
  pub multiple : size % block_size ≡ 0
  pub listed : t.device_list ≡ s.device_list ++ node ∷ []
  pub queued : t.add_disk_q ≡ s.add_disk_q ++ node.addr ∷ []
  pub named : node.dev.bd_gd.disk_name ≡ name
  pub sized : node.dev.bd_size ≡ size
  pub blocked : node.dev.bd_block_size ≡ block_size
  pub sectored : node.dev.bd_nsectors ≡ size / block_size
  pub able : node.dev.capabilities ≡ capabilities
  pub unused : (node.dev.removing ≡ 0) × (node.dev.ucnt ≡ 0)
  pub empty : (node.dev.incoming_bio_list ≡ []) × (node.dev.pending_bio_list ≡ [])
  pub holds : t.resources ≡ record {
    memory = s.resources.memory + 1;
    queues = s.resources.queues + 1;
    blkdevs = s.resources.blkdevs + 1;
    chrdev_regions = s.resources.chrdev_regions + 1;
    cdevs = s.resources.cdevs + 1;
    device_nodes = s.resources.device_nodes + 1;
    disks = s.resources.disks + 1;
    module_refs = s.resources.module_refs + 1;
  }

create_error-none :
    (k : Kernel) (name : Name) (block_size size : ℕ) (s : Registry)
    → create_error k name block_size size s ≡ none
    → (find_in name s.device_list ≡ none)
      × (512 ≤ block_size)
      × (block_size ≤ 2 ^ k.page_shift)
      × (bit_and block_size (block_size - 1) ≡ 0)
      × (size % block_size ≡ 0)
unfolding create_error bdtun_find_device
create_error-none k name block_size size s h = ground arith

create_steps_ok :
    (k : Kernel) (ans : Answers) (name : Name) (block_size size capabilities : ℕ) (new : Addr)
    (s : Registry) {n : ℕ} {t : Registry}
    → create_error k name block_size size s ≡ none
    → create_steps k ans name block_size size capabilities new s ≡ done (ok n, t)
    → Created k name block_size size capabilities s t
unfolding create_steps new_device
create_steps_ok k ans name block_size size capabilities new s {n} {t} passed h =
    go ans.blkdev refl ans.chrdev_region refl
  where
    go :
        (b : Errno ⊎ ℕ)
        → ans.blkdev ≡ b
        → (c : Errno ⊎ DevT) → ans.chrdev_region ≡ c
        → Created k name block_size size capabilities s t
    go (inl e) p c q = absurd (ground arith)
    go (inr major) p (inl e) q = absurd (ground arith)
    go (inr major) p (inr ch_num) q =
        let checks = create_error-none k name block_size size s passed in
        let made : Node = record {
          addr = new;
          dev = new_device k name block_size size capabilities major ch_num;
        } in
        record {
          node = made;
          free = checks.0;
          at_least = checks.1;
          at_most = checks.2;
          power = is_power block_size (omega (arith, checks.1)) checks.3;
          multiple = checks.4;
          listed = ground arith;
          queued = ground arith;
          named = refl;
          sized = refl;
          blocked = refl;
          sectored = refl;
          able = refl;
          unused = (refl, refl);
          empty = (refl, refl);
          holds = ground arith;
        }

-- Every successful create command has found its name free, the block size between 512 and the page
-- size and a power of two, and the size a multiple of it; it has put one
-- device, idle and with the requested parameters, at the end of the list, queued it for its disk to
-- be added, and taken one more of each kernel object.
pub bdtun_create_k-Created :
    (k : Kernel) (ans : Answers) (name : Name) (block_size size capabilities : ℕ) (s : Registry)
    {n : ℕ} {t : Registry}
    → bdtun_create_k k ans name block_size size capabilities s ≡ done (ok n, t)
    → Created k name block_size size capabilities s t
unfolding bdtun_create_k
bdtun_create_k-Created k ans name block_size size capabilities s {n} {t} h =
    elim (Option-cases (create_error k name block_size size s)) [
      | inr (x, refused) ↦ absurd (ground (arith, refused))
      | inl passed ↦ elim (Option-cases ans.device_memory) [
        | inl out ↦ absurd (ground (arith, passed, out))
        | inr (new, got) ↦
            create_steps_ok k ans name block_size size capabilities new s {n = n} {t = t} passed
              (ground (arith, passed, got))
      ]
    ]
