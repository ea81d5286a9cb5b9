-- ===== src/Device.antt =====
-- The data of kernel/bdtun.c: a device, the bios that it holds, and the memory that they lie in.
-- What the handlers return is a count or an error; a run may also oops, when the kernel follows a
-- pointer that leads to no live object.
use bdtun.Base.{ℕ, ◌≡◌, refl, Bool, List, [], ◌∷◌, Option, ◌==◌, if◌then◌else◌}

pub data Errno : Type 0 where
  eio eintr enoent ebusy eexist einval enomem enxio efault : Errno
  -- An error of the kernel functions that the module calls, by its number.
  other : ℕ → Errno

-- A non-negative result, or a negated error number.
pub data Ret : Type 0 where
  ok : ℕ → Ret
  err : Errno → Ret

pub data Run (A : Type 0) : Type 0 where
  done : A → Run A
  oops : Run A

infixl 5 ◌>>=◌
abbrev pub ◌>>=◌ : {A B : Type 0} → Run A → (A → Run B) → Run B
done a >>= f = f a
oops >>= f = oops

-- `bio_data_dir`.
pub data Dir : Type 0 where
  read write : Dir

-- `struct bio_vec`: the page is its frame number and its bytes.
pub record BioVec : Type 0 where
  pub pfn : ℕ
  pub page : List ℕ
  pub bv_offset : ℕ
  pub bv_len : ℕ

-- What the module reads of a `struct bio`. `segments` are the vectors that `bio_for_each_segment`
-- visits.
pub record Bio : Type 0 where
  pub bio_id : ℕ
  pub bi_rw : ℕ
  pub data_dir : Dir
  pub bi_sector : ℕ
  pub bi_size : ℕ
  pub bi_vcnt : ℕ
  pub segments : List BioVec

-- An address; 0 is NULL.
abbrev pub Addr : Type 0
Addr = ℕ

-- `struct bdtun_bio_list_entry`. Its list node is its first member, so `list_entry` keeps the
-- address.
pub record Entry : Type 0 where
  pub bio : Bio
  pub start_time : ℕ

-- A counter for each direction.
pub record PerDir : Type 0 where
  pub reads : ℕ
  pub writes : ℕ

abbrev pub at_dir : PerDir → Dir → ℕ
at_dir c read = c.reads
at_dir c write = c.writes

abbrev pub on_dir : (ℕ → ℕ) → Dir → PerDir → PerDir
on_dir f read c = record c { reads = f c.reads }
on_dir f write c = record c { writes = f c.writes }

-- The statistics of the disk's whole partition, `part0`.
pub record DiskStats : Type 0 where
  pub ios : PerDir
  pub sectors : PerDir
  pub ticks : PerDir
  pub in_flight : PerDir

-- What the module sets in a disk's `struct request_queue`.
pub record RequestQueue : Type 0 where
  pub logical_block_size : ℕ
  pub flush_flags : ℕ
  pub discard : Bool

pub record Gendisk : Type 0 where
  pub major : ℕ
  pub first_minor : ℕ
  pub disk_name : List ℕ
  pub capacity : ℕ
  pub queue : RequestQueue
  pub part0 : DiskStats

-- A `dev_t`, by its parts.
pub record DevT : Type 0 where
  pub dev_major : ℕ
  pub dev_minor : ℕ

-- `struct bdtun`, less its locks, wait queue and list node. `removing` and `ucnt` are 32-bit
-- patterns.
pub record Bdtun : Type 0 where
  pub ch_num : DevT
  pub incoming_bio_list : List Addr
  pub pending_bio_list : List Addr
  pub data_current_bio : Addr
  pub removing : ℕ
  pub ucnt : ℕ
  pub add_disk_finished : ℕ
  pub bd_size : ℕ
  pub bd_block_size : ℕ
  pub bd_nsectors : ℕ
  pub capabilities : ℕ
  pub bd_gd : Gendisk

abbrev pub Heap : Type 0
Heap = Addr → Option Entry

-- `ended` holds the bios that `bio_endio` was called on, with its error (`none` for 0), latest
-- first.
pub record Machine : Type 0 where
  pub dev : Bdtun
  pub heap : Heap
  pub ended : List (Bio × Option Errno)

unfoldable pub update : Heap → Addr → Option Entry → Heap
update h a e b = if a == b then e else h b

-- `list_del`: the node leaves the list that it is on.
unfoldable pub unlink : Addr → List Addr → List Addr
unlink a [] = []
unlink a (b ∷ bs) = if a == b then bs else b ∷ unlink a bs

-- A run that is done went through each of its parts.
pub >>=-eq-done :
    {A B : Type 0} (m : Run A) (f : A → Run B) {b : B}
    → (m >>= f) ≡ done b
    → (a : A) × (m ≡ done a) × (f a ≡ done b)
>>=-eq-done (done a) f h = (a, refl, h)
>>=-eq-done oops f h = cc
