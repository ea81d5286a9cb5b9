-- ===== src/Tests/Samples.antt =====
-- A kernel, a disk, two bios, and machines that hold them.
use bdtun.Base.{
  refl, ==_iff, arith, ℕ, ◌/◌, not, ◌^◌, true, List, [], ◌∷◌, none, some, inr, ◌==◌, if◌then◌else◌,
  replicate,
}
use bdtun.Device.{Dir, BioVec, Bio, PerDir, Bdtun, Entry, Machine}
use bdtun.System.Valid.{IsValid}
use bdtun.Tunnel.Flags.{Kernel, bit_number}
use bdtun.Registry.{Resources, Registry}
use bdtun.Registry.Create.{Answers}
use bdtun.Control.{Control, Env}

-- Its flags stand one bit lower than the module's.
abbrev pub linux : Kernel
linux = record {
  req = λ f. 2 ^ (bit_number f) / 2;
  since_3_2 = true;
  page_shift = 12;
  bdevname_size = 32;
  disk_name_len = 32;
}

abbrev pub zeros : PerDir
zeros = record { reads = 0; writes = 0 }

-- "vda"
abbrev pub vda : List ℕ
vda = 118 ∷ 100 ∷ 97 ∷ []

abbrev pub idle_disk : Bdtun
idle_disk = record {
  ch_num = record { dev_major = 250; dev_minor = 0 };
  incoming_bio_list = [];
  pending_bio_list = [];
  data_current_bio = 0;
  removing = 0;
  ucnt = 0;
  add_disk_finished = 0;
  bd_size = 8192;
  bd_block_size = 512;
  bd_nsectors = 16;
  capabilities = 0;
  bd_gd = record {
    major = 251;
    first_minor = 0;
    disk_name = vda;
    capacity = 16;
    queue = record { logical_block_size = 512; flush_flags = 0; discard = not true };
    part0 = record { ios = zeros; sectors = zeros; ticks = zeros; in_flight = zeros };
  };
}

abbrev pub segment : ℕ → BioVec
segment byte = record { pfn = 7; page = replicate 16 byte; bv_offset = 3; bv_len = 10 }

-- A read of ten bytes, and a write.
abbrev pub read_bio : Bio
read_bio = record {
  bio_id = 1;
  bi_rw = 0;
  data_dir = Dir.read;
  bi_sector = 4;
  bi_size = 10;
  bi_vcnt = 1;
  segments = segment 0 ∷ [];
}

abbrev pub write_bio : Bio
write_bio = record read_bio {
  bio_id = 2;
  bi_rw = 1;
  data_dir = Dir.write;
  segments = segment 9 ∷ [];
}

abbrev pub idle : Machine
idle = record { dev = idle_disk; heap = λ a. none; ended = [] }

abbrev pub entry_of : Bio → Entry
entry_of bio = record { bio = bio; start_time = 5 }

-- The bio waits at address 64, which is also the current one.
abbrev pub waiting : Bio → Machine
waiting bio = record {
  dev = record idle_disk { incoming_bio_list = 64 ∷ []; data_current_bio = 64 };
  heap = λ a. if 64 == a then some (entry_of bio) else none;
  ended = [];
}

pub waiting-IsValid : (bio : Bio) → IsValid (waiting bio)
waiting-IsValid bio = record {
  listed = λ a. ground (arith, ==_iff 64 a, ==_iff a 64);
  no_null = refl;
}

abbrev pub nothing_held : Resources
nothing_held = record {
  memory = 0;
  queues = 0;
  blkdevs = 0;
  chrdev_regions = 0;
  cdevs = 0;
  device_nodes = 0;
  disks = 0;
  module_refs = 0;
}

abbrev pub no_devices : Registry
no_devices = record { device_list = []; add_disk_q = []; resources = nothing_held }

-- Every call succeeds.
abbrev pub all_well : Answers
all_well = record {
  device_memory = some 128;
  queue_allocated = true;
  blkdev = inr 251;
  chrdev_region = inr (record { dev_major = 250; dev_minor = 0 });
  cdev_error = none;
  node_created = true;
  disk_allocated = true;
  work_memory = true;
}

abbrev pub env : Env
env = record { answers = all_well; revalidated = none; padding = 0 }

abbrev pub control : Control
control = record {
  registry = no_devices;
  ctrl_response_buf = replicate 1024 0;
  ctrl_response_size = 0;
}
