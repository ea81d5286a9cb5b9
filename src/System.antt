-- ===== src/System.antt =====
-- One device under its users: every call of the two ends of kernel/bdtun.c as a step, in any order.
-- A handler that waits is taken up again by a later step; one that oopses has no step.
pub mod Cases
pub mod Valid
pub mod Account
pub mod Protocol
pub mod Stats
pub mod Broker
pub mod Events
pub mod Numbers
pub mod Refinement
pub mod Threads
pub mod ThreadEvents
pub mod Atomic
pub mod Locks
pub mod Guarded
pub mod Positions
pub mod Sections
pub mod Turns
pub mod Interleaving
pub mod Completion
use bdtun.Base.{
  ℕ, ◌+◌, ◌≡◌, ◌≢◌, Bool, true, false, List, [], ◌∷◌, ◌++◌, Option, none, some, if◌then◌else◌,
}
use bdtun.Device.{Errno, Ret, done, Bio, Addr, Entry, Bdtun, Machine}
use bdtun.Block.{bdtun_make_request, bdtun_open, bdtun_release}
use bdtun.Tunnel.Flags.{Kernel}
use bdtun.Tunnel.{ReadEnd, returned, bdtunch_open, bdtunch_release, bdtunch_read, bdtunch_write}
use bdtun.Queue.{weigh}

-- What `kmalloc` promises: memory that is not in use, or NULL.
abbrev pub Fresh : Machine → Option Addr → Type 0
Fresh m none = Unit {0}
Fresh m (some a) = (a ≢ 0) × (m.heap a ≡ none)

abbrev pub with_dev : Machine → Bdtun → Machine
with_dev m d = record m { dev = d }

-- A step of the device, with the bios that it is handed.
pub data Step (k : Kernel) (m : Machine) : List Bio → Machine → Type 0 where
  submits :
      (slot : Option Addr) (jiffies : ℕ) (bio : Bio)
      → Fresh m slot
      → Step k m (bio ∷ []) (bdtun_make_request slot jiffies bio m)
  reads :
      (missed : ℕ → ℕ → ℕ) (size : ℕ) {r : Ret} {bytes : List ℕ} {n : Machine}
      → bdtunch_read k missed [] size m ≡ done (returned r bytes n)
      → Step k m [] n
  writes :
      (missed : ℕ → ℕ → ℕ) (jiffies : ℕ) (buf : List ℕ) {r : Ret} {n : Machine}
      → bdtunch_write missed jiffies buf m ≡ done (r, n)
      → Step k m [] n
  opens_tunnel : Step k m [] (with_dev m (bdtunch_open m.dev).1)
  closes_tunnel : Step k m [] (with_dev m (bdtunch_release m.dev))
  opens_disk : Step k m [] (with_dev m (bdtun_open m.dev).1)
  closes_disk : Step k m [] (with_dev m (bdtun_release m.dev))

-- A history, with the bios that it hands to the device.
pub data History (k : Kernel) (m : Machine) : List Bio → Machine → Type 0 where
  start : History k m [] m
  then_step :
      {bios more : List Bio} {n o : Machine}
      → History k m bios n
      → Step k n more o
      → History k m (more ++ bios) o

-- A quantity summed over the bios that the lists of the device lead to, and over those ended.
abbrev pub held : (Bio → ℕ) → Machine → ℕ
held f m = weigh f m.heap m.dev.incoming_bio_list + weigh f m.heap m.dev.pending_bio_list

abbrev pub ended_sum : (Bio → ℕ) → List (Bio × Option Errno) → ℕ
ended_sum f [] = 0
ended_sum f ((bio, e) ∷ rest) = f bio + ended_sum f rest

abbrev pub bio_sum : (Bio → ℕ) → List Bio → ℕ
bio_sum f [] = 0
bio_sum f (bio ∷ rest) = f bio + bio_sum f rest

abbrev pub is_live : Option Entry → ℕ
is_live none = 0
is_live (some e) = 1
