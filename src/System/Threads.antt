-- ===== src/System/Threads.antt =====
-- The sections of kernel/bdtun.c: bdtunch_write and bdtunch_read for a completion byte and for data,
-- and bdtunch_mmap, by threads that run them in any order between the other calls of a device.
use bdtun.Base.{
  ℕ, ◌+◌, ◌≡◌, ◌≢◌, Bool, List, [], ◌∷◌, Option, none, some, ◌==◌, if◌then◌else◌, length,
}
use bdtun.Device.{eio, Ret, Run, done, oops, ◌>>=◌, Bio, Addr, Entry, Machine, update, unlink}
use bdtun.Block.{bdtun_make_request, bdtun_open, bdtun_release, set_stats}
use bdtun.Tunnel.Flags.{Kernel}
use bdtun.Tunnel.{
  returned, read_payload, write_payload, bdtunch_open, bdtunch_release, load, bdtunch_read,
  bdtun_update_iostat, bdtunch_write,
}
use bdtun.Tunnel.Mapping.{Vma, PageMap, bdtunch_mmap}
use bdtun.Queue.{count}
use bdtun.Header.{bdtun_txreq_header_size, sizeof_uintptr}
use bdtun.System.Cases.{choosing}
use bdtun.System.{Fresh, with_dev, is_live}

-- A device whose entry `a`, `e`, has been ended and taken off its list, and not freed.
unfoldable pub ended_at : ℕ → ℕ → Addr → Entry → Machine → Machine
unfolding bdtun_update_iostat set_stats unlink
ended_at byte jiffies a e m = record m {
  ended = (e.bio, if byte == 0 then none else some eio) ∷ m.ended;
  dev = set_stats (bdtun_update_iostat jiffies e m.dev.bd_gd.part0) (record m.dev {
    incoming_bio_list = unlink a m.dev.incoming_bio_list;
    pending_bio_list = unlink a m.dev.pending_bio_list;
  });
}

-- The section that ends the bio, counts it and takes its entry off its list, holding the pending
-- list's lock. `list_del` of an entry that was taken off its list follows poisoned pointers.
unfoldable pub end_section : ℕ → ℕ → Addr → Machine → Run Machine
unfolding load ended_at
end_section byte jiffies a m = do
  e ← load m.heap a
  if count a m.dev.incoming_bio_list + count a m.dev.pending_bio_list == 0
      then oops
      else done (ended_at byte jiffies a e m)

-- `kfree`, after the lock is given back.
unfoldable pub free_section : Addr → Machine → Run Machine
unfolding load update
free_section a m = do e ← load m.heap a; done (record m { heap = update m.heap a none })

-- Where a thread is: in no call that takes more than one section; with the entry that it has read from
-- `data_current_bio`, to complete it with a byte, or to move its data or map its pages; or with the entry that it has
-- taken off its list, to free it.
pub data Pc : Type 0 where
  idle : Pc
  holding : ℕ → Addr → Pc
  moving : Addr → Pc
  unlinked : Addr → Pc

-- The entry that a thread goes on to use, alive and on its list.
abbrev pub uses : Pc → Option Addr
uses idle = none
uses (holding byte a) = some a
uses (moving a) = some a
uses (unlinked a) = none

abbrev pub target : Pc → Option Addr
target idle = none
target (holding byte a) = some a
target (moving a) = some a
target (unlinked a) = some a

pub record Threads : Type 0 where
  pub machine : Machine
  pub pc : ℕ → Pc

unfoldable pub goes_to : ℕ → Pc → (ℕ → Pc) → ℕ → Pc
goes_to t p pc u = if t == u then p else pc u

abbrev pub with_machine : Threads → Machine → Threads
with_machine s m = record s { machine = m }

-- A call that takes one section, or a section of one that takes more. Clients keep to this: a
-- completion, a transfer of data or a mapping begins only for an entry that is alive and that no
-- other thread is completing, moving data of or mapping.
pub data ThreadStep (k : Kernel) (s : Threads) : Threads → Type 0 where
  submits :
      (slot : Option Addr) (jiffies : ℕ) (bio : Bio)
      → Fresh s.machine slot
      → ThreadStep k s (with_machine s (bdtun_make_request slot jiffies bio s.machine))
  reads :
      (missed : ℕ → ℕ → ℕ) {r : Ret} {bytes : List ℕ} {n : Machine}
      → bdtunch_read k missed [] bdtun_txreq_header_size s.machine ≡ done (returned r bytes n)
      → ThreadStep k s (with_machine s n)
  chooses :
      (missed : ℕ → ℕ → ℕ) (jiffies : ℕ) (buf : List ℕ) {r : Ret} {n : Machine}
      → length buf ≡ sizeof_uintptr
      → bdtunch_write missed jiffies buf s.machine ≡ done (r, n)
      → ThreadStep k s (with_machine s n)
  opens_tunnel : ThreadStep k s (with_machine s (with_dev s.machine (bdtunch_open s.machine.dev).1))
  closes_tunnel :
      ThreadStep k s (with_machine s (with_dev s.machine (bdtunch_release s.machine.dev)))
  opens_disk : ThreadStep k s (with_machine s (with_dev s.machine (bdtun_open s.machine.dev).1))
  closes_disk : ThreadStep k s (with_machine s (with_dev s.machine (bdtun_release s.machine.dev)))
  begins :
      (t byte : ℕ)
      → s.pc t ≡ idle
      → ((u : ℕ) → target (s.pc u) ≢ some s.machine.dev.data_current_bio)
      → is_live (s.machine.heap s.machine.dev.data_current_bio) ≡ 1
      → ThreadStep k s
          (record s { pc = goes_to t (holding byte s.machine.dev.data_current_bio) s.pc })
  begins_data :
      (t : ℕ)
      → s.pc t ≡ idle
      → ((u : ℕ) → target (s.pc u) ≢ some s.machine.dev.data_current_bio)
      → is_live (s.machine.heap s.machine.dev.data_current_bio) ≡ 1
      → ThreadStep k s (record s { pc = goes_to t (moving s.machine.dev.data_current_bio) s.pc })
  fills :
      (t : ℕ) (missed : ℕ → ℕ → ℕ) (buf : List ℕ) {a : Addr} {r : Ret} {n : Machine}
      → s.pc t ≡ moving a
      → write_payload missed buf (choosing a s.machine) ≡ done (r, n)
      → ThreadStep k s
          (record { machine = choosing s.machine.dev.data_current_bio n; pc = goes_to t idle s.pc })
  gives :
      (t : ℕ) (missed : ℕ → ℕ → ℕ) (size : ℕ) {a : Addr} {r : Ret} {bytes : List ℕ} {n : Machine}
      → s.pc t ≡ moving a
      → read_payload missed size (choosing a s.machine) ≡ done (returned r bytes n)
      → ThreadStep k s (record s { pc = goes_to t idle s.pc })
  maps :
      (t : ℕ) (remap : ℕ → Bool) (vma : Vma) {a : Addr} {r : Ret} {pages : List PageMap}
      {vma' : Vma}
      → s.pc t ≡ moving a
      → bdtunch_mmap k remap vma (choosing a s.machine) ≡ done (r, pages, vma')
      → ThreadStep k s (record s { pc = goes_to t idle s.pc })
  ends :
      (t jiffies : ℕ) {byte : ℕ} {a : Addr} {n : Machine}
      → s.pc t ≡ holding byte a
      → end_section byte jiffies a s.machine ≡ done n
      → ThreadStep k s (record { machine = n; pc = goes_to t (unlinked a) s.pc })
  frees :
      (t : ℕ) {a : Addr} {n : Machine}
      → s.pc t ≡ unlinked a
      → free_section a s.machine ≡ done n
      → ThreadStep k s (record { machine = n; pc = goes_to t idle s.pc })

pub data ThreadHistory (k : Kernel) (s : Threads) : Threads → Type 0 where
  at_start : ThreadHistory k s s
  then_runs : {t u : Threads} → ThreadHistory k s t → ThreadStep k t u → ThreadHistory k s u

abbrev pub all_idle : Machine → Threads
all_idle m = record { machine = m; pc = λ t. idle }
