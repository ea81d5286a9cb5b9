-- ===== src/Tests/Races.antt =====
-- Sections in an order that matters, at concrete inputs.
use bdtun.Base.{List, ◌∷◌, [], ◌^◌, ◌≡◌, refl, none, some, arith, true}
use bdtun.Device.{ok, Addr, Entry, done, Machine, oops}
use bdtun.Tunnel.{returned, header_of, serve_header, read_payload, bdtunch_release}
use bdtun.Block.{bdtun_open}
use bdtun.Registry.Manage.{mark_removing}
use bdtun.Registry.Usage.{
  Usage, disk, tunnel, arrives, opens, marks, UsageHistory, created, and_next, open_section,
}
use bdtun.Registry.Removal.{Excluded, use_excludes_removal}
use bdtun.Registry.Races.{unused, handles_wrap, open_overtaken}
use bdtun.System.{with_dev}
use bdtun.System.Broker.{BrokerHistory, broker}
use bdtun.System.ThreadEvents.{thread_events}
use bdtun.System.Threads
use bdtun.System.Threads.{
  Threads, idle, moving, begins_data, gives, holding, unlinked, goes_to, ended_at, end_section,
  free_section, begins, ends, ThreadHistory, at_start, then_runs, all_idle,
}
use bdtun.Tunnel.Mapping.{area_for}
use bdtun.Header.{bdtun_txreq_header_size, txreq_bytes}
use bdtun.System.Cases.{choosing}
use bdtun.System.Locks.{ListLock, ListStep, ListHistory, finds, at_once, and_so, list_unlocked}
use bdtun.System.Guarded.{found_kept, found_freed}
use bdtun.System.Atomic.{completed_twice}
use bdtun.System.Completion.{threads-refine, Runs, threads-run}
use bdtun.Tests.Samples.{waiting-IsValid, linux, idle_disk, waiting, read_bio, entry_of}

-- The disk is opened, and then a removal is tried.
abbrev opened_disk : Usage
opened_disk = record (unused idle_disk) { dev = some (record idle_disk { ucnt = 1 }); handles = 1 }

open_and_mark : UsageHistory 8 (unused idle_disk) opened_disk
unfolding open_section bdtun_open mark_removing
open_and_mark =
    and_next (and_next (and_next created (arrives refl)) (opens disk refl (omega arith) refl))
      (marks refl)

use_excludes_removal_example : Excluded opened_disk
use_excludes_removal_example =
    use_excludes_removal (omega arith) open_and_mark (idle_disk, refl, refl, refl, refl, refl, refl)

handles_wrap_example :
    (t : Usage) × UsageHistory (2 ^ 33) (unused idle_disk) t × (t.dev ≡ none) × (t.handles ≡ 2 ^ 32)
handles_wrap_example = handles_wrap (2 ^ 33) (2 ^ 32) idle_disk refl refl (omega arith) refl

open_overtaken_example :
    (t : Usage) × UsageHistory 8 (record (unused idle_disk) { opening = 1 }) t
    × (t.opening ≡ 1)
    × (t.handles ≡ 0)
    × (open_section tunnel t ≡ oops)
open_overtaken_example =
    open_overtaken tunnel 8 (record (unused idle_disk) { opening = 1 }) idle_disk refl refl refl

-- Thread 2 has moved data, thread 3 has ended the bio and not freed its entry, and the tunnel is
-- closed.
abbrev moved : Threads
moved = record (all_idle (waiting read_bio)) {
  pc = goes_to 2 idle (goes_to 2 (moving 64) (λ t. idle));
}

abbrev closed_between : Threads
closed_between =
    let n = ended_at 0 9 64 (entry_of read_bio) (waiting read_bio) in
    record {
      machine = with_dev n (bdtunch_release n.dev);
      pc = goes_to 3 (unlinked 64) (goes_to 3 (holding 0 64) moved.pc);
    }

end_and_close : ThreadHistory linux (all_idle (waiting read_bio)) closed_between
unfolding end_section goes_to read_payload
end_and_close =
    then_runs
      (then_runs
        (then_runs
          (then_runs (then_runs at_start (begins_data 2 refl (λ u p. ground (arith, p)) refl))
            (gives 2 (λ at n. 0) 7 refl refl))
          (begins 3 0 refl (λ u p. ground (arith, p)) refl))
        (ends 3 9 refl refl))
      Threads.closes_tunnel

threads-refine_example :
    BrokerHistory
      (broker (waiting read_bio))
      (thread_events end_and_close)
      (broker closed_between.machine)
threads-refine_example = threads-refine end_and_close (waiting-IsValid read_bio)

threads-run_example :
    Runs linux
      (λ n. true)
      (area_for linux 4096 512)
      9
      (λ at n. 0)
      []
      closed_between.machine
      (closed_between.pc 3)
threads-run_example =
    threads-run 3 9 (λ n. true) (area_for linux 4096 512) (λ at n. 0) [] end_and_close
      (waiting-IsValid read_bio)

completed_twice_example :
    (n o : Machine) × (end_section 0 9 64 (waiting read_bio) ≡ done n)
    × (end_section 1 10 64 n ≡ oops)
    × (free_section 64 n ≡ done o)
    × (end_section 1 10 64 o ≡ oops)
completed_twice_example =
    completed_twice 0 1 9 10 64 (waiting read_bio) {e = entry_of read_bio}
      (waiting-IsValid read_bio) refl

-- A header read has found the one entry, and another entry is chosen.
abbrev found_and_chosen : ListLock
found_and_chosen = record { machine = choosing 72 (waiting read_bio); reader = some 64 }

abbrev find_and_choose : ListHistory linux (list_unlocked (waiting read_bio)) found_and_chosen
find_and_choose = and_so (and_so at_once (finds refl refl)) (ListStep.chooses 72)

found_kept_example :
    (e : Entry) × (rest : List Addr) × (n : Machine) × (found_and_chosen.machine.heap 64 ≡ some e)
    × (found_and_chosen.machine.dev.incoming_bio_list ≡ 64 ∷ rest)
    × (serve_header linux 64 found_and_chosen.machine
        ≡ done (returned (ok bdtun_txreq_header_size) (txreq_bytes (header_of linux 64 e.bio)) n))
    × (n.dev.incoming_bio_list ≡ rest)
    × (n.dev.pending_bio_list ≡ 64 ∷ [])
    × (n.heap ≡ found_and_chosen.machine.heap)
found_kept_example = found_kept 64 find_and_choose ((tt, tt), tt) (waiting-IsValid read_bio) refl

found_freed_example :
    (t : ListLock) × ListHistory linux (list_unlocked (waiting read_bio)) t
    × (t.reader ≡ some 64)
    × (serve_header linux 64 t.machine ≡ oops)
found_freed_example = found_freed linux 0 9 (waiting read_bio) [] (waiting-IsValid read_bio) refl
