-- ===== src/System/ThreadEvents.antt =====
-- What each section of the threads of a device asks of its broker (System/Broker).
use bdtun.Base.{List, [], ◌∷◌, ◌==◌}
use bdtun.Header.{bdtun_txreq_header_size}
use bdtun.Tunnel.Flags.{Kernel}
use bdtun.System.Broker.{Event, answered, took_back, nothing}
use bdtun.System.Events.{number_of, submit_event, read_event}
use bdtun.System.Threads.{
  Threads, ThreadStep, submits, reads, chooses, opens_tunnel, closes_tunnel, opens_disk,
  closes_disk, begins, begins_data, fills, gives, maps, ends, frees, ThreadHistory, at_start,
  then_runs,
}

-- A completion answers its bio in the section that ends it.
abbrev pub thread_event : {k : Kernel} {s t : Threads} → ThreadStep k s t → Event
thread_event (submits slot jiffies bio new) = submit_event slot bio
thread_event (reads missed {r} q) = read_event bdtun_txreq_header_size r
thread_event (chooses missed jiffies buf size q) = nothing
thread_event opens_tunnel = nothing
thread_event closes_tunnel = took_back
thread_event opens_disk = nothing
thread_event closes_disk = nothing
thread_event (begins t byte before free live) = nothing
thread_event (begins_data t before free live) = nothing
thread_event (fills t missed buf at q) = nothing
thread_event (gives t missed size at q) = nothing
thread_event (maps t remap vma at q) = nothing
thread_event {s} (ends t jiffies {byte} {a} at q) =
    answered (number_of (s.machine.heap a)) (byte == 0)
thread_event (frees t at q) = nothing

-- The events of a history, the latest first.
abbrev pub thread_events : {k : Kernel} {s t : Threads} → ThreadHistory k s t → List Event
thread_events at_start = []
thread_events (then_runs past step) = thread_event step ∷ thread_events past
