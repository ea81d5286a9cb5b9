-- ===== src/System/Events.antt =====
-- What each call of a device asks of its broker (System/Broker), read off the call.
use bdtun.Base.{ℕ, List, [], ◌∷◌, Option, none, some, ◌==◌, if◌then◌else◌, length, of_bytes}
use bdtun.Header.{bdtun_txreq_header_size}
use bdtun.Device.{Ret, ok, err, Bio, Addr, Entry, Machine}
use bdtun.Tunnel.Flags.{Kernel}
use bdtun.System.{
  Step, submits, reads, writes, opens_tunnel, closes_tunnel, opens_disk, closes_disk, History,
  start, then_step,
}
use bdtun.System.Broker.{Event, submitted, refused, took, answered, took_back, nothing}

-- The number of an entry's bio.
abbrev pub number_of : Option Entry → ℕ
number_of none = 0
number_of (some e) = e.bio.bio_id

abbrev pub submit_event : Option Addr → Bio → Event
submit_event none bio = refused bio.bio_id
submit_event (some a) bio = submitted bio.bio_id

-- A read of `size` bytes that returns `r`: a header that is read is a bio that is taken.
abbrev header_event : Ret → Event
header_event (ok n) = took
header_event (err e) = nothing

abbrev pub read_event : ℕ → Ret → Event
read_event size r = if size == bdtun_txreq_header_size then header_event r else nothing

-- A write of one byte answers the current bio, without an error for the byte 0.
abbrev pub write_event : List ℕ → Machine → Event
write_event buf m =
    if length buf == 1
    then answered (number_of (m.heap m.dev.data_current_bio)) (of_bytes buf == 0)
    else nothing

abbrev pub step_event : {k : Kernel} {m n : Machine} {bios : List Bio} → Step k m bios n → Event
step_event (submits slot jiffies bio new) = submit_event slot bio
step_event (reads missed size {r} e) = read_event size r
step_event {m} (writes missed jiffies buf e) = write_event buf m
step_event opens_tunnel = nothing
step_event closes_tunnel = took_back
step_event opens_disk = nothing
step_event closes_disk = nothing

-- The events of a history, the latest first.
abbrev pub events : {k : Kernel} {m n : Machine} {bios : List Bio} → History k m bios n → List Event
events start = []
events (then_step past step) = step_event step ∷ events past
