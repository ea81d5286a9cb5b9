-- ===== src/Tests/Queues.antt =====
-- A device at work: histories, the client's protocol, data.
use bdtun.Base.{
  if◌then◌else◌, ℕ, ◌+◌, ◌≡◌, ◌≤◌, refl, Bool, true, false, List, [], ◌∷◌, none, some, arith, ◌⊎◌,
}
use bdtun.Base.Int.{pos}
use bdtun.Base.Bits.{bit}
use bdtun.Header.{bdtun_txreq_header_size}
use bdtun.Device.{err, eio, ok, done, Dir, BioVec, Machine}
use bdtun.Block.{bdtun_make_request}
use bdtun.Tunnel.Flags
use bdtun.Tunnel.Flags.{bit_number, bdtun_translate_bio_rw}
use bdtun.Tunnel.FlagLaws.{bdtun_translate_bio_rw-bit}
use bdtun.Tunnel.{returned, asleep, bdtunch_release, bdtunch_read, bdtunch_write, bdtunch_poll}
use bdtun.Tunnel.Data.{content}
use bdtun.Tunnel.Retry.{SameAround, filled, with_current, write_again}
use bdtun.Client.Transfer.{ReadServed, serve_read, WriteServed, serve_write}
use bdtun.Tunnel.Waiting.{
  Waiting, running, sleeping, WaitHistory, at_first, and_then, nothing_yet, prepares, finds_none,
  AllDue, schedules, queues, closes, sleeper-served, close-strands,
}
use bdtun.System.{
  submits, closes_tunnel, History, start, then_step, with_dev, held, ended_sum, bio_sum,
}
use bdtun.System.Valid.{IsValid, History-IsValid}
use bdtun.System.Broker.{BrokerHistory, broker, submitted, took_back}
use bdtun.System.Broker as Broker
use bdtun.System.Refinement.{History-refines}
use bdtun.System.Account.{History-account}
use bdtun.System.Stats.{IsCounted, History-IsCounted}
use bdtun.System.Protocol.{FirstAnswered, answer_first, bdtunch_poll-readable}
use bdtun.Client.{bdtun_fail_request}
use bdtun.Client.Link.{tunnel_fd}
use bdtun.Client.Requests.{bdtun_fail_request-completes}
use bdtun.Tests.Samples.{waiting-IsValid, linux, idle, waiting, read_bio, write_bio, entry_of}

abbrev always : ℕ → ℕ → ℕ
always at n = 0

idle-IsValid : IsValid idle
idle-IsValid = record { listed = λ a. refl; no_null = refl }

-- One bio is queued, the next finds no memory, and the tunnel is closed.
abbrev queued : Machine
queued = bdtun_make_request (some 64) 5 read_bio idle

abbrev refused : Machine
refused = bdtun_make_request none 6 write_bio queued

abbrev closed : Machine
closed = with_dev refused (bdtunch_release refused.dev)

abbrev sample : History linux idle (write_bio ∷ read_bio ∷ []) closed
sample =
    then_step
      (then_step (then_step start (submits (some 64) 5 read_bio (omega arith, refl)))
        (submits none 6 write_bio tt))
      closes_tunnel

History-account_example :
    held (λ b. 1) closed + ended_sum (λ b. 1) closed.ended
    ≡ bio_sum (λ b. 1) (write_bio ∷ read_bio ∷ []) + (held (λ b. 1) idle + ended_sum (λ b. 1) [])
History-account_example = History-account (λ b. 1) (λ b vs. refl) sample idle-IsValid

History-refines_example :
    BrokerHistory (broker idle) (took_back ∷ Broker.refused 2 ∷ submitted 1 ∷ []) (broker closed)
History-refines_example = History-refines sample idle-IsValid

History-IsValid_example : IsValid closed
History-IsValid_example = History-IsValid sample idle-IsValid

History-IsCounted_example : IsCounted Dir.read closed
History-IsCounted_example = History-IsCounted Dir.read sample idle-IsValid refl

answer_first_example : FirstAnswered linux always 9 1 (waiting read_bio) 64 []
answer_first_example =
    answer_first linux always 9 1 (waiting read_bio) 64 [] (waiting-IsValid read_bio) refl
      (omega arith)

bdtun_fail_request-completes_example :
    (n : Machine) × (bdtun_fail_request (tunnel_fd linux 9) (waiting write_bio) ≡ done (pos 0, n))
    × (n.ended ≡ (write_bio, none) ∷ [])
bdtun_fail_request-completes_example =
    bdtun_fail_request-completes linux 9 (waiting write_bio) {e = entry_of write_bio} refl

bdtunch_poll-readable_example :
    ((bdtunch_poll (waiting read_bio).dev).readable ≡ true)
      × ((header : List ℕ) × (n : Machine) × (bdtunch_read linux always [] bdtun_txreq_header_size
              (waiting read_bio)
            ≡ done (returned (ok 32) header n)))
    ⊎ ((bdtunch_poll (waiting read_bio).dev).readable ≡ false)
      × (bdtunch_read linux always [] bdtun_txreq_header_size (waiting read_bio)
          ≡ done (asleep (waiting read_bio)))
bdtunch_poll-readable_example =
    bdtunch_poll-readable linux always (waiting read_bio) (waiting-IsValid read_bio)

abbrev ten : List ℕ
ten = 1 ∷ 2 ∷ 3 ∷ 4 ∷ 5 ∷ 6 ∷ 7 ∷ 8 ∷ 9 ∷ 10 ∷ []

serve_read_example : ReadServed linux 9 (waiting read_bio) 64 [] (entry_of read_bio) ten
serve_read_example =
    serve_read linux 9 (waiting read_bio) 64 [] (entry_of read_bio) ten (waiting-IsValid read_bio)
      refl refl (omega arith) refl (omega arith, tt) refl (omega arith) (omega arith) (omega arith)

serve_write_example : WriteServed linux 9 (waiting write_bio) 64 [] (entry_of write_bio)
serve_write_example =
    serve_write linux 9 (waiting write_bio) 64 [] (entry_of write_bio) (waiting-IsValid write_bio)
      refl refl (omega arith) refl (omega arith) (omega arith)

-- No byte can be reached at first.
abbrev never : ℕ → ℕ → ℕ
never at n = n

write_again_example :
    (part : Bool × List BioVec) × (vs : List BioVec) × (bdtunch_write never 8 ten (waiting read_bio)
      ≡ done (
        if part.0 then ok 10 else err eio,
        with_current (waiting read_bio) (filled (entry_of read_bio) part.1),
      ))
    × SameAround read_bio.segments part.1
    × (bdtunch_write always 9 ten
          (with_current (waiting read_bio) (filled (entry_of read_bio) part.1))
        ≡ done (
          ok 10,
          with_current
              (with_current (waiting read_bio) (filled (entry_of read_bio) part.1))
              (filled (entry_of read_bio) vs),
        ))
    × (content vs ≡ ten)
    × SameAround part.1 vs
write_again_example =
    write_again never always 8 9 ten ten (waiting read_bio) (entry_of read_bio) refl refl
      (omega arith, tt) refl refl refl (omega arith) (λ at n. refl)

-- The bit of REQ_META, 5 on this kernel, goes to bit 6.
bdtun_translate_bio_rw-bit_example :
    (bit (bit_number Flags.Flag.meta) (bdtun_translate_bio_rw linux 33) ≡ 1)
    × ((j : ℕ) → (j ≡ 0) ⊎ (30 ≤ j) → bit j (bdtun_translate_bio_rw linux 33) ≡ 0)
unfolding bit_number
bdtun_translate_bio_rw-bit_example =
    bdtun_translate_bio_rw-bit linux 33 5 Flags.Flag.meta refl (λ e. refl)

-- A reader goes to sleep and a bio is queued before anyone is woken.
abbrev awaited : Waiting
awaited = record { queued = 1; taken = 0; owed = 1; phase = sleeping; blocked = true }

asleep_first : WaitHistory nothing_yet awaited
asleep_first =
    and_then
      (and_then (and_then (and_then at_first (prepares refl)) (finds_none refl refl))
        (schedules refl))
      queues

sleeper-served_example :
    (t : Waiting) × (g : WaitHistory awaited t) × AllDue g
    × (t.phase ≡ running)
    × (t.queued ≡ 0)
    × (t.taken ≡ 1)
sleeper-served_example = sleeper-served asleep_first refl refl

close-strands_example :
    (s : Waiting) × WaitHistory nothing_yet s
    × (s.taken ≡ 2)
    × ((closes s).phase ≡ sleeping)
    × ((closes s).blocked ≡ true)
    × ((closes s).owed ≡ 0)
    × ((closes s).queued ≡ 2)
close-strands_example = close-strands 2
