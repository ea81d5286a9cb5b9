-- ===== src/System/Atomic.antt =====
-- The sections of a completion, run by one thread and by several.
use bdtun.Base.{
  refl, length, List, Bool, ℕ, ◌+◌, ◌-◌, ◌≡◌, List, none, some, ap, ◌∙◌, arith, Option-cases, inl,
  inr, ==_self,
}
use bdtun.Device.{Run, Ret, ok, done, oops, ◌>>=◌, Addr, Entry, Machine, update, unlink}
use bdtun.Tunnel.Flags.{Kernel}
use bdtun.Tunnel.{ReadEnd, returned, asleep, complete, write_payload, read_payload}
use bdtun.Tunnel.Mapping.{Vma, PageMap, bdtunch_mmap}
use bdtun.Queue.{count, count-unlink}
use bdtun.System.{is_live}
use bdtun.System.Valid.{IsValid}
use bdtun.System.Threads.{ended_at, end_section, free_section}

pub end_section_run :
    (byte jiffies : ℕ) (a : Addr) (m : Machine) {e : Entry}
    → m.heap a ≡ some e
    → count a m.dev.incoming_bio_list + count a m.dev.pending_bio_list ≡ 1
    → end_section byte jiffies a m ≡ done (ended_at byte jiffies a e m)
unfolding end_section
end_section_run byte jiffies a m live on = ground (arith, live, on)

end_section_off :
    (byte jiffies : ℕ) (a : Addr) (m : Machine) {e : Entry}
    → m.heap a ≡ some e
    → count a m.dev.incoming_bio_list + count a m.dev.pending_bio_list ≡ 0
    → end_section byte jiffies a m ≡ oops
unfolding end_section
end_section_off byte jiffies a m live off = ground (arith, live, off)

end_section_dead :
    (byte jiffies : ℕ) (a : Addr) (m : Machine)
    → m.heap a ≡ none
    → end_section byte jiffies a m ≡ oops
unfolding end_section
end_section_dead byte jiffies a m dead = ground (arith, dead)

-- `unlink` leaves one occurrence less.
off_list : (a : Addr) (xs : List Addr) → count a (unlink a xs) ≡ count a xs - 1
off_list a xs = ground (arith, count-unlink a a xs, ==_self a)

pub free_section_run :
    (a : Addr) (m : Machine) {e : Entry}
    → m.heap a ≡ some e
    → free_section a m ≡ done (record m { heap = update m.heap a none })
unfolding free_section
free_section_run a m live = ground (arith, live)

-- Data can be written and read while the current entry is alive.
pub payload_runs :
    (missed : ℕ → ℕ → ℕ) (buf : List ℕ) (m : Machine) (e : Entry)
    → m.heap m.dev.data_current_bio ≡ some e
    → ((r : Ret) × (n : Machine) × (write_payload missed buf m ≡ done (r, n)))
      × ((r : Ret) × (bytes : List ℕ) × (n : Machine) × (read_payload missed (length buf) m
            ≡ done (returned r bytes n)))
unfolding write_payload read_payload
payload_runs missed buf m e live =
    (writes (write_payload missed buf m) refl, reads (read_payload missed (length buf) m) refl)
  where
    writes :
        (w : Run (Ret × Machine))
        → write_payload missed buf m ≡ w
        → (r : Ret) × (n : Machine) × (w ≡ done (r, n))
    writes (done (r, n)) p = (r, n, refl)
    writes oops p = absurd (ground (arith, live))

    reads :
        (w : Run ReadEnd)
        → read_payload missed (length buf) m ≡ w
        → (r : Ret) × (bytes : List ℕ) × (n : Machine) × (w ≡ done (returned r bytes n))
    reads (done (returned r bytes n)) p = (r, bytes, n, refl)
    reads (done (asleep n)) p = absurd (ground (arith, live))
    reads oops p = absurd (ground (arith, live))

-- In a valid machine, a completion byte for the current entry does what the sections of a completion
-- do one after the other, an oops included.
complete-sections :
    (byte jiffies : ℕ) (m : Machine)
    → IsValid m
    → complete byte jiffies m ≡ (do
      n ← end_section byte jiffies m.dev.data_current_bio m
      o ← free_section m.dev.data_current_bio n
      done (ok 1, o))
unfolding complete end_section free_section ended_at
complete-sections byte jiffies m v = elim (Option-cases (m.heap m.dev.data_current_bio)) [
  | inl dead ↦ ground (arith, dead)
  | inr (e, live) ↦ ground (arith, live, v.listed m.dev.data_current_bio)
]

-- Pages can be mapped while the current entry is alive.
pub mmap_runs :
    (k : Kernel) (remap : ℕ → Bool) (vma : Vma) (m : Machine) (e : Entry)
    → m.heap m.dev.data_current_bio ≡ some e
    → (r : Ret) × (pages : List PageMap) × (vma' : Vma) × (bdtunch_mmap k remap vma m
        ≡ done (r, pages, vma'))
unfolding bdtunch_mmap
mmap_runs k remap vma m e live = runs (bdtunch_mmap k remap vma m) refl
  where
    runs :
        (w : Run (Ret × List PageMap × Vma))
        → bdtunch_mmap k remap vma m ≡ w
        → (r : Ret) × (pages : List PageMap) × (vma' : Vma) × (w ≡ done (r, pages, vma'))
    runs (done (r, pages, vma')) p = (r, pages, vma', refl)
    runs oops p = absurd (ground (arith, live, p))

-- If two threads have read the same live entry `a` of a valid machine for their completions, the one
-- that comes second oopses in its section, whether or not the first has freed the entry by then.
pub completed_twice :
    (byte byte' jiffies jiffies' : ℕ) (a : Addr) (m : Machine) {e : Entry}
    → IsValid m
    → m.heap a ≡ some e
    → (n o : Machine) × (end_section byte jiffies a m ≡ done n)
      × (end_section byte' jiffies' a n ≡ oops)
      × (free_section a n ≡ done o)
      × (end_section byte' jiffies' a o ≡ oops)
unfolding ended_at update
completed_twice byte byte' jiffies jiffies' a m {e} v live =
    let on : count a m.dev.incoming_bio_list + count a m.dev.pending_bio_list ≡ 1 =
      v.listed a ∙ ap is_live live in
    let n = ended_at byte jiffies a e m in
    (
      n,
      record n { heap = update m.heap a none },
      end_section_run byte jiffies a m live on,
      end_section_off byte' jiffies' a n live (
          omega (arith, on, off_list a m.dev.incoming_bio_list, off_list a m.dev.pending_bio_list)),
      free_section_run a n live,
      end_section_dead byte' jiffies' a (record n { heap = update m.heap a none })
          (ground (arith, ==_self a)),
    )
