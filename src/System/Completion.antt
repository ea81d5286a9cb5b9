-- ===== src/System/Completion.antt =====
-- Completions, transfers of data and mappings in sections, in every history of threads.
use bdtun.Base.{
  length, Bool, some, ℕ, ◌+◌, ◌≡◌, ◌≢◌, refl, List, [], ◌∷◌, none, ap, sym, ◌∙◌, subst, arith,
  Option-cases, inl, inr, ==_self,
}
use mathlib.Core.Path.{ap₂}
use bdtun.Device.{Ret, done, Addr, Heap, Machine, update}
use bdtun.Tunnel.Flags.{Kernel}
use bdtun.Header.{bdtun_txreq_header_size}
use bdtun.Tunnel.{returned, read_payload, write_payload}
use bdtun.Tunnel.Mapping.{Vma, PageMap, bdtunch_mmap}
use bdtun.Queue.{count}
use bdtun.System.{is_live, Step, opens_tunnel, closes_tunnel, opens_disk, closes_disk}
use bdtun.System.Cases.{choosing, bdtunch_read-cases}
use bdtun.System.Valid.{IsValid, Step-IsValid}
use bdtun.System.Broker.{
  ids, id_of, marks, broker, BrokerStep, Event, nothing, stay, BrokerHistory, begin, follow,
}
use bdtun.System.ThreadEvents.{thread_event, thread_events}
use bdtun.System.Refinement.{closes_tunnel-broker, opened-broker}
use bdtun.System.Threads
use bdtun.System.Threads.{
  Threads, Pc, idle, holding, unlinked, end_section, ended_at, free_section, with_machine,
  ThreadStep, chooses, begins, begins_data, fills, gives, maps, moving, uses, ends, frees,
  ThreadHistory, at_start, then_runs, all_idle,
}
use bdtun.System.Atomic.{end_section_run, free_section_run, payload_runs, mmap_runs}
use bdtun.System.Sections.{IsApart, with_heap, agrees_live, relisted}
use bdtun.System.Turns.{begins-IsApart, frees-IsApart, leaves-IsApart}
use bdtun.System.Interleaving.{
  Refined, submits-Refined, serve_header-Refined, chooses-Refined, fills-Refined, ends-Refined,
}

free_section-frees :
    (a : Addr) (m : Machine) {n : Machine}
    → free_section a m ≡ done n
    → (n.dev ≡ m.dev) × (n.heap ≡ update m.heap a none) × (n.ended ≡ m.ended)
unfolding free_section
free_section-frees a m q = elim (Option-cases (m.heap a)) [
  | inl dead ↦ absurd (ground (arith, dead))
  | inr (e, live) ↦ (ground (arith, live), ground (arith, live), ground (arith, live))
]

-- An open or a close.
relisted-Refined :
    (k : Kernel) (s : Threads) (h : Heap) (n : Machine) {event : Event}
    → n.heap ≡ s.machine.heap
    → Step k (with_heap s.machine h) [] (with_heap n h)
    → BrokerStep (broker (with_heap s.machine h)) event (broker (with_heap n h))
    → IsApart s h
    → Refined s h event (with_machine s n)
relisted-Refined k s h n same step b x = (h, relisted x n same (Step-IsValid step x.valid), b)

ThreadStep-Refined :
    {k : Kernel} {s t : Threads} (h : Heap) (step : ThreadStep k s t)
    → IsApart s h
    → Refined s h (thread_event step) t
ThreadStep-Refined {s} h (Threads.submits slot jiffies bio new) x =
    submits-Refined s h slot jiffies bio new x
ThreadStep-Refined {k} {s} h (Threads.reads missed q) x =
    elim (bdtunch_read-cases k missed bdtun_txreq_header_size s.machine q) [
      | inl (same, other) ↦ absurd (ground (arith, other))
      | inr (a, rest, p, r, header) ↦ serve_header-Refined k s h a rest p r x
    ]
ThreadStep-Refined {s} h (chooses missed jiffies buf size q) x =
    chooses-Refined s h missed jiffies buf size q x
ThreadStep-Refined {k} {s} h Threads.opens_tunnel x =
    relisted-Refined k s h _ refl opens_tunnel (opened-broker (with_heap s.machine h)).0 x
ThreadStep-Refined {k} {s} h Threads.closes_tunnel x =
    relisted-Refined k s h _ refl closes_tunnel (closes_tunnel-broker (with_heap s.machine h)) x
ThreadStep-Refined {k} {s} h Threads.opens_disk x =
    relisted-Refined k s h _ refl opens_disk (opened-broker (with_heap s.machine h)).1 x
ThreadStep-Refined {k} {s} h Threads.closes_disk x =
    relisted-Refined k s h _ refl closes_disk (opened-broker (with_heap s.machine h)).2 x
ThreadStep-Refined {s} h (begins t byte before free live) x =
    let p = holding byte s.machine.dev.data_current_bio in
    (h, begins-IsApart x t p refl refl free live before, stay)
ThreadStep-Refined {s} h (begins_data t before free live) x =
    let p = moving s.machine.dev.data_current_bio in
    (h, begins-IsApart x t p refl refl free live before, stay)
ThreadStep-Refined {s} h (fills t missed buf at q) x = fills-Refined s h t missed buf at q x
ThreadStep-Refined h (gives t missed size {a} at q) x = (h, leaves-IsApart x t a at, stay)
ThreadStep-Refined h (maps t remap vma {a} at q) x = (h, leaves-IsApart x t a at, stay)
ThreadStep-Refined {s} h (ends t jiffies at q) x = ends-Refined s h t jiffies at q x
ThreadStep-Refined {s} h (frees t {a} {n} at q) x =
    let (dev, heap, ended) = free_section-frees a s.machine q in
    let same : broker (with_heap s.machine h) ≡ broker (with_heap n h) =
      ap₂ (λ d e. broker (record { dev = d; heap = h; ended = e })) (sym dev) (sym ended) in
    (
      h,
      frees-IsApart x t a n at dev heap,
      subst (BrokerStep (broker (with_heap s.machine h)) nothing) same stay,
    )

all_idle-IsApart : (m : Machine) → IsValid m → IsApart (all_idle m) m.heap
all_idle-IsApart m v = record {
  valid = v;
  agrees = λ a. inl refl;
  held = λ t a p. absurd (ground (arith, p));
  off = λ t a p. absurd (ground (arith, p));
  apart = λ t u a p q. absurd (ground (arith, p));
}

ThreadHistory-Refined :
    {k : Kernel} {m : Machine} {t : Threads} (past : ThreadHistory k (all_idle m) t)
    → IsValid m
    → (h : Heap) × IsApart t h
      × BrokerHistory (broker m) (thread_events past) (broker (with_heap t.machine h))
ThreadHistory-Refined {m} at_start v = (m.heap, all_idle-IsApart m v, begin)
ThreadHistory-Refined (then_runs past step) v =
    let (h, x, b) = ThreadHistory-Refined past v in
    let (g, y, c) = ThreadStep-Refined h step x in (g, y, follow b c)

-- Lists of entries that two memories share lead to the same bios.
ids-agree :
    (g h : Heap) (xs : List Addr) → ((a : Addr) → count a xs ≢ 0 → g a ≡ h a) → ids g xs ≡ ids h xs
ids-agree g h [] same = refl
ids-agree g h (a ∷ xs) same =
    ap₂ id_of (same a (ground (arith, ==_self a)))
      (ids-agree g h xs (λ b on. same b (ground (arith, on))))

IsApart-broker :
    (s : Threads) (h : Heap) → IsApart s h → broker (with_heap s.machine h) ≡ broker s.machine
IsApart-broker s h x =
    ap₂ (λ w t. record { waiting = w; taken = t; ended = marks s.machine.ended })
      (ids-agree h s.machine.heap s.machine.dev.incoming_bio_list
        (λ a on. agrees_live x a (listed_live a (ground (arith, on)))))
      (ids-agree h s.machine.heap s.machine.dev.pending_bio_list
        (λ a on. agrees_live x a (listed_live a (ground (arith, on)))))
  where
    listed_live :
        (a : Addr)
        → count a s.machine.dev.incoming_bio_list + count a s.machine.dev.pending_bio_list ≢ 0
        → is_live (h a) ≡ 1
    listed_live a on = elim (Option-cases (h a)) [
      | inl dead ↦ absurd (ground (arith, dead, on, x.valid.listed a))
      | inr (e, live) ↦ ap is_live live
    ]

-- In every history of any number of threads whose completions take two sections each and a step to
-- free the entry, and whose transfers of data and mappings take two, with all other calls between
-- them, from a valid device with none of these in progress: if each begins for an entry that is
-- alive and that no other thread is completing, moving data of or mapping, the device keeps the
-- broker's promise by the events of those calls, as if they were atomic. A completion answers its
-- own bio once, with its own byte's result, in the section that ends it, and its other sections do
-- nothing to the broker, nor do those of transfers and mappings.
pub threads-refine :
    {k : Kernel} {m : Machine} {t : Threads} (past : ThreadHistory k (all_idle m) t)
    → IsValid m
    → BrokerHistory (broker m) (thread_events past) (broker t.machine)
threads-refine {m} {t} past v =
    let (h, x, b) = ThreadHistory-Refined past v in
    subst (BrokerHistory (broker m) (thread_events past)) (IsApart-broker t h x) b

-- The next section of a thread does not oops, at whatever time and with whatever data.
abbrev pub Runs : Kernel → (ℕ → Bool) → Vma → ℕ → (ℕ → ℕ → ℕ) → List ℕ → Machine → Pc → Type 0
Runs k remap vma jiffies missed buf m idle = Unit {0}
Runs k remap vma jiffies missed buf m (holding byte a) =
    (n : Machine) × (end_section byte jiffies a m ≡ done n)
Runs k remap vma jiffies missed buf m (moving a) =
    ((r : Ret) × (n : Machine) × (write_payload missed buf (choosing a m) ≡ done (r, n)))
    × ((r : Ret) × (bytes : List ℕ) × (n : Machine) × (read_payload missed (length buf)
            (choosing a m)
          ≡ done (returned r bytes n)))
    × ((r : Ret) × (pages : List PageMap) × (vma' : Vma) × (bdtunch_mmap k remap vma (choosing a m)
          ≡ done (r, pages, vma')))
Runs k remap vma jiffies missed buf m (unlinked a) = (n : Machine) × (free_section a m ≡ done n)

-- In every history of such threads, under the same conditions on where a completion, a transfer or a
-- mapping begins and from a valid device with none in progress, the next section of every thread
-- runs without an oops: the end of a completion, the freeing of its entry, a write or a read of any
-- data, and a mapping of any area.
pub threads-run :
    {k : Kernel} {m : Machine} {t : Threads} (u jiffies : ℕ) (remap : ℕ → Bool) (vma : Vma)
    (missed : ℕ → ℕ → ℕ) (buf : List ℕ)
    → ThreadHistory k (all_idle m) t
    → IsValid m
    → Runs k remap vma jiffies missed buf t.machine (t.pc u)
threads-run {k} {t} u jiffies remap vma missed buf past v =
    let (h, x, b) = ThreadHistory-Refined past v in go h x (t.pc u) refl
  where
    go :
        (h : Heap)
        → IsApart t h
        → (p : Pc) → t.pc u ≡ p
        → Runs k remap vma jiffies missed buf t.machine p
    go h x idle at = tt
    go h x (holding byte a) at = elim (Option-cases (h a)) [
      | inl dead ↦ absurd (ground (arith, dead, x.held u a (ap uses at)))
      | inr (e, live) ↦ (
        ended_at byte jiffies a e t.machine,
        end_section_run byte jiffies a t.machine (sym (agrees_live x a (ap is_live live)) ∙ live)
            (x.valid.listed a ∙ ap is_live live),
      )
    ]
    go h x (moving a) at = elim (Option-cases (h a)) [
      | inl dead ↦ absurd (ground (arith, dead, x.held u a (ap uses at)))
      | inr (e, live) ↦
          let here : t.machine.heap a ≡ some e = sym (agrees_live x a (ap is_live live)) ∙ live in
          let (writes, reads) = payload_runs missed buf (choosing a t.machine) e here in
          (writes, reads, mmap_runs k remap vma (choosing a t.machine) e here)
    ]
    go h x (unlinked a) at = elim (Option-cases (t.machine.heap a)) [
      | inl dead ↦ absurd (ground (arith, dead, x.off u a at))
      | inr (e, live) ↦ (
        record t.machine { heap = update t.machine.heap a none },
        free_section_run a t.machine live,
      )
    ]
