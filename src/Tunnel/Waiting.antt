-- ===== src/Tunnel/Waiting.antt =====
-- How a reader of headers waits, one atomic operation after the other (kernel/bdtun.c: the loop of
-- bdtunch_read, and who adds to the incoming list: bdtun_make_request, bdtunch_release). Each
-- critical section of the incoming list is a step, and so is each call on the wait queue.
use bdtun.Base.{
  ℕ, zero, suc, ◌+◌, ◌≡◌, ◌≢◌, inl, inr, refl, Bool, true, false, arith, Bool-cases, subst, sym,
}

-- `running`: not in the loop, or about to go round it. `prepared`: after prepare_to_wait.
-- `empty_seen`: the list was empty. `sleeping`: in schedule.
pub data Phase : Type 0 where
  running prepared empty_seen sleeping : Phase

-- One reader, with the lengths of the two lists. `blocked`: its task state is TASK_INTERRUPTIBLE,
-- so that schedule does not return. `owed`: how many submitters have added a bio and not yet called
-- wake_up.
pub record Waiting : Type 0 where
  pub queued : ℕ
  pub taken : ℕ
  pub owed : ℕ
  pub phase : Phase
  pub blocked : Bool

pub data WaitStep (s : Waiting) : Waiting → Type 0 where
  prepares : s.phase ≡ running → WaitStep s (record s { phase = prepared; blocked = true })
  finds_none : s.phase ≡ prepared → s.queued ≡ 0 → WaitStep s (record s { phase = empty_seen })
  finds_first :
      {n : ℕ}
      → s.phase ≡ prepared
      → s.queued ≡ suc n
      → WaitStep s (record s { queued = n; taken = s.taken + 1; phase = running; blocked = false })
  schedules : s.phase ≡ empty_seen → WaitStep s (record s { phase = sleeping })
  awakes : s.phase ≡ sleeping → s.blocked ≡ false → WaitStep s (record s { phase = running })
  queues : WaitStep s (record s { queued = s.queued + 1; owed = s.owed + 1 })
  wakes : {n : ℕ} → s.owed ≡ suc n → WaitStep s (record s { owed = n; blocked = false })
  signals : WaitStep s (record s { blocked = false })
  other_takes :
      {n : ℕ} → s.queued ≡ suc n → WaitStep s (record s { queued = n; taken = s.taken + 1 })
  completes : {n : ℕ} → s.taken ≡ suc n → WaitStep s (record s { taken = n })

-- Closing the tunnel, by another process: the bios that were taken wait again, and no one is woken.
unfoldable pub closes : Waiting → Waiting
closes s = record s { queued = s.queued + s.taken; taken = 0 }

pub data WaitHistory (s : Waiting) : Waiting → Type 0 where
  at_first : WaitHistory s s
  and_then : {t u : Waiting} → WaitHistory s t → WaitStep t u → WaitHistory s u

-- The steps of the reader itself, and a call of wake_up that a submitter owes.
abbrev pub IsDue : {s t : Waiting} → WaitStep s t → Type 0
IsDue (prepares p) = Unit {0}
IsDue (finds_none p q) = Unit {0}
IsDue (finds_first p q) = Unit {0}
IsDue (schedules p) = Unit {0}
IsDue (awakes p q) = Unit {0}
IsDue (wakes p) = Unit {0}
IsDue queues = ⊥
IsDue signals = ⊥
IsDue (other_takes p) = ⊥
IsDue (completes p) = ⊥

abbrev pub AllDue : {s t : Waiting} → WaitHistory s t → Type 0
AllDue at_first = Unit {0}
AllDue (and_then h step) = AllDue h × IsDue step

abbrev pub nothing_yet : Waiting
nothing_yet = record { queued = 0; taken = 0; owed = 0; phase = running; blocked = false }

-- A reader that has seen an empty list and can sleep, while a bio is queued, will be woken.
abbrev PastCheck : Phase → Type 0
PastCheck running = ⊥
PastCheck prepared = ⊥
PastCheck empty_seen = Unit {0}
PastCheck sleeping = Unit {0}

abbrev IsAwaited : Waiting → Type 0
IsAwaited s = PastCheck s.phase → s.blocked ≡ true → s.queued ≢ 0 → s.owed ≢ 0

WaitStep-IsAwaited : {s t : Waiting} → WaitStep s t → IsAwaited s → IsAwaited t
WaitStep-IsAwaited (prepares p) w = λ here. absurd here
WaitStep-IsAwaited (finds_none p q) w = λ here b one. absurd (one q)
WaitStep-IsAwaited (finds_first p q) w = λ here. absurd here
WaitStep-IsAwaited {s} (schedules p) w = λ here b one. w (subst PastCheck (sym p) tt) b one
WaitStep-IsAwaited (awakes p b) w = λ here. absurd here
WaitStep-IsAwaited queues w = λ here b one. omega arith
WaitStep-IsAwaited (wakes p) w = λ here b. absurd (ground arith)
WaitStep-IsAwaited signals w = λ here b. absurd (ground arith)
WaitStep-IsAwaited (other_takes p) w = λ here b one. w here b (omega (arith, p))
WaitStep-IsAwaited (completes p) w = w

WaitHistory-IsAwaited : {s : Waiting} → WaitHistory nothing_yet s → IsAwaited s
WaitHistory-IsAwaited at_first = λ here. absurd here
WaitHistory-IsAwaited (and_then h step) = WaitStep-IsAwaited step (WaitHistory-IsAwaited h)

-- After every history without a close, with any submitters, other readers and signals, a reader that
-- sleeps while a bio is queued can go on to take the first by its own next operations and calls of
-- wake_up that are already due, and by nothing else: no further bio, no signal and no other reader's
-- step.
pub sleeper-served :
    {s : Waiting} {n : ℕ}
    → WaitHistory nothing_yet s
    → s.phase ≡ sleeping
    → s.queued ≡ suc n
    → (t : Waiting) × (g : WaitHistory s t) × AllDue g
      × (t.phase ≡ running)
      × (t.queued ≡ n)
      × (t.taken ≡ s.taken + 1)
sleeper-served {s} {n} h p q = elim (Bool-cases s.blocked) [
  | inr free ↦ (
    _,
    and_then (and_then (and_then at_first (awakes p free)) (prepares refl)) (finds_first refl q),
    (((tt, tt), tt), tt),
    refl,
    refl,
    refl,
  )
  | inl stays ↦ wake stays s.owed refl
]
  where
    wake :
        s.blocked ≡ true
        → (o : ℕ) → s.owed ≡ o
        → (t : Waiting) × (g : WaitHistory s t) × AllDue g
          × (t.phase ≡ running)
          × (t.queued ≡ n)
          × (t.taken ≡ s.taken + 1)
    wake stays zero e =
        absurd
          (WaitHistory-IsAwaited h (subst PastCheck (sym p) tt) stays (λ z. omega (arith, q, z)) e)
    wake stays (suc o) e = (
      _,
      and_then (and_then (and_then (and_then at_first (wakes e)) (awakes p refl)) (prepares refl))
          (finds_first refl q),
      ((((tt, tt), tt), tt), tt),
      refl,
      refl,
      refl,
    )

-- A history that leaves `n` bios taken.
takes : (n : ℕ) → WaitHistory nothing_yet (record nothing_yet { taken = n })
takes zero = at_first
takes (suc n) =
    let more : n + 1 ≡ suc n = omega arith in
    subst (λ m. WaitHistory nothing_yet (record nothing_yet { taken = m })) more
      (and_then (and_then (and_then (takes n) queues) (wakes refl)) (other_takes refl))

-- For every number of bios that are taken, there is a history after which a close of the tunnel puts
-- them back and leaves a reader asleep with them queued, and no call of wake_up due.
pub close-strands :
    (n : ℕ)
    → (s : Waiting) × WaitHistory nothing_yet s
      × (s.taken ≡ n)
      × ((closes s).phase ≡ sleeping)
      × ((closes s).blocked ≡ true)
      × ((closes s).owed ≡ 0)
      × ((closes s).queued ≡ n)
unfolding closes
close-strands n = (
  record nothing_yet { taken = n; phase = sleeping; blocked = true },
  and_then (and_then (and_then (takes n) (prepares refl)) (finds_none refl refl)) (schedules refl),
  refl,
  refl,
  refl,
  refl,
  omega arith,
)
