-- ===== src/System/Interleaving.antt =====
-- Histories of threads, against the device's promise.
use bdtun.Base.{
  ℕ, ◌+◌, ◌≡◌, ◌≢◌, refl, List, ◌∷◌, Option, none, some, ◌==◌, length, arith, inl, inr, ◌⊎◌,
  Option-cases, Bool-cases, ap, sym, ◌∙◌, subst, of_bytes,
}
use bdtun.Header.{sizeof_uintptr, bdtun_txreq_header_size}
use bdtun.Device.{Ret, ok, done, Bio, Addr, Entry, Heap, Machine, update}
use bdtun.Block.{bdtun_make_request}
use bdtun.Tunnel.Flags.{Kernel}
use bdtun.Tunnel.{returned, complete, bdtunch_write, serve_header, write_payload, copy_in, is_write}
use bdtun.Queue.{count}
use bdtun.System.{Fresh, is_live}
use bdtun.System.Cases.{count-head, choosing}
use bdtun.System.Valid.{
  IsValid, bdtun_make_request-IsValid, serve_header-IsValid, complete-IsValid,
  write_payload-IsValid,
}
use bdtun.System.Protocol.{first_live}
use bdtun.System.Broker.{broker, BrokerStep, Event, answered, nothing, stay}
use bdtun.System.Events.{number_of, submit_event, read_event}
use bdtun.System.Refinement.{
  submits-broker, serve_header-broker, complete-broker, write_payload-broker,
}
use bdtun.System.Threads.{
  Threads, idle, holding, moving, unlinked, uses, target, goes_to, end_section, ended_at,
  with_machine,
}
use bdtun.System.Sections.{
  IsApart, with_heap, agrees_live, agrees_on, relisted, submits-IsApart, fills-IsApart,
}
use bdtun.System.Turns.{ends-IsApart, leaves-IsApart}

-- A memory with which the threads are apart, and what the broker does meanwhile.
abbrev pub Refined : Threads → Heap → Event → Threads → Type 0
Refined s h event t =
    (g : Heap) × IsApart t g
    × BrokerStep (broker (with_heap s.machine h)) event (broker (with_heap t.machine g))

fresh_apart :
    (s : Threads) (h : Heap) (a : Addr) → IsApart s h → s.machine.heap a ≡ none → h a ≡ none
fresh_apart s h a x free = elim (x.agrees a) [ inl same ↦ same ∙ free | inr (gone, t, away) ↦ gone ]

pub submits-Refined :
    (s : Threads) (h : Heap) (slot : Option Addr) (jiffies : ℕ) (bio : Bio)
    → Fresh s.machine slot
    → IsApart s h
    → Refined s h
        (submit_event slot bio)
        (with_machine s (bdtun_make_request slot jiffies bio s.machine))
unfolding bdtun_make_request
submits-Refined s h none jiffies bio new x = (
  h,
  relisted x (bdtun_make_request none jiffies bio s.machine) refl
      (bdtun_make_request-IsValid (with_heap s.machine h) none jiffies bio tt x.valid),
  submits-broker (with_heap s.machine h) none jiffies bio tt x.valid,
)
submits-Refined s h (some a) jiffies bio new x =
    let e : Entry = record { bio = bio; start_time = jiffies } in
    let new' : Fresh (with_heap s.machine h) (some a) = (new.0, fresh_apart s h a x new.1) in
    (
      update h a (some e),
      submits-IsApart x a e (bdtun_make_request (some a) jiffies bio s.machine) new.1 refl
          (bdtun_make_request-IsValid (with_heap s.machine h) (some a) jiffies bio new' x.valid),
      submits-broker (with_heap s.machine h) (some a) jiffies bio new' x.valid,
    )

pub serve_header-Refined :
    (k : Kernel) (s : Threads) (h : Heap) (a : Addr) (rest : List Addr) {r : Ret} {bytes : List ℕ}
    {n : Machine}
    → s.machine.dev.incoming_bio_list ≡ a ∷ rest
    → serve_header k a s.machine ≡ done (returned r bytes n)
    → IsApart s h
    → Refined s h (read_event bdtun_txreq_header_size r) (with_machine s n)
unfolding serve_header
serve_header-Refined k s h a rest {r} {bytes} {n} p q x =
    let on : count a s.machine.dev.incoming_bio_list ≢ 0 = count-head a rest _ p in
    let (e, there, out, out') = first_live (with_heap s.machine h) a rest x.valid p in
    let live : s.machine.heap a ≡ some e = sym (agrees_live x a (ap is_live there)) ∙ there in
    let q' : serve_header k a (with_heap s.machine h) ≡ done (returned r bytes (with_heap n h)) =
      ground (arith, live, there) in
    (
      h,
      relisted x n (ground (arith, live))
          (serve_header-IsValid k a (with_heap s.machine h) on q' x.valid),
      serve_header-broker k (with_heap s.machine h) a rest p q',
    )

-- What a write of data does to the memory: nothing, or it replaces the current entry.
write_payload-cases :
    (missed : ℕ → ℕ → ℕ) (buf : List ℕ) (m : Machine) {r : Ret} {n : Machine}
    → write_payload missed buf m ≡ done (r, n)
    → (e : Entry) × (m.heap m.dev.data_current_bio ≡ some e)
      × ((n ≡ m)
          ⊎ ((f : Entry) × (n ≡ record m { heap = update m.heap m.dev.data_current_bio (some f) })
              × ((h : Heap)
                  → h m.dev.data_current_bio ≡ some e
                  → write_payload missed buf (with_heap m h)
                    ≡ done (r, with_heap m (update h m.dev.data_current_bio (some f))))))
unfolding write_payload
write_payload-cases missed buf m {r} {n} q = elim (Option-cases (m.heap m.dev.data_current_bio)) [
  | inl dead ↦ absurd (ground (arith, dead))
  | inr (e, live) ↦ (
    e,
    live,
    elim (Bool-cases (is_write e.bio.data_dir)) [
      | inl other ↦ inl (ground (arith, live, other))
      | inr reading ↦ elim (Bool-cases (length buf == e.bio.bi_size)) [
        | inr short ↦ inl (ground (arith, live, reading, short))
        | inl whole ↦ inr (
          record e { bio = record e.bio { segments = (copy_in missed e.bio.segments 0 buf).1 } },
          ground (arith, live, reading, whole),
          λ h there. ground (arith, live, there, reading, whole),
        )
      ]
    ],
  )
]

write_payload-Refined :
    (s : Threads) (h : Heap) (missed : ℕ → ℕ → ℕ) (buf : List ℕ) {r : Ret} {n : Machine}
    → ((t : ℕ) → s.pc t ≢ unlinked s.machine.dev.data_current_bio)
    → write_payload missed buf s.machine ≡ done (r, n)
    → IsApart s h
    → Refined s h nothing (with_machine s n)
write_payload-Refined s h missed buf {r} {n} kept q x =
    let m = s.machine in
    let a = m.dev.data_current_bio in
    let (e, live, what) = write_payload-cases missed buf m q in
    elim what [
      | inl same ↦ subst (λ z. Refined s h nothing (with_machine s z)) (sym same) (h, x, stay)
      | inr (f, filled, again) ↦
          let q' = again h (agrees_on x a kept ∙ live) in
          let next : Machine = record m { heap = update m.heap a (some f) } in
          let result : Refined s h nothing (with_machine s next) = (
            update h a (some f),
            fills-IsApart x a f next (ap is_live live) kept refl
                (write_payload-IsValid missed buf (with_heap m h) q' x.valid),
            write_payload-broker missed buf (with_heap m h) q',
          ) in
          subst (λ z. Refined s h nothing (with_machine s z)) (sym filled) result
    ]

pub chooses-Refined :
    (s : Threads) (h : Heap) (missed : ℕ → ℕ → ℕ) (jiffies : ℕ) (buf : List ℕ) {r : Ret}
    {n : Machine}
    → length buf ≡ sizeof_uintptr
    → bdtunch_write missed jiffies buf s.machine ≡ done (r, n)
    → IsApart s h
    → Refined s h nothing (with_machine s n)
unfolding bdtunch_write
chooses-Refined s h missed jiffies buf {r} {n} size q x =
    let next = choosing (of_bytes buf) s.machine in
    let chosen : next ≡ n = ground (arith, size) in
    let result : Refined s h nothing (with_machine s next) = (
      h,
      relisted x next refl (record { listed = x.valid.listed; no_null = x.valid.no_null }),
      stay,
    ) in
    subst (λ z. Refined s h nothing (with_machine s z)) chosen result

-- A thread whose entry is `a` moves data while another is the current one.
pub fills-Refined :
    (s : Threads) (h : Heap) (t : ℕ) (missed : ℕ → ℕ → ℕ) (buf : List ℕ) {a : Addr} {r : Ret}
    {n : Machine}
    → s.pc t ≡ moving a
    → write_payload missed buf (choosing a s.machine) ≡ done (r, n)
    → IsApart s h
    → Refined s h nothing
        (record { machine = choosing s.machine.dev.data_current_bio n; pc = goes_to t idle s.pc })
fills-Refined s h t missed buf {a} {r} {n} at q x =
    let there = choosing a s.machine in
    let y : IsApart (with_machine s there) h =
      relisted x there refl (record { listed = x.valid.listed; no_null = x.valid.no_null }) in
    let (g, z, b) = write_payload-Refined (with_machine s there) h missed buf kept q y in
    let back = choosing s.machine.dev.data_current_bio n in
    let w : IsApart (with_machine s back) g =
      relisted z back refl (record { listed = z.valid.listed; no_null = z.valid.no_null }) in
    (g, leaves-IsApart w t a at, b)
  where
    kept : (u : ℕ) → s.pc u ≢ unlinked a
    kept u away =
        let same : t ≡ u = x.apart t u a (ap target at) (ap target away) in
        ground (arith, at, away, same)

end_section-complete :
    (byte jiffies : ℕ) (a : Addr) (m : Machine) (h : Heap) {n : Machine}
    → h a ≡ m.heap a
    → end_section byte jiffies a m ≡ done n
    → (n.heap ≡ m.heap)
      × (complete byte jiffies (choosing a (with_heap m h))
          ≡ done (ok 1, choosing a (with_heap n (update h a none))))
unfolding end_section ended_at complete
end_section-complete byte jiffies a m h {n} same q = elim (Option-cases (m.heap a)) [
  | inl dead ↦ absurd (ground (arith, dead))
  | inr (e, live) ↦
      elim (Bool-cases (count a m.dev.incoming_bio_list + count a m.dev.pending_bio_list == 0)) [
        | inl off ↦ absurd (ground (arith, live, off))
        | inr on ↦ (ground (arith, live, on), ground (arith, live, same, on))
      ]
]

pub ends-Refined :
    (s : Threads) (h : Heap) (t jiffies : ℕ) {byte : ℕ} {a : Addr} {n : Machine}
    → s.pc t ≡ holding byte a
    → end_section byte jiffies a s.machine ≡ done n
    → IsApart s h
    → Refined s h
        (answered (number_of (s.machine.heap a)) (byte == 0))
        (record { machine = n; pc = goes_to t (unlinked a) s.pc })
ends-Refined s h t jiffies {byte} {a} {n} at q x =
    let same = agrees_live x a (x.held t a (ap uses at)) in
    let (kept, completes) = end_section-complete byte jiffies a s.machine h same q in
    let v : IsValid (choosing a (with_heap s.machine h)) = record {
      listed = x.valid.listed;
      no_null = x.valid.no_null;
    } in
    let w = complete-IsValid byte jiffies (choosing a (with_heap s.machine h)) completes v in
    (
      update h a none,
      ends-IsApart x t byte a n at kept (record { listed = w.listed; no_null = w.no_null }),
      subst
          (λ z.
            BrokerStep (broker (with_heap s.machine h)) (answered (number_of z) (byte == 0))
              (broker (with_heap n (update h a none))))
          same (complete-broker byte jiffies (choosing a (with_heap s.machine h)) completes v),
    )
