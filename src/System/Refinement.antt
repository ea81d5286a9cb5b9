-- ===== src/System/Refinement.antt =====
-- The device's memory and its handlers implement the broker.
use bdtun.Base.{
  ℕ, ◌+◌, ◌≡◌, ◌∙◌, refl, sym, Bool, false, List, [], ◌∷◌, ◌++◌, Option, none, some, inl, inr,
  arith, ◌==◌, ==_self, Bool-cases, Option-cases, if◌then◌else◌, length, of_bytes, subst, ap,
}
use mathlib.Core.Path.{ap₂}
use bdtun.Device.{eio, Ret, done, Bio, Addr, Entry, Heap, Machine, update, unlink}
use bdtun.Queue.{count}
use bdtun.Block.{bdtun_make_request, bdtun_open, bdtun_release}
use bdtun.Tunnel.Flags.{Kernel}
use bdtun.Tunnel.{
  returned, is_write, bdtunch_open, bdtunch_release, serve_header, complete, write_payload,
  bdtunch_write, copy_in,
}
use bdtun.System.{
  Fresh, Step, submits, reads, writes, opens_tunnel, closes_tunnel, opens_disk, closes_disk,
  History, start, then_step, with_dev, is_live,
}
use bdtun.System.Cases.{bdtunch_read-cases, bdtunch_write-cases}
use bdtun.System.Valid.{IsValid, History-IsValid}
use bdtun.System.Broker.{
  id_of, ids, is_good, marks, broker, Broker, BrokerStep, Event, took, answered, took_back, nothing,
  submit, refuse, take_first, answer_taken, answer_waiting, take_back, stay, BrokerHistory, begin,
  follow,
}
use bdtun.Header.{bdtun_txreq_header_size}
use bdtun.System.Events.{number_of, submit_event, read_event, write_event, step_event, events}
use bdtun.System.Numbers.{ids-append, ids-update, ids-replace, unlink_absent, ids-Removed}

labelled :
    {b c : Broker} {event event' : Event}
    → event ≡ event'
    → BrokerStep b event c
    → BrokerStep b event' c
labelled {b} {c} same step = subst (λ z. BrokerStep b z c) same step

-- A step to the broker of a machine, by its parts.
reaches :
    {b : Broker} {event : Event} (n : Machine) {w t : List ℕ} {e : List (ℕ × Bool)}
    → ids n.heap n.dev.incoming_bio_list ≡ w
    → ids n.heap n.dev.pending_bio_list ≡ t
    → marks n.ended ≡ e
    → BrokerStep b event (record { waiting = w; taken = t; ended = e })
    → BrokerStep b event (broker n)
reaches n p q r step = rw (p, q, r) step

ids-new : (h : Heap) (a : Addr) (e : Entry) → ids (update h a (some e)) (a ∷ []) ≡ e.bio.bio_id ∷ []
unfolding update
ids-new h a e = rw (==_self a) refl

pub submits-broker :
    (m : Machine) (slot : Option Addr) (jiffies : ℕ) (bio : Bio)
    → Fresh m slot
    → IsValid m
    → BrokerStep (broker m) (submit_event slot bio) (broker (bdtun_make_request slot jiffies bio m))
unfolding bdtun_make_request
submits-broker m none jiffies bio new v = refuse bio.bio_id
submits-broker m (some a) jiffies bio new v =
    let e : Entry = record { bio = bio; start_time = jiffies } in
    let heap = update m.heap a (some e) in
    let absent : count a m.dev.incoming_bio_list + count a m.dev.pending_bio_list ≡ 0 =
      v.listed a ∙ ap is_live new.1 in
    reaches (bdtun_make_request (some a) jiffies bio m)
      (ids-append heap m.dev.incoming_bio_list (a ∷ [])
        ∙ ap₂ ◌++◌ (ids-update m.heap a (some e) m.dev.incoming_bio_list (omega (arith, absent)))
            (ids-new m.heap a e))
      (ids-update m.heap a (some e) m.dev.pending_bio_list (omega (arith, absent))) refl
      (submit bio.bio_id)

pub serve_header-broker :
    (k : Kernel) (m : Machine) (a : Addr) (rest : List Addr) {r : Ret} {bytes : List ℕ}
    {n : Machine}
    → m.dev.incoming_bio_list ≡ a ∷ rest
    → serve_header k a m ≡ done (returned r bytes n)
    → BrokerStep (broker m) (read_event bdtun_txreq_header_size r) (broker n)
unfolding serve_header unlink
serve_header-broker k m a rest {r} {n} p q = elim (Option-cases (m.heap a)) [
  | inl dead ↦ absurd (ground (arith, dead))
  | inr (e, live) ↦
      let served : Machine = record m {
        dev = record m.dev {
          incoming_bio_list = unlink a m.dev.incoming_bio_list;
          pending_bio_list = m.dev.pending_bio_list ++ a ∷ [];
        };
      } in
      let same : served ≡ n = ground (arith, live) in
      let kept : took ≡ read_event bdtun_txreq_header_size r = ground (arith, live) in
      let left : unlink a (a ∷ rest) ≡ rest = ground (arith, ==_self a) in
      subst (λ z. BrokerStep (broker m) (read_event bdtun_txreq_header_size r) (broker z)) same
        (labelled kept (
          reaches served (ap (λ l. ids m.heap (unlink a l)) p ∙ ap (ids m.heap) left)
            (ids-append m.heap m.dev.pending_bio_list (a ∷ [])
              ∙ ap (λ o. ids m.heap m.dev.pending_bio_list ++ id_of o []) live)
            refl (take_first (ap (ids m.heap) p ∙ ap (λ o. id_of o (ids m.heap rest)) live))))
]

is_good-byte : (byte : ℕ) → is_good (if byte == 0 then none else some eio) ≡ (byte == 0)
is_good-byte byte = elim (Bool-cases (byte == 0)) [
  | inl zero ↦ rw zero refl
  | inr other ↦ rw other refl
]

pub complete-broker :
    (byte jiffies : ℕ) (m : Machine) {r : Ret} {n : Machine}
    → complete byte jiffies m ≡ done (r, n)
    → IsValid m
    → BrokerStep
        (broker m)
        (answered (number_of (m.heap m.dev.data_current_bio)) (byte == 0))
        (broker n)
unfolding complete
complete-broker byte jiffies m {n} q v =
    let a = m.dev.data_current_bio in
    let inc = m.dev.incoming_bio_list in
    let pend = m.dev.pending_bio_list in
    elim (Option-cases (m.heap a)) [
      | inl dead ↦ absurd (ground (arith, dead))
      | inr (e, live) ↦
          let good = is_good (if byte == 0 then none else some eio) in
          let once : count a inc + count a pend ≡ 1 = v.listed a ∙ ap is_live live in
          let w : n.dev.incoming_bio_list ≡ unlink a inc = ground (arith, live) in
          let t : n.dev.pending_bio_list ≡ unlink a pend = ground (arith, live) in
          let h : n.heap ≡ update m.heap a none = ground (arith, live) in
          let ends : n.ended ≡ (e.bio, if byte == 0 then none else some eio) ∷ m.ended =
            ground (arith, live) in
          let d : marks n.ended ≡ (e.bio.bio_id, good) ∷ marks m.ended = ap marks ends in
          let named : answered e.bio.bio_id good ≡ answered (number_of (m.heap a)) (byte == 0) =
            ap₂ answered (ap number_of (sym live)) (is_good-byte byte) in
          labelled named (elim (Bool-cases (count a inc == 0)) [
            | inl out ↦
                reaches n
                  (ap₂ ids h (w ∙ unlink_absent a inc (ground arith))
                    ∙ ids-update m.heap a none inc (ground arith))
                  (ap₂ ids h t) d
                  (answer_taken good (ids-Removed m.heap a e pend live (ground arith)))
            | inr on ↦
                reaches n (ap₂ ids h w)
                  (ap₂ ids h (t ∙ unlink_absent a pend (ground arith))
                    ∙ ids-update m.heap a none pend (ground arith))
                  d (answer_waiting good (ids-Removed m.heap a e inc live (ground arith)))
          ])
    ]

pub write_payload-broker :
    (missed : ℕ → ℕ → ℕ) (buf : List ℕ) (m : Machine) {r : Ret} {n : Machine}
    → write_payload missed buf m ≡ done (r, n)
    → BrokerStep (broker m) nothing (broker n)
unfolding write_payload
write_payload-broker missed buf m {n} q = elim (Option-cases (m.heap m.dev.data_current_bio)) [
  | inl dead ↦ absurd (ground (arith, dead))
  | inr (e, live) ↦
      let a = m.dev.data_current_bio in
      let filled : Entry = record e {
        bio = record e.bio { segments = (copy_in missed e.bio.segments 0 buf).1 };
      } in
      let dev : n.dev ≡ m.dev = ground (arith, live) in
      let ended : marks n.ended ≡ marks m.ended = ap marks (ground (arith, live)) in
      let unchanged : n.heap ≡ m.heap → BrokerStep (broker m) nothing (broker n) = λ h.
        reaches n (ap₂ ids h (ap (λ x. x.incoming_bio_list) dev))
          (ap₂ ids h (ap (λ x. x.pending_bio_list) dev)) ended stay in
      elim (Bool-cases (is_write e.bio.data_dir)) [
        | inl other ↦ unchanged (ground (arith, live, other))
        | inr reading ↦ elim (Bool-cases (length buf == e.bio.bi_size)) [
          | inr short ↦ unchanged (ground (arith, live, reading, short))
          | inl whole ↦
              let h : n.heap ≡ update m.heap a (some filled) =
                ground (arith, live, reading, whole) in
              reaches n
                (ap₂ ids h (ap (λ x. x.incoming_bio_list) dev)
                  ∙ ids-replace m.heap a e filled m.dev.incoming_bio_list live refl)
                (ap₂ ids h (ap (λ x. x.pending_bio_list) dev)
                  ∙ ids-replace m.heap a e filled m.dev.pending_bio_list live refl)
                ended stay
        ]
      ]
]

bdtunch_write-broker :
    (missed : ℕ → ℕ → ℕ) (jiffies : ℕ) (buf : List ℕ) (m : Machine) {r : Ret} {n : Machine}
    → bdtunch_write missed jiffies buf m ≡ done (r, n)
    → IsValid m
    → BrokerStep (broker m) (write_event buf m) (broker n)
bdtunch_write-broker missed jiffies buf m e v = elim (bdtunch_write-cases missed jiffies buf m e) [
  | inl (same, other) ↦
      labelled (silent other) (subst (λ z. BrokerStep (broker m) nothing (broker z)) same stay)
  | inr (inl (completes, one)) ↦
      labelled (rw one refl) (complete-broker (of_bytes buf) jiffies m completes v)
  | inr (inr (fills, other)) ↦ labelled (silent other) (write_payload-broker missed buf m fills)
]
  where
    silent : (length buf == 1) ≡ false → nothing ≡ write_event buf m
    silent other = rw other refl

pub closes_tunnel-broker :
    (m : Machine) → BrokerStep (broker m) took_back (broker (with_dev m (bdtunch_release m.dev)))
unfolding bdtunch_release
closes_tunnel-broker m =
    reaches (with_dev m (bdtunch_release m.dev))
      (ids-append m.heap m.dev.incoming_bio_list m.dev.pending_bio_list) refl refl take_back

pub opened-broker :
    (m : Machine)
    → BrokerStep (broker m) nothing (broker (with_dev m (bdtunch_open m.dev).1))
      × BrokerStep (broker m) nothing (broker (with_dev m (bdtun_open m.dev).1))
      × BrokerStep (broker m) nothing (broker (with_dev m (bdtun_release m.dev)))
unfolding bdtunch_open bdtun_open bdtun_release
opened-broker m = (
  reaches (with_dev m (bdtunch_open m.dev).1) (ap (ids m.heap) (ground arith))
      (ap (ids m.heap) (ground arith)) refl stay,
  reaches (with_dev m (bdtun_open m.dev).1) (ap (ids m.heap) (ground arith))
      (ap (ids m.heap) (ground arith)) refl stay,
  stay,
)

Step-broker :
    {k : Kernel} {m n : Machine} {bios : List Bio} (step : Step k m bios n)
    → IsValid m
    → BrokerStep (broker m) (step_event step) (broker n)
Step-broker {m} (submits slot jiffies bio new) v = submits-broker m slot jiffies bio new v
Step-broker {k} {m} (reads missed size e) v = elim (bdtunch_read-cases k missed size m e) [
  | inl (same, other) ↦
      labelled (rw other refl) (subst (λ z. BrokerStep (broker m) nothing (broker z)) same stay)
  | inr (a, rest, p, q, header) ↦ labelled (rw header refl) (serve_header-broker k m a rest p q)
]
Step-broker {m} (writes missed jiffies buf e) v = bdtunch_write-broker missed jiffies buf m e v
Step-broker {m} opens_tunnel v = (opened-broker m).0
Step-broker {m} closes_tunnel v = closes_tunnel-broker m
Step-broker {m} opens_disk v = (opened-broker m).1
Step-broker {m} closes_disk v = (opened-broker m).2

-- Every history of a device, with any calls in any order, is one of the broker by the events of those
-- calls, if each live entry is on exactly one list, once, at the start: a submission puts its bio
-- behind those that wait, or refuses it where there is no memory; a header read hands the first to
-- the client; a completion byte answers the current bio once, out of either list, with the byte's
-- result; a close of the tunnel lets those taken wait again, in order and behind the others; and no
-- other call does anything to it.
pub History-refines :
    {k : Kernel} {m n : Machine} {bios : List Bio} (h : History k m bios n)
    → IsValid m
    → BrokerHistory (broker m) (events h) (broker n)
History-refines start v = begin
History-refines (then_step h s) v =
    follow (History-refines h v) (Step-broker s (History-IsValid h v))
