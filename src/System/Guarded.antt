-- ===== src/System/Guarded.antt =====
-- What a header read can rely on while it holds its lock (System/Locks).
use bdtun.Base.{
  ℕ, ◌≡◌, ◌≢◌, List, [], ◌∷◌, ◌++◌, none, some, arith, refl, inl, inr, Option-cases, ==_self,
  ==_iff, ap, ◌∙◌,
}
use bdtun.Header.{bdtun_txreq_header_size, txreq_bytes}
use bdtun.Device.{Ret, ok, done, oops, Addr, Entry, Machine, unlink, update}
use bdtun.Tunnel.Flags.{Kernel}
use bdtun.Tunnel.{returned, header_of, serve_header, complete, write_payload}
use bdtun.System.Cases.{count-head}
use bdtun.System.Valid.{
  IsValid, Step-IsValid, complete-IsValid, serve_header-IsValid, write_payload-IsValid,
}
use bdtun.System.Protocol.{first_live, completed}
use bdtun.System.Locks.{
  ListLock, ListStep, finds, serves, runs, fills, chooses, completes, ListHistory, at_once, and_so,
  KeepsOff, AllKeepOff, list_unlocked,
}

-- The entry that a reader has found is still the first.
record IsGuarded (s : ListLock) : Type 0 where
  valid : IsValid s.machine
  first :
      (a : Addr)
      → s.reader ≡ some a
      → (rest : List Addr) × (s.machine.dev.incoming_bio_list ≡ a ∷ rest)

-- A completion of another entry leaves the first where it is.
complete-first :
    (byte jiffies : ℕ) (a : Addr) (rest : List Addr) (m : Machine) {r : Ret} {n : Machine}
    → complete byte jiffies m ≡ done (r, n)
    → m.dev.incoming_bio_list ≡ a ∷ rest
    → a ≢ m.dev.data_current_bio
    → (left : List Addr) × (n.dev.incoming_bio_list ≡ a ∷ left)
unfolding complete
complete-first byte jiffies a rest m {n} q p other =
    elim (Option-cases (m.heap m.dev.data_current_bio)) [
      | inl dead ↦ absurd (ground (arith, dead))
      | inr (e, live) ↦
          let c = m.dev.data_current_bio in
          let taken : n.dev.incoming_bio_list ≡ unlink c m.dev.incoming_bio_list =
            ground (arith, live) in
          let kept : unlink c (a ∷ rest) ≡ a ∷ unlink c rest = ground (arith, other, ==_iff c a) in
          (unlink c rest, taken ∙ ap (unlink c) p ∙ kept)
    ]

write_payload-dev :
    (missed : ℕ → ℕ → ℕ) (buf : List ℕ) (m : Machine) {r : Ret} {n : Machine}
    → write_payload missed buf m ≡ done (r, n)
    → n.dev ≡ m.dev
unfolding write_payload
write_payload-dev missed buf m q = ground arith

ListStep-IsGuarded :
    {k : Kernel} {s t : ListLock} (step : ListStep k s t)
    → KeepsOff step
    → IsGuarded s
    → IsGuarded t
ListStep-IsGuarded (finds {a} {rest} p q) off g = record {
  valid = g.valid;
  first = λ b found. (rest, ground (arith, found, q));
}
ListStep-IsGuarded {k} {s} (serves {a} p q) off g =
    let (rest, there) = g.first a p in
    record {
      valid = serve_header-IsValid k a s.machine (count-head a rest _ there) q g.valid;
      first = λ b found. absurd (ground (arith, found));
    }
ListStep-IsGuarded (runs p step) off g = record {
  valid = Step-IsValid step g.valid;
  first = λ b found. absurd (ground (arith, found, p));
}
ListStep-IsGuarded {s} (fills missed buf q) off g =
    let same = write_payload-dev missed buf s.machine q in
    record {
      valid = write_payload-IsValid missed buf s.machine q g.valid;
      first = λ b found.
          let (rest, there) = g.first b found in (rest, ap (λ d. d.incoming_bio_list) same ∙ there);
    }
ListStep-IsGuarded (chooses a) off g = record {
  valid = record { listed = g.valid.listed; no_null = g.valid.no_null };
  first = g.first;
}
ListStep-IsGuarded {s} (completes byte jiffies q) off g = record {
  valid = complete-IsValid byte jiffies s.machine q g.valid;
  first = λ b found.
      let (rest, there) = g.first b found in
      complete-first byte jiffies b rest s.machine q there (λ same. off (found ∙ ap some same));
}

ListHistory-IsGuarded :
    {k : Kernel} {s t : ListLock} (past : ListHistory k s t)
    → AllKeepOff past
    → IsGuarded s
    → IsGuarded t
ListHistory-IsGuarded at_once off g = g
ListHistory-IsGuarded (and_so past step) off g =
    ListStep-IsGuarded step off.1 (ListHistory-IsGuarded past off.0 g)

-- In every history of a valid device whose incoming list's lock is free at the start, with any calls
-- between the two ends of a header read that do not wait for the lock that it holds: if no completion
-- runs meanwhile for the entry that it has found, that entry is alive and the first on its list until
-- the read ends, which returns its header, moves it behind the pending ones and changes no other.
pub found_kept :
    {k : Kernel} {m : Machine} {t : ListLock} (a : Addr) (past : ListHistory k (list_unlocked m) t)
    → AllKeepOff past
    → IsValid m
    → t.reader ≡ some a
    → (e : Entry) × (rest : List Addr) × (n : Machine) × (t.machine.heap a ≡ some e)
      × (t.machine.dev.incoming_bio_list ≡ a ∷ rest)
      × (serve_header k a t.machine
          ≡ done (returned (ok bdtun_txreq_header_size) (txreq_bytes (header_of k a e.bio)) n))
      × (n.dev.incoming_bio_list ≡ rest)
      × (n.dev.pending_bio_list ≡ t.machine.dev.pending_bio_list ++ a ∷ [])
      × (n.heap ≡ t.machine.heap)
unfolding serve_header unlink
found_kept {k} {m} {t} a past off v found =
    let g =
      ListHistory-IsGuarded past off
        (record { valid = v; first = λ b none_. absurd (ground (arith, none_)) }) in
    let (rest, there) = g.first a found in
    let (e, live, out, out') = first_live t.machine a rest g.valid there in
    (
      e,
      rest,
      record t.machine {
        dev = record t.machine.dev {
          incoming_bio_list = unlink a t.machine.dev.incoming_bio_list;
          pending_bio_list = t.machine.dev.pending_bio_list ++ a ∷ [];
        };
      },
      live,
      there,
      ground (arith, live),
      ap (unlink a) there ∙ ground (arith, ==_self a),
      refl,
      refl,
    )

serve_header-dead :
    (k : Kernel) (a : Addr) (m : Machine) → m.heap a ≡ none → serve_header k a m ≡ oops
unfolding serve_header
serve_header-dead k a m dead = ground (arith, dead)

-- A completion does not wait for that lock: while a header read holds it and has found the first
-- entry of a valid device, which is the current one, a completion can end the entry and free it, and
-- the read then follows the pointer to it.
pub found_freed :
    (k : Kernel) (byte jiffies : ℕ) (m : Machine) (rest : List Addr)
    → IsValid m
    → m.dev.incoming_bio_list ≡ m.dev.data_current_bio ∷ rest
    → (t : ListLock) × ListHistory k (list_unlocked m) t
      × (t.reader ≡ some m.dev.data_current_bio)
      × (serve_header k m.dev.data_current_bio t.machine ≡ oops)
unfolding complete update
found_freed k byte jiffies m rest v p =
    let (e, live, out, out') = first_live m m.dev.data_current_bio rest v p in
    let ends : complete byte jiffies m ≡ done (ok 1, completed e byte jiffies m) =
      ground (arith, live) in
    let gone : update m.heap m.dev.data_current_bio none m.dev.data_current_bio ≡ none =
      ground (arith, ==_self m.dev.data_current_bio) in
    (
      record { machine = completed e byte jiffies m; reader = some m.dev.data_current_bio },
      and_so (and_so at_once (finds refl p)) (completes byte jiffies ends),
      refl,
      serve_header-dead k m.dev.data_current_bio (completed e byte jiffies m) gone,
    )
