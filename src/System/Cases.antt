-- ===== src/System/Cases.antt =====
-- What a call of the tunnel device's read and write that returns has done (kernel/bdtun.c: bdtunch_read,
-- bdtunch_write).
use bdtun.Base.{
  ℕ, ◌≡◌, ◌≢◌, refl, true, false, List, [], ◌∷◌, arith, ◌==◌, ==_self, inl, inr, Bool-cases, length,
  of_bytes, ◌⊎◌,
}
use bdtun.Header.{bdtun_txreq_header_size, sizeof_uintptr}
use bdtun.Device.{Ret, done, Addr, Machine}
use bdtun.Tunnel.Flags.{Kernel}
use bdtun.Tunnel.{
  returned, serve_header, read_payload, bdtunch_read, read_header, complete, write_payload,
  bdtunch_write,
}
use bdtun.Queue.{count}

read_payload-same :
    (missed : ℕ → ℕ → ℕ) (size : ℕ) (m : Machine) {r : Ret} {bytes : List ℕ} {n : Machine}
    → read_payload missed size m ≡ done (returned r bytes n)
    → m ≡ n
unfolding read_payload
read_payload-same missed size m e = ground arith

-- A read without a wait leaves the machine as it was, or asks for a header and serves the first.
pub bdtunch_read-cases :
    (k : Kernel) (missed : ℕ → ℕ → ℕ) (size : ℕ) (m : Machine) {r : Ret} {bytes : List ℕ}
    {n : Machine}
    → bdtunch_read k missed [] size m ≡ done (returned r bytes n)
    → ((m ≡ n) × ((size == bdtun_txreq_header_size) ≡ false))
      ⊎ ((a : Addr) × (rest : List Addr) × (m.dev.incoming_bio_list ≡ a ∷ rest)
          × (serve_header k a m ≡ done (returned r bytes n))
          × ((size == bdtun_txreq_header_size) ≡ true))
unfolding bdtunch_read read_header
bdtunch_read-cases k missed size m {r} {bytes} {n} e =
    elim (Bool-cases (size == bdtun_txreq_header_size)) [
      | inl header ↦
          let (a, rest, p, q) = go m.dev.incoming_bio_list refl (rw (header, bdtunch_read) at e) in
          inr (a, rest, p, q, header)
      | inr other ↦ inl (read_payload-same missed size m (rw (other, bdtunch_read) at e), other)
    ]
  where
    go :
        (xs : List Addr)
        → m.dev.incoming_bio_list ≡ xs
        → read_header k [] m ≡ done (returned r bytes n)
        → (a : Addr) × (rest : List Addr) × (m.dev.incoming_bio_list ≡ a ∷ rest)
          × (serve_header k a m ≡ done (returned r bytes n))
    go [] p q = absurd (ground arith)
    go (a ∷ rest) p q = (a, rest, p, ground arith)

pub count-head : (a : Addr) (rest : List Addr) (xs : List Addr) → xs ≡ a ∷ rest → count a xs ≢ 0
count-head a rest xs e = rw e (ground (arith, ==_self a))

-- A machine whose current entry is at `a`.
abbrev pub choosing : Addr → Machine → Machine
choosing a m = record m { dev = record m.dev { data_current_bio = a } }

-- A write chooses an entry, completes the current one, or carries data.
pub bdtunch_write-cases :
    (missed : ℕ → ℕ → ℕ) (jiffies : ℕ) (buf : List ℕ) (m : Machine) {r : Ret} {n : Machine}
    → bdtunch_write missed jiffies buf m ≡ done (r, n)
    → ((choosing (of_bytes buf) m ≡ n) × ((length buf == 1) ≡ false))
      ⊎ ((complete (of_bytes buf) jiffies m ≡ done (r, n)) × ((length buf == 1) ≡ true))
      ⊎ ((write_payload missed buf m ≡ done (r, n)) × ((length buf == 1) ≡ false))
unfolding bdtunch_write
bdtunch_write-cases missed jiffies buf m e = elim (Bool-cases (length buf == sizeof_uintptr)) [
  | inl chooses ↦ inl (ground (arith, chooses), ground (arith, chooses))
  | inr other ↦ elim (Bool-cases (length buf == 1)) [
    | inl completes ↦ inr (inl (rw (other, bdtunch_write, completes) at e, completes))
    | inr fills ↦ inr (inr (rw (other, bdtunch_write, fills) at e, fills))
  ]
]
