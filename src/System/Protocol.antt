-- ===== src/System/Protocol.antt =====
-- A client of the tunnel device that follows the protocol, and one that does not.
use bdtun.Base.{
  ℕ, ◌^◌, ◌<◌, ◌≡◌, ◌≢◌, refl, ap, true, false, List, [], ◌∷◌, ◌++◌, Option, none, some, arith,
  ◌==◌, ==_self, if◌then◌else◌, length, take, to_bytes, of_bytes, of_bytes-to_bytes,
  length-to_bytes, Option-cases, inl, inr, ◌⊎◌,
}
use bdtun.Header.{bdtun_txreq_header_size, sizeof_uintptr, txreq_bytes}
use bdtun.Block.{set_stats}
use bdtun.Device.{Errno, eio, ok, Ret, done, oops, Addr, Entry, Machine, update, unlink}
use bdtun.Tunnel.Flags.{Kernel}
use bdtun.Tunnel.{
  returned, asleep, header_of, serve_header, read_header, bdtunch_read, bdtun_update_iostat,
  complete, write_payload, bdtunch_write, bdtunch_poll,
}
use bdtun.Queue.{count}
use bdtun.System.Valid.{IsValid}

pub unlink_absent : (a : Addr) (xs : List Addr) → count a xs ≡ 0 → unlink a xs ≡ xs
unfolding unlink
unlink_absent a [] h = refl
unlink_absent a (x ∷ xs) h = ground (arith, unlink_absent a xs)

pub unlink_last : (a : Addr) (xs : List Addr) → count a xs ≡ 0 → unlink a (xs ++ a ∷ []) ≡ xs
unfolding unlink
unlink_last a [] h = ground (arith, ==_self a)
unlink_last a (x ∷ xs) h = ground (arith, unlink_last a xs)

-- In a valid machine a header read finds the first incoming entry alive.
pub first_live :
    (m : Machine) (a : Addr) (rest : List Addr)
    → IsValid m
    → m.dev.incoming_bio_list ≡ a ∷ rest
    → (e : Entry) × (m.heap a ≡ some e) × (count a rest ≡ 0) × (count a m.dev.pending_bio_list ≡ 0)
first_live m a rest v p = elim (Option-cases (m.heap a)) [
  | inl dead ↦ absurd (ground (arith, v.listed a, ==_self a, ap (count a) p))
  | inr (e, live) ↦ (
    e,
    live,
    ground (arith, v.listed a, ==_self a, ap (count a) p),
    ground (arith, v.listed a, ==_self a, ap (count a) p),
  )
]

-- A machine after its first incoming entry was handed out.
abbrev pub served : Addr → List Addr → Machine → Machine
served a rest m = record m {
  dev = record m.dev {
    incoming_bio_list = rest;
    pending_bio_list = m.dev.pending_bio_list ++ a ∷ [];
  };
}

pub serve_header_first :
    (k : Kernel) (m : Machine) (a : Addr) (rest : List Addr) (e : Entry)
    → m.dev.incoming_bio_list ≡ a ∷ rest
    → m.heap a ≡ some e
    → serve_header k a m
      ≡ done (returned (ok 32) (txreq_bytes (header_of k a e.bio)) (served a rest m))
unfolding serve_header unlink
serve_header_first k m a rest e p live = ground (arith, ==_self a)

abbrev pub status : ℕ → Option Errno
status byte = if byte == 0 then none else some eio

-- A machine after a completion byte for its current bio.
abbrev pub completed : Entry → ℕ → ℕ → Machine → Machine
completed e byte jiffies m = record m {
  ended = (e.bio, status byte) ∷ m.ended;
  heap = update m.heap m.dev.data_current_bio none;
  dev = set_stats (bdtun_update_iostat jiffies e m.dev.bd_gd.part0) (record m.dev {
    incoming_bio_list = unlink m.dev.data_current_bio m.dev.incoming_bio_list;
    pending_bio_list = unlink m.dev.data_current_bio m.dev.pending_bio_list;
  });
}

pub bdtunch_write-completed :
    (missed : ℕ → ℕ → ℕ) (jiffies byte : ℕ) (m : Machine) {e : Entry}
    → m.heap m.dev.data_current_bio ≡ some e
    → bdtunch_write missed jiffies (byte ∷ []) m ≡ done (ok 1, completed e byte jiffies m)
unfolding bdtunch_write of_bytes
bdtunch_write-completed missed jiffies byte m live = ground (arith, live)

-- What is left once a client has answered the first incoming bio.
unfoldable pub answered : Kernel → Addr → List Addr → Entry → ℕ → ℕ → Machine → Machine
unfolding set_stats bdtun_update_iostat
answered k a rest e byte jiffies m = record m {
  ended = (e.bio, status byte) ∷ m.ended;
  heap = update m.heap a none;
  dev =
      set_stats (bdtun_update_iostat jiffies e m.dev.bd_gd.part0)
        (record m.dev { incoming_bio_list = rest; data_current_bio = a });
}

pub choose_and_complete :
    (k : Kernel) (missed : ℕ → ℕ → ℕ) (jiffies byte : ℕ) (m : Machine) (a : Addr) (rest : List Addr)
    (e : Entry)
    → m.heap a ≡ some e
    → count a rest ≡ 0
    → count a m.dev.pending_bio_list ≡ 0
    → a < 2 ^ 64
    → (n : Machine) × (bdtunch_write missed jiffies (to_bytes 8 a) (served a rest m)
        ≡ done (ok 8, n))
      × (bdtunch_write missed jiffies (byte ∷ []) n
          ≡ done (ok 1, answered k a rest e byte jiffies m))
unfolding bdtunch_write answered of_bytes
choose_and_complete k missed jiffies byte m a rest e live out out' small = (
  record m {
    dev = record m.dev {
      incoming_bio_list = rest;
      pending_bio_list = m.dev.pending_bio_list ++ a ∷ [];
      data_current_bio = a;
    };
  },
  ground (arith, length-to_bytes 8 a, of_bytes-to_bytes 8 a),
  ground (arith, live, unlink_absent a rest out, unlink_last a m.dev.pending_bio_list out'),
)

-- What becomes of the first incoming entry `a` of `m` when a client reads a header, chooses the
-- request by the header's first eight bytes and writes the completion byte `byte`.
abbrev pub FirstAnswered : Kernel → (ℕ → ℕ → ℕ) → ℕ → ℕ → Machine → Addr → List Addr → Type 0
FirstAnswered k missed jiffies byte m a rest =
    (e : Entry) × (header : List ℕ) × (n o p : Machine) × (m.heap a ≡ some e)
    × (bdtunch_read k missed [] bdtun_txreq_header_size m ≡ done (returned (ok 32) header n))
    × (header ≡ txreq_bytes (header_of k a e.bio))
    × (bdtunch_write missed jiffies (take 8 header) n ≡ done (ok 8, o))
    × (bdtunch_write missed jiffies (byte ∷ []) o ≡ done (ok 1, p))
    × (p.ended ≡ (e.bio, (if byte == 0 then none else some eio)) ∷ m.ended)
    × (p.heap ≡ update m.heap a none)
    × (p.dev.incoming_bio_list ≡ rest)
    × (p.dev.pending_bio_list ≡ m.dev.pending_bio_list)

-- In a valid machine with a first incoming entry `a`, a client that reads a header, chooses the
-- request by the id in the header's first eight bytes and writes a completion byte: each call
-- succeeds, the header is that of the entry's bio, and in the end that bio is ended, without an
-- error for byte 0 and with EIO for any other; the entry is freed and on no list, and the other
-- entries stand as they did.
pub answer_first :
    (k : Kernel) (missed : ℕ → ℕ → ℕ) (jiffies byte : ℕ) (m : Machine) (a : Addr) (rest : List Addr)
    → IsValid m
    → m.dev.incoming_bio_list ≡ a ∷ rest
    → a < 2 ^ 64
    → FirstAnswered k missed jiffies byte m a rest
unfolding bdtunch_read read_header answered txreq_bytes to_bytes header_of
answer_first k missed jiffies byte m a rest v p small =
    let (e, live, out, out') = first_live m a rest v p in
    let (o, chosen, completed) =
      choose_and_complete k missed jiffies byte m a rest e live out out' small in
    (
      e,
      txreq_bytes (header_of k a e.bio),
      served a rest m,
      o,
      answered k a rest e byte jiffies m,
      live,
      ground (arith, serve_header_first k m a rest e p live),
      refl,
      chosen,
      completed,
      refl,
      refl,
      refl,
      refl,
    )

-- After a completion, a second completion byte, or data, with no request chosen in between makes
-- the kernel follow the pointer to the entry that the first one freed.
complete_again :
    (missed missed' : ℕ → ℕ → ℕ) (jiffies later byte : ℕ) (buf : List ℕ) (m : Machine) {r : Ret}
    {n : Machine}
    → bdtunch_write missed jiffies (byte ∷ []) m ≡ done (r, n)
    → length buf ≢ sizeof_uintptr
    → bdtunch_write missed' later buf n ≡ oops
unfolding bdtunch_write complete write_payload
complete_again missed missed' jiffies later byte buf m e size =
    ground (arith, ==_self m.dev.data_current_bio)

-- In a valid machine, poll reports a device as readable exactly when a header read without a wait
-- returns a header; otherwise that read goes to sleep and changes nothing.
pub bdtunch_poll-readable :
    (k : Kernel) (missed : ℕ → ℕ → ℕ) (m : Machine)
    → IsValid m
    → ((bdtunch_poll m.dev).readable ≡ true)
        × ((header : List ℕ) × (n : Machine) × (bdtunch_read k missed [] bdtun_txreq_header_size m
              ≡ done (returned (ok 32) header n)))
      ⊎ ((bdtunch_poll m.dev).readable ≡ false)
        × (bdtunch_read k missed [] bdtun_txreq_header_size m ≡ done (asleep m))
unfolding bdtunch_read read_header bdtunch_poll
bdtunch_poll-readable k missed m v = go m.dev.incoming_bio_list refl
  where
    go :
        (xs : List Addr)
        → m.dev.incoming_bio_list ≡ xs
        → ((bdtunch_poll m.dev).readable ≡ true)
            × ((header : List ℕ) × (n : Machine) × (bdtunch_read k missed [] bdtun_txreq_header_size
                    m
                  ≡ done (returned (ok 32) header n)))
          ⊎ ((bdtunch_poll m.dev).readable ≡ false)
            × (bdtunch_read k missed [] bdtun_txreq_header_size m ≡ done (asleep m))
    go [] p = inr (ground arith, ground arith)
    go (a ∷ rest) p =
        let (e, live, out, out') = first_live m a rest v p in
        inl (
          ground arith,
          (
            txreq_bytes (header_of k a e.bio),
            served a rest m,
            ground (arith, serve_header_first k m a rest e p live),
          ),
        )
