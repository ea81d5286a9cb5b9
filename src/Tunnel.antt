-- ===== src/Tunnel.antt =====
-- The tunnel end of a pair: the operations of its character device (kernel/bdtun.c: bdtunch_open,
-- bdtunch_release, bdtunch_read, bdtun_update_iostat, bdtunch_write, bdtunch_poll). User memory is
-- a list of bytes; the argument `missed` is what copy_to_user and copy_from_user return, the number of
-- bytes that they could not copy, for a position and a length.
pub mod Flags
pub mod FlagLaws
pub mod Data
pub mod Retry
pub mod Mapping
pub mod MappingLaws
pub mod Waiting
use bdtun.Base.{
  ℕ, ◌+◌, ◌-◌, replicate, ◌≡◌, Bool, true, false, List, [], ◌∷◌, ◌++◌, Option, none, some, ◌==◌,
  if◌then◌else◌, inc32, dec32, add64, sub64, mul64, length, take, drop, of_bytes,
}
use bdtun.Header.{TxReq, bdtun_txreq_header_size, sizeof_uintptr, txreq_bytes}
use bdtun.Device.{
  Errno, eio, eintr, ebusy, Ret, ok, err, Run, done, oops, ◌>>=◌, Dir, BioVec, Bio, Addr, Entry,
  DiskStats, on_dir, Bdtun, Heap, Machine, update, unlink,
}
use bdtun.Block.{kernel_sector_size, set_stats}
use Flags.{Kernel, bdtun_translate_bio_rw}

unfoldable pub bdtunch_open : Bdtun → Ret × Bdtun
bdtunch_open d =
    if d.removing == 0 then (ok 0, record d { ucnt = inc32 d.ucnt }) else (err ebusy, d)

-- `list_splice_tail_init` empties the pending list onto the end of the incoming list.
unfoldable pub bdtunch_release : Bdtun → Bdtun
bdtunch_release d = record d {
  incoming_bio_list = d.incoming_bio_list ++ d.pending_bio_list;
  pending_bio_list = [];
  ucnt = dec32 d.ucnt;
}

-- The entry at an address: the kernel oopses where none is alive.
unfoldable pub load : Heap → Addr → Run Entry
load h a = elim (h a) [ none ↦ oops | some e ↦ done e ]

-- How a read ends: with its result and the bytes that it wrote to the user, or still asleep.
pub data ReadEnd : Type 0 where
  returned : Ret → List ℕ → Machine → ReadEnd
  asleep : Machine → ReadEnd

-- What happens while a reader sleeps: what the other threads do, and whether a signal is pending.
pub record Wake : Type 0 where
  pub others : Machine → Machine
  pub signal_pending : Bool

unfoldable pub header_of : Kernel → Addr → Bio → TxReq
header_of k a bio = record {
  id = a;
  flags = bdtun_translate_bio_rw k bio.bi_rw;
  offset = mul64 bio.bi_sector kernel_sector_size;
  size = bio.bi_size;
}

-- The first incoming entry is handed out and moves to the end of the pending list.
unfoldable pub serve_header : Kernel → Addr → Machine → Run ReadEnd
unfolding load header_of
serve_header k a m = do
  e ← load m.heap a
  done (
      returned (ok bdtun_txreq_header_size) (txreq_bytes (header_of k a e.bio)) (record m {
        dev = record m.dev {
          incoming_bio_list = unlink a m.dev.incoming_bio_list;
          pending_bio_list = m.dev.pending_bio_list ++ a ∷ [];
        };
      }))

-- The loop at `out_list_is_empty`, over the times that the reader is woken.
unfoldable pub read_header : Kernel → List Wake → Machine → Run ReadEnd
unfolding serve_header
read_header k [] m = elim m.dev.incoming_bio_list [
  | [] ↦ done (asleep m)
  | a ∷ rest ↦ serve_header k a m
]
read_header k (w ∷ ws) m = elim m.dev.incoming_bio_list [
  | [] ↦
      if w.signal_pending
      then done (returned (err eintr) [] (w.others m))
      else read_header k ws (w.others m)
  | a ∷ rest ↦ serve_header k a m
]

abbrev pub segment_bytes : BioVec → List ℕ
segment_bytes v = take v.bv_len (drop v.bv_offset v.page)

-- The loop of `copy_to_user`: whether it came to its end, and the bytes copied.
unfoldable pub copy_out : (ℕ → ℕ → ℕ) → List BioVec → ℕ → Bool × List ℕ
copy_out missed [] pos = (true, [])
copy_out missed (v ∷ vs) pos =
    let (whole, bytes) = copy_out missed vs (pos + v.bv_len) in
    if missed pos v.bv_len == 0 then (whole, segment_bytes v ++ bytes) else (false, [])

abbrev pub is_write : Dir → Bool
is_write Dir.read = false
is_write Dir.write = true

unfoldable pub read_payload : (ℕ → ℕ → ℕ) → ℕ → Machine → Run ReadEnd
unfolding load copy_out
read_payload missed count m = do
  e ← load m.heap m.dev.data_current_bio
  if is_write e.bio.data_dir
      then (if count == e.bio.bi_size
          then (let (whole, bytes) = copy_out missed e.bio.segments 0 in
              done (returned (if whole then ok count else err eio) bytes m))
          else done (returned (err eio) [] m))
      else done (returned (err eio) [] m)

unfoldable pub bdtunch_read : Kernel → (ℕ → ℕ → ℕ) → List Wake → ℕ → Machine → Run ReadEnd
unfolding read_header read_payload
bdtunch_read k missed wakes count m =
    if count == bdtun_txreq_header_size then read_header k wakes m else read_payload missed count m

-- `part_stat_add` of the time passed, and `part_dec_in_flight`.
unfoldable pub bdtun_update_iostat : ℕ → Entry → DiskStats → DiskStats
bdtun_update_iostat jiffies e s = record s {
  ticks = on_dir (λ n. add64 n (sub64 jiffies e.start_time)) e.bio.data_dir s.ticks;
  in_flight = on_dir dec32 e.bio.data_dir s.in_flight;
}

-- The completion byte: a byte other than 0 fails the bio.
unfoldable pub complete : ℕ → ℕ → Machine → Run (Ret × Machine)
unfolding load bdtun_update_iostat set_stats unlink update
complete byte jiffies m = do
  let a = m.dev.data_current_bio
  e ← load m.heap a
  done (
    ok 1,
    record m {
      ended = (e.bio, if byte == 0 then none else some eio) ∷ m.ended;
      heap = update m.heap a none;
      dev = set_stats (bdtun_update_iostat jiffies e m.dev.bd_gd.part0) (record m.dev {
        incoming_bio_list = unlink a m.dev.incoming_bio_list;
        pending_bio_list = unlink a m.dev.pending_bio_list;
      });
    },
  )

abbrev pub fill_segment : BioVec → List ℕ → BioVec
fill_segment v bytes = record v {
  page = take v.bv_offset v.page ++ (bytes ++ drop (v.bv_offset + v.bv_len) v.page);
}

-- `n` bytes of which the last `left` could not be copied: `copy_from_user` puts zeros there.
unfoldable pub padded : ℕ → ℕ → List ℕ → List ℕ
padded left n bytes = take n (take (n - left) bytes ++ replicate n 0)

-- The loop of `copy_from_user`: whether it came to its end, and the segments it leaves.
unfoldable pub copy_in : (ℕ → ℕ → ℕ) → List BioVec → ℕ → List ℕ → Bool × List BioVec
unfolding padded
copy_in missed [] pos buf = (true, [])
copy_in missed (v ∷ vs) pos buf =
    let (whole, vs') = copy_in missed vs (pos + v.bv_len) buf in
    let left = missed pos v.bv_len in
    if left == 0
    then (whole, fill_segment v (take v.bv_len (drop pos buf)) ∷ vs')
    else (false, fill_segment v (padded left v.bv_len (drop pos buf)) ∷ vs)

unfoldable pub write_payload : (ℕ → ℕ → ℕ) → List ℕ → Machine → Run (Ret × Machine)
unfolding load copy_in update
write_payload missed buf m = do
  let a = m.dev.data_current_bio
  e ← load m.heap a
  if is_write e.bio.data_dir
      then done (err eio, m)
      else (if length buf == e.bio.bi_size
          then (let (whole, vs) = copy_in missed e.bio.segments 0 buf in
              done (
                if whole then ok (length buf) else err eio,
                record m {
                  heap = update m.heap a (some (record e { bio = record e.bio { segments = vs } }));
                },
              ))
          else done (err eio, m))

-- `buf` holds the `count` bytes written.
unfoldable pub bdtunch_write : (ℕ → ℕ → ℕ) → ℕ → List ℕ → Machine → Run (Ret × Machine)
unfolding complete write_payload
bdtunch_write missed jiffies buf m =
    if length buf == sizeof_uintptr
    then done
        (ok sizeof_uintptr, record m { dev = record m.dev { data_current_bio = of_bytes buf } })
    else (if length buf == 1 then complete (of_bytes buf) jiffies m else write_payload missed buf m)

-- POLLOUT and POLLWRNORM are `writable`, POLLIN and POLLRDNORM `readable`.
pub record PollMask : Type 0 where
  pub writable : Bool
  pub readable : Bool

unfoldable pub bdtunch_poll : Bdtun → PollMask
bdtunch_poll d = record {
  writable = true;
  readable = elim d.incoming_bio_list [ [] ↦ false | a ∷ rest ↦ true ];
}
