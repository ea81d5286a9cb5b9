-- ===== src/Client/Transfer.antt =====
-- A request of the block device, from the client that takes it to the bio that is ended, with its data
-- (lib/libbdtun.c: bdtun_read_request, bdtun_set_request, bdtun_get_request_data,
-- bdtun_send_request_data, bdtun_complete_request; kernel/bdtun.c: bdtunch_read, bdtunch_write).
use bdtun.Base.{
  ℕ, ◌^◌, ◌<◌, ◌≤◌, ◌≡◌, ◌≢◌, refl, ◌∙◌, ap, List, [], ◌∷◌, ◌++◌, none, some, arith, to_bytes,
  of_bytes-to_bytes, take, length, length-take, length-to_bytes, ==_self,
}
use bdtun.Base.Int.{pos}
use bdtun.Header.{TxReq, txreq_bytes, txreq_of_bytes}
use bdtun.Device.{ok, done, Dir, BioVec, Addr, Entry, Machine, update}
use bdtun.Block.{set_stats}
use bdtun.Tunnel.Flags.{Kernel}
use bdtun.Tunnel.{header_of, bdtunch_read, bdtunch_write}
use bdtun.Tunnel.Data.{content, total, AllFit, bdtunch_write-content, bdtunch_read-content}
use bdtun.System.Valid.{IsValid}
use bdtun.System.Protocol.{
  served, serve_header_first, first_live, completed, bdtunch_write-completed, unlink_absent,
  unlink_last,
}
use bdtun.Client.{
  bdtun_read_request, bdtun_set_request, bdtun_get_request_data, bdtun_send_request_data,
  bdtun_complete_request,
}
use bdtun.Client.Link.{tunnel_fd}
use bdtun.Client.Requests.{id_of_header}

size_of_header : (r : TxReq) → r.size < 2 ^ 64 → (txreq_of_bytes (txreq_bytes r)).size ≡ r.size
unfolding txreq_of_bytes txreq_bytes to_bytes
size_of_header r h = of_bytes-to_bytes 8 r.size h

-- A machine whose first incoming entry was handed out and chosen.
abbrev chosen : Addr → List Addr → Machine → Machine
chosen a rest m = record m {
  dev = record m.dev {
    incoming_bio_list = rest;
    pending_bio_list = m.dev.pending_bio_list ++ a ∷ [];
    data_current_bio = a;
  };
}

module _ (k : Kernel) (jiffies : ℕ) where
  reads_first :
      (m : Machine) (a : Addr) (rest : List Addr) (e : Entry)
      → m.dev.incoming_bio_list ≡ a ∷ rest
      → m.heap a ≡ some e
      → bdtun_read_request (tunnel_fd k jiffies) m
        ≡ done (pos 0, txreq_bytes (header_of k a e.bio), served a rest m)
  unfolding bdtun_read_request bdtunch_read
  reads_first m a rest e p live = ground (arith, serve_header_first k m a rest e p live)

  sets_first :
      (m : Machine) (a : Addr) (rest : List Addr) (req : TxReq)
      → req.id ≡ a
      → a < 2 ^ 64
      → bdtun_set_request (tunnel_fd k jiffies) req (served a rest m)
        ≡ done (pos 0, chosen a rest m)
  unfolding bdtun_set_request bdtunch_write
  sets_first m a rest req same small =
      ground (arith, same, length-to_bytes 8 a, of_bytes-to_bytes 8 a small)

  completes_chosen :
      (m : Machine) {e : Entry}
      → m.heap m.dev.data_current_bio ≡ some e
      → bdtun_complete_request (tunnel_fd k jiffies) m ≡ done (pos 0, completed e 0 jiffies m)
  unfolding bdtun_complete_request
  completes_chosen m live = rw (bdtunch_write-completed (λ at n. 0) jiffies 0 m live)

  send_done :
      (m n : Machine) (req : TxReq) (buf : List ℕ)
      → bdtunch_write (λ at n. 0) jiffies (take req.size buf) m ≡ done (ok req.size, n)
      → bdtun_send_request_data (tunnel_fd k jiffies) req buf m ≡ done (pos 0, n)
  unfolding bdtun_send_request_data
  send_done m n req buf writes = ground (arith, writes, ==_self req.size)

  sends_chosen :
      (m : Machine) (req : TxReq) (buf : List ℕ) (e : Entry)
      → m.heap m.dev.data_current_bio ≡ some e
      → req.size ≡ e.bio.bi_size
      → e.bio.data_dir ≡ Dir.read
      → AllFit e.bio.segments
      → total e.bio.segments ≡ e.bio.bi_size
      → e.bio.bi_size ≤ length buf
      → 9 ≤ e.bio.bi_size
      → (vs : List BioVec) × (bdtun_send_request_data (tunnel_fd k jiffies) req buf m
          ≡ done (
            pos 0,
            record m {
              heap =
                  update m.heap m.dev.data_current_bio
                    (some (record e { bio = record e.bio { segments = vs } }));
            },
          ))
        × (content vs ≡ take e.bio.bi_size buf)
  sends_chosen m req buf e live same dir fits sum enough long =
      let whole : length (take req.size buf) ≡ req.size =
        omega (arith, length-take req.size buf, same) in
      let (vs, writes, holds) =
        bdtunch_write-content (λ at n. 0) jiffies (take req.size buf) m (λ at n. refl) live dir fits
          sum (whole ∙ same) (omega (arith, same)) in
      let filled : Machine = record m {
        heap =
            update m.heap m.dev.data_current_bio
              (some (record e { bio = record e.bio { segments = vs } }));
      } in
      (
        vs,
        send_done m filled req buf (writes ∙ ap (λ n. done (ok n, filled)) whole),
        holds ∙ ap (λ n. take n buf) same,
      )

  gets_chosen :
      (m : Machine) (req : TxReq) (e : Entry)
      → m.heap m.dev.data_current_bio ≡ some e
      → req.size ≡ e.bio.bi_size
      → e.bio.data_dir ≡ Dir.write
      → e.bio.bi_size ≢ 32
      → bdtun_get_request_data (tunnel_fd k jiffies) req m ≡ done (pos 0, content e.bio.segments, m)
  unfolding bdtun_get_request_data
  gets_chosen m req e live same dir other = ground (
    arith,
    same,
    bdtunch_read-content k (λ at n. 0) [] m (λ at n. refl) live dir other,
    ==_self e.bio.bi_size,
  )

  -- What becomes of the first incoming entry `a` of `m`, `e`, which reads from the disk, when a client
  -- reads the request, sets it, sends `buf` and completes it.
  abbrev pub ReadServed : Machine → Addr → List Addr → Entry → List ℕ → Type 0
  ReadServed m a rest e buf =
      (header : List ℕ) × (vs : List BioVec) × (n o q p : Machine) × (bdtun_read_request
          (tunnel_fd k jiffies) m
        ≡ done (pos 0, header, n))
      × (bdtun_set_request (tunnel_fd k jiffies) (txreq_of_bytes header) n ≡ done (pos 0, o))
      × (bdtun_send_request_data (tunnel_fd k jiffies) (txreq_of_bytes header) buf o
          ≡ done (pos 0, q))
      × (bdtun_complete_request (tunnel_fd k jiffies) q ≡ done (pos 0, p))
      × (p.ended ≡ (record e.bio { segments = vs }, none) ∷ m.ended)
      × (content vs ≡ take e.bio.bi_size buf)
      × (p.dev.incoming_bio_list ≡ rest)
      × (p.dev.pending_bio_list ≡ m.dev.pending_bio_list)

  -- A client of a valid tunnel whose first incoming entry `a` reads 9 bytes or more from the disk,
  -- into segments that fit their pages and make up its size: it reads the request, sets it, sends a
  -- buffer of at least that size, and completes it. Each call returns 0, and the bio is ended without
  -- an error, its segments holding the first `bi_size` bytes of the buffer; the lists are those of
  -- before, less the entry.
  pub serve_read :
      (m : Machine) (a : Addr) (rest : List Addr) (e : Entry) (buf : List ℕ)
      → IsValid m
      → m.dev.incoming_bio_list ≡ a ∷ rest
      → m.heap a ≡ some e
      → a < 2 ^ 64
      → e.bio.data_dir ≡ Dir.read
      → AllFit e.bio.segments
      → total e.bio.segments ≡ e.bio.bi_size
      → 9 ≤ e.bio.bi_size
      → e.bio.bi_size < 2 ^ 32
      → e.bio.bi_size ≤ length buf
      → ReadServed m a rest e buf
  unfolding header_of update set_stats
  serve_read m a rest e buf v p live small dir fits sum long short enough =
      let (e', live', out, out') = first_live m a rest v p in
      let header = txreq_bytes (header_of k a e.bio) in
      let (vs, sends, holds) =
        sends_chosen (chosen a rest m) (txreq_of_bytes header) buf e live
          (size_of_header (header_of k a e.bio) (omega arith)) dir fits sum enough long in
      let f : Entry = record e { bio = record e.bio { segments = vs } } in
      let filled : Machine = record (chosen a rest m) { heap = update m.heap a (some f) } in
      (
        header,
        vs,
        served a rest m,
        chosen a rest m,
        filled,
        completed f 0 jiffies filled,
        reads_first m a rest e p live,
        sets_first m a rest (txreq_of_bytes header) (id_of_header (header_of k a e.bio) small)
            small,
        sends,
        completes_chosen filled (ground (arith, ==_self a)),
        refl,
        holds,
        unlink_absent a rest out,
        unlink_last a m.dev.pending_bio_list out',
      )

  -- What becomes of it, where it writes to the disk, when a client reads the request, sets it, gets
  -- its data and completes it.
  abbrev pub WriteServed : Machine → Addr → List Addr → Entry → Type 0
  WriteServed m a rest e =
      (header : List ℕ) × (n o p : Machine) × (bdtun_read_request (tunnel_fd k jiffies) m
        ≡ done (pos 0, header, n))
      × (bdtun_set_request (tunnel_fd k jiffies) (txreq_of_bytes header) n ≡ done (pos 0, o))
      × (bdtun_get_request_data (tunnel_fd k jiffies) (txreq_of_bytes header) o
          ≡ done (pos 0, content e.bio.segments, o))
      × (bdtun_complete_request (tunnel_fd k jiffies) o ≡ done (pos 0, p))
      × (p.ended ≡ (e.bio, none) ∷ m.ended)
      × (p.dev.incoming_bio_list ≡ rest)
      × (p.dev.pending_bio_list ≡ m.dev.pending_bio_list)

  -- A client of a valid tunnel whose first incoming entry `a` writes to the disk, as many bytes as is
  -- not the size of a header: it reads the request, sets it, gets its data and completes it. Each call
  -- returns 0, the data are the bytes of the bio's segments in order, and the bio is ended without an
  -- error; the lists are those of before, less the entry.
  pub serve_write :
      (m : Machine) (a : Addr) (rest : List Addr) (e : Entry)
      → IsValid m
      → m.dev.incoming_bio_list ≡ a ∷ rest
      → m.heap a ≡ some e
      → a < 2 ^ 64
      → e.bio.data_dir ≡ Dir.write
      → e.bio.bi_size ≢ 32
      → e.bio.bi_size < 2 ^ 32
      → WriteServed m a rest e
  unfolding header_of set_stats
  serve_write m a rest e v p live small dir other short =
      let (e', live', out, out') = first_live m a rest v p in
      let r = header_of k a e.bio in
      (
        txreq_bytes r,
        served a rest m,
        chosen a rest m,
        completed e 0 jiffies (chosen a rest m),
        reads_first m a rest e p live,
        sets_first m a rest (txreq_of_bytes (txreq_bytes r)) (id_of_header r small) small,
        gets_chosen (chosen a rest m) (txreq_of_bytes (txreq_bytes r)) e live
            (size_of_header r (omega arith)) dir other,
        completes_chosen (chosen a rest m) live,
        refl,
        unlink_absent a rest out,
        unlink_last a m.dev.pending_bio_list out',
      )
