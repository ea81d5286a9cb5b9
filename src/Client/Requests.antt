-- ===== src/Client/Requests.antt =====
-- The library's requests on a tunnel device.
use bdtun.Base.{ℕ, ◌^◌, ◌<◌, ◌≡◌, refl, List, ◌∷◌, none, some, arith, to_bytes, of_bytes-to_bytes}
use bdtun.Base.Int.{pos}
use bdtun.Header.{TxReq, txreq_bytes, txreq_of_bytes}
use bdtun.Device.{done, Addr, Entry, Machine}
use bdtun.Tunnel.Flags.{Kernel}
use bdtun.Tunnel.{header_of, bdtunch_read}
use bdtun.System.Valid.{IsValid}
use bdtun.System.Protocol.{
  served, serve_header_first, first_live, completed, bdtunch_write-completed, choose_and_complete,
  answered,
}
use bdtun.Client.{bdtun_read_request, bdtun_set_request, bdtun_complete_request, bdtun_fail_request}
use bdtun.Client.Link.{tunnel_fd}

-- `bdtun_fail_request` on a tunnel whose current request is alive returns 0 and ends that request's
-- bio without an error: the block layer takes it for completed.
pub bdtun_fail_request-completes :
    (k : Kernel) (jiffies : ℕ) (m : Machine) {e : Entry}
    → m.heap m.dev.data_current_bio ≡ some e
    → (n : Machine) × (bdtun_fail_request (tunnel_fd k jiffies) m ≡ done (pos 0, n))
      × (n.ended ≡ (e.bio, none) ∷ m.ended)
unfolding bdtun_fail_request
bdtun_fail_request-completes k jiffies m {e} live =
    (completed e 0 jiffies m, rw (bdtunch_write-completed (λ at n. 0) jiffies 0 m live), refl)

pub id_of_header : (r : TxReq) → r.id < 2 ^ 64 → (txreq_of_bytes (txreq_bytes r)).id ≡ r.id
unfolding txreq_of_bytes txreq_bytes to_bytes
id_of_header r h = of_bytes-to_bytes 8 r.id h

-- What becomes of the first incoming entry `a` of `m` when a client reads a request, sets it, and
-- completes it.
abbrev RequestServed : Kernel → ℕ → Machine → Addr → List Addr → Type 0
RequestServed k jiffies m a rest =
    (e : Entry) × (header : List ℕ) × (n o p : Machine) × (m.heap a ≡ some e)
    × (bdtun_read_request (tunnel_fd k jiffies) m ≡ done (pos 0, header, n))
    × (header ≡ txreq_bytes (header_of k a e.bio))
    × (n.dev.data_current_bio ≡ m.dev.data_current_bio)
    × (bdtun_set_request (tunnel_fd k jiffies) (txreq_of_bytes header) n ≡ done (pos 0, o))
    × (bdtun_complete_request (tunnel_fd k jiffies) o ≡ done (pos 0, p))
    × (p.ended ≡ (e.bio, none) ∷ m.ended)
    × (p.dev.incoming_bio_list ≡ rest)
    × (p.dev.pending_bio_list ≡ m.dev.pending_bio_list)

-- A client of a valid tunnel with a first incoming entry `a` that reads a request, sets it by the id
-- read, and completes it: each call returns 0, the bytes read are the header of the entry's bio, and
-- in the end that bio is ended without an error and the entry is on neither list. Reading alone
-- leaves the current request as it was.
serve_request :
    (k : Kernel) (jiffies : ℕ) (m : Machine) (a : Addr) (rest : List Addr)
    → IsValid m
    → m.dev.incoming_bio_list ≡ a ∷ rest
    → a < 2 ^ 64
    → RequestServed k jiffies m a rest
unfolding bdtun_read_request bdtun_set_request bdtun_complete_request bdtunch_read answered
    header_of
serve_request k jiffies m a rest v p small =
    let (e, live, out, out') = first_live m a rest v p in
    let (o, chosen, done_) =
      choose_and_complete k (λ at n. 0) jiffies 0 m a rest e live out out' small in
    (
      e,
      txreq_bytes (header_of k a e.bio),
      served a rest m,
      o,
      answered k a rest e 0 jiffies m,
      live,
      ground (arith, serve_header_first k m a rest e p live),
      refl,
      refl,
      rw (id_of_header (header_of k a e.bio) small, chosen),
      rw done_,
      refl,
      refl,
      refl,
    )
