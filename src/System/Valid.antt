-- ===== src/System/Valid.antt =====
-- What holds of a device's memory in every history.
use bdtun.Base.{
  ℕ, ◌+◌, ◌≡◌, ◌≢◌, List, [], ◌∷◌, Option, none, some, arith, ==_iff, inl, inr, subst, of_bytes,
}
use bdtun.Device.{Ret, done, Bio, Addr, Machine}
use bdtun.Block.{bdtun_make_request, bdtun_open, bdtun_release}
use bdtun.Tunnel.Flags.{Kernel}
use bdtun.Tunnel.{
  returned, bdtunch_open, bdtunch_release, serve_header, bdtunch_read, complete, write_payload,
  bdtunch_write,
}
use bdtun.Queue.{count, count-append, count-unlink}
use bdtun.System.{
  Fresh, Step, submits, reads, writes, opens_tunnel, closes_tunnel, opens_disk, closes_disk,
  History, start, then_step, with_dev, is_live,
}
use bdtun.System.Cases.{bdtunch_read-cases, bdtunch_write-cases, count-head}

-- An address stands on exactly one of the two lists, once, if a live entry is there, and on none if
-- not; NULL is no entry.
pub record IsValid (m : Machine) : Type 0 where
  pub listed :
      (a : Addr)
      → count a m.dev.incoming_bio_list + count a m.dev.pending_bio_list ≡ is_live (m.heap a)
  pub no_null : m.heap 0 ≡ none

pub bdtun_make_request-IsValid :
    (m : Machine) (slot : Option Addr) (jiffies : ℕ) (bio : Bio)
    → Fresh m slot
    → IsValid m
    → IsValid (bdtun_make_request slot jiffies bio m)
unfolding bdtun_make_request
bdtun_make_request-IsValid m none jiffies bio new v = record {
  listed = v.listed;
  no_null = v.no_null;
}
bdtun_make_request-IsValid m (some a) jiffies bio new v = record {
  listed = λ b.
      ground (arith, v.listed b, count-append b m.dev.incoming_bio_list (a ∷ []), ==_iff a b, new);
  no_null = ground (arith, v.no_null);
}

pub serve_header-IsValid :
    (k : Kernel) (a : Addr) (m : Machine) {r : Ret} {bytes : List ℕ} {n : Machine}
    → count a m.dev.incoming_bio_list ≢ 0
    → serve_header k a m ≡ done (returned r bytes n)
    → IsValid m
    → IsValid n
unfolding serve_header
serve_header-IsValid k a m {n} on e v = record {
  listed = λ b. ground (
    arith,
    v.listed b,
    v.listed a,
    on,
    ==_iff a b,
    count-unlink b a m.dev.incoming_bio_list,
    count-append b m.dev.pending_bio_list (a ∷ []),
  );
  no_null = ground (arith, v.no_null);
}

pub complete-IsValid :
    (byte jiffies : ℕ) (m : Machine) {r : Ret} {n : Machine}
    → complete byte jiffies m ≡ done (r, n)
    → IsValid m
    → IsValid n
unfolding complete
complete-IsValid byte jiffies m {n} e v = record {
  listed = λ b. ground (
    arith,
    v.listed b,
    ==_iff m.dev.data_current_bio b,
    count-unlink b m.dev.data_current_bio m.dev.incoming_bio_list,
    count-unlink b m.dev.data_current_bio m.dev.pending_bio_list,
  );
  no_null = ground (arith, v.no_null);
}

pub write_payload-IsValid :
    (missed : ℕ → ℕ → ℕ) (buf : List ℕ) (m : Machine) {r : Ret} {n : Machine}
    → write_payload missed buf m ≡ done (r, n)
    → IsValid m
    → IsValid n
unfolding write_payload
write_payload-IsValid missed buf m {n} e v = record {
  listed = λ b. ground (arith, v.listed b, ==_iff m.dev.data_current_bio b);
  no_null = ground (arith, v.no_null);
}

bdtunch_read-IsValid :
    (k : Kernel) (missed : ℕ → ℕ → ℕ) (size : ℕ) (m : Machine) {r : Ret} {bytes : List ℕ}
    {n : Machine}
    → bdtunch_read k missed [] size m ≡ done (returned r bytes n)
    → IsValid m
    → IsValid n
bdtunch_read-IsValid k missed size m e v = elim (bdtunch_read-cases k missed size m e) [
  | inl (same, other) ↦ subst IsValid same v
  | inr (a, rest, p, q, header) ↦ serve_header-IsValid k a m (count-head a rest _ p) q v
]

bdtunch_write-IsValid :
    (missed : ℕ → ℕ → ℕ) (jiffies : ℕ) (buf : List ℕ) (m : Machine) {r : Ret} {n : Machine}
    → bdtunch_write missed jiffies buf m ≡ done (r, n)
    → IsValid m
    → IsValid n
bdtunch_write-IsValid missed jiffies buf m e v = elim (bdtunch_write-cases missed jiffies buf m e) [
  | inl (same, other) ↦ subst IsValid same (record { listed = v.listed; no_null = v.no_null })
  | inr (inl (completes, one)) ↦ complete-IsValid (of_bytes buf) jiffies m completes v
  | inr (inr (fills, other)) ↦ write_payload-IsValid missed buf m fills v
]

bdtunch_release-IsValid : (m : Machine) → IsValid m → IsValid (with_dev m (bdtunch_release m.dev))
unfolding bdtunch_release
bdtunch_release-IsValid m v = record {
  listed = λ b.
      ground (arith, v.listed b, count-append b m.dev.incoming_bio_list m.dev.pending_bio_list);
  no_null = v.no_null;
}

opened-IsValid :
    (m : Machine)
    → IsValid m
    → IsValid (with_dev m (bdtunch_open m.dev).1)
      × IsValid (with_dev m (bdtun_open m.dev).1)
      × IsValid (with_dev m (bdtun_release m.dev))
unfolding bdtunch_open bdtun_open bdtun_release
opened-IsValid m v = (
  record { listed = λ b. ground (arith, v.listed b); no_null = v.no_null },
  record { listed = λ b. ground (arith, v.listed b); no_null = v.no_null },
  record { listed = v.listed; no_null = v.no_null },
)

pub Step-IsValid :
    {k : Kernel} {m n : Machine} {bios : List Bio} → Step k m bios n → IsValid m → IsValid n
Step-IsValid {m} (submits slot jiffies bio new) v =
    bdtun_make_request-IsValid m slot jiffies bio new v
Step-IsValid {k} {m} (reads missed size e) v = bdtunch_read-IsValid k missed size m e v
Step-IsValid {m} (writes missed jiffies buf e) v = bdtunch_write-IsValid missed jiffies buf m e v
Step-IsValid {m} opens_tunnel v = (opened-IsValid m v).0
Step-IsValid {m} closes_tunnel v = bdtunch_release-IsValid m v
Step-IsValid {m} opens_disk v = (opened-IsValid m v).1
Step-IsValid {m} closes_disk v = (opened-IsValid m v).2

-- In every history of a device, with any calls in any order that the kernel survives, each live list
-- entry stays on exactly one of the device's two lists, once, a freed one is on neither, and none is
-- at NULL, if this holds at the start.
pub History-IsValid :
    {k : Kernel} {m n : Machine} {bios : List Bio} → History k m bios n → IsValid m → IsValid n
History-IsValid start v = v
History-IsValid (then_step h s) v = Step-IsValid s (History-IsValid h v)
