-- ===== src/System/Stats.antt =====
-- The disk's in-flight counters against the lists.
use bdtun.Base.{
  ℕ, ◌%◌, ◌≡◌, ◌≢◌, refl, List, [], Option, none, some, arith, inl, inr, subst, of_bytes, u32_mod,
}
use bdtun.Device.{Ret, done, Dir, Bio, BioVec, Addr, at_dir, Machine}
use bdtun.Block.{bdtun_make_request, bdtun_open, bdtun_release}
use bdtun.Tunnel.Flags.{Kernel}
use bdtun.Tunnel.{
  returned, bdtunch_open, bdtunch_release, serve_header, bdtunch_read, complete, write_payload,
  bdtunch_write,
}
use bdtun.Queue.{count}
use bdtun.System.{
  Fresh, Step, submits, reads, writes, opens_tunnel, closes_tunnel, opens_disk, closes_disk,
  History, start, then_step, with_dev, held,
}
use bdtun.System.Cases.{bdtunch_read-cases, count-head, bdtunch_write-cases}
use bdtun.System.Valid.{IsValid, History-IsValid}
use bdtun.System.Account.{
  bdtun_make_request-account, complete-account, write_payload-account, opened-account,
  serve_header-account,
}

-- 1 for the bios of a direction, and 0 for the others.
abbrev pub towards : Dir → Bio → ℕ
towards Dir.read b = elim b.data_dir [ Dir.read ↦ 1 | Dir.write ↦ 0 ]
towards Dir.write b = elim b.data_dir [ Dir.read ↦ 0 | Dir.write ↦ 1 ]

towards-fixed :
    (d : Dir) (b : Bio) (vs : List BioVec) → towards d (record b { segments = vs }) ≡ towards d b
towards-fixed Dir.read b vs = refl
towards-fixed Dir.write b vs = refl

abbrev pub in_flight_of : Dir → Machine → ℕ
in_flight_of d m = at_dir m.dev.bd_gd.part0.in_flight d

abbrev pub IsCounted : Dir → Machine → Type 0
IsCounted d m = in_flight_of d m ≡ held (towards d) m % u32_mod

bdtun_make_request-IsCounted :
    (d : Dir) (m : Machine) (slot : Option Addr) (jiffies : ℕ) (bio : Bio)
    → Fresh m slot
    → IsValid m
    → IsCounted d m
    → IsCounted d (bdtun_make_request slot jiffies bio m)
unfolding bdtun_make_request
bdtun_make_request-IsCounted d m none jiffies bio new v c = c
bdtun_make_request-IsCounted Dir.read m (some a) jiffies bio new v c = ground (
  arith,
  bdtun_make_request-account (towards Dir.read) (towards-fixed Dir.read) m (some a) jiffies bio new
      v,
)
bdtun_make_request-IsCounted Dir.write m (some a) jiffies bio new v c = ground (
  arith,
  bdtun_make_request-account (towards Dir.write) (towards-fixed Dir.write) m (some a) jiffies bio
      new v,
)

complete-IsCounted :
    (d : Dir) (byte jiffies : ℕ) (m : Machine) {r : Ret} {n : Machine}
    → complete byte jiffies m ≡ done (r, n)
    → IsValid m
    → IsCounted d m
    → IsCounted d n
unfolding complete
complete-IsCounted Dir.read byte jiffies m e v c =
    ground (arith, complete-account (towards Dir.read) (towards-fixed Dir.read) byte jiffies m e v)
complete-IsCounted Dir.write byte jiffies m e v c =
    ground
      (arith, complete-account (towards Dir.write) (towards-fixed Dir.write) byte jiffies m e v)

serve_header-IsCounted :
    (d : Dir) (k : Kernel) (a : Addr) (m : Machine) {r : Ret} {bytes : List ℕ} {n : Machine}
    → count a m.dev.incoming_bio_list ≢ 0
    → serve_header k a m ≡ done (returned r bytes n)
    → IsCounted d m
    → IsCounted d n
unfolding serve_header
serve_header-IsCounted d k a m on e c =
    ground (arith, serve_header-account (towards d) (towards-fixed d) k a m on e)

bdtunch_read-IsCounted :
    (d : Dir) (k : Kernel) (missed : ℕ → ℕ → ℕ) (size : ℕ) (m : Machine) {r : Ret} {bytes : List ℕ}
    {n : Machine}
    → bdtunch_read k missed [] size m ≡ done (returned r bytes n)
    → IsCounted d m
    → IsCounted d n
bdtunch_read-IsCounted d k missed size m e c = elim (bdtunch_read-cases k missed size m e) [
  | inl (same, other) ↦ subst (IsCounted d) same c
  | inr (a, rest, p, q, header) ↦ serve_header-IsCounted d k a m (count-head a rest _ p) q c
]

write_payload-IsCounted :
    (d : Dir) (missed : ℕ → ℕ → ℕ) (buf : List ℕ) (m : Machine) {r : Ret} {n : Machine}
    → write_payload missed buf m ≡ done (r, n)
    → IsCounted d m
    → IsCounted d n
unfolding write_payload
write_payload-IsCounted d missed buf m e c =
    ground (arith, write_payload-account (towards d) (towards-fixed d) missed buf m e)

bdtunch_write-IsCounted :
    (d : Dir) (missed : ℕ → ℕ → ℕ) (jiffies : ℕ) (buf : List ℕ) (m : Machine) {r : Ret}
    {n : Machine}
    → bdtunch_write missed jiffies buf m ≡ done (r, n)
    → IsValid m
    → IsCounted d m
    → IsCounted d n
bdtunch_write-IsCounted d missed jiffies buf m e v c =
    elim (bdtunch_write-cases missed jiffies buf m e) [
      | inl (same, other) ↦ subst (IsCounted d) same c
      | inr (inl (completes, one)) ↦ complete-IsCounted d (of_bytes buf) jiffies m completes v c
      | inr (inr (fills, other)) ↦ write_payload-IsCounted d missed buf m fills c
    ]

opened-IsCounted :
    (d : Dir) (m : Machine)
    → IsCounted d m
    → IsCounted d (with_dev m (bdtunch_open m.dev).1)
      × IsCounted d (with_dev m (bdtunch_release m.dev))
      × IsCounted d (with_dev m (bdtun_open m.dev).1)
      × IsCounted d (with_dev m (bdtun_release m.dev))
unfolding bdtunch_open bdtunch_release bdtun_open bdtun_release
opened-IsCounted d m c =
    (ground arith, omega (arith, opened-account (towards d) (towards-fixed d) m), ground arith, c)

Step-IsCounted :
    (d : Dir) {k : Kernel} {m n : Machine} {bios : List Bio}
    → Step k m bios n
    → IsValid m
    → IsCounted d m
    → IsCounted d n
Step-IsCounted d {m} (submits slot jiffies bio new) v c =
    bdtun_make_request-IsCounted d m slot jiffies bio new v c
Step-IsCounted d {k} {m} (reads missed size e) v c = bdtunch_read-IsCounted d k missed size m e c
Step-IsCounted d {m} (writes missed jiffies buf e) v c =
    bdtunch_write-IsCounted d missed jiffies buf m e v c
Step-IsCounted d {m} opens_tunnel v c = (opened-IsCounted d m c).0
Step-IsCounted d {m} closes_tunnel v c = (opened-IsCounted d m c).1
Step-IsCounted d {m} opens_disk v c = (opened-IsCounted d m c).2
Step-IsCounted d {m} closes_disk v c = (opened-IsCounted d m c).3

-- In every history from a machine that is valid and whose 32-bit in-flight counter of a direction is
-- the number of bios of that direction on its two lists, modulo 2 ^ 32, the counter stays so.
pub History-IsCounted :
    (d : Dir) {k : Kernel} {m n : Machine} {bios : List Bio}
    → History k m bios n
    → IsValid m
    → IsCounted d m
    → IsCounted d n
History-IsCounted d start v c = c
History-IsCounted d (then_step h s) v c =
    Step-IsCounted d s (History-IsValid h v) (History-IsCounted d h v c)
