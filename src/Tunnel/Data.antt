-- ===== src/Tunnel/Data.antt =====
-- The payload of a bio: what the loops of bdtunch_read and bdtunch_write copy.
use bdtun.Base.{
  ℕ, zero, suc, ◌+◌, ◌-◌, replicate, ◌≤◌, ◌≡◌, refl, sym, ap, ◌∙◌, true, List, [], ◌∷◌, ◌++◌, some,
  arith, ==_self, length, take, drop, length-append, length-replicate, length-take, length-drop,
  take-append_self, drop-append_self, subst, ◌≢◌, take_self,
}
use mathlib.Core.Path.{ap₂}
use bdtun.Header.{bdtun_txreq_header_size}
use bdtun.Device.{ok, done, Dir, BioVec, Entry, Machine, update}
use bdtun.Tunnel.Flags.{Kernel}
use bdtun.Tunnel.{
  Wake, returned, segment_bytes, fill_segment, copy_out, copy_in, padded, bdtunch_read,
  bdtunch_write,
}

-- The bytes of a list of segments, in order, and how many they are.
abbrev pub content : List BioVec → List ℕ
content [] = []
content (v ∷ vs) = segment_bytes v ++ content vs

abbrev pub total : List BioVec → ℕ
total [] = 0
total (v ∷ vs) = v.bv_len + total vs

-- Each segment lies within its page.
abbrev pub AllFit : List BioVec → Type 0
AllFit [] = Unit {0}
AllFit (v ∷ vs) = (v.bv_offset + v.bv_len ≤ length v.page) × AllFit vs

abbrev pub Reachable : (ℕ → ℕ → ℕ) → Type 0
Reachable missed = (pos n : ℕ) → missed pos n ≡ 0

pub drop_at : (n : ℕ) (xs ys : List ℕ) → length xs ≡ n → drop n (xs ++ ys) ≡ ys
drop_at n xs ys e = subst (λ k. drop k (xs ++ ys) ≡ ys) e (drop-append_self xs ys)

pub take_at : (n : ℕ) (xs ys : List ℕ) → length xs ≡ n → take n (xs ++ ys) ≡ xs
take_at n xs ys e = subst (λ k. take k (xs ++ ys) ≡ xs) e (take-append_self xs ys)

take-nil : (n : ℕ) → take {A = ℕ} n [] ≡ []
take-nil zero = refl
take-nil (suc n) = refl

drop-nil : (n : ℕ) → drop {A = ℕ} n [] ≡ []
drop-nil zero = refl
drop-nil (suc n) = refl

take_split : (a b : ℕ) (xs : List ℕ) → take a xs ++ take b (drop a xs) ≡ take (a + b) xs
take_split zero b xs = ap (λ n. take n xs) (omega arith)
take_split (suc a) zero [] = sym (take-nil (suc a + 0))
take_split (suc a) (suc b) [] = sym (take-nil (suc a + suc b))
take_split (suc a) b (x ∷ xs) =
    let e : suc (a + b) ≡ suc a + b = omega arith in
    ap (◌∷◌ x) (take_split a b xs) ∙ ap (λ n. take n (x ∷ xs)) e

pub drop_split : (a b : ℕ) (xs : List ℕ) → drop b (drop a xs) ≡ drop (a + b) xs
drop_split zero b xs = ap (λ n. drop n xs) (omega arith)
drop_split (suc a) zero [] = sym (drop-nil (suc a + 0))
drop_split (suc a) (suc b) [] = sym (drop-nil (suc a + suc b))
drop_split (suc a) b (x ∷ xs) =
    let e : suc (a + b) ≡ suc a + b = omega arith in drop_split a b xs ∙ ap (λ n. drop n (x ∷ xs)) e

copy_out-content :
    (missed : ℕ → ℕ → ℕ) (vs : List BioVec) (pos : ℕ)
    → Reachable missed
    → copy_out missed vs pos ≡ (true, content vs)
unfolding copy_out
copy_out-content missed [] pos r = refl
copy_out-content missed (v ∷ vs) pos r =
    rw (r pos v.bv_len, copy_out-content missed vs (pos + v.bv_len) r)

segment_bytes-fill_segment :
    (v : BioVec) (bytes : List ℕ)
    → v.bv_offset + v.bv_len ≤ length v.page
    → length bytes ≡ v.bv_len
    → segment_bytes (fill_segment v bytes) ≡ bytes
segment_bytes-fill_segment v bytes fits whole =
    ap (take v.bv_len) (
      drop_at v.bv_offset (take v.bv_offset v.page) _
        (omega (arith, length-take v.bv_offset v.page)))
    ∙ take_at v.bv_len bytes _ whole

fill_segment-Fits :
    (v : BioVec) (bytes : List ℕ)
    → v.bv_offset + v.bv_len ≤ length v.page
    → length bytes ≡ v.bv_len
    → length (fill_segment v bytes).page ≡ length v.page
fill_segment-Fits v bytes fits whole = omega (
  arith,
  length-append (take v.bv_offset v.page) (bytes ++ drop (v.bv_offset + v.bv_len) v.page),
  length-append bytes (drop (v.bv_offset + v.bv_len) v.page),
  length-take v.bv_offset v.page,
  length-drop (v.bv_offset + v.bv_len) v.page,
)

pub length-padded : (left n : ℕ) (bytes : List ℕ) → length (padded left n bytes) ≡ n
unfolding padded
length-padded left n bytes = omega (
  arith,
  length-take n (take (n - left) bytes ++ replicate n 0),
  length-append (take (n - left) bytes) (replicate n 0),
  length-replicate {A = ℕ} n 0,
)

-- What the copying loop leaves behind, whether it came to its end or not: segments of the same
-- sizes, still within their pages.
pub copy_in-AllFit :
    (missed : ℕ → ℕ → ℕ) (vs : List BioVec) (pos : ℕ) (buf : List ℕ)
    → AllFit vs
    → pos + total vs ≤ length buf
    → AllFit (copy_in missed vs pos buf).1 × (total (copy_in missed vs pos buf).1 ≡ total vs)
unfolding copy_in
copy_in-AllFit missed [] pos buf fits h = (tt, refl)
copy_in-AllFit missed (v ∷ vs) pos buf fits h = ground (
  arith,
  copy_in-AllFit missed vs (pos + v.bv_len) buf fits.1,
  fill_segment-Fits v (padded (missed pos v.bv_len) v.bv_len (drop pos buf)) fits.0,
  length-padded (missed pos v.bv_len) v.bv_len (drop pos buf),
  fill_segment-Fits v (take v.bv_len (drop pos buf)) fits.0,
  length-take v.bv_len (drop pos buf),
  length-drop pos buf,
)

pub copy_in-content :
    (missed : ℕ → ℕ → ℕ) (vs : List BioVec) (pos : ℕ) (buf : List ℕ)
    → Reachable missed
    → AllFit vs
    → pos + total vs ≤ length buf
    → ((copy_in missed vs pos buf).0 ≡ true)
      × (content (copy_in missed vs pos buf).1 ≡ take (total vs) (drop pos buf))
unfolding copy_in
copy_in-content missed [] pos buf r fits h = (refl, refl)
copy_in-content missed (v ∷ vs) pos buf r fits h = rw (r pos v.bv_len) (
  (copy_in-content missed vs (pos + v.bv_len) buf r fits.1 (omega arith)).0,
  ap₂ ◌++◌
        (segment_bytes-fill_segment v (take v.bv_len (drop pos buf)) fits.0
          (omega (arith, length-take v.bv_len (drop pos buf), length-drop pos buf)))
        (copy_in-content missed vs (pos + v.bv_len) buf r fits.1 (omega arith)).1
      ∙ ap (λ ys. take v.bv_len (drop pos buf) ++ take (total vs) ys)
          (sym (drop_split pos v.bv_len buf))
      ∙ take_split v.bv_len (total vs) (drop pos buf),
)

-- A write of exactly `bi_size` bytes, 9 or more, while the current bio reads from the disk, its
-- segments fit their pages and make up its size, and user memory can be reached: it returns the
-- count, and afterwards the bio's segments hold the bytes written; no other entry, no list and no
-- counter changes.
pub bdtunch_write-content :
    (missed : ℕ → ℕ → ℕ) (jiffies : ℕ) (buf : List ℕ) (m : Machine) {e : Entry}
    → Reachable missed
    → m.heap m.dev.data_current_bio ≡ some e
    → e.bio.data_dir ≡ Dir.read
    → AllFit e.bio.segments
    → total e.bio.segments ≡ e.bio.bi_size
    → length buf ≡ e.bio.bi_size
    → 9 ≤ length buf
    → (vs : List BioVec) × (bdtunch_write missed jiffies buf m
        ≡ done (
          ok (length buf),
          record m {
            heap =
                update m.heap m.dev.data_current_bio
                  (some (record e { bio = record e.bio { segments = vs } }));
          },
        ))
      × (content vs ≡ buf)
unfolding bdtunch_write
bdtunch_write-content missed jiffies buf m {e} r live dir fits sum size long = (
  (copy_in missed e.bio.segments 0 buf).1,
  ground (arith, live, dir, copy_in-content missed e.bio.segments 0 buf r fits),
  (copy_in-content missed e.bio.segments 0 buf r fits (omega arith)).1
      ∙ take_self (total e.bio.segments) buf (omega arith),
)

-- A read of exactly `bi_size` bytes, not the size of a header, while the current bio writes to the
-- disk and user memory can be reached: it returns the count and gives the user the bytes of the
-- bio's segments in order, and changes nothing.
pub bdtunch_read-content :
    (k : Kernel) (missed : ℕ → ℕ → ℕ) (wakes : List Wake) (m : Machine) {e : Entry}
    → Reachable missed
    → m.heap m.dev.data_current_bio ≡ some e
    → e.bio.data_dir ≡ Dir.write
    → e.bio.bi_size ≢ bdtun_txreq_header_size
    → bdtunch_read k missed wakes e.bio.bi_size m
      ≡ done (returned (ok e.bio.bi_size) (content e.bio.segments) m)
unfolding bdtunch_read
bdtunch_read-content k missed wakes m {e} r live dir size =
    ground (arith, live, dir, ==_self e.bio.bi_size, copy_out-content missed e.bio.segments 0 r)
