-- ===== src/Tunnel/Retry.antt =====
-- Data written again after a copy that failed (kernel/bdtun.c: bdtunch_write, its third case).
use bdtun.Base.{
  ℕ, ◌+◌, ◌≤◌, ◌≡◌, refl, sym, ap, ◌∙◌, Bool, Bool-cases, inl, inr, List, [], ◌∷◌, ◌++◌, some,
  arith, ◌==◌, ==_self, length, take, drop, length-take, length-drop, take_self, if◌then◌else◌,
}
use bdtun.Device.{eio, ok, err, done, Dir, BioVec, Entry, Machine, update}
use bdtun.Tunnel.{copy_in, fill_segment, padded, bdtunch_write}
use bdtun.Tunnel.Data.{
  content, total, AllFit, Reachable, copy_in-AllFit, copy_in-content, drop_at, take_at, drop_split,
  length-padded,
}

-- An entry with other segments, and a machine with another current entry.
abbrev pub filled : Entry → List BioVec → Entry
filled e vs = record e { bio = record e.bio { segments = vs } }

abbrev pub with_current : Machine → Entry → Machine
with_current m e = record m { heap = update m.heap m.dev.data_current_bio (some e) }

-- Any write of data of the right size, as far as it comes.
bdtunch_write-partly :
    (missed : ℕ → ℕ → ℕ) (jiffies : ℕ) (buf : List ℕ) (m : Machine) {e : Entry}
    → m.heap m.dev.data_current_bio ≡ some e
    → e.bio.data_dir ≡ Dir.read
    → length buf ≡ e.bio.bi_size
    → 9 ≤ length buf
    → bdtunch_write missed jiffies buf m
      ≡ done (
        if (copy_in missed e.bio.segments 0 buf).0 then ok (length buf) else err eio,
        with_current m (filled e (copy_in missed e.bio.segments 0 buf).1),
      )
unfolding bdtunch_write
bdtunch_write-partly missed jiffies buf m live dir size long = ground (arith, live, dir, size)

-- Segments that differ at most in the bytes that lie in them: the same pages, offsets and sizes, and
-- the same bytes before and behind them in their pages.
abbrev pub SameAround : List BioVec → List BioVec → Type 0
SameAround [] [] = Unit {0}
SameAround [] (w ∷ ws) = ⊥
SameAround (v ∷ vs) [] = ⊥
SameAround (v ∷ vs) (w ∷ ws) =
    (w ≡ record v { page = w.page })
    × (take v.bv_offset w.page ≡ take v.bv_offset v.page)
    × (drop (v.bv_offset + v.bv_len) w.page ≡ drop (v.bv_offset + v.bv_len) v.page)
    × SameAround vs ws

SameAround-self : (vs : List BioVec) → SameAround vs vs
SameAround-self [] = tt
SameAround-self (v ∷ vs) = (refl, refl, refl, SameAround-self vs)

fill_segment-SameAround :
    (v : BioVec) (bytes : List ℕ)
    → v.bv_offset + v.bv_len ≤ length v.page
    → length bytes ≡ v.bv_len
    → (take v.bv_offset (fill_segment v bytes).page ≡ take v.bv_offset v.page)
      × (drop (v.bv_offset + v.bv_len) (fill_segment v bytes).page
          ≡ drop (v.bv_offset + v.bv_len) v.page)
fill_segment-SameAround v bytes fits whole =
    let before = take v.bv_offset v.page in
    let behind = drop (v.bv_offset + v.bv_len) v.page in
    (
      take_at v.bv_offset before (bytes ++ behind) (omega (arith, length-take v.bv_offset v.page)),
      sym (drop_split v.bv_offset v.bv_len (before ++ (bytes ++ behind)))
          ∙ ap (drop v.bv_len) (
              drop_at v.bv_offset before (bytes ++ behind)
                (omega (arith, length-take v.bv_offset v.page)))
          ∙ drop_at v.bv_len bytes behind whole,
    )

copy_in-SameAround :
    (missed : ℕ → ℕ → ℕ) (vs : List BioVec) (pos : ℕ) (buf : List ℕ)
    → AllFit vs
    → pos + total vs ≤ length buf
    → SameAround vs (copy_in missed vs pos buf).1
unfolding copy_in
copy_in-SameAround missed [] pos buf fits h = tt
copy_in-SameAround missed (v ∷ vs) pos buf fits h =
    let left = missed pos v.bv_len in
    elim (Bool-cases (left == 0)) [
      | inl all ↦
          let bytes = take v.bv_len (drop pos buf) in
          let size : length bytes ≡ v.bv_len =
            omega (arith, length-take v.bv_len (drop pos buf), length-drop pos buf) in
          let (before, behind) = fill_segment-SameAround v bytes fits.0 size in
          let later = copy_in-SameAround missed vs (pos + v.bv_len) buf fits.1 (omega arith) in
          rw all (refl, before, behind, later)
      | inr short ↦
          let (before, behind) =
            fill_segment-SameAround v (padded left v.bv_len (drop pos buf)) fits.0
              (length-padded left v.bv_len (drop pos buf)) in
          rw short (refl, before, behind, SameAround-self vs)
    ]

-- While the current bio reads from the disk, its segments fit their pages and make up its size: a
-- write of `bi_size` bytes, 9 or more, of which user memory gives any part, returns the count or EIO
-- and changes nothing but the bytes that lie in the segments, and not those around them in their
-- pages; and then a write of as many bytes that can all be reached returns the count, leaves exactly
-- those in the segments, and changes as little.
pub write_again :
    (missed missed' : ℕ → ℕ → ℕ) (jiffies later : ℕ) (buf buf' : List ℕ) (m : Machine) (e : Entry)
    → m.heap m.dev.data_current_bio ≡ some e
    → e.bio.data_dir ≡ Dir.read
    → AllFit e.bio.segments
    → total e.bio.segments ≡ e.bio.bi_size
    → length buf ≡ e.bio.bi_size
    → length buf' ≡ e.bio.bi_size
    → 9 ≤ e.bio.bi_size
    → Reachable missed'
    → (part : Bool × List BioVec) × (vs : List BioVec) × (bdtunch_write missed jiffies buf m
        ≡ done (if part.0 then ok (length buf) else err eio, with_current m (filled e part.1)))
      × SameAround e.bio.segments part.1
      × (bdtunch_write missed' later buf' (with_current m (filled e part.1))
          ≡ done (ok (length buf'), with_current (with_current m (filled e part.1)) (filled e vs)))
      × (content vs ≡ buf')
      × SameAround part.1 vs
unfolding update
write_again missed missed' jiffies later buf buf' m e live dir fits sum size size' long r =
    let part = copy_in missed e.bio.segments 0 buf in
    let kept = copy_in-AllFit missed e.bio.segments 0 buf fits (omega arith) in
    let n = with_current m (filled e part.1) in
    let again = copy_in missed' part.1 0 buf' in
    let (all, holds) = copy_in-content missed' part.1 0 buf' r kept.0 (omega arith) in
    (
      part,
      again.1,
      bdtunch_write-partly missed jiffies buf m live dir size (omega arith),
      copy_in-SameAround missed e.bio.segments 0 buf fits (omega arith),
      rw
          (
            bdtunch_write-partly missed' later buf' n {e = filled e part.1}
                (ground (arith, ==_self m.dev.data_current_bio)) dir size' (omega arith),
            all,
          )
          refl,
      holds ∙ take_self (total part.1) buf' (omega arith),
      copy_in-SameAround missed' part.1 0 buf' kept.0 (omega arith),
    )
