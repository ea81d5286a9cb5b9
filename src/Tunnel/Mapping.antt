-- ===== src/Tunnel/Mapping.antt =====
-- Mapping the current bio's pages into a client (kernel/bdtun.c: bdtunch_mmap).
use bdtun.Base.{
  ℕ, ◌+◌, ◌*◌, ◌-◌, ◌/◌, ◌%◌, ◌^◌, Bool, true, false, not, List, [], ◌∷◌, ◌==◌, if◌then◌else◌,
  add64, sub64, mul64,
}
use bdtun.Device.{eio, einval, enxio, Ret, ok, err, Run, done, ◌>>=◌, BioVec, Machine}
use bdtun.Tunnel.{load}
use bdtun.Tunnel.Flags.{Kernel}

-- What the handler reads and sets of a `struct vm_area_struct`: `shared` is VM_SHARED of its flags,
-- `locked` is VM_LOCKED. Its private data, which nothing reads, is left out.
pub record Vma : Type 0 where
  pub vm_pgoff : ℕ
  pub vm_start : ℕ
  pub vm_end : ℕ
  pub shared : Bool
  pub locked : Bool

-- A page of the client's memory, by its address, that leads to a page frame.
pub record PageMap : Type 0 where
  pub address : ℕ
  pub frame : ℕ

abbrev pub page_size : Kernel → ℕ
page_size k = 2 ^ k.page_shift

-- The loop over the segments. `remap` says of which pages, by `pos`, `remap_pfn_range` succeeds.
unfoldable pub map_segments : Kernel → (ℕ → Bool) → ℕ → ℕ → List BioVec → Bool × List PageMap
map_segments k remap base n [] = (true, [])
map_segments k remap base n (v ∷ vs) =
    let (whole, maps) = map_segments k remap base (n + 1) vs in
    if remap n
    then (whole, record { address = add64 base (mul64 (page_size k) n); frame = v.pfn } ∷ maps)
    else (false, [])

unfoldable pub bdtunch_mmap : Kernel → (ℕ → Bool) → Vma → Machine → Run (Ret × List PageMap × Vma)
unfolding load map_segments
bdtunch_mmap k remap vma m =
    let page = page_size k in
    let locked = record vma { locked = true } in
    if not (mul64 vma.vm_pgoff page % page == 0)
    then done (err enxio, [], vma)
    else (if not vma.shared then done (err einval, [], vma) else (do
      e ← load m.heap m.dev.data_current_bio
      if not (sub64 vma.vm_end vma.vm_start == mul64 e.bio.bi_vcnt page)
          then done (err eio, [], locked)
          else (let (whole, maps) = map_segments k remap vma.vm_start 0 e.bio.segments in
              done (if whole then ok 0 else err eio, maps, locked))))

-- What `mmap` makes of a request for `length` bytes of a file, at least one: an area of whole pages.
abbrev pub area_for : Kernel → ℕ → ℕ → Vma
area_for k base length = record {
  vm_pgoff = 0;
  vm_start = base;
  vm_end = base + (length + page_size k - 1) / page_size k * page_size k;
  shared = true;
  locked = false;
}
