-- ===== src/Tunnel/MappingLaws.antt =====
-- When a mapping of the current bio succeeds, and what it leads to.
use Prim.Native.Nat.{◌∣◌}
use native.Mathlib.Nat.{
  pow-suc, zero-mod, mod-mod_of_dvd, mul-mod_left, dvd-mul_left, mul-div_cancel, mul-le-mul_right,
}
use bdtun.Base.{
  ℕ, zero, suc, ◌+◌, ◌*◌, ◌-◌, ◌/◌, ◌%◌, ◌^◌, ◌≤◌, ◌<◌, ◌≡◌, ◌≢◌, refl, Bool, true, false, List, [],
  ◌∷◌, some, inl, inr, arith, ◌==◌, ==_iff, ==_self, if◌then◌else◌, length, add64, sub64, mul64,
  Bool-cases, ap, sym, subst, ◌∙◌,
}
use bdtun.Base.Bits.{pow-pos}
use bdtun.Device.{Errno, eio, enxio, ok, err, done, BioVec, Entry, Machine}
use bdtun.Tunnel.Flags.{Kernel}
use bdtun.Tunnel.Mapping.{Vma, PageMap, page_size, map_segments, bdtunch_mmap, area_for}

pow_sum : (d s : ℕ) → 2 ^ d * 2 ^ s ≡ 2 ^ (d + s)
pow_sum zero s = let same : 0 + s ≡ s = omega arith in rw same (omega arith)
pow_sum (suc d) s =
    let next : suc d + s ≡ suc (d + s) = omega arith in
    rw (next, pow-suc 2 d, pow-suc 2 (d + s)) (omega (arith, pow_sum d s))

-- A shift to the left keeps the low bits 0, also when it wraps.
shifted : (k : Kernel) (n : ℕ) → k.page_shift ≤ 64 → n * page_size k % 2 ^ 64 % page_size k ≡ 0
shifted k n le =
    let split : 2 ^ (64 - k.page_shift) * page_size k ≡ 2 ^ 64 =
      let whole : 64 - k.page_shift + k.page_shift ≡ 64 = omega arith in
      pow_sum (64 - k.page_shift) k.page_shift ∙ ap (◌^◌ 2) whole in
    mod-mod_of_dvd (page_size k) (n * page_size k)
      (subst (λ t. page_size k ∣ t) split (dvd-mul_left (page_size k) (2 ^ (64 - k.page_shift))))
    ∙ mul-mod_left n (page_size k)

-- The segments' pages, one after the other from `base` on, the first at page `n`.
abbrev pub page_maps : Kernel → ℕ → ℕ → List BioVec → List PageMap
page_maps k base n [] = []
page_maps k base n (v ∷ vs) =
    record { address = base + n * page_size k; frame = v.pfn } ∷ page_maps k base (n + 1) vs

map_segments-page_maps :
    (k : Kernel) (base n : ℕ) (vs : List BioVec)
    → base + (n + length vs) * page_size k < 2 ^ 64
    → map_segments k (λ i. true) base n vs ≡ (true, page_maps k base n vs)
unfolding map_segments
map_segments-page_maps k base n [] fits = refl
map_segments-page_maps k base n (v ∷ vs) fits =
    let more : n + 1 + length vs ≡ n + length (v ∷ vs) = omega arith in
    let fits' : base + (n + 1 + length vs) * page_size k < 2 ^ 64 = rw more fits in
    let here : n * page_size k ≤ (n + length (v ∷ vs)) * page_size k =
      mul-le-mul_right (page_size k) (omega arith) in
    let at : add64 base (mul64 (page_size k) n) ≡ base + n * page_size k =
      omega (arith, here, fits) in
    ground (arith, at, map_segments-page_maps k base (n + 1) vs fits')

-- With pages of at most 2 ^ 64 bytes, a mapping never fails with ENXIO: the offset that is tested is
-- a number of pages, so every offset is taken, and each maps the bio from its start.
bdtunch_mmap-aligned :
    (k : Kernel) (remap : ℕ → Bool) (vma : Vma) (m : Machine) {e : Errno} {maps : List PageMap}
    {after : Vma}
    → k.page_shift ≤ 64
    → bdtunch_mmap k remap vma m ≡ done (err e, maps, after)
    → e ≢ enxio
unfolding bdtunch_mmap
bdtunch_mmap-aligned k remap vma m le h = ground (arith, shifted k vma.vm_pgoff le)

-- The mapping of `size` bytes, by the numbers of pages.
pub bdtunch_mmap-maps :
    (k : Kernel) (base size : ℕ) (m : Machine) (e : Entry)
    → m.heap m.dev.data_current_bio ≡ some e
    → base + (size + page_size k - 1) / page_size k * page_size k < 2 ^ 64
    → base + e.bio.bi_vcnt * page_size k < 2 ^ 64
    → length e.bio.segments ≤ e.bio.bi_vcnt
    → bdtunch_mmap k (λ i. true) (area_for k base size) m ≡ (
        if (size + page_size k - 1) / page_size k == e.bio.bi_vcnt
        then done (
          ok 0,
          page_maps k base 0 e.bio.segments,
          record (area_for k base size) { locked = true },
        )
        else done (err eio, [], record (area_for k base size) { locked = true }))
unfolding bdtunch_mmap
bdtunch_mmap-maps k base size m e live fits fits' short =
    let page = page_size k in
    let pages = (size + page - 1) / page in
    let positive : 0 < page = pow-pos k.page_shift in
    let none_off : mul64 0 page ≡ 0 = omega arith in
    let aligned : mul64 0 page % page ≡ 0 = ap (λ n. n % page) none_off ∙ zero-mod page in
    let most : (0 + length e.bio.segments) * page ≤ e.bio.bi_vcnt * page =
      mul-le-mul_right page (omega (arith, short)) in
    let maps = map_segments-page_maps k base 0 e.bio.segments (omega (arith, most, fits')) in
    let extent : sub64 (base + pages * page) base ≡ pages * page = omega (arith, fits) in
    let wanted : mul64 e.bio.bi_vcnt page ≡ e.bio.bi_vcnt * page = omega (arith, fits') in
    let cancel : pages * page ≡ e.bio.bi_vcnt * page → pages ≡ e.bio.bi_vcnt = λ q.
      sym (mul-div_cancel pages positive)
      ∙ (ap (λ x. x / page) q ∙ mul-div_cancel e.bio.bi_vcnt positive) in
    elim (Bool-cases (pages == e.bio.bi_vcnt)) [
      | inl same ↦
          let test : (pages * page == e.bio.bi_vcnt * page) ≡ true =
            rw ((==_iff pages e.bio.bi_vcnt).0 same) (==_self (e.bio.bi_vcnt * page)) in
          ground (arith, live, aligned, extent, wanted, maps, same, test)
      | inr differ ↦
          let test : (pages * page == e.bio.bi_vcnt * page) ≡ false =
            ground (arith, cancel, differ) in
          ground (arith, live, aligned, extent, wanted, differ, test)
    ]
