-- ===== src/Client/Mapping.antt =====
-- Mapping the data of a request, from the library to the bio's pages.
use bdtun.Base.{
  ℕ, ◌+◌, ◌*◌, ◌-◌, ◌/◌, ◌^◌, ◌≤◌, ◌<◌, ◌≡◌, refl, true, [], none, some, ◌==◌, Bool-cases, inl, inr,
  if◌then◌else◌, length,
}
use bdtun.Device.{eio, einval, ok, err, done, Entry, Machine}
use bdtun.Tunnel.Flags.{Kernel}
use bdtun.Tunnel.{header_of}
use bdtun.Tunnel.Mapping.{page_size, area_for}
use bdtun.Tunnel.MappingLaws.{page_maps, bdtunch_mmap-maps}
use bdtun.Client.{bdtun_mmap_request}
use bdtun.Client.Link.{tunnel_mmap}

-- A client that maps the request whose header it read and chose, where the kernel maps every page
-- that it is asked to and no address wraps, gets the page of each segment of the bio, in order, if
-- the bio has bytes and they take as many pages as it has vectors; if they do not, EIO and no page;
-- and EINVAL and no page if the bio has no bytes, as a flush.
pub bdtun_mmap_request-maps :
    (k : Kernel) (base : ℕ) (m : Machine) (e : Entry)
    → m.heap m.dev.data_current_bio ≡ some e
    → base + (e.bio.bi_size + page_size k - 1) / page_size k * page_size k < 2 ^ 64
    → base + e.bio.bi_vcnt * page_size k < 2 ^ 64
    → length e.bio.segments ≤ e.bio.bi_vcnt
    → bdtun_mmap_request (tunnel_mmap k base m) (header_of k m.dev.data_current_bio e.bio) ≡ (
        if e.bio.bi_size == 0
        then done (err einval, [], none)
        else (if (e.bio.bi_size + page_size k - 1) / page_size k == e.bio.bi_vcnt
            then done (
              ok 0,
              page_maps k base 0 e.bio.segments,
              some (record (area_for k base e.bio.bi_size) { locked = true }),
            )
            else done
                (err eio, [], some (record (area_for k base e.bio.bi_size) { locked = true }))))
unfolding bdtun_mmap_request header_of
bdtun_mmap_request-maps k base m e live fits fits' short =
    let size = e.bio.bi_size in
    let maps = bdtunch_mmap-maps k base size m e live fits fits' short in
    elim (Bool-cases (size == 0)) [
      | inl empty ↦ rw empty refl
      | inr some_ ↦ elim (Bool-cases ((size + page_size k - 1) / page_size k == e.bio.bi_vcnt)) [
        | inl whole ↦ rw (some_, maps, whole) refl
        | inr part ↦ rw (some_, maps, part) refl
      ]
    ]
