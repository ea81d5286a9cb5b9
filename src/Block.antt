-- ===== src/Block.antt =====
-- The block device end of a pair (kernel/bdtun.c: bdtun_make_request, bdtun_open, bdtun_release,
-- bdtun_getgeo). A handler takes what the kernel answers it, the address of a fresh list entry and
-- the clock, as arguments.
pub mod Geometry
use Prim.Native.Nat.{bit_and}
use bdtun.Base.{
  ℕ, ◌/◌, ◌^◌, [], ◌∷◌, ◌++◌, Option, none, some, ◌==◌, if◌then◌else◌, inc32, dec32, add64, mul64,
}
use bdtun.Device.{eio, enoent, Ret, ok, err, Bio, Addr, DiskStats, on_dir, Bdtun, Machine, update}

abbrev pub kernel_sector_size : ℕ
kernel_sector_size = 512

-- The statistics of a request that is queued: `part_stat_inc`, `part_stat_add` and
-- `part_inc_in_flight`.
unfoldable pub count_request : Bio → DiskStats → DiskStats
count_request bio s = record s {
  ios = on_dir (λ n. add64 n 1) bio.data_dir s.ios;
  sectors = on_dir (λ n. add64 n (bio.bi_size / 512)) bio.data_dir s.sectors;
  in_flight = on_dir inc32 bio.data_dir s.in_flight;
}

unfoldable pub set_stats : DiskStats → Bdtun → Bdtun
set_stats s d = record d { bd_gd = record d.bd_gd { part0 = s } }

-- `slot` is what `kmalloc` returns.
unfoldable pub bdtun_make_request : Option Addr → ℕ → Bio → Machine → Machine
unfolding count_request set_stats update
bdtun_make_request none jiffies bio m = record m { ended = (bio, some eio) ∷ m.ended }
bdtun_make_request (some new) jiffies bio m = record m {
  heap = update m.heap new (some (record { bio = bio; start_time = jiffies }));
  dev =
      set_stats (count_request bio m.dev.bd_gd.part0)
        (record m.dev { incoming_bio_list = m.dev.incoming_bio_list ++ new ∷ [] });
}

unfoldable pub bdtun_open : Bdtun → Ret × Bdtun
bdtun_open d = if d.removing == 0 then (ok 0, record d { ucnt = inc32 d.ucnt }) else (err enoent, d)

unfoldable pub bdtun_release : Bdtun → Bdtun
bdtun_release d = record d { ucnt = dec32 d.ucnt }

-- `struct hd_geometry`.
pub record HdGeometry : Type 0 where
  pub heads : ℕ
  pub sectors : ℕ
  pub cylinders : ℕ
  pub start : ℕ

unfoldable pub bdtun_getgeo : Bdtun → HdGeometry
bdtun_getgeo d =
    let size = mul64 d.bd_size (d.bd_block_size / kernel_sector_size) in
    record { cylinders = bit_and size 0x3f / 2 ^ 6; heads = 4; sectors = 16; start = 0 }
