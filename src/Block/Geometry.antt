-- ===== src/Block/Geometry.antt =====
-- The geometry that the block device claims (kernel/bdtun.c: bdtun_getgeo).
use Prim.Native.Nat.{bit_and}
use bdtun.Base.{ℕ, ◌*◌, ◌/◌, ◌≤◌, ◌≡◌, arith, mul64}
use bdtun.Base.Bits.{bit_and_step, bit_and-zero}
use bdtun.Device.{Bdtun}
use bdtun.Block.{kernel_sector_size, bdtun_getgeo}

-- The low bits of a number are at most the mask.
low_bits : (a : ℕ) → bit_and a 63 ≤ 63
low_bits a = omega (
  arith,
  bit_and_step a 63,
  bit_and_step (a / 2) 31,
  bit_and_step (a / 2 / 2) 15,
  bit_and_step (a / 2 / 2 / 2) 7,
  bit_and_step (a / 2 / 2 / 2 / 2) 3,
  bit_and_step (a / 2 / 2 / 2 / 2 / 2) 1,
  bit_and-zero (a / 2 / 2 / 2 / 2 / 2 / 2),
)

-- Whatever the size of the device, the geometry has no cylinder, and so room for no sector.
bdtun_getgeo-empty :
    (d : Bdtun)
    → ((bdtun_getgeo d).cylinders ≡ 0)
      × ((bdtun_getgeo d).cylinders * ((bdtun_getgeo d).heads * (bdtun_getgeo d).sectors) ≡ 0)
unfolding bdtun_getgeo
bdtun_getgeo-empty d =
    let size = mul64 d.bd_size (d.bd_block_size / kernel_sector_size) in
    (omega (arith, low_bits size), omega (arith, low_bits size))
