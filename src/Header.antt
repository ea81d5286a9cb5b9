-- ===== src/Header.antt =====
-- include/bdtun.h: the constants and structures that the kernel module shares with userspace.
-- Sizes are those of an LP64 machine.
use bdtun.Base.{ℕ, List, ◌++◌, to_bytes, take, drop, of_bytes}

-- Size constants.
abbrev pub bdtun_devnames : ℕ
bdtun_devnames = 32

abbrev pub bdtun_response_size : ℕ
bdtun_response_size = 1024

-- Commands on the control device.
abbrev pub bdtun_comm_create : ℕ
bdtun_comm_create = 0

abbrev pub bdtun_comm_remove : ℕ
bdtun_comm_remove = 1

abbrev pub bdtun_comm_list : ℕ
bdtun_comm_list = 2

abbrev pub bdtun_comm_info : ℕ
bdtun_comm_info = 3

abbrev pub bdtun_comm_resize : ℕ
bdtun_comm_resize = 4

-- Capabilities of a device, as bit masks.
abbrev pub bdtun_flush : ℕ
bdtun_flush = 1

abbrev pub bdtun_fua : ℕ
bdtun_fua = 2

abbrev pub bdtun_discard : ℕ
bdtun_discard = 4

abbrev pub bdtun_secure : ℕ
bdtun_secure = 8

-- `struct bdtun_txreq`, a request as the tunnel device hands it out.
pub record TxReq : Type 0 where
  pub id : ℕ
  pub flags : ℕ
  pub offset : ℕ
  pub size : ℕ

abbrev pub bdtun_txreq_header_size : ℕ
bdtun_txreq_header_size = 32

abbrev pub sizeof_uintptr : ℕ
sizeof_uintptr = 8

-- The structure in memory, and read back from there.
unfoldable pub txreq_bytes : TxReq → List ℕ
txreq_bytes r =
    to_bytes 8 r.id ++ (to_bytes 8 r.flags ++ (to_bytes 8 r.offset ++ to_bytes 8 r.size))

unfoldable pub txreq_of_bytes : List ℕ → TxReq
txreq_of_bytes bs = record {
  id = of_bytes (take 8 bs);
  flags = of_bytes (take 8 (drop 8 bs));
  offset = of_bytes (take 8 (drop 16 bs));
  size = of_bytes (take 8 (drop 24 bs));
}

-- `struct bdtun_info`.
pub record BdtunInfo : Type 0 where
  pub bd_size : ℕ
  pub bd_block_size : ℕ
  pub bd_major : ℕ
  pub bd_minor : ℕ
  pub ch_major : ℕ
  pub ch_minor : ℕ
  pub capabilities : ℕ

abbrev pub sizeof_info : ℕ
sizeof_info = 40

-- `padding` is the four bytes behind the last field.
unfoldable pub info_bytes : BdtunInfo → ℕ → List ℕ
info_bytes i padding =
    to_bytes 8 i.bd_size
    ++ (to_bytes 8 i.bd_block_size
        ++ (to_bytes 4 i.bd_major
            ++ (to_bytes 4 i.bd_minor
                ++ (to_bytes 4 i.ch_major
                    ++ (to_bytes 4 i.ch_minor
                        ++ (to_bytes 4 i.capabilities ++ to_bytes 4 padding))))))

unfoldable pub info_of_bytes : List ℕ → BdtunInfo
info_of_bytes bs = record {
  bd_size = of_bytes (take 8 bs);
  bd_block_size = of_bytes (take 8 (drop 8 bs));
  bd_major = of_bytes (take 4 (drop 16 bs));
  bd_minor = of_bytes (take 4 (drop 20 bs));
  ch_major = of_bytes (take 4 (drop 24 bs));
  ch_minor = of_bytes (take 4 (drop 28 bs));
  capabilities = of_bytes (take 4 (drop 32 bs));
}
