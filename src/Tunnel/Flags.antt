-- ===== src/Tunnel/Flags.antt =====
-- The flags of a bio (kernel/bdtun.c: bdtun_translate_bio_rw; include/bdtun.h: BDTUN_REQ_*).
use Prim.Native.Nat.{bit_and, bit_or}
use bdtun.Base.{ℕ, ◌^◌, Bool, true, false, not, ◌&&◌, List, [], ◌∷◌, ◌==◌, if◌then◌else◌}

pub data Flag : Type 0 where
  write failfast_dev failfast_transport failfast_driver sync meta prio discard noidle rahead : Flag
  throttled sorted softbarrier fua nomerge started dontprep queued elvpriv failed quiet : Flag
  preempt alloced copy_user flush flush_seq io_stat mixed_merge secure : Flag

-- The kernel that the module is built for: its REQ_* masks, whether it is 3.2.0 or later, its page
-- size as a power of two, and its BDEVNAME_SIZE and DISK_NAME_LEN.
pub record Kernel : Type 0 where
  pub req : Flag → ℕ
  pub since_3_2 : Bool
  pub page_shift : ℕ
  pub bdevname_size : ℕ
  pub disk_name_len : ℕ

-- BDTUN_REQ_* is `1 << bit_number`.
unfoldable pub bit_number : Flag → ℕ
bit_number write = 1
bit_number failfast_dev = 2
bit_number failfast_transport = 3
bit_number failfast_driver = 4
bit_number sync = 5
bit_number meta = 6
bit_number prio = 7
bit_number discard = 8
bit_number noidle = 9
bit_number rahead = 10
bit_number throttled = 11
bit_number sorted = 12
bit_number softbarrier = 13
bit_number fua = 14
bit_number nomerge = 15
bit_number started = 16
bit_number dontprep = 17
bit_number queued = 18
bit_number elvpriv = 19
bit_number failed = 20
bit_number quiet = 21
bit_number preempt = 22
bit_number alloced = 23
bit_number copy_user = 24
bit_number flush = 25
bit_number flush_seq = 26
bit_number io_stat = 27
bit_number mixed_merge = 28
bit_number secure = 29

-- REQ_PRIO and REQ_FLUSH_SEQ are compiled in from 3.2.0 on.
unfoldable pub needs_3_2 : Flag → Bool
needs_3_2 prio = true
needs_3_2 flush_seq = true
needs_3_2 _ = false

-- The operands of the translation, in its order.
abbrev pub operands : List Flag
operands =
    write ∷ failfast_dev ∷ failfast_transport ∷ failfast_driver ∷ sync ∷ meta ∷ prio ∷ discard
    ∷ noidle ∷ rahead ∷ throttled ∷ sorted ∷ softbarrier ∷ fua ∷ nomerge ∷ started ∷ dontprep
    ∷ queued ∷ elvpriv ∷ failed ∷ quiet ∷ preempt ∷ alloced ∷ copy_user ∷ flush ∷ flush_seq
    ∷ io_stat ∷ mixed_merge ∷ secure ∷ []

-- `rw & REQ_X`, where the kernel has that flag.
unfoldable pub carries : Kernel → ℕ → Flag → Bool
unfolding needs_3_2
carries k rw f = (if needs_3_2 f then k.since_3_2 else true) && not (bit_and rw (k.req f) == 0)

unfoldable pub translate : Kernel → ℕ → List Flag → ℕ
unfolding carries bit_number
translate k rw [] = 0
translate k rw (f ∷ fs) =
    bit_or (if carries k rw f then 2 ^ bit_number f else 0) (translate k rw fs)

unfoldable pub bdtun_translate_bio_rw : Kernel → ℕ → ℕ
unfolding translate
bdtun_translate_bio_rw k rw = translate k rw operands
