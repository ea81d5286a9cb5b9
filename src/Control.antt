-- ===== src/Control.antt =====
-- The control device (kernel/bdtun.c: ctrl_read, ctrl_write, ctrl_response_buf) and the command
-- structure that is written to it (include/bdtun.h: struct bdtun_ctrl_command), by its bytes on an
-- LP64 machine: the command at 0 and the union at 8, 64 bytes in all.
pub mod Lock
pub mod Invariant
use bdtun.Base.{
  ℕ, ◌^◌, Bool, true, false, not, List, [], ◌∷◌, ◌++◌, Option, none, some, ◌⊎◌, inl, inr, ◌==◌, ltb,
  leb, if◌then◌else◌, length, take, drop, of_bytes,
}
use mathlib.Core.Option
use bdtun.Header.{
  bdtun_devnames, bdtun_response_size, bdtun_comm_create, bdtun_comm_remove, bdtun_comm_list,
  bdtun_comm_info, bdtun_comm_resize, BdtunInfo, info_bytes, sizeof_info,
}
use bdtun.Device.{Errno, eio, efault, Ret, ok, err, Run, done, oops, ◌>>=◌}
use bdtun.Tunnel.Flags.{Kernel}
use bdtun.Registry.{Name, Registry}
use bdtun.Registry.Create.{Answers, bdtun_create_k}
use bdtun.Registry.Manage.{bdtun_resize_k, bdtun_remove_k, bdtun_info_k}
use bdtun.Registry.Listing.{bdtun_list_k}

-- `ctrl_response_size` is a 32-bit pattern.
pub record Control : Type 0 where
  pub registry : Registry
  pub ctrl_response_buf : List ℕ
  pub ctrl_response_size : ℕ

-- `sizeof (struct bdtun_ctrl_command)`.
abbrev pub sizeof_command : ℕ
sizeof_command = 64

-- The number of `width` bytes at `pos`.
unfoldable pub field : ℕ → ℕ → List ℕ → ℕ
field pos width buf = of_bytes (take width (drop pos buf))

-- A C string, which ends before the first 0; none where no 0 follows.
unfoldable pub c_string : List ℕ → Option Name
c_string [] = none
c_string (b ∷ bs) = if b == 0 then some [] else Option.map (λ s. b ∷ s) (c_string bs)

-- The string at `pos`: the kernel runs off the buffer where it has no end.
unfoldable pub string_at : ℕ → List ℕ → Run Name
unfolding c_string
string_at pos buf = elim (c_string (drop pos buf)) [ none ↦ oops | some s ↦ done s ]

-- What the kernel answers a command: to a create, to a resize, and what lies in the padding of the
-- info structure on the stack.
pub record Env : Type 0 where
  pub answers : Answers
  pub revalidated : Option Errno
  pub padding : ℕ

-- A result below 0 is passed on; any other becomes the count.
abbrev pub counted : ℕ → Ret → Ret
counted n (ok m) = ok n
counted n (err e) = err e

abbrev pub overlay : List ℕ → List ℕ → List ℕ
overlay bytes buf = bytes ++ drop (length bytes) buf

unfoldable pub write_create : Kernel → Env → List ℕ → Control → Run (Ret × Control)
unfolding field string_at
write_create k env buf s = do
  name ← string_at 28 buf
  (ret, r) ←
      bdtun_create_k k env.answers name (field 8 8 buf) (field 16 8 buf) (field 24 4 buf) s.registry
  done (counted (length buf) ret, record s { registry = r })

unfoldable pub write_remove : List ℕ → Control → Run (Ret × Control)
unfolding string_at
write_remove buf s = do
  name ← string_at 8 buf
  let (ret, r) = bdtun_remove_k name s.registry
  done (counted (length buf) ret, record s { registry = r })

unfoldable pub write_info : Env → List ℕ → Control → Run (Ret × Control)
unfolding string_at
write_info env buf s = do
  name ← string_at 8 buf
  elim (bdtun_info_k name s.registry) [
    | inl e ↦ done (err e, s)
    | inr info ↦ done (
      ok (length buf),
      record s {
        ctrl_response_buf = overlay (info_bytes info env.padding) s.ctrl_response_buf;
        ctrl_response_size = sizeof_info;
      },
    )
  ]

unfoldable pub write_list : List ℕ → Control → Run (Ret × Control)
unfolding field
write_list buf s =
    let names =
      bdtun_list_k bdtun_response_size bdtun_devnames (field 8 8 buf) (field 16 8 buf) s.registry in
    done (
      ok (length buf),
      record s {
        ctrl_response_buf = overlay names s.ctrl_response_buf;
        ctrl_response_size = length names;
      },
    )

unfoldable pub write_resize : Env → List ℕ → Control → Run (Ret × Control)
unfolding field string_at
write_resize env buf s = do
  name ← string_at 16 buf
  let (ret, r) = bdtun_resize_k env.revalidated name (field 8 8 buf) s.registry
  done (counted (length buf) ret, record s { registry = r })

-- `buf` holds the `count` bytes written. Every command has the same size.
unfoldable pub dispatch : Kernel → Env → ℕ → List ℕ → Control → Run (Ret × Control)
unfolding write_create write_remove write_info write_list write_resize
dispatch k env command buf s =
    let short = ltb (length buf) sizeof_command in
    let bad = done (err eio, s) in
    if command == bdtun_comm_create
    then (if short then bad else write_create k env buf s)
    else (if command == bdtun_comm_remove
        then (if short then bad else write_remove buf s)
        else (if command == bdtun_comm_info
            then (if short then bad else write_info env buf s)
            else (if command == bdtun_comm_list
                then (if short then bad else write_list buf s)
                else (if command == bdtun_comm_resize
                    then (if short then bad else write_resize env buf s)
                    else bad))))

unfoldable pub ctrl_write : Kernel → Env → List ℕ → Control → Run (Ret × Control)
unfolding dispatch
ctrl_write k env [] s = done (err eio, s)
ctrl_write k env (command ∷ rest) s = dispatch k env command (command ∷ rest) s

-- The bytes are what the user's buffer is given, whatever `count` the user asked for.
unfoldable pub ctrl_read : (ℕ → ℕ → ℕ) → ℕ → Control → Ret × List ℕ × Control
ctrl_read missed count s =
    let tmp = s.ctrl_response_size in
    if leb (2 ^ 31) tmp
    then (err eio, [], s)
    else (if not (missed 0 tmp == 0)
        then (err efault, [], s)
        else (ok tmp, take tmp s.ctrl_response_buf, record s { ctrl_response_size = 0 }))
