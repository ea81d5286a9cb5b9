-- ===== src/Client/Information.antt =====
-- Asking for information on a device, from the library to the device list and back.
use bdtun.Base.{
  ℕ, ◌<◌, ◌≡◌, refl, List, [], ◌⊎◌, inl, inr, arith, length, replicate, length-append, to_bytes,
}
use bdtun.Base.Int.{ℤ, pos, negsuc}
use bdtun.Header.{BdtunInfo, info_bytes, sizeof_info}
use bdtun.Device.{Errno, Ret, ok, err, Run, done}
use bdtun.Tunnel.Flags.{Kernel}
use bdtun.Registry.Manage.{bdtun_info_k}
use bdtun.Control.{Control, Env, write_info, dispatch, ctrl_write, ctrl_read, overlay}
use bdtun.Client.{name_command, strncpy, bdtun_info}
use bdtun.Client.Link.{control_fd}
use bdtun.Client.Commands.{IsString, c_string-strncpy, length-strncpy}

length-info_bytes : (i : BdtunInfo) (padding : ℕ) → length (info_bytes i padding) ≡ sizeof_info
unfolding info_bytes to_bytes
length-info_bytes i padding = refl

-- What an info command leaves, by what the module finds.
abbrev asked : Env → Control → Errno ⊎ BdtunInfo → Run (Ret × Control)
asked env s (inl e) = done (err e, s)
asked env s (inr i) = done (
  ok 64,
  record s {
    ctrl_response_buf = overlay (info_bytes i env.padding) s.ctrl_response_buf;
    ctrl_response_size = sizeof_info;
  },
)

ctrl_write-info :
    (k : Kernel) (env : Env) (name : List ℕ) (s : Control)
    → IsString name
    → length name < 32
    → ctrl_write k env (name_command 3 name) s ≡ asked env s (bdtun_info_k name s.registry)
unfolding ctrl_write dispatch write_info name_command
ctrl_write-info k env name s str fits =
    let whole : length (name_command 3 name) ≡ 64 =
      omega (arith, length-append (strncpy name 32) (replicate 24 0), length-strncpy name 32) in
    ground (arith, c_string-strncpy name (replicate 24 0) str fits, whole)

-- What the library returns: its result, and the bytes of the structure.
abbrev pub informed : Env → Control → Errno ⊎ BdtunInfo → Run (ℤ × List ℕ × Control)
informed env s (inl e) = done (negsuc 0, [], s)
informed env s (inr i) = done (
  pos 0,
  info_bytes i env.padding,
  record s {
    ctrl_response_buf = overlay (info_bytes i env.padding) s.ctrl_response_buf;
    ctrl_response_size = 0;
  },
)

read_information :
    (i : BdtunInfo) (padding : ℕ) (s : Control)
    → ctrl_read
        (λ at n. 0)
        sizeof_info
        (record s {
          ctrl_response_buf = overlay (info_bytes i padding) s.ctrl_response_buf;
          ctrl_response_size = sizeof_info;
        })
      ≡ (
        ok sizeof_info,
        info_bytes i padding,
        record s {
          ctrl_response_buf = overlay (info_bytes i padding) s.ctrl_response_buf;
          ctrl_response_size = 0;
        },
      )
unfolding ctrl_read info_bytes to_bytes
read_information i padding s = refl

-- `bdtun_info` on the control device, for a name of less than 32 bytes, none of them 0, returns -1 if
-- no device has the name; if one has, it returns 0 and the bytes of that device's information, and
-- leaves no response behind.
pub bdtun_info-returns :
    (k : Kernel) (env : Env) (name : List ℕ) (s : Control)
    → IsString name
    → length name < 32
    → bdtun_info (control_fd k env) name s ≡ informed env s (bdtun_info_k name s.registry)
unfolding bdtun_info
bdtun_info-returns k env name s str fits = go (bdtun_info_k name s.registry) refl
  where
    go :
        (o : Errno ⊎ BdtunInfo)
        → bdtun_info_k name s.registry ≡ o
        → bdtun_info (control_fd k env) name s ≡ informed env s (bdtun_info_k name s.registry)
    go (inl e) p = rw (ctrl_write-info k env name s str fits, p) refl
    go (inr i) p =
        rw (ctrl_write-info k env name s str fits, p, read_information i env.padding s)
          (ground (arith, length-info_bytes i env.padding))
