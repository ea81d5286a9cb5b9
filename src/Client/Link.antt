-- ===== src/Client/Link.antt =====
-- The client library on top of the kernel module: what a system call on the module's devices does.
-- The C library turns a handler's error into -1. A read that stores more than the caller asked for
-- overruns the caller's buffer.
use bdtun.Base.{ℕ, true, List, [], Option, none, some, ◌==◌, ltb, if◌then◌else◌, length}
use bdtun.Base.Int.{ℤ, pos, negsuc}
use bdtun.Device.{einval, Ret, ok, err, Run, done, oops, ◌>>=◌, Machine}
use bdtun.Tunnel.Flags.{Kernel}
use bdtun.Tunnel.{ReadEnd, returned, asleep, bdtunch_read, bdtunch_write}
use bdtun.Tunnel.Mapping.{PageMap, Vma, bdtunch_mmap, area_for}
use bdtun.Control.{Control, Env, ctrl_write, ctrl_read}
use bdtun.Client.{Fd}

abbrev pub result : Ret → ℤ
result (ok n) = pos n
result (err e) = negsuc 0

-- A descriptor of the control device.
abbrev pub control_fd : Kernel → Env → Fd Control
control_fd k env = record {
  write = λ buf s. do
    (ret, t) ← ctrl_write k env buf s
    done (result ret, t);
  read = λ count s.
      let (ret, bytes, t) = ctrl_read (λ at n. 0) count s in
      if ltb count (length bytes) then oops else done (result ret, bytes, t);
}

-- A descriptor of a tunnel device at a time, opened so that a read does not wait: one that would
-- returns -1.
abbrev read_result : ReadEnd → Run (ℤ × List ℕ × Machine)
read_result (returned ret bytes n) = done (result ret, bytes, n)
read_result (asleep n) = done (negsuc 0, [], n)

abbrev pub tunnel_fd : Kernel → ℕ → Fd Machine
tunnel_fd k jiffies = record {
  write = λ buf m. do
    (ret, n) ← bdtunch_write (λ at n. 0) jiffies buf m
    done (result ret, n);
  read = λ count m. do
    e ← bdtunch_read k (λ at n. 0) [] count m
    read_result e;
}

-- `mmap` of a tunnel device at an address `base` that it has chosen, where every page that the
-- handler asks for is mapped: a length of 0 is EINVAL and does not reach the handler.
abbrev pub tunnel_mmap : Kernel → ℕ → Machine → ℕ → Run (Ret × List PageMap × Option Vma)
tunnel_mmap k base m size = if size == 0 then done (err einval, [], none) else (do
  (ret, maps, vma) ← bdtunch_mmap k (λ i. true) (area_for k base size) m
  done (ret, maps, some vma))
