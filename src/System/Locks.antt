-- ===== src/System/Locks.antt =====
-- The section of a header read in kernel/bdtun.c: bdtunch_read, under incoming_bio_list_lock, and what
-- other calls do meanwhile: those that take that lock wait, and bdtunch_write takes only
-- pending_bio_list_lock, which the header read takes for the last of its operations. Opens, which
-- touch no list, are steps only while the lock is free.
use bdtun.Base.{ℕ, ◌≡◌, ◌≢◌, List, ◌∷◌, Option, none, some}
use bdtun.Device.{Ret, done, Bio, Addr, Machine}
use bdtun.Tunnel.Flags.{Kernel}
use bdtun.Tunnel.{returned, serve_header, complete, write_payload}
use bdtun.System.{Step}
use bdtun.System.Cases.{choosing}

-- `reader` is the entry that a header read which holds incoming_bio_list_lock has found; none where
-- that lock is free.
pub record ListLock : Type 0 where
  pub machine : Machine
  pub reader : Option Addr

pub data ListStep (k : Kernel) (s : ListLock) : ListLock → Type 0 where
  finds :
      {a : Addr} {rest : List Addr}
      → s.reader ≡ none
      → s.machine.dev.incoming_bio_list ≡ a ∷ rest
      → ListStep k s (record s { reader = some a })
  serves :
      {a : Addr} {r : Ret} {bytes : List ℕ} {n : Machine}
      → s.reader ≡ some a
      → serve_header k a s.machine ≡ done (returned r bytes n)
      → ListStep k s (record { machine = n; reader = none })
  runs :
      {bios : List Bio} {n : Machine}
      → s.reader ≡ none
      → Step k s.machine bios n
      → ListStep k s (record s { machine = n })
  fills :
      (missed : ℕ → ℕ → ℕ) (buf : List ℕ) {r : Ret} {n : Machine}
      → write_payload missed buf s.machine ≡ done (r, n)
      → ListStep k s (record s { machine = n })
  chooses : (a : Addr) → ListStep k s (record s { machine = choosing a s.machine })
  completes :
      (byte jiffies : ℕ) {r : Ret} {n : Machine}
      → complete byte jiffies s.machine ≡ done (r, n)
      → ListStep k s (record s { machine = n })

pub data ListHistory (k : Kernel) (s : ListLock) : ListLock → Type 0 where
  at_once : ListHistory k s s
  and_so : {t u : ListLock} → ListHistory k s t → ListStep k t u → ListHistory k s u

-- No completion runs while a header read is in its section, or only one of another entry.
abbrev pub KeepsOff : {k : Kernel} {s t : ListLock} → ListStep k s t → Type 0
KeepsOff (finds p q) = Unit {0}
KeepsOff (serves p q) = Unit {0}
KeepsOff (runs p step) = Unit {0}
KeepsOff (fills missed buf q) = Unit {0}
KeepsOff (chooses a) = Unit {0}
KeepsOff {s = s} (completes byte jiffies q) = s.reader ≢ some s.machine.dev.data_current_bio

abbrev pub AllKeepOff : {k : Kernel} {s t : ListLock} → ListHistory k s t → Type 0
AllKeepOff at_once = Unit {0}
AllKeepOff (and_so past step) = AllKeepOff past × KeepsOff step

abbrev pub list_unlocked : Machine → ListLock
list_unlocked m = record { machine = m; reader = none }
