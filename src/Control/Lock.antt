-- ===== src/Control/Lock.antt =====
-- Who may open the control device (kernel/bdtun.c: ctrl_lock, ctrl_open, ctrl_release), with each
-- atomic operation as a step of its own, in any interleaving of any number of threads.
use bdtun.Base.{ℕ, zero, suc, ◌+◌, ◌-◌, ◌≤◌, ◌<◌, ◌≡◌, ◌≢◌, ◌↔◌, arith}
use bdtun.Base.Int.{ℤ, pos, negsuc}

abbrev pub inc : ℤ → ℤ
inc (pos n) = pos (suc n)
inc (negsuc zero) = pos 0
inc (negsuc (suc n)) = negsuc n

abbrev pub dec : ℤ → ℤ
dec (pos zero) = negsuc 0
dec (pos (suc n)) = pos n
dec (negsuc n) = negsuc (suc n)

-- `holders` threads have the device open, and `failing` ones have decremented the lock in vain and
-- not yet incremented it again.
pub record Lock : Type 0 where
  pub ctrl_lock : ℤ
  pub holders : ℕ
  pub failing : ℕ

pub data LockStep (l : Lock) : Lock → Type 0 where
  -- `atomic_dec_and_test` brings the lock to 0: `ctrl_open` returns 0.
  opens :
      dec l.ctrl_lock ≡ pos 0 → LockStep l (record l { ctrl_lock = pos 0; holders = l.holders + 1 })
  -- It does not: the thread is about to run `atomic_inc`.
  refused :
      (v : ℤ)
      → dec l.ctrl_lock ≡ v
      → v ≢ pos 0
      → LockStep l (record l { ctrl_lock = v; failing = l.failing + 1 })
  -- That `atomic_inc`, after which `ctrl_open` returns -EBUSY.
  gives_up :
      0 < l.failing → LockStep l (record l { ctrl_lock = inc l.ctrl_lock; failing = l.failing - 1 })
  -- `ctrl_release`.
  releases :
      0 < l.holders → LockStep l (record l { ctrl_lock = inc l.ctrl_lock; holders = l.holders - 1 })

pub data LockHistory (l : Lock) : Lock → Type 0 where
  start : LockHistory l l
  then_step : {m n : Lock} → LockHistory l m → LockStep m n → LockHistory l n

-- The lock as the module is loaded.
abbrev pub unlocked : Lock
unlocked = record { ctrl_lock = pos 1; holders = 0; failing = 0 }

-- The lock is 1 less every holder and every thread about to give up, and one holder is the most.
abbrev above : ℤ → ℕ
above (pos n) = n
above (negsuc n) = 0

abbrev below : ℤ → ℕ
below (pos n) = 0
below (negsuc n) = suc n

pub record IsExclusive (l : Lock) : Type 0 where
  pub balance : above l.ctrl_lock + l.holders + l.failing ≡ 1 + below l.ctrl_lock
  pub one : l.holders ≤ 1

LockStep-IsExclusive : {l m : Lock} → LockStep l m → IsExclusive l → IsExclusive m
LockStep-IsExclusive {l} (opens e) v = ground arith
LockStep-IsExclusive {l} (refused w e ne) v = ground arith
LockStep-IsExclusive {l} (gives_up h) v = ground arith
LockStep-IsExclusive {l} (releases h) v = ground arith

LockHistory-IsExclusive : {l m : Lock} → LockHistory l m → IsExclusive l → IsExclusive m
LockHistory-IsExclusive start v = v
LockHistory-IsExclusive (then_step h s) v = LockStep-IsExclusive s (LockHistory-IsExclusive h v)

-- From the lock as it is loaded, in every interleaving of opens and closes: at most one thread has
-- the control device open, and the next decrement succeeds exactly when no thread has it open and
-- none is between a failed decrement and the increment that takes it back.
pub ctrl_open-excludes :
    {l : Lock}
    → LockHistory unlocked l
    → (l.holders ≤ 1) × ((dec l.ctrl_lock ≡ pos 0) ↔ ((l.holders ≡ 0) × (l.failing ≡ 0)))
ctrl_open-excludes {l} h =
    let v = LockHistory-IsExclusive h (omega arith) in
    (v.one, ((λ e. ground (arith, v)), (λ idle. ground (arith, v))))
