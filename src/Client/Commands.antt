-- ===== src/Client/Commands.antt =====
-- What each command of the library asks of the kernel module, and what comes back.
use bdtun.Base.{
  ℕ, zero, suc, ◌+◌, ◌^◌, ◌≤◌, ◌<◌, ◌≡◌, ◌≢◌, refl, ◌∙◌, List, [], ◌∷◌, ◌++◌, some, arith, length,
  take, drop, replicate, length-append, length-take, length-replicate, to_bytes, of_bytes-to_bytes,
}
use bdtun.Device.{Ret, ok, err, Run, done, oops, ◌>>=◌}
use bdtun.Tunnel.Flags.{Kernel}
use bdtun.Registry.{Registry}
use bdtun.Registry.Create.{bdtun_create_k}
use bdtun.Registry.Manage.{bdtun_resize_k, bdtun_remove_k}
use bdtun.Base.Int.{ℤ}
use bdtun.Control.{
  counted, Control, Env, c_string, field, write_create, write_remove, write_resize, dispatch,
  ctrl_write,
}
use bdtun.Client.{
  error_or_zero, strncpy, create_command, resize_command, name_command, bdtun_create, bdtun_resize,
  bdtun_remove,
}
use bdtun.Client.Link.{result, control_fd}

-- A string of C: no byte of it is 0.
abbrev pub IsString : List ℕ → Type 0
IsString [] = Unit {0}
IsString (b ∷ bs) = (b ≢ 0) × IsString bs

c_string-copied :
    (s : List ℕ) (n m : ℕ) (rest : List ℕ)
    → IsString s
    → length s < n
    → n ≤ m
    → c_string (take n (s ++ replicate m 0) ++ rest) ≡ some s
unfolding c_string
c_string-copied [] zero m rest h lt le = absurd (omega arith)
c_string-copied [] (suc n) zero rest h lt le = absurd (omega arith)
c_string-copied [] (suc n) (suc m) rest h lt le = refl
c_string-copied (b ∷ bs) zero m rest h lt le = absurd (omega arith)
c_string-copied (b ∷ bs) (suc n) m rest h lt le =
    ground (arith, h, c_string-copied bs n m rest h.1 (omega arith) (omega arith))

-- A string of less than 32 bytes that `strncpy` puts in a field is read back whole.
pub c_string-strncpy :
    (s rest : List ℕ) → IsString s → length s < 32 → c_string (strncpy s 32 ++ rest) ≡ some s
unfolding strncpy
c_string-strncpy s rest h lt = c_string-copied s 32 32 rest h lt (omega arith)

pub length-strncpy : (s : List ℕ) (n : ℕ) → length (strncpy s n) ≡ n
unfolding strncpy
length-strncpy s n = omega (
  arith,
  length-take n (s ++ replicate n 0),
  length-append s (replicate n 0),
  length-replicate n (◌+◌ 0 0),
)

-- What a handler answers, as `ctrl_write` and as the library returns it.
abbrev pub written : Control → Ret × Registry → Run (Ret × Control)
written s (ret, r) = done (counted 64 ret, record s { registry = r })

abbrev pub answer : Control → Ret × Registry → Run (ℤ × Control)
answer s (ret, r) = done (error_or_zero (result ret), record s { registry = r })

abbrev as_call : Ret × Control → Run (ℤ × Control)
as_call (ret, t) = done (result ret, t)

abbrev as_library : ℤ × Control → Run (ℤ × Control)
as_library (ret, t) = done (error_or_zero ret, t)

answered :
    (s : Control) (m : Run (Ret × Registry))
    → (((m >>= written s) >>= as_call) >>= as_library) ≡ (m >>= answer s)
answered s (done (ok n, r)) = refl
answered s (done (err e, r)) = refl
answered s oops = refl

-- The handlers at a buffer whose fields are known.
module _ (k : Kernel) (env : Env) (buf : List ℕ) (s : Control) (whole : length buf ≡ 64) where
  pub dispatch-create : dispatch k env 0 buf s ≡ write_create k env buf s
  unfolding dispatch
  dispatch-create = rw whole

  dispatch-remove : dispatch k env 1 buf s ≡ write_remove buf s
  unfolding dispatch
  dispatch-remove = rw whole

  dispatch-resize : dispatch k env 4 buf s ≡ write_resize env buf s
  unfolding dispatch
  dispatch-resize = rw whole

pub write_create-fields :
    (k : Kernel) (env : Env) (buf : List ℕ) (s : Control) (name : List ℕ)
    (blocksize size capabilities : ℕ)
    → length buf ≡ 64
    → c_string (drop 28 buf) ≡ some name
    → field 8 8 buf ≡ blocksize
    → field 16 8 buf ≡ size
    → field 24 4 buf ≡ capabilities
    → write_create k env buf s
      ≡ (bdtun_create_k k env.answers name blocksize size capabilities s.registry >>= written s)
unfolding write_create
write_create-fields k env buf s name blocksize size capabilities w p q₁ q₂ q₃ =
    ground (arith, p, q₁, q₂, q₃, w)

ctrl_write-create :
    (k : Kernel) (env : Env) (name : List ℕ) (blocksize size capabilities : ℕ) (s : Control)
    → IsString name
    → length name < 32
    → blocksize < 2 ^ 64
    → size < 2 ^ 64
    → capabilities < 2 ^ 32
    → ctrl_write k env (create_command name blocksize size capabilities) s
      ≡ (bdtun_create_k k env.answers name blocksize size capabilities s.registry >>= written s)
unfolding ctrl_write create_command to_bytes field
ctrl_write-create k env name blocksize size capabilities s str fits a b c =
    let whole : length (create_command name blocksize size capabilities) ≡ 64 =
      omega (arith, length-append (strncpy name 32) (replicate 4 0), length-strncpy name 32) in
    dispatch-create k env (create_command name blocksize size capabilities) s whole
    ∙ write_create-fields k env (create_command name blocksize size capabilities) s name blocksize
        size capabilities whole (c_string-strncpy name (replicate 4 0) str fits)
        (of_bytes-to_bytes 8 blocksize a) (of_bytes-to_bytes 8 size b)
        (of_bytes-to_bytes 4 capabilities c)

-- `bdtun_create` on the control device runs the module's create command on exactly its arguments,
-- for a name of less than 32 bytes, none of them 0, sizes of 64 bits and capabilities of 32, and
-- returns 0 or -1.
pub bdtun_create-reaches :
    (k : Kernel) (env : Env) (name : List ℕ) (blocksize size capabilities : ℕ) (s : Control)
    → IsString name
    → length name < 32
    → blocksize < 2 ^ 64
    → size < 2 ^ 64
    → capabilities < 2 ^ 32
    → bdtun_create (control_fd k env) name blocksize size capabilities s
      ≡ (bdtun_create_k k env.answers name blocksize size capabilities s.registry >>= answer s)
unfolding bdtun_create
bdtun_create-reaches k env name blocksize size capabilities s str fits a b c =
    rw (ctrl_write-create k env name blocksize size capabilities s str fits a b c)
      (answered s (bdtun_create_k k env.answers name blocksize size capabilities s.registry))

ctrl_write-resize :
    (k : Kernel) (env : Env) (name : List ℕ) (size : ℕ) (s : Control)
    → IsString name
    → length name < 32
    → size < 2 ^ 64
    → ctrl_write k env (resize_command name size) s
      ≡ (done (bdtun_resize_k env.revalidated name size s.registry) >>= written s)
unfolding ctrl_write write_resize resize_command to_bytes field
ctrl_write-resize k env name size s str fits a =
    let whole : length (resize_command name size) ≡ 64 =
      omega (arith, length-append (strncpy name 32) (replicate 16 0), length-strncpy name 32) in
    dispatch-resize k env (resize_command name size) s whole
    ∙ ground
        (arith, c_string-strncpy name (replicate 16 0) str fits, of_bytes-to_bytes 8 size a, whole)

ctrl_write-remove :
    (k : Kernel) (env : Env) (name : List ℕ) (s : Control)
    → IsString name
    → length name < 32
    → ctrl_write k env (name_command 1 name) s
      ≡ (done (bdtun_remove_k name s.registry) >>= written s)
unfolding ctrl_write write_remove name_command
ctrl_write-remove k env name s str fits =
    let whole : length (name_command 1 name) ≡ 64 =
      omega (arith, length-append (strncpy name 32) (replicate 24 0), length-strncpy name 32) in
    dispatch-remove k env (name_command 1 name) s whole
    ∙ ground (arith, c_string-strncpy name (replicate 24 0) str fits, whole)

pub bdtun_resize_remove-reach :
    (k : Kernel) (env : Env) (name : List ℕ) (size : ℕ) (s : Control)
    → IsString name
    → length name < 32
    → size < 2 ^ 64
    → (bdtun_resize (control_fd k env) name size s
        ≡ answer s (bdtun_resize_k env.revalidated name size s.registry))
      × (bdtun_remove (control_fd k env) name s ≡ answer s (bdtun_remove_k name s.registry))
unfolding bdtun_resize bdtun_remove
bdtun_resize_remove-reach k env name size s str fits a = (
  rw (ctrl_write-resize k env name size s str fits a)
      (answered s (done (bdtun_resize_k env.revalidated name size s.registry))),
  rw (ctrl_write-remove k env name s str fits) (answered s (done (bdtun_remove_k name s.registry))),
)

-- `bdtun_create`, `bdtun_resize` and `bdtun_remove` on the control device run the module's commands on
-- exactly their arguments, for a name of less than 32 bytes, none of them 0, sizes of 64 bits and
-- capabilities of 32, and return 0 or -1.
pub commands-reach :
    (k : Kernel) (env : Env) (name : List ℕ) (blocksize size capabilities : ℕ) (s : Control)
    → IsString name
    → length name < 32
    → blocksize < 2 ^ 64
    → size < 2 ^ 64
    → capabilities < 2 ^ 32
    → (bdtun_create (control_fd k env) name blocksize size capabilities s
        ≡ (bdtun_create_k k env.answers name blocksize size capabilities s.registry >>= answer s))
      × (bdtun_resize (control_fd k env) name size s
          ≡ answer s (bdtun_resize_k env.revalidated name size s.registry))
      × (bdtun_remove (control_fd k env) name s ≡ answer s (bdtun_remove_k name s.registry))
commands-reach k env name blocksize size capabilities s str fits a b c =
    let (resizes, removes) = bdtun_resize_remove-reach k env name size s str fits b in
    (bdtun_create-reaches k env name blocksize size capabilities s str fits a b c, resizes, removes)
