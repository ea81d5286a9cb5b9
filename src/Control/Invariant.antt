-- ===== src/Control/Invariant.antt =====
-- Whatever is written to the control device, the registry stays well formed and an answer stays
-- within its buffer.
use bdtun.Base.{
  ℕ, ◌+◌, ◌-◌, ◌≤◌, ◌≡◌, ◌⊎◌, inl, inr, refl, List, [], ◌∷◌, ◌++◌, arith, ◌==◌, ltb, if-both,
  length, length-append, length-drop, to_bytes, drop,
}
use bdtun.Header.{
  bdtun_devnames, bdtun_response_size, bdtun_comm_create, bdtun_comm_remove, bdtun_comm_list,
  bdtun_comm_info, bdtun_comm_resize, BdtunInfo, info_bytes, sizeof_info,
}
use bdtun.Device.{Errno, eio, Ret, ok, err, Run, done, >>=-eq-done}
use bdtun.Tunnel.Flags.{Kernel}
use bdtun.Registry.{Name, Node}
use bdtun.Registry.Create.{bdtun_create_k}
use bdtun.Registry.Manage.{bdtun_info_k}
use bdtun.Registry.Listing.{list_loop, bdtun_list_k}
use bdtun.Registry.Invariant
use bdtun.Control.{
  Control, Env, sizeof_command, string_at, field, overlay, write_create, write_remove, write_info,
  write_list, write_resize, dispatch, ctrl_write,
}

pub length-list_loop :
    (bufsize internal maxdevices : ℕ) (ds : List Node) (offset i : ℕ) (buf : List ℕ)
    → length buf ≤ bufsize
    → length (list_loop bufsize internal maxdevices ds offset i buf) ≤ bufsize
unfolding list_loop
length-list_loop bufsize internal maxdevices [] offset i buf h = h
length-list_loop bufsize internal maxdevices (d ∷ ds) offset i buf h =
    let name = d.dev.bd_gd.disk_name ++ 0 ∷ [] in
    ground (
      arith,
      length-append buf name,
      length-list_loop bufsize internal maxdevices ds (offset - 1) i buf,
      length-list_loop bufsize internal maxdevices ds offset (i + 1) (buf ++ name),
    )

length-info_bytes : (i : BdtunInfo) (padding : ℕ) → length (info_bytes i padding) ≡ sizeof_info
unfolding info_bytes to_bytes
length-info_bytes i padding = refl

-- The response buffer keeps its size, and the response lies in it.
pub record IsValid (s : Control) : Type 0 where
  pub registry : Invariant.IsValid s.registry
  pub buffer : length s.ctrl_response_buf ≡ bdtun_response_size
  pub response : s.ctrl_response_size ≤ bdtun_response_size

length-overlay :
    (bytes buf : List ℕ) → length bytes ≤ length buf → length (overlay bytes buf) ≡ length buf
length-overlay bytes buf h =
    omega (arith, length-append bytes (drop (length bytes) buf), length-drop (length bytes) buf)

write_create-IsValid :
    (k : Kernel) (env : Env) (buf : List ℕ) (s : Control) {r : Ret} {t : Control}
    → write_create k env buf s ≡ done (r, t)
    → IsValid s
    → IsValid t
unfolding write_create string_at
write_create-IsValid k env buf s {r} {t} h v =
    let (name, p, q) = >>=-eq-done (string_at 28 buf) _ h in
    let ((ret, made), made_by, rest) =
      >>=-eq-done
        (bdtun_create_k k env.answers name (field 8 8 buf) (field 16 8 buf) (field 24 4 buf)
          s.registry)
        _ q in
    let valid =
      Invariant.bdtun_create_k-IsValid k env.answers name (field 8 8 buf) (field 16 8 buf)
        (field 24 4 buf) s.registry made_by v.registry in
    ground (arith, rest, valid, v)

write_remove-IsValid :
    (buf : List ℕ) (s : Control) {r : Ret} {t : Control}
    → write_remove buf s ≡ done (r, t)
    → IsValid s
    → IsValid t
unfolding write_remove string_at
write_remove-IsValid buf s {r} {t} h v =
    let (name, p, q) = >>=-eq-done (string_at 8 buf) _ h in
    ground (arith, q, Invariant.bdtun_remove_k-IsValid name s.registry v.registry, v)

write_info-IsValid :
    (env : Env) (buf : List ℕ) (s : Control) {r : Ret} {t : Control}
    → write_info env buf s ≡ done (r, t)
    → IsValid s
    → IsValid t
unfolding write_info string_at
write_info-IsValid env buf s {r} {t} h v =
    let (name, p, q) = >>=-eq-done (string_at 8 buf) _ h in
    go name (bdtun_info_k name s.registry) refl q
  where
    go :
        (name : Name) (i : Errno ⊎ BdtunInfo)
        → bdtun_info_k name s.registry ≡ i
        → elim i as (λ _. Run (Ret × Control)) [
          | inl e ↦ done (err e, s)
          | inr info ↦ done (
            ok (length buf),
            record s {
              ctrl_response_buf = overlay (info_bytes info env.padding) s.ctrl_response_buf;
              ctrl_response_size = sizeof_info;
            },
          )
        ]
          ≡ done (r, t)
        → IsValid t
    go name (inl e) p q = ground (arith, v)
    go name (inr info) p q = ground (
      arith,
      v,
      length-info_bytes info env.padding,
      length-overlay (info_bytes info env.padding) s.ctrl_response_buf,
    )

write_list-IsValid :
    (buf : List ℕ) (s : Control) {r : Ret} {t : Control}
    → write_list buf s ≡ done (r, t)
    → IsValid s
    → IsValid t
unfolding write_list bdtun_list_k
write_list-IsValid buf s {r} {t} h v =
    let names =
      list_loop bdtun_response_size bdtun_devnames (field 16 8 buf) s.registry.device_list
        (field 8 8 buf) 0 [] in
    ground (
      arith,
      h,
      v,
      length-list_loop bdtun_response_size bdtun_devnames (field 16 8 buf) s.registry.device_list
          (field 8 8 buf) 0 [],
      length-overlay names s.ctrl_response_buf,
    )

write_resize-IsValid :
    (env : Env) (buf : List ℕ) (s : Control) {r : Ret} {t : Control}
    → write_resize env buf s ≡ done (r, t)
    → IsValid s
    → IsValid t
unfolding write_resize string_at
write_resize-IsValid env buf s {r} {t} h v =
    let (name, p, q) = >>=-eq-done (string_at 16 buf) _ h in
    ground (
      arith,
      q,
      Invariant.bdtun_resize_k-IsValid env.revalidated name (field 8 8 buf) s.registry v.registry,
      v,
    )

-- What holds of a refusal and of each command's handler holds of the dispatch.
pub dispatch-cases {ℓ} :
    (P : Run (Ret × Control) → Type ℓ) (k : Kernel) (env : Env) (command : ℕ) (buf : List ℕ)
    (s : Control)
    → P (done (err eio, s))
    → P (write_create k env buf s)
    → P (write_remove buf s)
    → P (write_info env buf s)
    → P (write_list buf s)
    → P (write_resize env buf s)
    → P (dispatch k env command buf s)
unfolding dispatch
dispatch-cases P k env command buf s bad create remove info list resize =
    let short = ltb (length buf) sizeof_command in
    if-both P (command == bdtun_comm_create) (if-both P short bad create) (
      if-both P (command == bdtun_comm_remove) (if-both P short bad remove) (
        if-both P (command == bdtun_comm_info) (if-both P short bad info) (
          if-both P (command == bdtun_comm_list) (if-both P short bad list)
            (if-both P (command == bdtun_comm_resize) (if-both P short bad resize) bad))))

abbrev EndsValid : Run (Ret × Control) → Type 0
EndsValid run = (r : Ret) (t : Control) → run ≡ done (r, t) → IsValid t

dispatch-IsValid :
    (k : Kernel) (env : Env) (command : ℕ) (buf : List ℕ) (s : Control)
    → IsValid s
    → EndsValid (dispatch k env command buf s)
dispatch-IsValid k env command buf s v =
    dispatch-cases EndsValid k env command buf s (λ r t h. ground (arith, v))
      (λ r t h. write_create-IsValid k env buf s h v) (λ r t h. write_remove-IsValid buf s h v)
      (λ r t h. write_info-IsValid env buf s h v) (λ r t h. write_list-IsValid buf s h v)
      (λ r t h. write_resize-IsValid env buf s h v)

-- Whatever bytes are written to the control device, and whatever the kernel answers, a write that
-- does not oops keeps this: device names are distinct, the module holds one of each kernel object
-- for each listed device (and as many device nodes at least), each block size is at least 512 and
-- a power of two, and the response lies within the 1024 bytes of its buffer.
pub ctrl_write-IsValid :
    (k : Kernel) (env : Env) (buf : List ℕ) (s : Control) {r : Ret} {t : Control}
    → ctrl_write k env buf s ≡ done (r, t)
    → IsValid s
    → IsValid t
unfolding ctrl_write
ctrl_write-IsValid k env [] s h v = ground (arith, v)
ctrl_write-IsValid k env (command ∷ rest) s h v =
    dispatch-IsValid k env command (command ∷ rest) s v _ _ h
