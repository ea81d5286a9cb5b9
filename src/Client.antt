-- ===== src/Client.antt =====
-- lib/libbdtun.c, over any implementation of `read` and `write` for its file descriptors.
pub mod Link
pub mod Commands
pub mod Requests
pub mod Transfer
pub mod Names
pub mod Listing
pub mod Mapping
pub mod Overlong
pub mod Information
use bdtun.Base.{
  ℕ, ◌+◌, ◌&&◌, List, [], ◌∷◌, ◌++◌, ◌==◌, ltb, if◌then◌else◌, length, take, replicate, to_bytes,
}
use bdtun.Base.Int.{ℤ, pos, negsuc, is_negative}
use bdtun.Header.{
  bdtun_devnames, bdtun_response_size, bdtun_comm_create, bdtun_comm_remove, bdtun_comm_list,
  bdtun_comm_info, bdtun_comm_resize, bdtun_txreq_header_size, TxReq, sizeof_uintptr, sizeof_info,
}
use bdtun.Device.{Run, done, oops, ◌>>=◌}

-- What is behind a file descriptor. A call returns its result, -1 for an error; a read also returns
-- the bytes that it stored in the caller's buffer.
pub record Fd (S : Type 0) : Type 0 where
  pub write : List ℕ → S → Run (ℤ × S)
  pub read : ℕ → S → Run (ℤ × List ℕ × S)

-- The result if it is not the one that is wanted, and 0 if it is.
abbrev pub zero_if : ℕ → ℤ → ℤ
zero_if n (pos m) = if m == n then pos 0 else pos m
zero_if n (negsuc m) = negsuc m

-- A negative result, or 0.
abbrev pub error_or_zero : ℤ → ℤ
error_or_zero (pos n) = pos 0
error_or_zero (negsuc n) = negsuc n

-- `strncpy (dst, s, n)`: the `n` bytes of the destination.
pub strncpy : List ℕ → ℕ → List ℕ
strncpy s n = take n (s ++ replicate n 0)

-- The 64 bytes of each command: the command, 7 of padding, the union.
pub create_command : List ℕ → ℕ → ℕ → ℕ → List ℕ
create_command name blocksize size capabilities =
    bdtun_comm_create
    ∷ (replicate 7 0
        ++ (to_bytes 8 blocksize
            ++ (to_bytes 8 size
                ++ (to_bytes 4 capabilities ++ (strncpy name 32 ++ replicate 4 0)))))

pub resize_command : List ℕ → ℕ → List ℕ
resize_command name size =
    bdtun_comm_resize ∷ (replicate 7 0 ++ (to_bytes 8 size ++ (strncpy name 32 ++ replicate 16 0)))

-- Removing and asking for information: a command and a name.
pub name_command : ℕ → List ℕ → List ℕ
name_command command name = command ∷ (replicate 7 0 ++ (strncpy name 32 ++ replicate 24 0))

pub list_command : ℕ → ℕ → List ℕ
list_command offset maxdevices =
    bdtun_comm_list
    ∷ (replicate 7 0 ++ (to_bytes 8 offset ++ (to_bytes 8 maxdevices ++ replicate 40 0)))

-- The loop over the bytes of an answer of `ret` bytes, from the `i`th on. `names` are the offsets
-- stored in `name_pbuf` so far; a store past its end is undefined.
unfoldable pub name_loop : ℕ → ℕ → List ℕ → List ℕ → Run (List ℕ)
name_loop ret i [] names = done names
name_loop ret i (b ∷ bs) names =
    let start = name_loop ret (i + 1) bs (names ++ (i + 1) ∷ []) in
    let inside = name_loop ret (i + 1) bs names in
    if (b == 0) && ltb (i + 1) ret
    then (if ltb (length names) bdtun_devnames then start else oops)
    else inside

-- The offsets of the names in an answer.
unfoldable pub split_names : List ℕ → Run (List ℕ)
unfolding name_loop
split_names [] = done []
split_names (b ∷ bs) = name_loop (length (b ∷ bs)) 1 bs (0 ∷ [])

-- `mmap` and `munmap` on the descriptor, by the length that they are given.
unfoldable pub bdtun_mmap_request : {A : Type 0} → (ℕ → A) → TxReq → A
bdtun_mmap_request mmap req = mmap req.size

unfoldable pub bdtun_munmap_request : {A : Type 0} → (ℕ → ℕ → A) → ℕ → TxReq → A
bdtun_munmap_request munmap buf req = munmap buf req.size

module _ {S : Type 0} (fd : Fd S) where
  unfoldable pub bdtun_read_request : S → Run (ℤ × List ℕ × S)
  bdtun_read_request s = do
    (res, req, s') ← fd.read bdtun_txreq_header_size s
    done (zero_if bdtun_txreq_header_size res, req, s')

  unfoldable pub bdtun_set_request : TxReq → S → Run (ℤ × S)
  bdtun_set_request req s = do
    (res, s') ← fd.write (to_bytes sizeof_uintptr req.id) s
    done (zero_if sizeof_uintptr res, s')

  unfoldable pub bdtun_get_request_data : TxReq → S → Run (ℤ × List ℕ × S)
  bdtun_get_request_data req s = do
    (res, buf, s') ← fd.read req.size s
    done (zero_if req.size res, buf, s')

  -- `buf` holds at least `req->size` bytes.
  unfoldable pub bdtun_send_request_data : TxReq → List ℕ → S → Run (ℤ × S)
  bdtun_send_request_data req buf s = do
    (res, s') ← fd.write (take req.size buf) s
    done (zero_if req.size res, s')

  unfoldable pub bdtun_complete_request : S → Run (ℤ × S)
  bdtun_complete_request s = do (res, s') ← fd.write (0 ∷ []) s; done (zero_if 1 res, s')

  -- The string "\0x01" begins with the byte 0: the escape ends before the `x`.
  unfoldable pub bdtun_fail_request : S → Run (ℤ × S)
  bdtun_fail_request s = do (res, s') ← fd.write (0 ∷ []) s; done (zero_if 1 res, s')

  unfoldable pub bdtun_create : List ℕ → ℕ → ℕ → ℕ → S → Run (ℤ × S)
  bdtun_create name blocksize size capabilities s = do
    (ret, s') ← fd.write (create_command name blocksize size capabilities) s
    done (error_or_zero ret, s')

  unfoldable pub bdtun_resize : List ℕ → ℕ → S → Run (ℤ × S)
  bdtun_resize name size s = do
    (ret, s') ← fd.write (resize_command name size) s
    done (error_or_zero ret, s')

  unfoldable pub bdtun_remove : List ℕ → S → Run (ℤ × S)
  bdtun_remove name s = do
    (ret, s') ← fd.write (name_command bdtun_comm_remove name) s
    done (error_or_zero ret, s')

  -- The bytes stored in the caller's structure come second.
  unfoldable pub bdtun_info : List ℕ → S → Run (ℤ × List ℕ × S)
  bdtun_info name s = do
    (ret, s') ← fd.write (name_command bdtun_comm_info name) s
    if is_negative ret
        then done (ret, [], s')
        else (do (ret', info, s'') ← fd.read sizeof_info s'; done (error_or_zero ret', info, s''))

  -- The answer and the offsets of the names in it come second and third.
  unfoldable pub bdtun_list : ℕ → ℕ → S → Run (ℤ × List ℕ × List ℕ × S)
  unfolding split_names
  bdtun_list offset maxdevices s = do
    (ret, s') ← fd.write (list_command offset maxdevices) s
    if is_negative ret then done (ret, [], [], s') else (do
      (ret', buf, s'') ← fd.read bdtun_response_size s'
      if is_negative ret'
          then done (ret', [], [], s'')
          else (do names ← split_names buf; done (pos (length names), buf, names, s'')))
