-- ===== src/Client/Overlong.antt =====
-- A create command with a name that fills the field of the command structure.
use bdtun.Base.{
  ℕ, zero, suc, ◌^◌, ◌≤◌, ◌<◌, ◌≡◌, refl, ◌∙◌, List, [], ◌∷◌, ◌++◌, none, some, arith, length, take,
  replicate, length-append, length-take, to_bytes, of_bytes-to_bytes,
}
use bdtun.Device.{oops}
use bdtun.Tunnel.Flags.{Kernel}
use bdtun.Registry.Create.{create_error, bdtun_create_k}
use bdtun.Control.{Control, Env, c_string, field, ctrl_write}
use bdtun.Client.{strncpy, create_command, bdtun_create}
use bdtun.Client.Link.{control_fd}
use bdtun.Client.Commands.{IsString, length-strncpy, dispatch-create, write_create-fields}

-- A string that is cut at `n` bytes, or before, ends at the 0 that follows.
c_string-cut :
    (s rest : List ℕ) (n m : ℕ)
    → IsString s
    → n ≤ length s
    → c_string (take n (s ++ replicate m 0) ++ 0 ∷ rest) ≡ some (take n s)
unfolding c_string
c_string-cut s rest zero m h le = refl
c_string-cut [] rest (suc n) m h le = absurd (omega arith)
c_string-cut (b ∷ bs) rest (suc n) m h le =
    ground (arith, h.0, c_string-cut bs rest n m h.1 (omega arith))

-- `bdtun_create` with a name of 32 bytes or more, which the library cuts to 32 without a terminator,
-- makes the module run past the end of its name buffers, if the sizes pass its checks, no device has
-- the cut name, and BDEVNAME_SIZE is at most 32.
pub overlong_name :
    (k : Kernel) (env : Env) (name : List ℕ) (blocksize size capabilities : ℕ) (s : Control)
    → IsString name
    → 32 ≤ length name
    → blocksize < 2 ^ 64
    → size < 2 ^ 64
    → capabilities < 2 ^ 32
    → k.bdevname_size ≤ 32
    → create_error k (take 32 name) blocksize size s.registry ≡ none
    → bdtun_create (control_fd k env) name blocksize size capabilities s ≡ oops
unfolding bdtun_create ctrl_write create_command to_bytes field bdtun_create_k strncpy
overlong_name k env name blocksize size capabilities s str long a b c small passes =
    let buf = create_command name blocksize size capabilities in
    let whole : length buf ≡ 64 =
      omega (arith, length-append (strncpy name 32) (replicate 4 0), length-strncpy name 32) in
    let cut : length (take 32 name) ≡ 32 = omega (arith, length-take 32 name, long) in
    let crash : bdtun_create_k k env.answers (take 32 name) blocksize size capabilities s.registry
        ≡ oops =
      ground (arith, passes, cut, small) in
    let runs =
      dispatch-create k env buf s whole
      ∙ write_create-fields k env buf s (take 32 name) blocksize size capabilities whole
          (c_string-cut name (replicate 3 0) 32 32 str long) (of_bytes-to_bytes 8 blocksize a)
          (of_bytes-to_bytes 8 size b) (of_bytes-to_bytes 4 capabilities c) in
    rw (runs, crash) refl
