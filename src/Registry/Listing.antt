-- ===== src/Registry/Listing.antt =====
-- Listing the devices (kernel/bdtun.c: bdtun_list_k).
use bdtun.Base.{ℕ, ◌+◌, ◌-◌, ◌||◌, List, [], ◌∷◌, ◌++◌, ltb, if◌then◌else◌, length}
use bdtun.Registry.{Node, Registry}

-- The loop: `i` names have been copied, and `buf` holds their bytes.
unfoldable pub list_loop : ℕ → ℕ → ℕ → List Node → ℕ → ℕ → List ℕ → List ℕ
list_loop bufsize maxdevices_internal maxdevices [] offset i buf = buf
list_loop bufsize maxdevices_internal maxdevices (d ∷ ds) offset i buf =
    let name = d.dev.bd_gd.disk_name ++ 0 ∷ [] in
    let skip = list_loop bufsize maxdevices_internal maxdevices ds (offset - 1) i buf in
    let next = list_loop bufsize maxdevices_internal maxdevices ds offset (i + 1) (buf ++ name) in
    if ltb 0 offset
    then skip
    else (if ltb maxdevices i || ltb maxdevices_internal i
        then buf
        else (if ltb bufsize (length buf + length name) then buf else next))

-- What is copied to the buffer; the count returned is its length.
unfoldable pub bdtun_list_k : ℕ → ℕ → ℕ → ℕ → Registry → List ℕ
unfolding list_loop
bdtun_list_k bufsize maxdevices_internal offset maxdevices s =
    list_loop bufsize maxdevices_internal maxdevices s.device_list offset 0 []
