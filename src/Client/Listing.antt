-- ===== src/Client/Listing.antt =====
-- Listing the devices, from the library to the device list and back.
use Prim.Native.Nat.{min}
use bdtun.Base.{
  ℕ, zero, suc, ◌+◌, ◌^◌, ◌≤◌, ◌<◌, ◌≡◌, refl, List, [], ◌∷◌, arith, leb, if◌then◌else◌, length,
  take, drop, length-take, take-append_self, to_bytes, of_bytes-to_bytes, ap,
}
use bdtun.Base.Int.{pos}
use bdtun.Device.{done, oops, ok}
use bdtun.Tunnel.Flags.{Kernel}
use bdtun.Registry.{Node}
use bdtun.Registry.Listing.{bdtun_list_k}
use bdtun.Registry.Pages.{IsPage, bdtun_list_k-IsPage}
use bdtun.Control.{Control, Env, field, write_list, dispatch, ctrl_write, ctrl_read, overlay}
use bdtun.Client.{list_command, split_names, bdtun_list}
use bdtun.Client.Link.{control_fd}
use bdtun.Client.Names.{AllNamed, starts, split_names-entries}

-- What a list command leaves in the control device.
abbrev listed : ℕ → ℕ → Control → Control
listed offset maxdevices s =
    let names = bdtun_list_k 1024 32 offset maxdevices s.registry in
    record s {
      ctrl_response_buf = overlay names s.ctrl_response_buf;
      ctrl_response_size = length names;
    }

ctrl_write-list :
    (k : Kernel) (env : Env) (offset maxdevices : ℕ) (s : Control)
    → offset < 2 ^ 64
    → maxdevices < 2 ^ 64
    → ctrl_write k env (list_command offset maxdevices) s ≡ done (ok 64, listed offset maxdevices s)
unfolding ctrl_write dispatch write_list list_command to_bytes field
ctrl_write-list k env offset maxdevices s a b =
    ground (arith, of_bytes-to_bytes 8 offset a, of_bytes-to_bytes 8 maxdevices b)

AllNamed-take : (n : ℕ) (ds : List Node) → AllNamed ds → AllNamed (take n ds)
AllNamed-take zero ds h = tt
AllNamed-take (suc n) [] h = tt
AllNamed-take (suc n) (d ∷ ds) h = (h.0, AllNamed-take n ds h.1)

pub AllNamed-drop : (n : ℕ) (ds : List Node) → AllNamed ds → AllNamed (drop n ds)
AllNamed-drop zero ds h = h
AllNamed-drop (suc n) [] h = tt
AllNamed-drop (suc n) (d ∷ ds) h = AllNamed-drop n ds h.1

-- A page is the names of as many devices as it counts.
page-devices :
    {most : ℕ} {ds : List Node} {buf : List ℕ} (p : IsPage 1024 most 0 [] ds buf)
    → length (take p.count ds) ≡ p.count
page-devices {ds} p = omega (arith, length-take p.count ds, p.there)

length-starts : (at : ℕ) (ds : List Node) → length (starts at ds) ≡ length ds
length-starts at [] = refl
length-starts at (d ∷ ds) = ap suc (length-starts (at + length d.dev.bd_gd.disk_name + 1) ds)

read_listed :
    (offset maxdevices : ℕ) (s : Control)
    → length (bdtun_list_k 1024 32 offset maxdevices s.registry) ≤ 1024
    → ctrl_read (λ at n. 0) 1024 (listed offset maxdevices s) ≡ (
      ok (length (bdtun_list_k 1024 32 offset maxdevices s.registry)),
      bdtun_list_k 1024 32 offset maxdevices s.registry,
      record (listed offset maxdevices s) { ctrl_response_size = 0 },
    )
unfolding ctrl_read
read_listed offset maxdevices s fits =
    let names = bdtun_list_k 1024 32 offset maxdevices s.registry in
    ground (arith, fits, take-append_self names (drop (length names) s.ctrl_response_buf))

-- `bdtun_list` on the control device, where every device has a name of at least one byte, gets one
-- page of the device list, and if the page has at most 32 names returns their number and where each
-- begins; it leaves no response behind. If the page has 33 names, which the module gives to a
-- request for 32 or more, the library stores past the end of its array.
pub bdtun_list-IsPage :
    (k : Kernel) (env : Env) (offset maxdevices : ℕ) (s : Control)
    → offset < 2 ^ 64
    → maxdevices < 2 ^ 64
    → AllNamed s.registry.device_list
    → (buf : List ℕ) × (p : IsPage 1024
        (min maxdevices 32)
        0
        []
        (drop offset s.registry.device_list)
        buf)
      × (bdtun_list (control_fd k env) offset maxdevices s ≡ (
          if leb p.count 32
          then done (
            pos p.count,
            buf,
            starts 0 (take p.count (drop offset s.registry.device_list)),
            record s {
              ctrl_response_buf = overlay buf s.ctrl_response_buf;
              ctrl_response_size = 0;
            },
          )
          else oops))
unfolding bdtun_list
bdtun_list-IsPage k env offset maxdevices s a b named =
    let names = bdtun_list_k 1024 32 offset maxdevices s.registry in
    let p = bdtun_list_k-IsPage 1024 32 offset maxdevices s.registry in
    let page = take p.count (drop offset s.registry.device_list) in
    let all = AllNamed-take p.count _ (AllNamed-drop offset s.registry.device_list named) in
    let split : split_names names ≡ (if leb (length page) 32 then done (starts 0 page) else oops) =
      rw p.names (split_names-entries page all) in
    (
      names,
      p,
      rw (ctrl_write-list k env offset maxdevices s a b, read_listed offset maxdevices s p.fits)
          (ground (arith, split, length-starts 0 page, page-devices p, p.fits)),
    )
