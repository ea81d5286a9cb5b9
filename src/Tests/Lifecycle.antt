-- ===== src/Tests/Lifecycle.antt =====
-- Devices made, changed, listed and removed, at concrete inputs.
use Prim.Native.Nat.{min}
use bdtun.Base.{
  arith, of_bytes, ap, ℕ, ◌≡◌, ◌⊎◌, ◌≢◌, refl, List, [], ◌∷◌, none, some, inr, if◌then◌else◌, leb,
  take, drop,
}
use mathlib.Core.Option
use bdtun.Base.Int.{pos}
use bdtun.Header.{BdtunInfo}
use bdtun.Device.{eio, enoent, ebusy, ok, err, done, oops}
use bdtun.Registry.{Name, Node, Registry, find_in, name_eq, bdtun_find_device}
use bdtun.Registry.Create.{bdtun_create_k, bdtun_do_add_disk, lives_at}
use bdtun.Registry.Manage.{bdtun_resize_k, bdtun_remove_k, bdtun_info_k}
use bdtun.Registry.Listing.{bdtun_list_k}
use bdtun.Registry.Pages.{IsPage, bdtun_list_k-IsPage}
use bdtun.Registry.Lifecycle.{create_info, removed_too_early}
use bdtun.Registry.Updates.{resized, bdtun_resize_k-finds, bdtun_remove_k-outcome}
use bdtun.Control.{Control, overlay}
use bdtun.Client.{bdtun_info, bdtun_list}
use bdtun.Client.Information.{informed, bdtun_info-returns}
use bdtun.Client.Link.{control_fd}
use bdtun.Client.Names.{starts}
use bdtun.Client.Listing.{bdtun_list-IsPage}
use bdtun.Tests.Samples.{linux, vda, idle_disk, no_devices, all_well, env, control}

-- "vdb"
abbrev vdb : Name
vdb = 118 ∷ 100 ∷ 98 ∷ []

names_differ : vda ≢ vdb
unfolding of_bytes
names_differ e = let number = ap of_bytes e in omega (arith, number)

-- One device at address 128, idle.
abbrev vda_node : Node
vda_node = record { addr = 128; dev = idle_disk }

abbrev vda_listed : Registry
vda_listed = record no_devices { device_list = vda_node ∷ [] }

abbrev vda_control : Control
vda_control = record control { registry = vda_listed }

abbrev vdb_made : Registry
unfolding bdtun_create_k
vdb_made = elim (bdtun_create_k linux all_well vdb 1024 4096 3 vda_listed) [
  | done (ret, s) ↦ s
  | oops ↦ no_devices
]

create_info_example :
    ((i : BdtunInfo) × (bdtun_info_k vdb vdb_made ≡ inr i)
      × (i.bd_size ≡ 4096)
      × (i.bd_block_size ≡ 1024)
      × (i.capabilities ≡ 3))
    × (bdtun_info_k vda vdb_made ≡ bdtun_info_k vda vda_listed)
unfolding bdtun_create_k
create_info_example =
    create_info linux all_well vdb vda 1024 4096 3 vda_listed {n = 0} {t = vdb_made} refl
      names_differ

abbrev vda_made : Registry
unfolding bdtun_create_k
vda_made = elim (bdtun_create_k linux all_well vda 512 8192 0 no_devices) [
  | done (ret, s) ↦ s
  | oops ↦ no_devices
]

removed_too_early_example :
    (bdtun_remove_k vda vda_made ≡ (ok 0, record no_devices { add_disk_q = 128 ∷ [] }))
    × (bdtun_do_add_disk (record no_devices { add_disk_q = 128 ∷ [] }) ≡ oops)
unfolding bdtun_create_k lives_at
removed_too_early_example =
    removed_too_early linux all_well vda 512 8192 0 no_devices {n = 0} {t = vda_made} refl refl refl
      refl

bdtun_resize_k-finds_example :
    (bdtun_find_device vda (bdtun_resize_k (some eio) vda 1000 vda_listed).1
      ≡ Option.map
          (λ d. if name_eq vda vda then record d { dev = resized (some eio) 1000 d.dev } else d)
          (bdtun_find_device vda vda_listed))
    × ((bdtun_resize_k (some eio) vda 1000 vda_listed).1 ≡ record vda_listed {
      device_list = (bdtun_resize_k (some eio) vda 1000 vda_listed).1.device_list;
    })
bdtun_resize_k-finds_example = bdtun_resize_k-finds (some eio) vda vda 1000 vda_listed

bdtun_remove_k-outcome_example :
    ((d : Node) × (bdtun_find_device vda vda_listed ≡ some d)
      × (d.dev.removing ≡ 0)
      × (d.dev.ucnt ≡ 0)
      × ((bdtun_remove_k vda vda_listed).0 ≡ ok 0)
      × (bdtun_find_device vdb (bdtun_remove_k vda vda_listed).1
          ≡ (if name_eq vda vdb then none else bdtun_find_device vdb vda_listed)))
    ⊎ (((bdtun_find_device vda vda_listed ≡ none)
          × (bdtun_remove_k vda vda_listed ≡ (err enoent, vda_listed)))
        ⊎ ((d : Node) × (bdtun_find_device vda vda_listed ≡ some d)
            × ((d.dev.removing ≢ 0) ⊎ (d.dev.ucnt ≢ 0))
            × (bdtun_remove_k vda vda_listed ≡ (err ebusy, vda_listed))))
unfolding find_in
bdtun_remove_k-outcome_example = bdtun_remove_k-outcome vda vdb vda_listed (refl, tt)

bdtun_list_k-IsPage_example :
    IsPage 1024
      (min 32 5)
      0
      []
      (drop 0 vda_listed.device_list)
      (bdtun_list_k 1024 5 0 32 vda_listed)
bdtun_list_k-IsPage_example = bdtun_list_k-IsPage 1024 5 0 32 vda_listed

bdtun_list-IsPage_example :
    (buf : List ℕ) × (p : IsPage 1024 (min 8 32) 0 [] (drop 0 (vda_node ∷ [])) buf) × (bdtun_list
        (control_fd linux env)
        0
        8
        vda_control
      ≡ (if leb p.count 32
          then done (
            pos p.count,
            buf,
            starts 0 (take p.count (drop 0 (vda_node ∷ []))),
            record vda_control {
              ctrl_response_buf = overlay buf vda_control.ctrl_response_buf;
              ctrl_response_size = 0;
            },
          )
          else oops))
bdtun_list-IsPage_example =
    bdtun_list-IsPage linux env 0 8 vda_control (omega arith) (omega arith)
      ((λ e. cc, (λ e. cc, (λ e. cc, tt))), tt)

bdtun_info-returns_example :
    bdtun_info (control_fd linux env) vda vda_control
    ≡ informed env vda_control (bdtun_info_k vda vda_listed)
bdtun_info-returns_example =
    bdtun_info-returns linux env vda vda_control ((λ e. cc), ((λ e. cc), ((λ e. cc), tt)))
      (omega arith)
