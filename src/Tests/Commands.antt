-- ===== src/Tests/Commands.antt =====
-- The control device, the registry behind it, and the library's commands.
use bdtun.Base.{◌+◌, ℕ, zero, suc, ◌≡◌, ◌≤◌, ◌↔◌, refl, false, List, ◌∷◌, none, arith, replicate}
use bdtun.Base.Int.{pos, negsuc}
use bdtun.Device.{enomem, ok, done, oops, ◌>>=◌}
use bdtun.Registry.{Registry}
use bdtun.Registry.Create.{Answers, create_error, bdtun_create_k}
use bdtun.Registry.Manage.{bdtun_resize_k, bdtun_remove_k}
use bdtun.Registry.Listing.{bdtun_list_k}
use bdtun.Registry.Outcomes.{Created, bdtun_create_k-fails, nodes_left, bdtun_create_k-Created}
use bdtun.Control.{ctrl_write}
use bdtun.Control.Lock.{
  Lock, LockHistory, unlocked, start, then_step, opens, refused, dec, ctrl_open-excludes,
}
use bdtun.Control.Invariant.{IsValid, ctrl_write-IsValid}
use bdtun.Client.{bdtun_create, bdtun_resize, bdtun_remove}
use bdtun.Client.Link.{control_fd}
use bdtun.Client.Overlong.{overlong_name}
use bdtun.Client.Commands.{IsString, answer, commands-reach}
use bdtun.Tests.Samples.{linux, vda, no_devices, all_well, env, control}

-- One thread opens the device; another is refused and has not yet taken its decrement back.
abbrev contended : Lock
contended = record { ctrl_lock = negsuc 0; holders = 1; failing = 1 }

contention : LockHistory unlocked contended
contention = then_step (then_step start (opens refl)) (refused (negsuc 0) refl (λ e. cc))

ctrl_open-excludes_example :
    (contended.holders ≤ 1)
    × ((dec contended.ctrl_lock ≡ pos 0) ↔ ((contended.holders ≡ 0) × (contended.failing ≡ 0)))
ctrl_open-excludes_example = ctrl_open-excludes contention

abbrev no_disk : Answers
no_disk = record all_well { disk_allocated = false }

bdtun_create_k-fails_example :
    (record no_devices { resources = record no_devices.resources { device_nodes = 1 } })
    ≡ record no_devices {
      resources = record no_devices.resources {
        device_nodes =
            no_devices.resources.device_nodes + nodes_left linux no_disk vda 512 8192 no_devices;
      };
    }
unfolding bdtun_create_k
bdtun_create_k-fails_example =
    bdtun_create_k-fails linux no_disk vda 512 8192 0 no_devices {e = enomem} refl

-- The registry after "vda" was created.
abbrev one_device : Registry
unfolding bdtun_create_k
one_device = elim (bdtun_create_k linux all_well vda 512 8192 0 no_devices) [
  | done (ret, s) ↦ s
  | oops ↦ no_devices
]

bdtun_create_k-Created_example : Created linux vda 512 8192 0 no_devices one_device
unfolding bdtun_create_k
bdtun_create_k-Created_example =
    bdtun_create_k-Created linux all_well vda 512 8192 0 no_devices {n = 0} refl

control-IsValid : IsValid control
control-IsValid = record {
  registry = record { distinct = tt; holds = omega arith; blocks = tt };
  buffer = refl;
  response = omega arith;
}

-- The list command.
abbrev list_bytes : List ℕ
list_bytes = 2 ∷ replicate 63 0

ctrl_write-IsValid_example : IsValid control
unfolding ctrl_write bdtun_list_k
ctrl_write-IsValid_example =
    ctrl_write-IsValid linux env list_bytes control {r = ok 64} refl control-IsValid

commands-reach_example :
    (bdtun_create (control_fd linux env) vda 512 8192 3 control
      ≡ (bdtun_create_k linux all_well vda 512 8192 3 no_devices >>= answer control))
    × (bdtun_resize (control_fd linux env) vda 8192 control
        ≡ answer control (bdtun_resize_k none vda 8192 no_devices))
    × (bdtun_remove (control_fd linux env) vda control
        ≡ answer control (bdtun_remove_k vda no_devices))
commands-reach_example =
    commands-reach linux env vda 512 8192 3 control (omega arith) (omega arith) (omega arith)
      (omega arith) (omega arith)

replicate-IsString : (n : ℕ) → IsString (replicate n 97)
replicate-IsString zero = tt
replicate-IsString (suc n) = ((λ e. cc), replicate-IsString n)

overlong_name_example :
    bdtun_create (control_fd linux env) (replicate 40 97) 512 8192 0 control ≡ oops
unfolding create_error
overlong_name_example =
    overlong_name linux env (replicate 40 97) 512 8192 0 control (replicate-IsString 40)
      (omega arith) (omega arith) (omega arith) (omega arith) (omega arith) refl
