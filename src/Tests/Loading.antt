-- ===== src/Tests/Loading.antt =====
-- Loading and unloading, and mappings, at concrete inputs.
use bdtun.Base.{◌≡◌, refl, true, false, [], ◌∷◌, none, some, arith, if◌then◌else◌}
use bdtun.Device.{eio, enomem, ok, err, done}
use bdtun.Registry.{Registry}
use bdtun.Tunnel.{header_of}
use bdtun.Tunnel.Mapping.{Vma, area_for}
use bdtun.Tunnel.MappingLaws.{page_maps}
use bdtun.Client.{bdtun_mmap_request}
use bdtun.Client.Link.{tunnel_mmap}
use bdtun.Client.Mapping.{bdtun_mmap_request-maps}
use bdtun.Module.{Objects, InitAnswers, bdtun_init, bdtun_exit}
use bdtun.Module.Outcomes.{all_succeed, init_exit}
use bdtun.Tests.Samples.{linux, idle_disk, nothing_held, read_bio, entry_of, waiting}

abbrev nothing : Objects
nothing = record { workqueues = 0; classes = 0; chrdev_regions = 0; cdevs = 0; device_nodes = 0 }

abbrev one_each : Objects
one_each = record { workqueues = 1; classes = 1; chrdev_regions = 1; cdevs = 1; device_nodes = 1 }

abbrev loads : InitAnswers
loads = record {
  workqueue_allocated = true;
  class_created = true;
  region_error = none;
  cdev_error = none;
  node_created = true;
}

-- A device that is still there.
abbrev left_over : Registry
left_over = record {
  device_list = record { addr = 128; dev = idle_disk } ∷ [];
  add_disk_q = [];
  resources = record {
    memory = 1;
    queues = 1;
    blkdevs = 1;
    chrdev_regions = 1;
    cdevs = 1;
    device_nodes = 1;
    disks = 1;
    module_refs = 1;
  };
}

init_exit_example :
    (bdtun_init (record loads { cdev_error = some eio }) nothing ≡ (
      if all_succeed (record loads { cdev_error = some eio })
      then (ok 0, one_each)
      else (err enomem, nothing)))
    × (bdtun_exit one_each left_over
        ≡ done (nothing, record left_over { resources = record nothing_held { memory = 1 } }))
init_exit_example =
    init_exit (record loads { cdev_error = some eio }) nothing left_over
      (record {
        memory = refl;
        queues = refl;
        blkdevs = refl;
        chrdev_regions = refl;
        cdevs = refl;
        disks = refl;
        module_refs = refl;
        device_nodes = omega arith;
      })
      refl

abbrev private_area : Vma
private_area = record (area_for linux 8192 10) { shared = false }

bdtun_mmap_request-maps_example :
    bdtun_mmap_request (tunnel_mmap linux 8192 (waiting read_bio)) (header_of linux 64 read_bio)
    ≡ done (
      ok 0,
      page_maps linux 8192 0 read_bio.segments,
      some (record (area_for linux 8192 10) { locked = true }),
    )
bdtun_mmap_request-maps_example =
    bdtun_mmap_request-maps linux 8192 (waiting read_bio) (entry_of read_bio) refl (omega arith)
      (omega arith) (omega arith)
