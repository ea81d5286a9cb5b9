-- ===== src/Module/Outcomes.antt =====
-- What loading and unloading leave behind.
use bdtun.Base.{
  ◌+◌, ◌-◌, ◌≡◌, Bool, true, false, ◌&&◌, List, [], ◌∷◌, Option, none, some, arith, length,
  if◌then◌else◌,
}
use bdtun.Device.{enomem, ok, err, done}
use bdtun.Registry.{Resources, Node, Registry}
use bdtun.Registry.Manage.{bdtun_remove_dev}
use bdtun.Registry.Invariant.{Holds}
use bdtun.Module.{Objects, InitAnswers, bdtun_init, remove_each, flush_workqueue, bdtun_exit}

abbrev is_none : {A : Type 0} → Option A → Bool
is_none none = true
is_none (some a) = false

-- Whether each call of `bdtun_init` succeeds.
abbrev pub all_succeed : InitAnswers → Bool
all_succeed ans =
    ans.workqueue_allocated
    && (ans.class_created
        && (is_none ans.region_error && (is_none ans.cdev_error && ans.node_created)))

-- The module's own kernel objects after one more load.
abbrev pub loaded : Objects → Objects
loaded o = record {
  workqueues = o.workqueues + 1;
  classes = o.classes + 1;
  chrdev_regions = o.chrdev_regions + 1;
  cdevs = o.cdevs + 1;
  device_nodes = o.device_nodes + 1;
}

bdtun_init-outcome :
    (ans : InitAnswers) (o : Objects)
    → bdtun_init ans o ≡ (if all_succeed ans then (ok 0, loaded o) else (err enomem, o))
unfolding bdtun_init
bdtun_init-outcome ans o = ground arith

remove_each-counts :
    (ds : List Node) (r : Resources)
    → remove_each ds r ≡ record {
      memory = r.memory;
      queues = r.queues - length ds;
      blkdevs = r.blkdevs - length ds;
      chrdev_regions = r.chrdev_regions - length ds;
      cdevs = r.cdevs - length ds;
      device_nodes = r.device_nodes - length ds;
      disks = r.disks - length ds;
      module_refs = r.module_refs - length ds;
    }
unfolding remove_each bdtun_remove_dev
remove_each-counts [] r = ground arith
remove_each-counts (d ∷ ds) r = ground (arith, remove_each-counts ds (bdtun_remove_dev r))

-- If each kernel call succeeds, loading takes one more of each of the module's own kernel objects
-- and returns 0; if one fails, it leaves those that the module holds as they were and returns
-- ENOMEM, whatever the error was. Unloading, with one of each kernel object held for each listed
-- device and no queued work, gives back what loading took and what every device holds; only the
-- memory of each device stays taken.
pub init_exit :
    (ans : InitAnswers) (o : Objects) (s : Registry)
    → Holds (length s.device_list) s.resources
    → s.add_disk_q ≡ []
    → (bdtun_init ans o ≡ (if all_succeed ans then (ok 0, loaded o) else (err enomem, o)))
      × (bdtun_exit (loaded o) s
          ≡ done (
            o,
            record s {
              resources = record {
                memory = length s.device_list;
                queues = 0;
                blkdevs = 0;
                chrdev_regions = 0;
                cdevs = 0;
                device_nodes = s.resources.device_nodes - length s.device_list;
                disks = 0;
                module_refs = 0;
              };
            },
          ))
unfolding bdtun_exit flush_workqueue
init_exit ans o s holds idle = (
  bdtun_init-outcome ans o,
  ground (arith, holds, idle, remove_each-counts s.device_list s.resources),
)
