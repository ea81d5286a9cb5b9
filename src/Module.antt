-- ===== src/Module.antt =====
-- Loading and unloading the module (kernel/bdtun.c: bdtun_init, bdtun_exit).
pub mod Outcomes
use bdtun.Base.{
  ℕ, ◌+◌, ◌-◌, Bool, true, false, not, List, [], ◌∷◌, Option, none, some, if◌then◌else◌,
}
use bdtun.Device.{Errno, enomem, Ret, ok, err, Run, done, oops, ◌>>=◌, Addr}
use bdtun.Registry.{Resources, Node, Registry}
use bdtun.Registry.Manage.{bdtun_remove_dev}

-- How many of each kernel object the module has for itself: `add_disk_q`, `chclass`, and those of
-- the control device.
pub record Objects : Type 0 where
  pub workqueues : ℕ
  pub classes : ℕ
  pub chrdev_regions : ℕ
  pub cdevs : ℕ
  pub device_nodes : ℕ

-- What the kernel answers `bdtun_init`, in the order of the calls.
pub record InitAnswers : Type 0 where
  pub workqueue_allocated : Bool
  pub class_created : Bool
  pub region_error : Option Errno
  pub cdev_error : Option Errno
  pub node_created : Bool

-- The labels that undo what has been done, in the order in which they fall through. Each ends in
-- -ENOMEM, whatever `error` is.
unfoldable pub out_adq : Objects → Objects
out_adq o = record o { workqueues = o.workqueues - 1 }

unfoldable pub out_destroy_class : Objects → Objects
unfolding out_adq
out_destroy_class o = out_adq (record o { classes = o.classes - 1 })

unfoldable pub out_unregister_chrdev_region : Objects → Objects
unfolding out_destroy_class
out_unregister_chrdev_region o =
    out_destroy_class (record o { chrdev_regions = o.chrdev_regions - 1 })

unfoldable pub out_cdev_del : Objects → Objects
unfolding out_unregister_chrdev_region
out_cdev_del o = out_unregister_chrdev_region (record o { cdevs = o.cdevs - 1 })

unfoldable pub bdtun_init : InitAnswers → Objects → Ret × Objects
unfolding out_cdev_del
bdtun_init ans o =
    if not ans.workqueue_allocated
    then (err enomem, o)
    else (let o₁ = record o { workqueues = o.workqueues + 1 } in
        if not ans.class_created
        then (err enomem, out_adq o₁)
        else (let o₂ = record o₁ { classes = o₁.classes + 1 } in
            elim ans.region_error [
              | some e ↦ (err enomem, out_destroy_class o₂)
              | none ↦
                  let o₃ = record o₂ { chrdev_regions = o₂.chrdev_regions + 1 } in
                  elim ans.cdev_error [
                    | some e ↦ (err enomem, out_unregister_chrdev_region o₃)
                    | none ↦
                        let o₄ = record o₃ { cdevs = o₃.cdevs + 1 } in
                        if not ans.node_created
                        then (err enomem, out_cdev_del o₄)
                        else (ok 0, record o₄ { device_nodes = o₄.device_nodes + 1 })
                  ]
            ]))

-- The loop over the device list: `bdtun_remove_dev` gives back what a device holds, but the device
-- stays on the list and keeps its memory.
unfoldable pub remove_each : List Node → Resources → Resources
unfolding bdtun_remove_dev
remove_each [] r = r
remove_each (d ∷ ds) r = remove_each ds (bdtun_remove_dev r)

-- A queued work adds the disk of its device, which `bdtun_remove_dev` has put: a work that is still
-- queued here uses a freed disk.
unfoldable pub flush_workqueue : Registry → Run Registry
flush_workqueue s = elim s.add_disk_q [ [] ↦ done s | a ∷ works ↦ oops ]

unfoldable pub bdtun_exit : Objects → Registry → Run (Objects × Registry)
unfolding remove_each flush_workqueue
bdtun_exit o s = do
  t ← flush_workqueue (record s { resources = remove_each s.device_list s.resources })
  done (
    record {
      workqueues = o.workqueues - 1;
      classes = o.classes - 1;
      chrdev_regions = o.chrdev_regions - 1;
      cdevs = o.cdevs - 1;
      device_nodes = o.device_nodes - 1;
    },
    t,
  )
