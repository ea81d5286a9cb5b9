-- ===== src/Registry/Lifecycle.antt =====
-- A device from its creation to its removal, across the commands.
use bdtun.Base.{ℕ, ◌≡◌, ◌≢◌, true, false, [], ◌∷◌, ◌++◌, some, inl, inr, arith, Option-cases, sym}
use bdtun.Header.{BdtunInfo}
use bdtun.Device.{ok, done, oops, Addr}
use bdtun.Tunnel.Flags.{Kernel}
use bdtun.Registry.{Name, Registry, name_eq, find_in, bdtun_find_device}
use bdtun.Registry.Create.{
  Answers, create_error, create_steps, bdtun_create_k, bdtun_do_add_disk, lives_at,
}
use bdtun.Registry.Manage.{bdtun_remove_dev, bdtun_remove_k, info_of, bdtun_info_k}
use bdtun.Registry.Names.{
  find_in-append, find_in-append_found, remove_in-append, name_eq_self, name_eq→eq,
}
use bdtun.Registry.Outcomes.{Created, bdtun_create_k-Created}

module _ {k : Kernel} {name : Name} {block_size size capabilities : ℕ} {s t : Registry}
    (c : Created k name block_size size capabilities s t) where
  finds_created : find_in name t.device_list ≡ some c.node
  finds_created =
      rw c.listed (
        ground (arith, find_in-append name s.device_list c.node c.free, c.named, name_eq_self name))

  finds_others :
      (other : Name) → other ≢ name → find_in other t.device_list ≡ find_in other s.device_list
  finds_others other differs =
      let apart : name_eq name other ≡ true → other ≡ name = λ e. sym (name_eq→eq name other e) in
      rw c.listed (elim (Option-cases (find_in other s.device_list)) [
        | inl out ↦
            ground
              (arith, out, find_in-append other s.device_list c.node out, c.named, apart, differs)
        | inr (d, found) ↦
            ground (arith, found, find_in-append_found other s.device_list c.node d found)
      ])

create_steps-queued :
    (k : Kernel) (ans : Answers) (name : Name) (block_size size capabilities : ℕ) (new : Addr)
    (s : Registry) {n : ℕ} {t : Registry}
    → create_steps k ans name block_size size capabilities new s ≡ done (ok n, t)
    → t.add_disk_q ≡ s.add_disk_q ++ new ∷ []
unfolding create_steps
create_steps-queued k ans name block_size size capabilities new s h = ground arith

bdtun_create_k-queued :
    (k : Kernel) (ans : Answers) (name : Name) (block_size size capabilities : ℕ) (s : Registry)
    {n : ℕ} {t : Registry} {new : Addr}
    → bdtun_create_k k ans name block_size size capabilities s ≡ done (ok n, t)
    → ans.device_memory ≡ some new
    → t.add_disk_q ≡ s.add_disk_q ++ new ∷ []
unfolding bdtun_create_k
bdtun_create_k-queued k ans name block_size size capabilities s {n} {t} {new} h memory =
    elim (Option-cases (create_error k name block_size size s)) [
      | inr (x, refused) ↦ absurd (ground (arith, refused))
      | inl passed ↦
          create_steps-queued k ans name block_size size capabilities new s {n = n} {t = t}
            (ground (arith, passed, memory))
    ]

-- After a create command that succeeded, an info command for the new name reports the parameters of
-- the create command, and one for any other name answers as before.
pub create_info :
    (k : Kernel) (ans : Answers) (name other : Name) (block_size size capabilities : ℕ)
    (s : Registry) {n : ℕ} {t : Registry}
    → bdtun_create_k k ans name block_size size capabilities s ≡ done (ok n, t)
    → other ≢ name
    → ((i : BdtunInfo) × (bdtun_info_k name t ≡ inr i)
        × (i.bd_size ≡ size)
        × (i.bd_block_size ≡ block_size)
        × (i.capabilities ≡ capabilities))
      × (bdtun_info_k other t ≡ bdtun_info_k other s)
unfolding bdtun_info_k bdtun_find_device
create_info k ans name other block_size size capabilities s {t} h differs =
    let c = bdtun_create_k-Created k ans name block_size size capabilities s h in
    (
      (info_of c.node.dev, ground (arith, finds_created c), c.sized, c.blocked, c.able),
      ground (arith, finds_others c other differs),
    )

-- A device that is removed before the queued work has added its disk: the remove command succeeds
-- and leaves the devices and the kernel objects as they were before the create command, but the work
-- is still queued, and when it runs it uses the freed device. The device's memory must not have been
-- that of a listed device, and no other work may have been queued.
pub removed_too_early :
    (k : Kernel) (ans : Answers) (name : Name) (block_size size capabilities : ℕ) (s : Registry)
    {n : ℕ} {t : Registry} {new : Addr}
    → bdtun_create_k k ans name block_size size capabilities s ≡ done (ok n, t)
    → ans.device_memory ≡ some new
    → lives_at new s.device_list ≡ false
    → s.add_disk_q ≡ []
    → (bdtun_remove_k name t ≡ (ok 0, record s { add_disk_q = new ∷ [] }))
      × (bdtun_do_add_disk (record s { add_disk_q = new ∷ [] }) ≡ oops)
unfolding bdtun_remove_k bdtun_remove_dev bdtun_find_device bdtun_do_add_disk
removed_too_early k ans name block_size size capabilities s {t} {new} h memory free idle =
    let c = bdtun_create_k-Created k ans name block_size size capabilities s h in
    (
      ground (
        arith,
        finds_created c,
        c.listed,
        c.queued,
        c.holds,
        c.unused,
        idle,
        bdtun_create_k-queued k ans name block_size size capabilities s h memory,
        remove_in-append name s.device_list c.node c.free c.named,
      ),
      ground (arith, free),
    )
