-- ===== src/System/Account.antt =====
-- No bio is lost or made up: what the two lists hold and what has been ended is what was submitted.
use bdtun.Base.{
  ℕ, ◌+◌, ◌≡◌, ◌≢◌, refl, sym, ap, List, [], ◌∷◌, ◌++◌, Option, none, some, arith, ==_self,
  Option-cases, inl, inr, of_bytes,
}
use bdtun.Device.{Ret, done, Bio, BioVec, Addr, Entry, Machine, update, unlink}
use bdtun.Block.{bdtun_make_request, bdtun_open, bdtun_release}
use bdtun.Tunnel.Flags.{Kernel}
use bdtun.Tunnel.{
  returned, bdtunch_open, bdtunch_release, serve_header, bdtunch_read, complete, write_payload,
  copy_in, bdtunch_write,
}
use bdtun.Queue.{
  count, count-unlink, weight, weigh-append, weigh-update, weigh-replace, weigh-unlink,
}
use bdtun.System.{
  Fresh, Step, submits, reads, writes, opens_tunnel, closes_tunnel, opens_disk, closes_disk,
  History, start, then_step, with_dev, held, ended_sum, bio_sum,
}
use bdtun.System.Cases.{bdtunch_read-cases, count-head, bdtunch_write-cases}
use bdtun.System.Valid.{IsValid, History-IsValid}

bio_sum-append :
    (f : Bio → ℕ) (xs ys : List Bio) → bio_sum f (xs ++ ys) ≡ bio_sum f xs + bio_sum f ys
bio_sum-append f [] ys = omega arith
bio_sum-append f (x ∷ xs) ys = omega (arith, bio_sum-append f xs ys)

-- A quantity of a bio that its data do not change.
module _ (f : Bio → ℕ)
    (fixed : (b : Bio) (vs : List BioVec) → f (record b { segments = vs }) ≡ f b) where
  abbrev pub account : Machine → ℕ
  account m = held f m + ended_sum f m.ended

  pub bdtun_make_request-account :
      (m : Machine) (slot : Option Addr) (jiffies : ℕ) (bio : Bio)
      → Fresh m slot
      → IsValid m
      → account (bdtun_make_request slot jiffies bio m) ≡ f bio + account m
  unfolding bdtun_make_request
  bdtun_make_request-account m none jiffies bio new v = omega arith
  bdtun_make_request-account m (some a) jiffies bio new v =
      let e : Entry = record { bio = bio; start_time = jiffies } in
      ground (
        arith,
        v.listed a,
        new,
        ==_self a,
        weigh-append f (update m.heap a (some e)) m.dev.incoming_bio_list (a ∷ []),
        weigh-update f m.heap a (some e) m.dev.incoming_bio_list,
        weigh-update f m.heap a (some e) m.dev.pending_bio_list,
      )

  pub serve_header-account :
      (k : Kernel) (a : Addr) (m : Machine) {r : Ret} {bytes : List ℕ} {n : Machine}
      → count a m.dev.incoming_bio_list ≢ 0
      → serve_header k a m ≡ done (returned r bytes n)
      → account n ≡ account m
  unfolding serve_header
  serve_header-account k a m on e = ground (
    arith,
    on,
    weigh-unlink f m.heap a m.dev.incoming_bio_list,
    weigh-append f m.heap m.dev.pending_bio_list (a ∷ []),
  )

  pub complete-account :
      (byte jiffies : ℕ) (m : Machine) {r : Ret} {n : Machine}
      → complete byte jiffies m ≡ done (r, n)
      → IsValid m
      → account n ≡ account m
  unfolding complete
  complete-account byte jiffies m e v =
      let a = m.dev.data_current_bio in
      let h = m.heap in
      let xs = m.dev.incoming_bio_list in
      let ys = m.dev.pending_bio_list in
      ground (
        arith,
        v.listed a,
        count-unlink a a xs,
        count-unlink a a ys,
        ==_self a,
        weigh-update f h a none (unlink a xs),
        weigh-update f h a none (unlink a ys),
        weigh-unlink f h a xs,
        weigh-unlink f h a ys,
      )

  pub write_payload-account :
      (missed : ℕ → ℕ → ℕ) (buf : List ℕ) (m : Machine) {r : Ret} {n : Machine}
      → write_payload missed buf m ≡ done (r, n)
      → account n ≡ account m
  unfolding write_payload
  write_payload-account missed buf m e =
      let a = m.dev.data_current_bio in
      elim (Option-cases (m.heap a)) [
        | inl dead ↦ absurd (ground arith)
        | inr (x, live) ↦
            let vs = (copy_in missed x.bio.segments 0 buf).1 in
            let y : Entry = record x { bio = record x.bio { segments = vs } } in
            let same : weight f (some y) ≡ weight f (m.heap a) = rw live (fixed x.bio vs) in
            ground (
              arith,
              live,
              weigh-replace f m.heap a (some y) m.dev.incoming_bio_list same,
              weigh-replace f m.heap a (some y) m.dev.pending_bio_list same,
            )
      ]

  pub bdtunch_read-account :
      (k : Kernel) (missed : ℕ → ℕ → ℕ) (size : ℕ) (m : Machine) {r : Ret} {bytes : List ℕ}
      {n : Machine}
      → bdtunch_read k missed [] size m ≡ done (returned r bytes n)
      → account n ≡ account m
  bdtunch_read-account k missed size m e = elim (bdtunch_read-cases k missed size m e) [
    | inl (same, other) ↦ ap account (sym same)
    | inr (a, rest, p, q, header) ↦ serve_header-account k a m (count-head a rest _ p) q
  ]

  bdtunch_write-account :
      (missed : ℕ → ℕ → ℕ) (jiffies : ℕ) (buf : List ℕ) (m : Machine) {r : Ret} {n : Machine}
      → bdtunch_write missed jiffies buf m ≡ done (r, n)
      → IsValid m
      → account n ≡ account m
  bdtunch_write-account missed jiffies buf m e v =
      elim (bdtunch_write-cases missed jiffies buf m e) [
        | inl (same, other) ↦ ap account (sym same)
        | inr (inl (completes, one)) ↦ complete-account (of_bytes buf) jiffies m completes v
        | inr (inr (fills, other)) ↦ write_payload-account missed buf m fills
      ]

  pub opened-account :
      (m : Machine)
      → (account (with_dev m (bdtunch_open m.dev).1) ≡ account m)
        × (account (with_dev m (bdtunch_release m.dev)) ≡ account m)
        × (account (with_dev m (bdtun_open m.dev).1) ≡ account m)
        × (account (with_dev m (bdtun_release m.dev)) ≡ account m)
  unfolding bdtunch_open bdtunch_release bdtun_open bdtun_release
  opened-account m = (
    ground arith,
    omega (arith, weigh-append f m.heap m.dev.incoming_bio_list m.dev.pending_bio_list),
    ground arith,
    refl,
  )

  Step-account :
      {k : Kernel} {m n : Machine} {bios : List Bio}
      → Step k m bios n
      → IsValid m
      → account n ≡ bio_sum f bios + account m
  Step-account {m} (submits slot jiffies bio new) v =
      omega (arith, bdtun_make_request-account m slot jiffies bio new v)
  Step-account {k} {m} (reads missed size e) v =
      omega (arith, bdtunch_read-account k missed size m e)
  Step-account {m} (writes missed jiffies buf e) v =
      omega (arith, bdtunch_write-account missed jiffies buf m e v)
  Step-account {m} opens_tunnel v = omega (arith, opened-account m)
  Step-account {m} closes_tunnel v = omega (arith, opened-account m)
  Step-account {m} opens_disk v = omega (arith, opened-account m)
  Step-account {m} closes_disk v = omega (arith, opened-account m)

  -- Take any quantity of a bio that filling in its data does not change, such as 1 for one bio and 0
  -- for the others. Over every history from a valid machine, its sum over the bios on the two lists
  -- and the bios ended grows by exactly its sum over the bios submitted: none is lost, none is made
  -- up, and none is ended twice.
  pub History-account :
      {k : Kernel} {m n : Machine} {bios : List Bio}
      → History k m bios n
      → IsValid m
      → held f n + ended_sum f n.ended ≡ bio_sum f bios + (held f m + ended_sum f m.ended)
  History-account start v = omega arith
  History-account (then_step {bios} {more} h s) v =
      omega (
        arith,
        bio_sum-append f more bios,
        Step-account s (History-IsValid h v),
        History-account h v,
      )
