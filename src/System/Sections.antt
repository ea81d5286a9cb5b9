-- ===== src/System/Sections.antt =====
-- What ties a device with completions in progress to one whose completions were atomic.
use bdtun.Base.{
  ℕ, ◌≡◌, ◌≢◌, true, none, some, ◌==◌, if◌then◌else◌, arith, inl, inr, ◌⊎◌, ==_iff, ap, sym, ◌∙◌,
}
use bdtun.Device.{Addr, Entry, Heap, Machine, update}
use bdtun.System.{is_live}
use bdtun.System.Valid.{IsValid}
use bdtun.System.Threads.{Threads, unlinked, uses, target, with_machine}

-- A machine with another memory.
abbrev pub with_heap : Machine → Heap → Machine
with_heap m h = record m { heap = h }

-- `h` is the memory as it would be if each entry that is off its list were freed. It is valid, the
-- entries that threads hold are alive in it, and no two threads complete the same entry.
pub record IsApart (s : Threads) (h : Heap) : Type 0 where
  pub valid : IsValid (with_heap s.machine h)
  pub agrees :
      (a : Addr) → (h a ≡ s.machine.heap a) ⊎ ((h a ≡ none) × (t : ℕ) × (s.pc t ≡ unlinked a))
  pub held : (t : ℕ) (a : Addr) → uses (s.pc t) ≡ some a → is_live (h a) ≡ 1
  pub off :
      (t : ℕ) (a : Addr) → s.pc t ≡ unlinked a → (h a ≡ none) × (is_live (s.machine.heap a) ≡ 1)
  pub apart : (t u : ℕ) (a : Addr) → target (s.pc t) ≡ some a → target (s.pc u) ≡ some a → t ≡ u

module _ {s : Threads} {h : Heap} (x : IsApart s h) where
  -- Where `h` has a live entry it is that of the memory.
  pub agrees_live : (a : Addr) → is_live (h a) ≡ 1 → h a ≡ s.machine.heap a
  agrees_live a live = elim (x.agrees a) [
    | inl same ↦ same
    | inr (gone, t, off) ↦ absurd (ground (arith, gone))
  ]

  pub agrees_on : (a : Addr) → ((t : ℕ) → s.pc t ≢ unlinked a) → h a ≡ s.machine.heap a
  agrees_on a none_ = elim (x.agrees a) [
    | inl same ↦ same
    | inr (gone, t, off) ↦ absurd (none_ t off)
  ]

  -- A change of the lists alone.
  pub relisted :
      (n : Machine)
      → n.heap ≡ s.machine.heap
      → IsValid (with_heap n h)
      → IsApart (with_machine s n) h
  relisted n same v = record {
    valid = v;
    agrees = rw same x.agrees;
    held = x.held;
    off = rw same x.off;
    apart = x.apart;
  }

  pub submits-IsApart :
      (a : Addr) (e : Entry) (n : Machine)
      → s.machine.heap a ≡ none
      → n.heap ≡ update s.machine.heap a (some e)
      → IsValid (with_heap n (update h a (some e)))
      → IsApart (with_machine s n) (update h a (some e))
  unfolding update
  submits-IsApart a e n free put v = record {
    valid = v;
    agrees = λ b. elim (x.agrees b) [
      | inl same ↦ inl (ground (arith, same, at b))
      | inr (gone, t, away) ↦ inr (ground (arith, gone, x.off t b away, taken b), t, away)
    ];
    held = λ t b p. ground (arith, x.held t b p);
    off =
        λ t b p. (ground (arith, x.off t b p, taken b), ground (arith, x.off t b p, taken b, at b));
    apart = x.apart;
  }
    where
      at : (b : Addr) → n.heap b ≡ (if a == b then some e else s.machine.heap b)
      at b = ap (λ f. f b) put

      taken : (b : Addr) → (a == b) ≡ true → s.machine.heap b ≡ none
      taken b q = ap s.machine.heap (sym ((==_iff a b).0 q)) ∙ free

  -- Data are written into an entry that no thread is freeing.
  pub fills-IsApart :
      (a : Addr) (e : Entry) (n : Machine)
      → is_live (s.machine.heap a) ≡ 1
      → ((t : ℕ) → s.pc t ≢ unlinked a)
      → n.heap ≡ update s.machine.heap a (some e)
      → IsValid (with_heap n (update h a (some e)))
      → IsApart (with_machine s n) (update h a (some e))
  unfolding update
  fills-IsApart a e n live kept put v = record {
    valid = v;
    agrees = λ b. elim (x.agrees b) [
      | inl same ↦ inl (ground (arith, same, at b))
      | inr (gone, t, away) ↦ inr (ground (arith, gone, other t b away), t, away)
    ];
    held = λ t b p. ground (arith, x.held t b p);
    off = λ t b p. (ground (arith, x.off t b p, other t b p), ground (arith, x.off t b p, at b));
    apart = x.apart;
  }
    where
      at : (b : Addr) → n.heap b ≡ (if a == b then some e else s.machine.heap b)
      at b = ap (λ f. f b) put

      other : (t : ℕ) (b : Addr) → s.pc t ≡ unlinked b → (a == b) ≡ true → ⊥
      other t b p q = kept t (p ∙ ap unlinked (sym ((==_iff a b).0 q)))
