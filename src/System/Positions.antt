-- ===== src/System/Positions.antt =====
-- Where the threads of a device stand after one of them has gone on.
use bdtun.Base.{
  ℕ, ◌≡◌, ◌≢◌, some, ◌==◌, arith, inl, inr, ◌⊎◌, Bool-cases, ==_self, ==_iff, ap, sym, ◌∙◌,
}
use bdtun.Device.{Addr}
use bdtun.System.Threads.{Pc, idle, holding, moving, unlinked, uses, target, goes_to}

-- Where the threads are once `t` has gone to `p`.
pub goes_to-cases :
    (t : ℕ) (p : Pc) (pc : ℕ → Pc) (u : ℕ)
    → ((t ≡ u) × (goes_to t p pc u ≡ p)) ⊎ ((t ≢ u) × (goes_to t p pc u ≡ pc u))
unfolding goes_to
goes_to-cases t p pc u = elim (Bool-cases (t == u)) [
  | inl same ↦ inl ((==_iff t u).0 same, ground (arith, same))
  | inr other ↦ inr (ground (arith, other, ==_iff t u), ground (arith, other))
]

pub goes_to_self : (t : ℕ) (p : Pc) (pc : ℕ → Pc) → goes_to t p pc t ≡ p
unfolding goes_to
goes_to_self t p pc = ground (arith, ==_self t)

pub uses-target : (p : Pc) (b : Addr) → uses p ≡ some b → target p ≡ some b
uses-target idle b q = q
uses-target (holding byte a) b q = q
uses-target (moving a) b q = q
uses-target (unlinked a) b q = absurd (ground (arith, q))

-- A thread that uses `b`, once `t` has gone to where it does not, did so before.
pub goes_to-uses :
    (t : ℕ) (p : Pc) (pc : ℕ → Pc) (u : ℕ) (b : Addr)
    → uses p ≢ some b
    → uses (goes_to t p pc u) ≡ some b
    → (t ≢ u) × (uses (pc u) ≡ some b)
goes_to-uses t p pc u b not_ q = elim (goes_to-cases t p pc u) [
  | inl (same, new) ↦ absurd (not_ (sym (ap uses new) ∙ q))
  | inr (other, old) ↦ (other, sym (ap uses old) ∙ q)
]

-- The same of a thread that has `b` to free.
pub goes_to-unlinked :
    (t : ℕ) (p : Pc) (pc : ℕ → Pc) (u : ℕ) (b : Addr)
    → p ≢ unlinked b
    → goes_to t p pc u ≡ unlinked b
    → (t ≢ u) × (pc u ≡ unlinked b)
goes_to-unlinked t p pc u b not_ q = elim (goes_to-cases t p pc u) [
  | inl (same, new) ↦ absurd (not_ (sym new ∙ q))
  | inr (other, old) ↦ (other, sym old ∙ q)
]

-- A thread that has `b` to free still has, once another has gone on.
pub still_unlinked :
    (t : ℕ) (p : Pc) (pc : ℕ → Pc) (u : ℕ) (b : Addr)
    → pc t ≢ unlinked b
    → pc u ≡ unlinked b
    → goes_to t p pc u ≡ unlinked b
still_unlinked t p pc u b not_ q = elim (goes_to-cases t p pc u) [
  | inl (same, new) ↦ absurd (not_ (ap pc same ∙ q))
  | inr (other, old) ↦ old ∙ q
]

-- If `t` alone is at what `p` is at, threads stay apart.
pub goes_to-apart :
    (t : ℕ) (p : Pc) (pc : ℕ → Pc)
    → ((u w : ℕ) (a : Addr) → target (pc u) ≡ some a → target (pc w) ≡ some a → u ≡ w)
    → ((u : ℕ) (a : Addr) → target p ≡ some a → target (pc u) ≡ some a → t ≡ u)
    → (u w : ℕ) (a : Addr) → target (goes_to t p pc u) ≡ some a
    → target (goes_to t p pc w) ≡ some a
    → u ≡ w
goes_to-apart t p pc apart alone u w a x y = elim (goes_to-cases t p pc u) [
  | inl (tu, pu) ↦ elim (goes_to-cases t p pc w) [
    | inl (tw, pw) ↦ sym tu ∙ tw
    | inr (tw, pw) ↦ sym tu ∙ alone w a (sym (ap target pu) ∙ x) (sym (ap target pw) ∙ y)
  ]
  | inr (tu, pu) ↦ elim (goes_to-cases t p pc w) [
    | inl (tw, pw) ↦ sym (alone u a (sym (ap target pw) ∙ y) (sym (ap target pu) ∙ x)) ∙ tw
    | inr (tw, pw) ↦ apart u w a (sym (ap target pu) ∙ x) (sym (ap target pw) ∙ y)
  ]
]
