-- ===== src/Queue.antt =====
-- What the two lists of a device hold: how often an address stands on a list, and the sum of a
-- quantity over the bios that a list leads to.
use bdtun.Base.{
  ℕ, ◌+◌, ◌≡◌, refl, ap, ◌∙◌, Bool, true, false, ==_iff, List, [], ◌∷◌, ◌++◌, Option, none, some,
  arith, ◌==◌, if◌then◌else◌,
}
use bdtun.Device.{Bio, Addr, Entry, Heap, update, unlink}

abbrev pub count : Addr → List Addr → ℕ
count a [] = 0
count a (b ∷ bs) = (if a == b then 1 else 0) + count a bs

abbrev pub weight : (Bio → ℕ) → Option Entry → ℕ
weight f none = 0
weight f (some e) = f e.bio

abbrev pub weigh : (Bio → ℕ) → Heap → List Addr → ℕ
weigh f h [] = 0
weigh f h (a ∷ bs) = weight f (h a) + weigh f h bs

pub count-append : (a : Addr) (xs ys : List Addr) → count a (xs ++ ys) ≡ count a xs + count a ys
count-append a [] ys = omega arith
count-append a (x ∷ xs) ys = omega (arith, count-append a xs ys)

-- `unlink` takes one occurrence of its own address away, and no other.
pub count-unlink :
    (a b : Addr) (xs : List Addr)
    → count a (unlink b xs) + (if b == a then (if count a xs == 0 then 0 else 1) else 0)
      ≡ count a xs
unfolding unlink
count-unlink a b [] = ground arith
count-unlink a b (x ∷ xs) = ground (arith, count-unlink a b xs)

module _ (f : Bio → ℕ) where
  pub weigh-append :
      (h : Heap) (xs ys : List Addr) → weigh f h (xs ++ ys) ≡ weigh f h xs + weigh f h ys
  weigh-append h [] ys = omega arith
  weigh-append h (x ∷ xs) ys = omega (arith, weigh-append h xs ys)

  -- A list that does not lead to `a` weighs the same whatever is put there.
  pub weigh-update :
      (h : Heap) (a : Addr) (e : Option Entry) (xs : List Addr)
      → count a xs ≡ 0
      → weigh f (update h a e) xs ≡ weigh f h xs
  unfolding update
  weigh-update h a e [] out = refl
  weigh-update h a e (x ∷ xs) out = ground (arith, weigh-update h a e xs)

  -- So does any list, where the entry at `a` is replaced by one of the same weight.
  pub weigh-replace :
      (h : Heap) (a : Addr) (e : Option Entry) (xs : List Addr)
      → weight f e ≡ weight f (h a)
      → weigh f (update h a e) xs ≡ weigh f h xs
  unfolding update
  weigh-replace h a e [] same = refl
  weigh-replace h a e (x ∷ xs) same = ground (arith, weigh-replace h a e xs, at_eq (a == x) refl)
    where
      at_eq : (b : Bool) → (a == x) ≡ b → weight f (if b then e else h x) ≡ weight f (h x)
      at_eq true p = same ∙ ap (λ y. weight f (h y)) ((==_iff a x).0 p)
      at_eq false p = refl

  pub weigh-unlink :
      (h : Heap) (a : Addr) (xs : List Addr)
      → weigh f h (unlink a xs) + (if count a xs == 0 then 0 else weight f (h a)) ≡ weigh f h xs
  unfolding unlink
  weigh-unlink h a [] = refl
  weigh-unlink h a (x ∷ xs) = ground (arith, weigh-unlink h a xs, at_eq (a == x) refl)
    where
      at_eq : (b : Bool) → (a == x) ≡ b → b ≡ true → weight f (h a) ≡ weight f (h x)
      at_eq b p q = ap (λ y. weight f (h y)) ((==_iff a x).0 (p ∙ q))
