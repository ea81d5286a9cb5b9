-- ===== src/System/Numbers.antt =====
-- The numbers of the bios that a list of entries leads to, under changes of the list and the heap.
use bdtun.Base.{
  ℕ, ◌≡◌, ◌∙◌, refl, false, List, [], ◌∷◌, ◌++◌, Option, none, some, inl, inr, arith, ◌==◌, ==_iff,
  Bool-cases, subst, sym, ap,
}
use bdtun.Device.{Addr, Entry, Heap, update, unlink}
use bdtun.Queue.{count}
use bdtun.System.Broker.{Removed, first, later, id_of, ids}

id_of-append : (o : Option Entry) (xs ys : List ℕ) → id_of o (xs ++ ys) ≡ id_of o xs ++ ys
id_of-append none xs ys = refl
id_of-append (some e) xs ys = refl

pub ids-append : (h : Heap) (xs ys : List Addr) → ids h (xs ++ ys) ≡ ids h xs ++ ids h ys
ids-append h [] ys = refl
ids-append h (x ∷ xs) ys =
    ap (id_of (h x)) (ids-append h xs ys) ∙ id_of-append (h x) (ids h xs) (ids h ys)

-- An address that is on no list may be given any entry.
pub ids-update :
    (h : Heap) (a : Addr) (e : Option Entry) (xs : List Addr)
    → count a xs ≡ 0
    → ids (update h a e) xs ≡ ids h xs
unfolding update
ids-update h a e [] out = refl
ids-update h a e (x ∷ xs) out =
    let apart : (a == x) ≡ false = ground arith in
    rw (apart, ids-update h a e xs (ground arith)) refl

-- An entry may be replaced by one with the same number.
pub ids-replace :
    (h : Heap) (a : Addr) (e e' : Entry) (xs : List Addr)
    → h a ≡ some e
    → e'.bio.bio_id ≡ e.bio.bio_id
    → ids (update h a (some e')) xs ≡ ids h xs
unfolding update
ids-replace h a e e' [] live same = refl
ids-replace h a e e' (x ∷ xs) live same = elim (Bool-cases (a == x)) [
  | inl here ↦
      let at : h x ≡ some e = ap h (sym ((==_iff a x).0 here)) ∙ live in
      rw (here, at, same, ids-replace h a e e' xs live same) refl
  | inr away ↦ rw (away, ids-replace h a e e' xs live same) refl
]

pub unlink_absent : (a : Addr) (xs : List Addr) → count a xs ≡ 0 → unlink a xs ≡ xs
unfolding unlink
unlink_absent a [] out = refl
unlink_absent a (x ∷ xs) out = ground (arith, unlink_absent a xs)

-- Taking a live address off its list and freeing it takes its number out.
pub ids-Removed :
    (h : Heap) (a : Addr) (e : Entry) (xs : List Addr)
    → h a ≡ some e
    → count a xs ≡ 1
    → Removed e.bio.bio_id (ids h xs) (ids (update h a none) (unlink a xs))
unfolding update unlink
ids-Removed h a e [] live once = absurd (omega arith)
ids-Removed h a e (x ∷ xs) live once = elim (Bool-cases (a == x)) [
  | inl here ↦
      let at : h x ≡ some e = ap h (sym ((==_iff a x).0 here)) ∙ live in
      rw (here, at, ids-update h a none xs (ground arith)) (first (ids h xs))
  | inr away ↦
      let freed = update h a none in
      let kept : unlink a (x ∷ xs) ≡ x ∷ unlink a xs = ground (arith, away) in
      let there : freed x ≡ h x = ground (arith, away) in
      let left : ids freed (unlink a (x ∷ xs)) ≡ id_of (h x) (ids freed (unlink a xs)) =
        ap (ids freed) kept ∙ ap (λ o. id_of o (ids freed (unlink a xs))) there in
      subst (λ z. Removed e.bio.bio_id (ids h (x ∷ xs)) z) (sym left)
        (onto (h x) (ids-Removed h a e xs live (ground arith)))
]
  where
    onto :
        (o : Option Entry) {ys zs : List ℕ}
        → Removed e.bio.bio_id ys zs
        → Removed e.bio.bio_id (id_of o ys) (id_of o zs)
    onto none r = r
    onto (some f) r = later f.bio.bio_id r
