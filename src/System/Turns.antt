-- ===== src/System/Turns.antt =====
-- What a thread that goes on to its next section does to the tie of System/Sections.
use bdtun.Base.{
  ℕ, ◌≡◌, ◌≢◌, none, some, ◌==◌, true, arith, inl, inr, Bool-cases, ==_self, ==_iff, ap, sym, ◌∙◌,
}
use bdtun.Device.{Addr, Heap, Machine, update}
use bdtun.System.{is_live}
use bdtun.System.Valid.{IsValid}
use bdtun.System.Positions.{
  uses-target, goes_to-cases, goes_to-uses, goes_to-unlinked, still_unlinked, goes_to_self,
  goes_to-apart,
}
use bdtun.System.Threads.{Pc, Threads, idle, holding, unlinked, moving, uses, target, goes_to}
use bdtun.System.Sections.{IsApart, with_heap, agrees_live, agrees_on}

module _ {s : Threads} {h : Heap} (x : IsApart s h) where
  pub begins-IsApart :
      (t : ℕ) (p : Pc)
      → target p ≡ some s.machine.dev.data_current_bio
      → uses p ≡ some s.machine.dev.data_current_bio
      → ((u : ℕ) → target (s.pc u) ≢ some s.machine.dev.data_current_bio)
      → is_live (s.machine.heap s.machine.dev.data_current_bio) ≡ 1
      → s.pc t ≡ idle
      → IsApart (record s { pc = goes_to t p s.pc }) h
  begins-IsApart t p at use_ free live before =
      let a = s.machine.dev.data_current_bio in
      record {
        valid = x.valid;
        agrees = λ b. elim (x.agrees b) [
          | inl same ↦ inl same
          | inr (gone, u, away) ↦
              inr (gone, u, still_unlinked t p s.pc u b (λ q. ground (arith, before, q)) away)
        ];
        held = λ u b q. elim (goes_to-cases t p s.pc u) [
          | inl (same, new) ↦
              let entry : some a ≡ some b = sym use_ ∙ (sym (ap uses new) ∙ q) in
              let kept : h a ≡ s.machine.heap a = agrees_on x a (λ w r. free w (ap target r)) in
              let moved : b ≡ a = ground (arith, entry) in ap is_live (ap h moved ∙ kept) ∙ live
          | inr (other, old) ↦ x.held u b (sym (ap uses old) ∙ q)
        ];
        off = λ u b q. x.off u b (goes_to-unlinked t p s.pc u b (λ r. using b (ap uses r)) q).1;
        apart = goes_to-apart t p s.pc x.apart (λ u b q r. absurd (free u (r ∙ (sym q ∙ at))));
      }
    where
      using : (b : Addr) → uses p ≢ none
      using b q = ground (arith, sym q ∙ use_)

  -- A thread is done with an entry that it has used.
  pub leaves-IsApart :
      (t : ℕ) (a : Addr) → s.pc t ≡ moving a → IsApart (record s { pc = goes_to t idle s.pc }) h
  leaves-IsApart t a at = record {
    valid = x.valid;
    agrees = λ b. elim (x.agrees b) [
      | inl same ↦ inl same
      | inr (gone, u, away) ↦
          inr (gone, u, still_unlinked t idle s.pc u b (λ q. ground (arith, at, q)) away)
    ];
    held = λ u b q. x.held u b (goes_to-uses t idle s.pc u b (λ r. ground (arith, r)) q).1;
    off = λ u b q. x.off u b (goes_to-unlinked t idle s.pc u b (λ r. ground (arith, r)) q).1;
    apart = goes_to-apart t idle s.pc x.apart (λ u b q r. absurd (ground (arith, q)));
  }

  -- The entry is off its list; in `h` it is freed.
  pub ends-IsApart :
      (t byte : ℕ) (a : Addr) (n : Machine)
      → s.pc t ≡ holding byte a
      → n.heap ≡ s.machine.heap
      → IsValid (with_heap n (update h a none))
      → IsApart (record { machine = n; pc = goes_to t (unlinked a) s.pc }) (update h a none)
  unfolding update
  ends-IsApart t byte a n at same v =
      let p = unlinked a in
      let live : h a ≡ s.machine.heap a = agrees_live x a (x.held t a (ap uses at)) in
      record {
        valid = v;
        agrees = λ b. elim (Bool-cases (a == b)) [
          | inl here ↦
              inr
                (ground (arith, here), t, goes_to_self t p s.pc ∙ ap unlinked ((==_iff a b).0 here))
          | inr there ↦ elim (x.agrees b) [
            | inl old ↦ inl (ground (arith, there, old, ap (λ f. f b) same))
            | inr (gone, u, away) ↦ inr (
              ground (arith, there, gone),
              u,
              still_unlinked t p s.pc u b (λ q. ground (arith, at, q)) away,
            )
          ]
        ];
        held = λ u b q.
            let (other, before) = goes_to-uses t p s.pc u b (λ r. ground (arith, r)) q in
            ground (arith, x.held u b before, mine u b other before);
        off = λ u b q. elim (goes_to-cases t p s.pc u) [
          | inl (tu, new) ↦
              let entry : a ≡ b = ground (arith, new, q) in
              (
                ground (arith, entry, ==_self b),
                ap (λ f. is_live (f b)) same
                    ∙ ap (λ c. is_live (s.machine.heap c)) (sym entry)
                    ∙ (ap is_live (sym live) ∙ x.held t a (ap uses at)),
              )
          | inr (other, old) ↦
              let (gone, still) = x.off u b (sym old ∙ q) in
              (ground (arith, gone), ap (λ f. is_live (f b)) same ∙ still)
        ];
        apart = goes_to-apart t p s.pc x.apart (λ u b q r. x.apart t u b (ap target at ∙ q) r);
      }
    where
      mine : (u : ℕ) (b : Addr) → t ≢ u → uses (s.pc u) ≡ some b → (a == b) ≡ true → ⊥
      mine u b other there here = other (
          x.apart t u b (ap target at ∙ ap some ((==_iff a b).0 here))
            (uses-target (s.pc u) b there))

  -- The freed entry was on no list.
  pub frees-IsApart :
      (t : ℕ) (a : Addr) (n : Machine)
      → s.pc t ≡ unlinked a
      → n.dev ≡ s.machine.dev
      → n.heap ≡ update s.machine.heap a none
      → IsApart (record { machine = n; pc = goes_to t idle s.pc }) h
  unfolding update
  frees-IsApart t a n at same gone = record {
    valid = record { listed = λ b. rw same (x.valid.listed b); no_null = x.valid.no_null };
    agrees = λ b. elim (Bool-cases (a == b)) [
      | inl here ↦
          let freed : h b ≡ none = ap h (sym ((==_iff a b).0 here)) ∙ (x.off t a at).0 in
          inl (ground (arith, here, freed, ap (λ f. f b) gone))
      | inr there ↦ elim (x.agrees b) [
        | inl old ↦ inl (ground (arith, there, old, ap (λ f. f b) gone))
        | inr (dead, u, away) ↦ inr (
          dead,
          u,
          still_unlinked t idle s.pc u b (λ q. ground (arith, at, q, there, ==_self b)) away,
        )
      ]
    ];
    held = λ u b q. x.held u b (goes_to-uses t idle s.pc u b (λ r. ground (arith, r)) q).1;
    off = λ u b q.
        let (other, before) = goes_to-unlinked t idle s.pc u b (λ r. ground (arith, r)) q in
        let (dead, still) = x.off u b before in
        (dead, ground (arith, still, ap (λ f. f b) gone, elsewhere u b other before));
    apart = goes_to-apart t idle s.pc x.apart (λ u b q r. absurd (ground (arith, q)));
  }
    where
      elsewhere : (u : ℕ) (b : Addr) → t ≢ u → s.pc u ≡ unlinked b → (a == b) ≡ true → ⊥
      elsewhere u b other there here =
          other (x.apart t u b (ap target at ∙ ap some ((==_iff a b).0 here)) (ap target there))
