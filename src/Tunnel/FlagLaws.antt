-- ===== src/Tunnel/FlagLaws.antt =====
-- The translation of flags keeps each flag, at the bit that include/bdtun.h gives it.
use bdtun.Base.{
  ℕ, ◌^◌, ◌≡◌, ap, ◌∙◌, ◌⊎◌, ◌<◌, ◌≤◌, Bool, true, false, ◌&&◌, ◌||◌, List, [], ◌∷◌, arith, ◌==◌,
  if◌then◌else◌,
}
use bdtun.Base.Bits.{bit, bit-bit_or, bit_of_zero, bit-pow, bit_and-pow, bit-lt-2, pow-pos}
use bdtun.Tunnel.Flags.{
  Flag, Kernel, bit_number, needs_3_2, carries, operands, translate, bdtun_translate_bio_rw,
}

-- Whether some flag of the list is carried and has the bit `j`.
abbrev gives : Kernel → ℕ → ℕ → List Flag → Bool
gives k rw j [] = false
gives k rw j (f ∷ fs) = ((j == bit_number f) && carries k rw f) || gives k rw j fs

bit-translate :
    (k : Kernel) (rw j : ℕ) (fs : List Flag)
    → bit j (translate k rw fs) ≡ (if gives k rw j fs then 1 else 0)
unfolding translate
bit-translate k rw j [] = bit_of_zero j
bit-translate k rw j (f ∷ fs) = ground (
  arith,
  bit-bit_or j (if carries k rw f then 2 ^ bit_number f else 0) (translate k rw fs),
  bit-pow j (bit_number f),
  bit_of_zero j,
  bit-translate k rw j fs,
)

gives-operands :
    (k : Kernel) (rw : ℕ) (f : Flag) → gives k rw (bit_number f) operands ≡ carries k rw f
unfolding bit_number
gives-operands k rw Flag.write = ground arith
gives-operands k rw _ = ground arith

gives_none : (k : Kernel) (rw j : ℕ) → (j ≡ 0) ⊎ (30 ≤ j) → gives k rw j operands ≡ false
unfolding bit_number
gives_none k rw j h = ground arith

carries-bit :
    (k : Kernel) (flags n : ℕ) (f : Flag)
    → k.req f ≡ 2 ^ n
    → (needs_3_2 f ≡ true → k.since_3_2 ≡ true)
    → (if carries k flags f then 1 else 0) ≡ bit n flags
unfolding carries
carries-bit k flags n f one built = rw one (
    rw (bit_and-pow flags n)
      (ground (arith, bit-lt-2 n flags, pow-pos n, cases (bit n flags) (bit-lt-2 n flags))))
  where
    cases : (b : ℕ) → b < 2 → (b ≡ 0) ⊎ (b ≡ 1)
    cases b h = omega arith

-- For a kernel in which the flag `f` is the bit `n`, and which is recent enough to have `f`, the bit
-- of `f` in the translation, where include/bdtun.h puts it, is bit `n` of the bio's flags. The bits
-- that stand for no flag are 0 on every kernel.
pub bdtun_translate_bio_rw-bit :
    (k : Kernel) (flags n : ℕ) (f : Flag)
    → k.req f ≡ 2 ^ n
    → (needs_3_2 f ≡ true → k.since_3_2 ≡ true)
    → (bit (bit_number f) (bdtun_translate_bio_rw k flags) ≡ bit n flags)
      × ((j : ℕ) → (j ≡ 0) ⊎ (30 ≤ j) → bit j (bdtun_translate_bio_rw k flags) ≡ 0)
unfolding bdtun_translate_bio_rw
bdtun_translate_bio_rw-bit k flags n f one built = (
  bit-translate k flags (bit_number f) operands
      ∙ ap (λ b. if b then 1 else 0) (gives-operands k flags f)
      ∙ carries-bit k flags n f one built,
  λ j h. bit-translate k flags j operands ∙ ap (λ b. if b then 1 else 0) (gives_none k flags j h),
)
