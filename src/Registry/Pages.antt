-- ===== src/Registry/Pages.antt =====
-- What a list command puts into the response (kernel/bdtun.c: bdtun_list_k).
use Prim.Native.Nat.{min}
use bdtun.Base.{
  ℕ, zero, suc, ◌+◌, ◌≤◌, ◌<◌, ◌≡◌, ◌⊎◌, inl, inr, refl, List, [], ◌∷◌, ◌++◌, arith, ltb, length,
  take, drop, length-append, append_nil, append_assoc, Bool-cases, ap, sym, ◌∙◌, ◌||◌,
}
use bdtun.Registry.{Node, Registry}
use bdtun.Registry.Listing.{list_loop, bdtun_list_k}

-- The names of devices, each with its terminating 0.
unfoldable pub entries : List Node → List ℕ
entries [] = []
entries (d ∷ ds) = (d.dev.bd_gd.disk_name ++ 0 ∷ []) ++ entries ds

-- `buf` is `before` and the names of the first `count` of the devices, with `i` names before.
-- Nothing is left out unless the devices are out, or `most` names and one more are there, or the
-- next name does not fit.
pub record IsPage (bufsize most i : ℕ) (before : List ℕ) (ds : List Node) (buf : List ℕ)
    : Type 0 where
  pub count : ℕ
  pub names : buf ≡ before ++ entries (take count ds)
  pub there : count ≤ length ds
  pub few : i + count ≤ suc most
  pub fits : length buf ≤ bufsize
  pub full :
      (count ≡ length ds)
      ⊎ ((i + count ≡ suc most)
          ⊎ (bufsize < length buf + length (entries (take 1 (drop count ds)))))

module _ (bufsize internal maxdevices : ℕ) where
  list_loop-IsPage :
      (ds : List Node) (i : ℕ) (buf : List ℕ)
      → i ≤ suc (min maxdevices internal)
      → length buf ≤ bufsize
      → IsPage bufsize
          (min maxdevices internal)
          i
          buf
          ds
          (list_loop bufsize internal maxdevices ds 0 i buf)
  unfolding list_loop entries
  list_loop-IsPage [] i buf few fits = record {
    count = 0;
    names = sym (append_nil buf);
    there = omega arith;
    few = omega (arith, few);
    fits = fits;
    full = inl refl;
  }
  list_loop-IsPage (d ∷ ds) i buf few fits =
      let name = d.dev.bd_gd.disk_name ++ 0 ∷ [] in
      elim (Bool-cases (ltb maxdevices i || ltb internal i)) [
        | inl enough ↦
            let stops : list_loop bufsize internal maxdevices (d ∷ ds) 0 i buf ≡ buf =
              ground (arith, enough) in
            rw stops (record {
              count = 0;
              names = sym (append_nil buf);
              there = omega arith;
              few = omega (arith, few);
              fits = fits;
              full = inr (inl (ground arith));
            })
        | inr more ↦ elim (Bool-cases (ltb bufsize (length buf + length name))) [
          | inl long ↦
              let stops : list_loop bufsize internal maxdevices (d ∷ ds) 0 i buf ≡ buf =
                ground (arith, more, long) in
              rw stops (record {
                count = 0;
                names = sym (append_nil buf);
                there = omega arith;
                few = omega (arith, few);
                fits = fits;
                full = inr (inr (ground (arith, append_nil name)));
              })
          | inr short ↦
              let goes_on : list_loop bufsize internal maxdevices (d ∷ ds) 0 i buf
                  ≡ list_loop bufsize internal maxdevices ds 0 (i + 1) (buf ++ name) =
                ground (arith, more, short) in
              let p =
                list_loop-IsPage ds (i + 1) (buf ++ name) (ground arith)
                  (ground (arith, length-append buf name)) in
              rw goes_on (record {
                count = suc p.count;
                names = p.names ∙ append_assoc buf name (entries (take p.count ds));
                there = omega (arith, p.there);
                few = omega (arith, p.few);
                fits = p.fits;
                full = elim p.full [
                  | inl all ↦ inl (ap suc all)
                  | inr (inl most) ↦ inr (inl (omega (arith, most)))
                  | inr (inr next) ↦ inr (inr next)
                ];
              })
        ]
      ]

  list_loop-offset :
      (ds : List Node) (offset : ℕ)
      → list_loop bufsize internal maxdevices ds offset 0 []
        ≡ list_loop bufsize internal maxdevices (drop offset ds) 0 0 []
  unfolding list_loop
  list_loop-offset ds zero = refl
  list_loop-offset [] (suc offset) = refl
  list_loop-offset (d ∷ ds) (suc offset) = ground (arith, list_loop-offset ds offset)

-- The response to a list command holds whole names, each with its terminating 0, of devices that
-- stand one after the other from the offset on; it fits the buffer, and holds at most one name more
-- than the smaller of the two limits. It leaves a later device out only if that many names are there
-- or the next name does not fit.
pub bdtun_list_k-IsPage :
    (bufsize internal offset maxdevices : ℕ) (s : Registry)
    → IsPage bufsize
        (min maxdevices internal)
        0
        []
        (drop offset s.device_list)
        (bdtun_list_k bufsize internal offset maxdevices s)
unfolding bdtun_list_k
bdtun_list_k-IsPage bufsize internal offset maxdevices s =
    rw (list_loop-offset bufsize internal maxdevices s.device_list offset) (
      list_loop-IsPage bufsize internal maxdevices (drop offset s.device_list) 0 [] (omega arith)
        (omega arith))
