-- ===== src/Prelude/Arrays.antt =====
-- Arrays as functions of the index, lists measured by native numbers, and counted loops.
use Prim.Native.Nat.{ℕ, zero, suc, ◌+◌, ◌≤◌, ◌<◌}
use mathlib.Core.Path.{◌≡◌, refl, sym, ap, ◌∙◌}
use mathlib.Core.Logic.{◌≢◌}
use mathlib.Core.List.{List, [], ◌∷◌, ◌++◌}
use native.Mathlib.Omega.{arith}
use native.Mathlib.Decide.{ℕ_discrete}
use sniper_zip.Prelude.Tests.{◌==◌, if◌then◌else◌, ltb, if_lt, if_ge, if_skip}

-- A write to one cell of an array.
abbrev pub update {ℓ} : {A : Type ℓ} → (ℕ → A) → ℕ → A → ℕ → A
update f i v j = if j == i then v else f j

module _ {ℓ} {A : Type ℓ} where
  abbrev pub length : List A → ℕ
  length [] = 0
  length (x ∷ xs) = suc (length xs)

  pub length-append : (xs ys : List A) → length (xs ++ ys) ≡ length xs + length ys
  length-append [] ys = omega arith
  length-append (x ∷ xs) ys = omega (arith, length-append xs ys)

  pub update_self : (f : ℕ → A) (i : ℕ) (v : A) → update f i v i ≡ v
  update_self f i v = ground arith

  pub update_ne : (f : ℕ → A) (i : ℕ) (v : A) (j : ℕ) → j ≢ i → update f i v j ≡ f j
  update_ne f i v j h = ground arith

-- for (k = from; k < from + rounds; k++) x = f k x.
unfoldable pub for_range {ℓ} : {S : Type ℓ} → ℕ → ℕ → (ℕ → S → S) → S → S
for_range zero from f x = x
for_range (suc rounds) from f x = for_range rounds (from + 1) f (f from x)

-- An invariant that may speak of the next index, and a body that need only keep it within bounds.
pub for_range_inv {ℓ κ} :
    {S : Type ℓ} (Inv : ℕ → S → Type κ) (f : ℕ → S → S) (rounds from to : ℕ) (x : S)
    → ((k : ℕ) (y : S) → from ≤ k → k < to → Inv k y → Inv (k + 1) (f k y))
    → from + rounds ≡ to
    → Inv from x
    → Inv to (for_range rounds from f x)
unfolding for_range
for_range_inv Inv f zero from to x step e now = let done : from ≡ to = omega arith in rw done at now
for_range_inv Inv f (suc rounds) from to x step e now =
    let next = step from x (omega arith) (omega arith) now in
    for_range_inv Inv f rounds (from + 1) to (f from x)
      (λ k y above below h. step k y (omega arith) below h) (omega arith) next

-- A loop whose rounds leave a part of the state alone.
pub for_range_none {ℓ κ} :
    {S : Type ℓ} {V : Type κ} (g : S → V) (f : ℕ → S → S) (n : ℕ) (x : S)
    → ((i : ℕ) (y : S) → g (f i y) ≡ g y)
    → g (for_range n 0 f x) ≡ g x
for_range_none g f n x same =
    for_range_inv (λ i y. g y ≡ g x) f n 0 n x (λ i y lo hi h. same i y ∙ h) (omega arith) refl

-- A loop of which one round changes a part of the state.
pub for_range_once {ℓ κ} :
    {S : Type ℓ} {V : Type κ} (g : S → V) (t : V → V) (f : ℕ → S → S) (k n : ℕ) (x : S)
    → k < n
    → ((y : S) → g (f k y) ≡ t (g y))
    → ((i : ℕ) (y : S) → i ≢ k → g (f i y) ≡ g y)
    → g (for_range n 0 f x) ≡ t (g x)
for_range_once g t f k n x lt here there =
    for_range_inv (λ i y. g y ≡ (if ltb k i then t (g x) else g x)) f n 0 n x
      (λ i y lo hi h. elim (ℕ_discrete i k) [
        | yes e ↦
            rw e (here y)
            ∙ ap t (h ∙ if_ge k i (t (g x)) (g x) (omega (arith, e)))
            ∙ sym (if_lt k (i + 1) (t (g x)) (g x) (omega (arith, e)))
        | no ne ↦ there i y ne ∙ h ∙ if_skip k i (t (g x)) (g x) (λ same. ne (sym same))
      ])
      (omega arith) (sym (if_ge k 0 (t (g x)) (g x) (omega arith)))
    ∙ if_lt k n (t (g x)) (g x) lt
