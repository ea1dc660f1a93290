-- ===== src/SwapTable/Pairs.antt =====
-- A swap keeps the entries in pairs.
use sniper_zip.Prelude.{ℕ, ◌<◌, ◌≡◌, ◌≢◌, ◌⊎◌, inr, not, ◌==◌, if◌then◌else◌, update, arith}

-- Where the entries go, after a swap.
unfoldable pub swapped : (ℕ → ℕ) → ℕ → ℕ → ℕ → ℕ
swapped r src des =
    let r1 = update r src des in
    let r2 = if not (r src == src) then update r1 (r src) (r src) else r1 in
    let r3 = if not (r des == des) then update r2 (r des) (r des) else r2 in update r3 des src

-- A table of `n` entries in which every entry stands alone or is swapped with one other.
pub record IsInvolution (n : ℕ) (r : ℕ → ℕ) : Type 0 where
  pub inside : (i : ℕ) → i < n → r i < n
  pub back : (i : ℕ) → r (r i) ≡ i

-- What a swap of entries that are not partners does.
pub record IsSwapped (r r' : ℕ → ℕ) (src des : ℕ) : Type 0 where
  pub there : r' src ≡ des
  pub here : r' des ≡ src
  pub freed_src : r src ≢ src → src ≢ des → r' (r src) ≡ r src
  pub freed_des : r des ≢ des → src ≢ des → r' (r des) ≡ r des
  pub others : (i : ℕ) → i ≢ src → i ≢ des → i ≢ r src → i ≢ r des → r' i ≡ r i

swapped-back :
    (r : ℕ → ℕ) (src des i : ℕ)
    → (r (r src) ≡ src)
    → (r (r des) ≡ des)
    → (r (r i) ≡ i)
    → (src ≡ des ⊎ r src ≢ des)
    → swapped r src des (swapped r src des i) ≡ i
unfolding swapped
swapped-back r src des i a b c d = ground arith

swapped-IsSwapped :
    (r : ℕ → ℕ) (src des : ℕ)
    → r (r src) ≡ src
    → r (r des) ≡ des
    → r src ≢ des
    → IsSwapped r (swapped r src des) src des
unfolding swapped
swapped-IsSwapped r src des a b d = record {
  there = ground arith;
  here = ground arith;
  freed_src = λ p q. ground arith;
  freed_des = λ p q. ground arith;
  others = λ i p q u v. ground arith;
}

swapped-inside :
    (r : ℕ → ℕ) (n src des i : ℕ)
    → src < n
    → des < n
    → r src < n
    → r des < n
    → r i < n
    → swapped r src des i < n
unfolding swapped
swapped-inside r n src des i a b c d e = ground arith

pub swapped-IsInvolution :
    (n : ℕ) (r : ℕ → ℕ) (src des : ℕ)
    → src < n
    → des < n
    → r src ≢ des
    → IsInvolution n r
    → IsInvolution n (swapped r src des)
swapped-IsInvolution n r src des hs hd apart h = record {
  inside =
      λ i k. swapped-inside r n src des i hs hd (h.inside src hs) (h.inside des hd) (h.inside i k);
  back = λ i. swapped-back r src des i (h.back src) (h.back des) (h.back i) (inr apart);
}
