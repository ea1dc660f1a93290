-- ===== src/SwapTable.antt =====
-- Tables that swap their entries in pairs: the common body of `BankRemappingStructure::swap`
-- (performance_model/bank_remap.cc) and `VaultRemappingStructure::swap`
-- (performance_model/vault_remap.cc), over an interface that the entries of both fill.
pub mod Pairs
pub mod Tables
use sniper_zip.Prelude.{
  ℕ, ◌+◌, ◌≡◌, Bool, true, false, not, ◌==◌, if◌then◌else◌, ◌||◌, ◌&&◌, update,
}

-- An entry knows its own index, where it is mapped, and whether that is itself.
pub record SwapEntry {ℓ} (E : Type ℓ) : Type ℓ where
  pub idx : E → ℕ
  pub ridx : E → ℕ
  pub orig : E → Bool
  -- remapTo(x)
  pub remap_to : ℕ → E → E
  -- setChangedBit(true) and clearAccess()
  pub mark : E → E
  pub idx-remap_to : (x : ℕ) (e : E) → idx (remap_to x e) ≡ idx e
  pub ridx-remap_to : (x : ℕ) (e : E) → ridx (remap_to x e) ≡ x
  pub orig-remap_to : (x : ℕ) (e : E) → orig (remap_to x e) ≡ (x == idx e)
  pub idx-mark : (e : E) → idx (mark e) ≡ idx e
  pub ridx-mark : (e : E) → ridx (mark e) ≡ ridx e
  pub orig-mark : (e : E) → orig (mark e) ≡ orig e

module _ {ℓ} {E : Type ℓ} ⦃entry : SwapEntry E⦄ where
  open entry use {ridx, orig, remap_to, mark}

  -- m_arr[i]->remapTo(x)
  abbrev pub remap : ℕ → ℕ → (ℕ → E) → ℕ → E
  remap i x t = update t i (remap_to x (t i))

  abbrev pub marked : ℕ → (ℕ → E) → ℕ → E
  marked i t = update t i (mark (t i))

  -- Both entries are marked; then `src` goes to `des` and `des` to `src`, and a former partner of
  -- either goes back to itself.
  unfoldable pub swap_entries : ℕ → ℕ → (ℕ → E) → ℕ → E
  swap_entries src des t0 =
      let t = marked des (marked src t0) in
      let s_orig = orig (t src) in
      let d_orig = orig (t des) in
      let src_des = ridx (t src) in
      let des_des = ridx (t des) in
      let t1 = remap src des t in
      let t2 = if not s_orig then remap src_des src_des t1 else t1 in
      let t3 = if not d_orig then remap des_des des_des t2 else t2 in remap des src t3

-- The copies that a swap is counted for.
unfoldable pub data_mov : Bool → Bool → Bool → ℕ
data_mov s_orig d_orig same =
    if s_orig && d_orig || same
    then 3
    else if s_orig && not d_orig || not s_orig && d_orig
    then 4
    else 5
