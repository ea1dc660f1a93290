-- ===== src/SwapTable/Tables.antt =====
-- Every swap that the tables make keeps their entries in pairs, and each entry's own view of it true.
use sniper_zip.Prelude.{
  ℕ, ◌<◌, ◌≡◌, ◌≢◌, refl, ap, ◌∙◌, Bool, true, false, not, ◌==◌, if◌then◌else◌, update, arith,
  if_rule,
}
use mathlib.Core.Path.{fun_ext}
use sniper_zip.SwapTable.{SwapEntry, remap, marked, swap_entries}
use sniper_zip.SwapTable.Pairs.{swapped, IsInvolution, swapped-IsInvolution}

-- The three stages of a swap, on the targets.
abbrev stages : Bool → Bool → ℕ → ℕ → ℕ → ℕ → (ℕ → ℕ) → ℕ → ℕ
stages s d sd dd src des r =
    let r1 = update r src des in
    let r2 = if not s then update r1 sd sd else r1 in
    let r3 = if not d then update r2 dd dd else r2 in update r3 des src

module _ {ℓ} {E : Type ℓ} ⦃entry : SwapEntry E⦄ where
  open entry use {
    idx, ridx, orig, remap_to, mark, idx-remap_to, ridx-remap_to, orig-remap_to, idx-mark,
    ridx-mark, orig-mark,
  }

  -- Where the entries go.
  abbrev pub targets : (ℕ → E) → ℕ → ℕ
  targets t i = ridx (t i)

  -- An entry at its own index, whose bit says whether it goes there.
  pub record IsTrue (i : ℕ) (e : E) : Type 0 where
    pub named : idx e ≡ i
    pub flagged : orig e ≡ (ridx e == i)

  pub record IsTable (n : ℕ) (t : ℕ → E) : Type 0 where
    pub true_entries : (i : ℕ) → IsTrue i (t i)
    pub pairs : IsInvolution n (targets t)

  abbrev pub AllTrue : (ℕ → E) → Type 0
  AllTrue t = (i : ℕ) → IsTrue i (t i)

  pub update-AllTrue : (t : ℕ → E) (i : ℕ) (e : E) → AllTrue t → IsTrue i e → AllTrue (update t i e)
  update-AllTrue t i e h k j =
      if_rule (IsTrue j) (j == i) e (t j) (λ same. let there : j ≡ i = ground arith in rw there k)
        (λ other. h j)

  remap-AllTrue : (i x : ℕ) (t : ℕ → E) → AllTrue t → AllTrue (remap i x t)
  remap-AllTrue i x t h = update-AllTrue t i _ h (record {
    named = idx-remap_to x (t i) ∙ (h i).named;
    flagged = orig-remap_to x (t i) ∙ rw ((h i).named, ridx-remap_to x (t i)) refl;
  })

  marked-AllTrue : (i : ℕ) (t : ℕ → E) → AllTrue t → AllTrue (marked i t)
  marked-AllTrue i t h = update-AllTrue t i _ h (record {
    named = idx-mark (t i) ∙ (h i).named;
    flagged = orig-mark (t i) ∙ (h i).flagged ∙ rw (ridx-mark (t i)) refl;
  })

  pub targets-update :
      (t : ℕ → E) (i : ℕ) (e : E) → targets (update t i e) ≡ update (targets t) i (ridx e)
  targets-update t i e = fun_ext (λ j.
      if_rule (λ (x : E). ridx x ≡ (if j == i then ridx e else ridx (t j))) (j == i) e (t j)
        (λ same. rw same refl) (λ other. rw other refl))

  targets-remap : (i x : ℕ) (t : ℕ → E) → targets (remap i x t) ≡ update (targets t) i x
  targets-remap i x t = targets-update t i _ ∙ ap (update (targets t) i) (ridx-remap_to x (t i))

  targets-marked : (i : ℕ) (t : ℕ → E) → targets (marked i t) ≡ targets t
  targets-marked i t =
      targets-update t i _
      ∙ fun_ext (λ j.
        if_rule (λ (x : ℕ). x ≡ ridx (t j)) (j == i) (ridx (mark (t i))) (ridx (t j))
          (λ same. let there : j ≡ i = ground arith in rw there (ridx-mark (t i))) (λ other. refl))

  remap_if : Bool → ℕ → ℕ → (ℕ → E) → ℕ → E
  remap_if b i x t = if not b then remap i x t else t

  targets-remap_if :
      (b : Bool) (i x : ℕ) (t : ℕ → E)
      → targets (remap_if b i x t) ≡ (if not b then update (targets t) i x else targets t)
  unfolding remap_if
  targets-remap_if true i x t = refl
  targets-remap_if false i x t = targets-remap i x t

  remap_if-AllTrue : (b : Bool) (i x : ℕ) (t : ℕ → E) → AllTrue t → AllTrue (remap_if b i x t)
  unfolding remap_if
  remap_if-AllTrue true i x t h = h
  remap_if-AllTrue false i x t h = remap-AllTrue i x t h

  pub swap_entries-AllTrue :
      (src des : ℕ) (t : ℕ → E) → AllTrue t → AllTrue (swap_entries src des t)
  unfolding swap_entries remap_if
  swap_entries-AllTrue src des t h =
      let m = marked des (marked src t) in
      let s_orig = orig (m src) in
      let d_orig = orig (m des) in
      let sd = ridx (m src) in
      let dd = ridx (m des) in
      let h0 = marked-AllTrue des (marked src t) (marked-AllTrue src t h) in
      let h1 = remap-AllTrue src des m h0 in
      let h2 = remap_if-AllTrue s_orig sd sd (remap src des m) h1 in
      let h3 = remap_if-AllTrue d_orig dd dd (remap_if s_orig sd sd (remap src des m)) h2 in
      remap-AllTrue des src _ h3

  targets-stages :
      (s d : Bool) (sd dd src des : ℕ) (t : ℕ → E)
      → targets (remap des src (remap_if d dd dd (remap_if s sd sd (remap src des t))))
        ≡ stages s d sd dd src des (targets t)
  targets-stages s d sd dd src des t =
      let t1 = remap src des t in
      let t2 = remap_if s sd sd t1 in
      let t3 = remap_if d dd dd t2 in
      let e2 : targets t2 ≡ (
          if not s then update (update (targets t) src des) sd sd else update (targets t) src des) =
        targets-remap_if s sd sd t1
        ∙ ap (λ (r : ℕ → ℕ). if not s then update r sd sd else r) (targets-remap src des t) in
      let e3 =
        targets-remap_if d dd dd t2 ∙ ap (λ (r : ℕ → ℕ). if not d then update r dd dd else r) e2 in
      targets-remap des src t3 ∙ ap (λ (r : ℕ → ℕ). update r des src) e3

  pub targets-swap_entries :
      (src des : ℕ) (t : ℕ → E)
      → AllTrue t
      → targets (swap_entries src des t) ≡ swapped (targets t) src des
  unfolding swap_entries swapped remap_if
  targets-swap_entries src des t h =
      let m = marked des (marked src t) in
      let same : targets m ≡ targets t = targets-marked des (marked src t) ∙ targets-marked src t in
      let true_m = marked-AllTrue des (marked src t) (marked-AllTrue src t h) in
      let first =
        targets-stages (orig (m src)) (orig (m des)) (ridx (m src)) (ridx (m des)) src des m in
      let flags : stages (orig (m src)) (orig (m des)) (targets m src) (targets m des) src des
            (targets m)
          ≡ stages (targets m src == src) (targets m des == des) (targets m src) (targets m des) src
              des (targets m) =
        rw ((true_m src).flagged, (true_m des).flagged) refl in
      first
      ∙ flags
      ∙ ap (λ (r : ℕ → ℕ). stages (r src == src) (r des == des) (r src) (r des) src des r) same

  pub swap_entries-IsTable :
      (n src des : ℕ) (t : ℕ → E)
      → src < n
      → des < n
      → ridx (t src) ≢ des
      → IsTable n t
      → IsTable n (swap_entries src des t)
  swap_entries-IsTable n src des t hs hd apart h = record {
    true_entries = swap_entries-AllTrue src des t h.true_entries;
    pairs =
        rw (targets-swap_entries src des t h.true_entries)
          (swapped-IsInvolution n (targets t) src des hs hd apart h.pairs);
  }

  -- A write that leaves the mapping of the entry as it was.
  pub update-IsTable :
      (n i : ℕ) (t : ℕ → E) (e : E)
      → idx e ≡ idx (t i)
      → ridx e ≡ ridx (t i)
      → orig e ≡ orig (t i)
      → IsTable n t
      → IsTable n (update t i e)
  update-IsTable n i t e p q r h = record {
    true_entries = update-AllTrue t i e h.true_entries (record {
      named = p ∙ (h.true_entries i).named;
      flagged = r ∙ (h.true_entries i).flagged ∙ rw q refl;
    });
    pairs = rw (targets-update t i e ∙ same) h.pairs;
  }
    where
      same : update (targets t) i (ridx e) ≡ targets t
      same = fun_ext (λ j.
          if_rule (λ (x : ℕ). x ≡ ridx (t j)) (j == i) (ridx e) (ridx (t j))
            (λ eq. let there : j ≡ i = ground arith in rw there q) (λ other. refl))
