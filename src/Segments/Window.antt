-- ===== src/Segments/Window.antt =====
-- Which segment an entry swaps in.
use sniper_zip.Prelude.{
  ℕ, ◌+◌, ◌<◌, ◌≤◌, ◌≡◌, ◌⊎◌, inl, inr, refl, sym, ap, ◌∙◌, true, false, ◌==◌, if◌then◌else◌, ltb,
  List, [], ◌∷◌, length, update, u32, arith, Bool-cases, for_range_inv,
}
use sniper_zip.Segments.{SrcEntry, Heaviest, weigh, heaviest, access_entry, access_all}

-- How often a segment is accessed.
unfoldable pub accesses : ℕ → List ℕ → ℕ
accesses j [] = 0
accesses j (n ∷ ns) = (if j == n then 1 else 0) + accesses j ns

-- The first of the six segments that none of the others has more accesses than.
pub record IsHeaviest (count : ℕ → ℕ) (idx : ℕ) : Type 0 where
  pub inside : idx < 6
  pub most : (j : ℕ) → j < 6 → count j ≤ count idx
  pub first : (j : ℕ) → j < idx → count j < count idx

same_counts-IsHeaviest :
    (count count' : ℕ → ℕ) (i : ℕ)
    → ((j : ℕ) → count j ≡ count' j)
    → IsHeaviest count i
    → IsHeaviest count' i
same_counts-IsHeaviest count count' i same h = record {
  inside = h.inside;
  most = λ j p. rw (← same j, ← same i) (h.most j p);
  first = λ j p. rw (← same j, ← same i) (h.first j p);
}

record Weighed (count : ℕ → ℕ) (n : ℕ) (h : Heaviest) : Type 0 where
  rest : (j : ℕ) → n ≤ j → h.access j ≡ count j
  cleared : (j : ℕ) → j < n → h.access j ≡ 0
  greatest : (j : ℕ) → j < n → count j ≤ h.max
  first : (j : ℕ) → j < h.idx → count j < h.max
  origin : ((h.idx ≡ 0) × (h.max ≡ 0)) ⊎ ((h.idx < n) × (count h.idx ≡ h.max))

weigh-Weighed :
    (count : ℕ → ℕ) (i : ℕ) (h : Heaviest) → Weighed count i h → Weighed count (i + 1) (weigh i h)
unfolding weigh
weigh-Weighed count i h w =
    let here = w.rest i (omega arith) in
    elim (Bool-cases (ltb h.max (h.access i))) [
      | inl e ↦
          let more : h.max < count i = ground arith in
          rw (weigh, e)
            (record {
              rest = λ j p. ground (arith, w.rest j (omega arith));
              cleared = λ j p. grind (arith, w.cleared);
              greatest = λ j p. grind (arith, w.greatest);
              first = λ j p. omega (arith, here, more, w.greatest j p);
              origin = inr (omega arith, sym here);
            })
      | inr e ↦
          let less : count i ≤ h.max = ground arith in
          rw (weigh, e)
            (record {
              rest = λ j p. ground (arith, w.rest j (omega arith));
              cleared = λ j p. grind (arith, w.cleared);
              greatest = λ j p. grind (arith, w.greatest);
              first = w.first;
              origin = grind (arith, w.origin);
            })
    ]

heaviest-IsHeaviest :
    (access total : ℕ → ℕ)
    → ((j : ℕ) → j < 6 → access j ≡ total j)
    → IsHeaviest total (heaviest access).idx × ((j : ℕ) → j < 6 → (heaviest access).access j ≡ 0)
unfolding heaviest
heaviest-IsHeaviest access total same =
    let start : Heaviest = record { max = 0; idx = 0; access = access } in
    let w =
      for_range_inv (Weighed access) weigh 6 0 6 start (λ i h lo hi v. weigh-Weighed access i h v)
        (omega arith)
        (record {
          rest = λ j p. refl;
          cleared = λ j p. absurd (omega arith);
          greatest = λ j p. absurd (omega arith);
          first = λ j p. absurd (omega arith);
          origin = inl (refl, refl);
        }) in
    (
      elim w.origin [
        | inl (z, m) ↦ record {
          inside = omega arith;
          most = λ j p. omega (arith, same j p, w.greatest j p, m);
          first = λ j p. absurd (omega (arith, z));
        }
        | inr (lt, e) ↦
            let here = same _ lt in
            record {
              inside = lt;
              most = λ j p. omega (arith, same j p, w.greatest j p, here, e);
              first = λ j p. omega (arith, same j (omega arith), w.first j p, here, e);
            }
      ],
      w.cleared,
    )

-- The results of a window: a hit is 2, a miss 0, and the last access adds 1 if the segment changes.
unfoldable pub codes : ℕ → ℕ → List ℕ → List ℕ
codes old new [] = []
codes old new (n ∷ []) =
    let hit = if n == old then 2 else 0 in (if new == old then hit else hit + 1) ∷ []
codes old new (n ∷ m ∷ ns) = (if n == old then 2 else 0) ∷ codes old new (m ∷ ns)

-- Accesses to the six segments.
unfoldable pub AllBelow : List ℕ → Type 0
AllBelow [] = 5 < 6
AllBelow (n ∷ ns) = (n < 6) × AllBelow ns

-- An entry `k` accesses after a swap, which are counted by `count`.
pub record IsPartial (k : ℕ) (count : ℕ → ℕ) (e : SrcEntry) : Type 0 where
  pub counted : e.count ≡ k
  pub each : (j : ℕ) → j < 6 → e.access j ≡ count j
  pub few : (j : ℕ) → j < 6 → count j ≤ k
  pub window : e.swap_count ≡ 20

-- An entry after the last access of a window in which `total` counts all.
record IsWindow (old : ℕ) (total : ℕ → ℕ) (ns : List ℕ) (r : SrcEntry × List ℕ) : Type 0 where
  fresh : IsPartial 0 (λ j. 0) r.0
  heaviest_in : IsHeaviest total r.0.tag
  results : r.1 ≡ codes old r.0.tag ns

-- The counters after one more access.
counted_access :
    (k n : ℕ) (count : ℕ → ℕ) (e : SrcEntry)
    → n < 6
    → k < 20
    → IsPartial k count e
    → (j : ℕ) → j < 6
    → update e.access n (u32 (e.access n + 1)) j ≡ (if j == n then 1 else 0) + count j
counted_access k n count e lt small h j p =
    let there = h.each j p in
    let here = h.each n lt in
    let low = h.few n lt in
    elim (Bool-cases (j == n)) [
      | inl f ↦ let same : j ≡ n = ground arith in rw (f, same) (omega arith)
      | inr f ↦ rw f (omega arith)
    ]

access_entry-last :
    (n : ℕ) (count total : ℕ → ℕ) (e : SrcEntry)
    → n < 6
    → IsPartial 19 count e
    → ((j : ℕ) → j < 6 → (if j == n then 1 else 0) + count j ≡ total j)
    → IsWindow e.tag total (n ∷ []) (access_all (n ∷ []) e)
unfolding access_all access_entry codes
access_entry-last n count total e lt h sum =
    let access = update e.access n (u32 (e.access n + 1)) in
    let (most, cleared) =
      heaviest-IsHeaviest access total
        (λ j p. counted_access 19 n count e lt (omega arith) h j p ∙ sum j p) in
    let full : (u32 (e.count + 1) == e.swap_count) ≡ true = ground (arith, h.counted, h.window) in
    rw full (record {
      fresh = record {
        counted = refl;
        each = cleared;
        few = λ j p. omega arith;
        window = h.window;
      };
      heaviest_in = most;
      results = refl;
    })

access_entry-IsPartial :
    (k n : ℕ) (count : ℕ → ℕ) (e : SrcEntry)
    → n < 6
    → k < 19
    → IsPartial k count e
    → IsPartial (k + 1) (λ j. (if j == n then 1 else 0) + count j) (access_entry n e).0
      × ((access_entry n e).0.tag ≡ e.tag)
      × ((access_entry n e).1 ≡ (if n == e.tag then 2 else 0))
unfolding access_entry
access_entry-IsPartial k n count e lt small h =
    let open_still : (u32 (e.count + 1) == e.swap_count) ≡ false =
      ground (arith, h.counted, h.window) in
    rw open_still (
      record {
        counted = omega (arith, h.counted);
        each = counted_access k n count e lt (omega arith) h;
        few = λ j p. ground (arith, h.few j p);
        window = h.window;
      },
      refl,
      refl,
    )

window :
    (k n : ℕ) (ns : List ℕ) (count : ℕ → ℕ) (e : SrcEntry)
    → k + length (n ∷ ns) ≡ 20
    → AllBelow (n ∷ ns)
    → IsPartial k count e
    → IsWindow e.tag (λ j. accesses j (n ∷ ns) + count j) (n ∷ ns) (access_all (n ∷ ns) e)
unfolding accesses AllBelow access_all codes
window k n [] count e full below h =
    let same : k ≡ 19 = omega arith in
    access_entry-last n count (λ j. accesses j (n ∷ []) + count j) e below.0 (rw same at h)
      (λ j p. omega arith)
window k n (m ∷ ns) count e full below h =
    let (next, same_tag, result) = access_entry-IsPartial k n count e below.0 (omega arith) h in
    let rest = m ∷ ns in
    let e' = (access_entry n e).0 in
    let done =
      window (k + 1) m ns (λ j. (if j == n then 1 else 0) + count j) e' (omega arith) below.1
        next in
    let new = (access_all rest e').0.tag in
    record {
      fresh = done.fresh;
      heaviest_in = same_counts-IsHeaviest _ _ _ (λ j. omega arith) done.heaviest_in;
      results =
          ap (λ (x : ℕ). x ∷ (access_all rest e').1) result
          ∙ ap (λ (l : List ℕ). (if n == e.tag then 2 else 0) ∷ l)
              (done.results ∙ ap (λ (t : ℕ). codes t new rest) same_tag);
    }

-- An entry that starts a window of 20 accesses to its six segments, its counters cleared: after them it
-- starts the next one, and the segment that it holds is the first of the six that none of them was
-- accessed more often than. An access returns 2 if it is to the segment held before and 0 otherwise,
-- and the last one returns 1 more if and only if the segment changes.
pub access_all_window :
    (n : ℕ) (ns : List ℕ) (e : SrcEntry)
    → length (n ∷ ns) ≡ 20
    → AllBelow (n ∷ ns)
    → IsPartial 0 (λ j. 0) e
    → let r = access_all (n ∷ ns) e in
      IsPartial 0 (λ j. 0) r.0
      × IsHeaviest (λ j. accesses j (n ∷ ns)) r.0.tag
      × (r.1 ≡ codes e.tag r.0.tag (n ∷ ns))
access_all_window n ns e full below h =
    let done = window 0 n ns (λ j. 0) e (omega (arith, full)) below h in
    (done.fresh, same_counts-IsHeaviest _ _ _ (λ j. omega arith) done.heaviest_in, done.results)
