-- ===== src/CacheSet/Replacement.antt =====
-- What `getReplacementIndex` chooses, and what it can choose in a set that the program runs.
use sniper_zip.Prelude.{
  ℕ, ◌+◌, ◌<◌, ◌≤◌, ◌≡◌, ◌⊎◌, inl, inr, refl, ltb, List, [], ◌∷◌, update, for_range, for_range_inv,
  arith, Option-cases, Bool-cases,
}
use sniper_zip.PageInfo.{PageInfo, Undefined, MemOp, invalidate, access_block, new_page}
use sniper_zip.CacheSet.{
  CacheSet, new_set, Oldest, older, get_replacement_index, invalidate_way, invalidate_content,
  find_tag, update_used_info, update_replacement_index_tag, access_attempt,
}

record IsOldest (pages : ℕ → PageInfo) (n : ℕ) (o : Oldest) : Type 0 where
  greatest : (j : ℕ) → j < n → (pages j).used ≤ o.max_t
  first : (j : ℕ) → j < o.index → (pages j).used < o.max_t
  origin : (o.index ≡ 0) × (o.max_t ≡ 0) ⊎ (o.index < n) × ((pages o.index).used ≡ o.max_t)

older-IsOldest :
    (pages : ℕ → PageInfo) (i : ℕ) (o : Oldest)
    → IsOldest pages i o
    → IsOldest pages (i + 1) (older pages i o)
unfolding older
older-IsOldest pages i o h = elim (Bool-cases (ltb o.max_t (pages i).used)) [
  | inl e ↦
      rw (older, e)
        (record {
          greatest = λ j p. grind (arith, h.greatest);
          first = λ j p. grind (arith, h.greatest);
          origin = inr (omega arith, refl);
        })
  | inr e ↦
      rw (older, e)
        (record {
          greatest = λ j p. grind (arith, h.greatest);
          first = h.first;
          origin = grind (arith, h.origin);
        })
]

chosen :
    (pages : ℕ → PageInfo) (n : ℕ) (o : Oldest)
    → 0 < n
    → IsOldest pages n o
    → (o.index < n)
      × ((j : ℕ) → j < n → (pages j).used ≤ (pages o.index).used)
      × ((j : ℕ) → j < o.index → (pages j).used < (pages o.index).used)
chosen pages n o h old = elim old.origin [
  | inl (e, z) ↦ (omega arith, λ j p. omega (arith, old.greatest j p), λ j p. absurd (omega arith))
  | inr (inside, e) ↦ (inside, λ j p. rw e (old.greatest j p), λ j p. rw e (old.first j p))
]

-- The chosen way is one of the set, has the greatest usage, and every way before it has less.
pub get_replacement_index_lem :
    (s : CacheSet)
    → 0 < s.associativity
    → let i = (get_replacement_index s).1 in
      (i < s.associativity)
      × ((j : ℕ) → j < s.associativity → (s.pages j).used ≤ (s.pages i).used)
      × ((j : ℕ) → j < i → (s.pages j).used < (s.pages i).used)
unfolding get_replacement_index
get_replacement_index_lem s h = chosen s.pages s.associativity _ h (
    for_range_inv (IsOldest s.pages) (older s.pages) s.associativity 0 s.associativity _
      (λ i o lo hi t. older-IsOldest s.pages i o t) (omega arith)
      (record {
        greatest = λ j p. absurd (omega arith);
        first = λ j p. absurd (omega arith);
        origin = inl (refl, refl);
      }))

-- What the controller does to a set, at any ways and in any order.
pub data SetCall : Type 0 where
  attempts : MemOp → ℕ → ℕ → SetCall
  chooses : SetCall
  evicts : ℕ → SetCall
  replaces : ℕ → ℕ → ℕ → SetCall
  empties : SetCall

unfoldable pub call : Undefined → SetCall → CacheSet → CacheSet
unfolding access_attempt get_replacement_index update_replacement_index_tag invalidate_content
    invalidate
call u (attempts type tag offset) s = (access_attempt u type tag offset s).0
call u chooses s = (get_replacement_index s).0
call u (evicts i) s = record s { pages = update s.pages i (invalidate (s.pages i)).0 }
call u (replaces i tag footprint) s = update_replacement_index_tag i tag footprint s
call u empties s = (invalidate_content s).0

unfoldable pub calls : Undefined → List SetCall → CacheSet → CacheSet
unfolding call
calls u [] s = s
calls u (c ∷ cs) s = calls u cs (call u c s)

abbrev IsUnused : CacheSet → Type 0
IsUnused s = (j : ℕ) → (s.pages j).used ≡ 0

new_set-IsUnused : (n : ℕ) → IsUnused (new_set n)
unfolding new_set new_page
new_set-IsUnused n j = refl

access_attempt-IsUnused :
    (u : Undefined) (op : MemOp) (tag offset : ℕ) (s : CacheSet)
    → IsUnused s
    → IsUnused (access_attempt u op tag offset s).0
unfolding access_attempt access_block
access_attempt-IsUnused u op tag offset s h j =
    ground (arith, h j, Option-cases (find_tag s.associativity 0 tag s.pages))

update_used_info-same : (tag : ℕ) (s : CacheSet) → IsUnused s → update_used_info tag s ≡ s
unfolding update_used_info
update_used_info-same tag s h = elim (Option-cases (find_tag s.associativity 0 tag s.pages)) [
  | inl e ↦ rw (e, update_used_info)
  | inr (i, e) ↦ rw (e, update_used_info, h i)
]

update_used_info-IsUnused :
    (tag : ℕ) (s : CacheSet) → IsUnused s → IsUnused (update_used_info tag s)
update_used_info-IsUnused tag s h = rw (update_used_info-same tag s h) h

invalidate_content-IsUnused : (s : CacheSet) → IsUnused s → IsUnused (invalidate_content s).0
unfolding invalidate_content invalidate
invalidate_content-IsUnused s h =
    for_range_inv (λ _ (r : CacheSet × ℕ). IsUnused r.0) invalidate_way s.associativity 0
      s.associativity (s, 0) (λ i r lo hi t j. ground (arith, t j)) (omega arith) h

call-IsUnused : (u : Undefined) (c : SetCall) (s : CacheSet) → IsUnused s → IsUnused (call u c s)
unfolding call
call-IsUnused u (attempts type tag offset) s h = access_attempt-IsUnused u type tag offset s h
call-IsUnused u chooses s h = h
call-IsUnused u (evicts i) s h = λ j. ground (arith, h j)
call-IsUnused u (replaces i tag footprint) s h =
    let fresh : IsUnused (record s {
      pages =
          update s.pages i
            (record (s.pages i) { tag = tag; vbits_0 = footprint; dbits_0 = 0; footprint = 0 });
      writes = s.writes + 1;
    }) =
      λ j. ground (arith, h j, h i) in
    update_used_info-IsUnused tag _ fresh
call-IsUnused u empties s h = invalidate_content-IsUnused s h

calls-IsUnused :
    (u : Undefined) (cs : List SetCall) (s : CacheSet) → IsUnused s → IsUnused (calls u cs s)
unfolding calls
calls-IsUnused u [] s h = h
calls-IsUnused u (c ∷ cs) s h = calls-IsUnused u cs (call u c s) (call-IsUnused u c s h)

older_stays :
    (pages : ℕ → PageInfo) (i : ℕ) (o : Oldest)
    → (pages i).used ≡ 0
    → o.max_t ≡ 0
    → o.index ≡ 0
    → ((older pages i o).max_t ≡ 0) × ((older pages i o).index ≡ 0)
unfolding older
older_stays pages i o h m e = ground arith

older_unused :
    (pages : ℕ → PageInfo) (n : ℕ)
    → ((j : ℕ) → (pages j).used ≡ 0)
    → (for_range n 0 (older pages) (record { max_t = 0; index = 0 })).index ≡ 0
older_unused pages n h = stays.1
  where
    last : Oldest
    last = for_range n 0 (older pages) (record { max_t = 0; index = 0 })

    stays : (last.max_t ≡ 0) × (last.index ≡ 0)
    stays =
        for_range_inv (λ _ (o : Oldest). (o.max_t ≡ 0) × (o.index ≡ 0)) (older pages) n 0 n _
          (λ i o lo hi t. older_stays pages i o (h i) t.0 t.1) (omega arith) (refl, refl)

-- In a set built by the constructor, after any calls, every usage is still 0, so the usages never
-- order the ways: the way chosen for replacement is way 0, every time.
pub get_replacement_index_stuck :
    (u : Undefined) (cs : List SetCall) (associativity : ℕ)
    → let s = calls u cs (new_set associativity) in
      ((j : ℕ) → (s.pages j).used ≡ 0) × ((get_replacement_index s).1 ≡ 0)
unfolding get_replacement_index
get_replacement_index_stuck u cs associativity =
    let s = calls u cs (new_set associativity) in
    let unused = calls-IsUnused u cs (new_set associativity) (new_set-IsUnused associativity) in
    (unused, older_unused s.pages s.associativity unused)
