-- ===== src/CacheSet/Lookup.antt =====
-- What `accessAttempt` finds.
use sniper_zip.Prelude.{
  ℕ, zero, suc, ◌+◌, ◌/◌, ◌<◌, ◌≤◌, ◌≡◌, ◌≢◌, inl, inr, refl, ◌==◌, if◌then◌else◌, Option, none,
  some, u32, update, for_range_inv, ◌∙◌, sym, ap, arith, Option-cases, Bool-cases,
}
use native.Mathlib.Decide.{ℕ_discrete}
use sniper_zip.PageInfo.{PageInfo, Undefined, MemOp, access_block, update_usage}
use sniper_zip.CacheSet.{
  CacheSet, find_tag, age, age_all, update_used_info, access_attempt, update_replacement_index_tag,
  stacked_block_size,
}

-- The first way with the tag, or none of the ways has it.
abbrev pub IsFirst : ℕ → ℕ → ℕ → (ℕ → PageInfo) → Option ℕ → Type 0
IsFirst n i tag pages none = (j : ℕ) → i ≤ j → j < i + n → (pages j).tag ≢ tag
IsFirst n i tag pages (some w) =
    (i ≤ w) × (w < i + n) × ((pages w).tag ≡ tag) × ((j : ℕ) → i ≤ j → j < w → (pages j).tag ≢ tag)

widen :
    (n i tag : ℕ) (pages : ℕ → PageInfo) (w : Option ℕ)
    → (pages i).tag ≢ tag
    → IsFirst n (i + 1) tag pages w
    → IsFirst (suc n) i tag pages w
widen n i tag pages none ne h =
    λ j lo hi. elim (ℕ_discrete j i) [ yes e ↦ rw e ne | no d ↦ h j (omega arith) (omega arith) ]
widen n i tag pages (some w) ne h = (
  omega (arith, h.0),
  omega (arith, h.1),
  h.2,
  λ j lo hi. elim (ℕ_discrete j i) [ yes e ↦ rw e ne | no d ↦ h.3 j (omega arith) hi ],
)

-- The outcome of an access, by the way that has the tag.
unfoldable pub attempt_result : Undefined → MemOp → ℕ → CacheSet → Option ℕ → CacheSet × ℕ
attempt_result u op block s none = (record s { reads = s.reads + 1 }, 0)
attempt_result u op block s (some w) =
    let r = access_block u op block (s.pages w) in
    (
      record s {
        reads = s.reads + 1;
        writes = if r.1 then s.writes else s.writes + 1;
        pages = update s.pages w r.0;
      },
      if r.1 then 2 else 1,
    )

find_tag-IsFirst :
    (n i tag : ℕ) (pages : ℕ → PageInfo) → IsFirst n i tag pages (find_tag n i tag pages)
unfolding find_tag
find_tag-IsFirst zero i tag pages = λ j lo hi. absurd (omega arith)
find_tag-IsFirst (suc n) i tag pages = elim (Bool-cases ((pages i).tag == tag)) [
  | inl e ↦ rw e (omega arith, omega arith, ground arith, λ j lo hi. absurd (omega arith))
  | inr e ↦ rw e (
      widen n i tag pages (find_tag n (i + 1) tag pages) (λ h. ground arith)
        (find_tag-IsFirst n (i + 1) tag pages))
]

-- An access changes one page at most: where no way has the tag it returns 0 and only counts the
-- read; otherwise it returns 1 or 2 as the block of the first such page was not or was reported
-- valid, writes that page alone, and a result of 1 counts a write.
access_attempt_lem :
    (u : Undefined) (op : MemOp) (tag offset : ℕ) (s : CacheSet)
    → let block = u32 (offset / stacked_block_size) in
      (w : Option ℕ) × IsFirst s.associativity 0 tag s.pages w
      × (access_attempt u op tag offset s ≡ attempt_result u op block s w)
unfolding access_attempt attempt_result
access_attempt_lem u op tag offset s = (
  find_tag s.associativity 0 tag s.pages,
  find_tag-IsFirst s.associativity 0 tag s.pages,
  ground (arith, Option-cases (find_tag s.associativity 0 tag s.pages)),
)

age-tag : (index i j : ℕ) (pages : ℕ → PageInfo) → (age index i pages j).tag ≡ (pages j).tag
unfolding age update_usage
age-tag index i j pages = ground arith

age_all-tag :
    (index j : ℕ) (s : CacheSet)
    → (((age_all index s).pages j).tag ≡ (s.pages j).tag)
      × ((age_all index s).associativity ≡ s.associativity)
unfolding age_all
age_all-tag index j s = (
  for_range_inv (λ _ (pages : ℕ → PageInfo). (pages j).tag ≡ (s.pages j).tag) (age index)
      s.associativity 0 s.associativity s.pages (λ i pages lo hi h. age-tag index i j pages ∙ h)
      (omega arith) refl,
  refl,
)

update_used_info-tag :
    (tag j : ℕ) (s : CacheSet)
    → (((update_used_info tag s).pages j).tag ≡ (s.pages j).tag)
      × ((update_used_info tag s).associativity ≡ s.associativity)
unfolding update_used_info
update_used_info-tag tag j s = elim (Option-cases (find_tag s.associativity 0 tag s.pages)) [
  | inl e ↦ rw (e, update_used_info) (refl, refl)
  | inr (i, e) ↦ rw (e, update_used_info) (ground (arith, age_all-tag i j s))
]

-- The tags after a replacement.
pub replaced-tag :
    (i tag footprint j : ℕ) (s : CacheSet)
    → (((update_replacement_index_tag i tag footprint s).pages j).tag
        ≡ (if j == i then tag else (s.pages j).tag))
      × ((update_replacement_index_tag i tag footprint s).associativity ≡ s.associativity)
unfolding update_replacement_index_tag
replaced-tag i tag footprint j s =
    let (t, a) = update_used_info-tag tag j (record s {
      pages =
          update s.pages i
            (record (s.pages i) { tag = tag; vbits_0 = footprint; dbits_0 = 0; footprint = 0 });
      writes = s.writes + 1;
    }) in
    (t ∙ ground arith, a)

-- Some way of the set has the tag.
pub record HasTag (tag : ℕ) (s : CacheSet) : Type 0 where
  pub way : ℕ
  pub inside : way < s.associativity
  pub same : (s.pages way).tag ≡ tag

missing :
    {tag : ℕ} (s : CacheSet) (w : Option ℕ)
    → w ≡ none
    → IsFirst s.associativity 0 tag s.pages w
    → (i : ℕ) → i < s.associativity
    → (s.pages i).tag ≡ tag
    → ⊥
missing s none e h i lt same = h i (omega arith) (omega arith) same
missing s (some w) e h i lt same = cc

attempt_result-miss :
    (u : Undefined) (op : MemOp) (block : ℕ) (s : CacheSet) (w : Option ℕ)
    → (attempt_result u op block s w).1 ≡ 0
    → w ≡ none
unfolding attempt_result
attempt_result-miss u op block s none h = refl
attempt_result-miss u op block s (some w) h = ground arith

-- An access changes no tag.
pub access_attempt-tag :
    (u : Undefined) (op : MemOp) (tag offset j : ℕ) (s : CacheSet)
    → (((access_attempt u op tag offset s).0.pages j).tag ≡ (s.pages j).tag)
      × ((access_attempt u op tag offset s).0.associativity ≡ s.associativity)
unfolding access_attempt access_block
access_attempt-tag u op tag offset j s =
    ground (arith, Option-cases (find_tag s.associativity 0 tag s.pages))

found-HasTag :
    (u : Undefined) (op : MemOp) (tag block : ℕ) (s : CacheSet) (w : Option ℕ)
    → IsFirst s.associativity 0 tag s.pages w
    → (attempt_result u op block s w).1 ≢ 0
    → HasTag tag s
unfolding attempt_result
found-HasTag u op tag block s none first hit = absurd (hit refl)
found-HasTag u op tag block s (some w) first hit = record {
  way = w;
  inside = omega (arith, first.1);
  same = first.2;
}

-- Where an access returns other than 0, some way has the tag.
pub access_attempt-HasTag :
    (u : Undefined) (op : MemOp) (tag offset : ℕ) (s : CacheSet)
    → (access_attempt u op tag offset s).1 ≢ 0
    → HasTag tag s
access_attempt-HasTag u op tag offset s hit =
    let (w, first, result) = access_attempt_lem u op tag offset s in
    found-HasTag u op tag _ s w first (λ e. hit (ap (λ (r : CacheSet × ℕ). r.1) result ∙ e))

-- Where some way has the tag, an access returns other than 0.
pub HasTag-access_attempt :
    (u : Undefined) (op : MemOp) (tag offset : ℕ) (s : CacheSet)
    → HasTag tag s
    → (access_attempt u op tag offset s).1 ≢ 0
HasTag-access_attempt u op tag offset s h =
    let (w, first, result) = access_attempt_lem u op tag offset s in
    λ miss.
      let none' =
        attempt_result-miss u op _ s w (ap (λ (r : CacheSet × ℕ). r.1) (sym result) ∙ miss) in
      absurd (missing s w none' first h.way h.inside h.same)
