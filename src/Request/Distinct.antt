-- ===== src/Request/Distinct.antt =====
-- No page stands in two ways of a set.
use sniper_zip.Prelude.{
  ℕ, ◌+◌, ◌<◌, ◌≡◌, ◌≢◌, inl, inr, refl, sym, ap, ◌∙◌, ◌==◌, if◌then◌else◌, ◌||◌, Bool-cases,
  if_rule, List, [], ◌∷◌, update, arith,
}
use sniper_zip.PageInfo.{PageInfo, no_tag, invalidate, new_page}
use sniper_zip.CacheSet.{
  CacheSet, new_set, access_attempt, get_replacement_index, invalidate_content,
}
use sniper_zip.CacheSet.Lookup.{replaced-tag, access_attempt-tag, HasTag-access_attempt}
use sniper_zip.StackedDram.{StackedDram, Config, check_set_disabled, get_remap_set}
use sniper_zip.StackedDram.Latency.{Costs}
use sniper_zip.PageTable.{Split, split_address}
use sniper_zip.Controller.Emptying.{invalidate_content-IsEmpty, IsEmpty}
use sniper_zip.Request.{
  Outside, CacheCntlr, Packet, mem_op, evict_page, receive, pass_by, use_cache, process_request,
  Event, requests, heats, remaps, clears, throttles, happen, happen_all, new_controller, new_cache,
}
use sniper_zip.Request.Kept.{set_after, use_cache-IsServed}
use sniper_zip.Request.Received.{receive-IsReceived}

-- Two ways with the same tag, other than the tag of an empty way, are one.
unfoldable pub IsDistinct : CacheSet → Type 0
IsDistinct s =
    (i j : ℕ)
    → i < s.associativity
    → j < s.associativity
    → (s.pages i).tag ≡ (s.pages j).tag
    → (s.pages i).tag ≢ no_tag
    → i ≡ j

pub invalidate_content-IsDistinct :
    (s : CacheSet) → IsDistinct s → IsDistinct (invalidate_content s).0
unfolding IsDistinct IsEmpty
invalidate_content-IsDistinct s h i j p q same full =
    absurd (full (invalidate_content-IsEmpty s i p).1)

-- The same tags.
pub same_tags-IsDistinct :
    (s s' : CacheSet)
    → ((j : ℕ) → ((s'.pages j).tag ≡ (s.pages j).tag) × (s'.associativity ≡ s.associativity))
    → IsDistinct s
    → IsDistinct s'
unfolding IsDistinct
same_tags-IsDistinct s s' tags h i j p q same full =
    h i j (rw (← (tags 0).1) p) (rw (← (tags 0).1) q) (sym (tags i).0 ∙ same ∙ (tags j).0)
      (λ e. full ((tags i).0 ∙ e))

-- A tag that no way has is put in one way.
pub put_tag-IsDistinct :
    (k tag : ℕ) (s s' : CacheSet)
    → ((j : ℕ)
        → ((s'.pages j).tag ≡ (if j == k then tag else (s.pages j).tag))
          × (s'.associativity ≡ s.associativity))
    → ((j : ℕ) → j < s.associativity → (s.pages j).tag ≢ tag)
    → IsDistinct s
    → IsDistinct s'
unfolding IsDistinct
put_tag-IsDistinct k tag s s' tags new h i j p q same full =
    let pi : i < s.associativity = rw (← (tags 0).1) p in
    let pj : j < s.associativity = rw (← (tags 0).1) q in
    elim (Bool-cases (i == k)) [
      | inl e ↦ elim (Bool-cases (j == k)) [
        | inl f ↦ ground arith
        | inr f ↦
            let there : (s'.pages j).tag ≡ (s.pages j).tag = (tags j).0 ∙ rw f refl in
            let here : (s'.pages i).tag ≡ tag = (tags i).0 ∙ rw e refl in
            absurd (new j pj (sym there ∙ sym same ∙ here))
      ]
      | inr e ↦ elim (Bool-cases (j == k)) [
        | inl f ↦
            let there : (s'.pages i).tag ≡ (s.pages i).tag = (tags i).0 ∙ rw e refl in
            let here : (s'.pages j).tag ≡ tag = (tags j).0 ∙ rw f refl in
            absurd (new i pi (sym there ∙ same ∙ here))
        | inr f ↦
            let ti : (s'.pages i).tag ≡ (s.pages i).tag = (tags i).0 ∙ rw e refl in
            let tj : (s'.pages j).tag ≡ (s.pages j).tag = (tags j).0 ∙ rw f refl in
            h i j pi pj (sym ti ∙ same ∙ tj) (λ z. full (ti ∙ z))
      ]
    ]

-- The tags after a page is taken in.
pub evicted_tag :
    (tag footprint : ℕ) (s : CacheSet)
    → (k : ℕ) × ((j : ℕ)
        → (((evict_page tag footprint s).0.pages j).tag ≡ (if j == k then tag else (s.pages j).tag))
          × ((evict_page tag footprint s).0.associativity ≡ s.associativity))
unfolding evict_page get_replacement_index
evicted_tag tag footprint s =
    let g = get_replacement_index (record s { reads = s.reads + 1 }) in
    let out : CacheSet = record g.0 {
      pages = update g.0.pages g.1 (invalidate (g.0.pages g.1)).0;
    } in
    (
      g.1,
      λ j.
          let (same, kept) = replaced-tag g.1 tag footprint j out in
          (
            same
                ∙ if_rule
                    (λ (x : PageInfo).
                      (if j == g.1 then tag else x.tag)
                      ≡ (if j == g.1 then tag else (s.pages j).tag))
                    (j == g.1) (invalidate (s.pages g.1)).0 (s.pages j) (λ e. rw e refl)
                    (λ e. refl),
            kept,
          ),
    )

set_after-IsDistinct :
    (o : Outside) (q : Packet) (s : Split) (footprint : ℕ) (set : CacheSet)
    → IsDistinct set
    → IsDistinct (set_after o q s footprint set)
unfolding set_after
set_after-IsDistinct o q s footprint set h =
    let op = mem_op q.access_type in
    let r = access_attempt o.undefined op s.page_tag s.page_offset set in
    let tags = λ (j : ℕ). access_attempt-tag o.undefined op s.page_tag s.page_offset j set in
    let (k, out) = evicted_tag s.page_tag footprint r.0 in
    if_rule IsDistinct (r.1 == 0) (evict_page s.page_tag footprint r.0).0 r.0
      (λ e.
        put_tag-IsDistinct k s.page_tag set _
          (λ j. (
            (out j).0 ∙ ap (λ (t : ℕ). if j == k then s.page_tag else t) (tags j).0,
            (out j).1 ∙ (tags j).1,
          ))
          (λ j p same.
            HasTag-access_attempt o.undefined op s.page_tag s.page_offset set
              (record { way = j; inside = p; same = same }) (ground arith))
          h)
      (λ e. same_tags-IsDistinct set r.0 tags h)

-- A request keeps the pages of every set apart.
process_request-IsDistinct :
    (c : Config) (costs : Costs) (o : Outside) (q : Packet) (m : CacheCntlr)
    → ((x : ℕ) → IsDistinct (m.cntlr.sets x))
    → (x : ℕ) → IsDistinct ((process_request c costs o q m).0.cntlr.sets x)
unfolding process_request pass_by
process_request-IsDistinct c costs o q m h x =
    let s = (split_address c.floor_log2 m.set_num m.pagesize q.address m.pages).1 in
    let r = receive c costs q m in
    let mem = o.access_cost m.samples in
    let good = (receive-IsReceived IsDistinct c costs q m invalidate_content-IsDistinct h).good in
    if_rule (λ (y : CacheCntlr × ℕ). IsDistinct (y.0.cntlr.sets x))
      (check_set_disabled c s.set_n r.0.cntlr.dram || o.disabled) (pass_by c costs o q mem r.1 r.0)
      (use_cache c costs o q s mem r.1 r.0) (λ e. good x)
      (λ e.
        let t = (get_remap_set c s.set_n r.0.cntlr.dram).1 in
        let (fp, served) = use_cache-IsServed c costs o q s mem r.1 r.0 in
        elim (Bool-cases (x == t)) [
          | inl f ↦
              let there : x ≡ t = ground arith in
              rw (there, served.here) (set_after-IsDistinct o q s fp _ (good t))
          | inr f ↦ rw (served.others x f) (good x)
        ])

happen-IsDistinct :
    (c : Config) (costs : Costs) (o : Outside) (e : Event) (m : CacheCntlr)
    → ((x : ℕ) → IsDistinct (m.cntlr.sets x))
    → (x : ℕ) → IsDistinct ((happen c costs o e m).cntlr.sets x)
unfolding happen
happen-IsDistinct c costs o (requests q) m h = process_request-IsDistinct c costs o q m h
happen-IsDistinct c costs o (heats v b t) m h = h
happen-IsDistinct c costs o remaps m h = h
happen-IsDistinct c costs o clears m h = h
happen-IsDistinct c costs o (throttles lev) m h = h

happen_all-IsDistinct_from :
    (c : Config) (costs : Costs) (o : Outside) (es : List Event) (m : CacheCntlr)
    → ((x : ℕ) → IsDistinct (m.cntlr.sets x))
    → (x : ℕ) → IsDistinct ((happen_all c costs o es m).cntlr.sets x)
unfolding happen_all
happen_all-IsDistinct_from c costs o [] m h = h
happen_all-IsDistinct_from c costs o (e ∷ rest) m h =
    happen_all-IsDistinct_from c costs o rest (happen c costs o e m)
      (happen-IsDistinct c costs o e m h)

-- In a cache built by the constructor, after any requests, temperatures, remappings and levels of the
-- frequency in any order: two ways of a set that are not empty have different tags.
pub happen_all-IsDistinct :
    (c : Config) (costs : Costs) (o : Outside) (es : List Event)
    (set_num associativity blocksize pagesize : ℕ) (garbage : ℕ × ℕ × ℕ) (dram : StackedDram)
    (x : ℕ)
    → IsDistinct (
        (happen_all c costs o es
            (new_cache set_num associativity blocksize pagesize garbage dram)).cntlr.sets
          x)
unfolding new_cache new_controller new_set new_page IsDistinct
happen_all-IsDistinct c costs o es set_num associativity blocksize pagesize garbage dram x =
    happen_all-IsDistinct_from c costs o es
      (new_cache set_num associativity blocksize pagesize garbage dram)
      (λ y i j p q same full. absurd (full refl)) x
