-- ===== src/Request/Again.antt =====
-- A page that was asked for is there for the next request.
use sniper_zip.Prelude.{
  ℕ, ◌+◌, ◌<◌, ◌≡◌, ◌⊎◌, inl, inr, refl, ◌∙◌, true, ◌==◌, if◌then◌else◌, ◌||◌, update, if_rule,
  for_range_inv, arith,
}
use sniper_zip.PageInfo.{invalidate}
use sniper_zip.CacheSet.{
  CacheSet, access_attempt, get_replacement_index, invalidate_way, invalidate_content,
}
use sniper_zip.CacheSet.Replacement.{get_replacement_index_lem}
use sniper_zip.CacheSet.Lookup.{
  HasTag, replaced-tag, access_attempt-tag, access_attempt-HasTag, HasTag-access_attempt,
}
use sniper_zip.StackedDram.{StackedDram, Config, get_remap_set, check_set_disabled}
use sniper_zip.StackedDram.Latency.{Costs}
use sniper_zip.PageTable.{PageTable, Split, split_address}
use sniper_zip.PageTable.Distinct.{translate_address_again}
use sniper_zip.Request.{
  Outside, CacheCntlr, Packet, mem_op, evict_page, receive, pass_by, use_cache, process_request,
}
use sniper_zip.Request.Kept.{set_after, use_cache-IsServed}
use sniper_zip.Request.Received.{receive-IsReceived, receive-IsQuiet, Keeps-remap_set}

abbrev HasWays : CacheSet → Type 0
HasWays s = 0 < s.associativity

invalidate_content-HasWays : (s : CacheSet) → HasWays s → HasWays (invalidate_content s).0
unfolding invalidate_content
invalidate_content-HasWays s h =
    for_range_inv (λ _ (r : CacheSet × ℕ). HasWays r.0) invalidate_way s.associativity 0
      s.associativity (s, 0) (λ i r lo hi t. step i r t) (omega arith) h
  where
    step : (i : ℕ) (r : CacheSet × ℕ) → HasWays r.0 → HasWays (invalidate_way i r).0
    step i (y, n) t = t

-- The page that is taken in has a way.
evict_page-HasTag :
    (tag footprint : ℕ) (s : CacheSet)
    → 0 < s.associativity
    → HasTag tag (evict_page tag footprint s).0
unfolding evict_page get_replacement_index
evict_page-HasTag tag footprint s h =
    let s' : CacheSet = record s { reads = s.reads + 1 } in
    let g = get_replacement_index s' in
    let out : CacheSet = record g.0 {
      pages = update g.0.pages g.1 (invalidate (g.0.pages g.1)).0;
    } in
    let inside = (get_replacement_index_lem s' h).0 in
    let (same, kept) = replaced-tag g.1 tag footprint g.1 out in
    record { way = g.1; inside = rw kept inside; same = same ∙ ground arith }

set_after-HasTag :
    (o : Outside) (q : Packet) (s : Split) (footprint : ℕ) (set : CacheSet)
    → 0 < set.associativity
    → HasTag s.page_tag (set_after o q s footprint set)
unfolding set_after
set_after-HasTag o q s footprint set h =
    let r = access_attempt o.undefined (mem_op q.access_type) s.page_tag s.page_offset set in
    let tags = λ (j : ℕ).
      access_attempt-tag o.undefined (mem_op q.access_type) s.page_tag s.page_offset j set in
    if_rule (HasTag s.page_tag) (r.1 == 0) (evict_page s.page_tag footprint r.0).0 r.0
      (λ e. evict_page-HasTag s.page_tag footprint r.0 (rw (tags 0).1 h))
      (λ e.
        let found =
          access_attempt-HasTag o.undefined (mem_op q.access_type) s.page_tag s.page_offset set
            (λ z. ground arith) in
        record {
          way = found.way;
          inside = rw (tags 0).1 found.inside;
          same = (tags found.way).0 ∙ found.same;
        })

-- The next request to the split address finds the page, or its set is disabled.
record IsReady (c : Config) (o : Outside) (s : Split) (sets : ℕ → CacheSet) (d : StackedDram)
    : Type 0 where
  ready :
      ((check_set_disabled c s.set_n d || o.disabled) ≡ true)
      ⊎ HasTag s.page_tag (sets (get_remap_set c s.set_n d).1)

abbrev split_of : Config → Packet → CacheCntlr → PageTable × Split
split_of c q m = split_address c.floor_log2 m.set_num m.pagesize q.address m.pages

-- The machine after the branch, by the test that chooses it.
abbrev branch : Config → Costs → Outside → Packet → Split → ℕ → ℕ → CacheCntlr → CacheCntlr × ℕ
branch c costs o q s mem remap r =
    if check_set_disabled c s.set_n r.cntlr.dram || o.disabled
    then pass_by c costs o q mem remap r
    else use_cache c costs o q s mem remap r

-- What the branch leaves.
record IsDone (c : Config) (o : Outside) (s : Split) (r m : CacheCntlr) : Type 0 where
  remapped : m.cntlr.dram.remapped ≡ r.cntlr.dram.remapped
  ready : IsReady c o s m.cntlr.sets m.cntlr.dram
  pages : m.pages ≡ r.pages
  set_num : m.set_num ≡ r.set_num
  pagesize : m.pagesize ≡ r.pagesize

branch-IsDone :
    (c : Config) (costs : Costs) (o : Outside) (q : Packet) (s : Split) (mem remap : ℕ)
    (r : CacheCntlr)
    → ((x : ℕ) → HasWays (r.cntlr.sets x))
    → IsDone c o s r (branch c costs o q s mem remap r).0
unfolding pass_by
branch-IsDone c costs o q s mem remap r h =
    let d = r.cntlr.dram in
    if_rule (λ (m : CacheCntlr × ℕ). IsDone c o s r m.0)
      (check_set_disabled c s.set_n d || o.disabled) (pass_by c costs o q mem remap r)
      (use_cache c costs o q s mem remap r)
      (λ e. record {
        remapped = refl;
        ready = record { ready = inl e };
        pages = refl;
        set_num = refl;
        pagesize = refl;
      })
      (λ e.
        let x = (get_remap_set c s.set_n d).1 in
        let (fp, served) = use_cache-IsServed c costs o q s mem remap r in
        let same = Keeps-remap_set c s.set_n d _ served.dram in
        let found = set_after-HasTag o q s fp (r.cntlr.sets x) (h x) in
        record {
          remapped = served.dram.remapped;
          ready = record { ready = inr (rw (same, served.here) found) };
          pages = served.pages;
          set_num = served.set_num;
          pagesize = served.pagesize;
        })

-- Where the page is ready no page miss is counted.
branch-page_misses :
    (c : Config) (costs : Costs) (o : Outside) (q : Packet) (s : Split) (mem remap : ℕ)
    (r : CacheCntlr)
    → IsReady c o s r.cntlr.sets r.cntlr.dram
    → (branch c costs o q s mem remap r).0.cntlr.page_misses ≡ r.cntlr.page_misses
unfolding pass_by
branch-page_misses c costs o q s mem remap r h =
    let d = r.cntlr.dram in
    if_rule (λ (m : CacheCntlr × ℕ). m.0.cntlr.page_misses ≡ r.cntlr.page_misses)
      (check_set_disabled c s.set_n d || o.disabled) (pass_by c costs o q mem remap r)
      (use_cache c costs o q s mem remap r) (λ e. refl)
      (λ e.
        let (fp, served) = use_cache-IsServed c costs o q s mem remap r in
        elim h.ready [
          | inl f ↦ absurd (cc)
          | inr found ↦
              let hit =
                HasTag-access_attempt o.undefined (mem_op q.access_type) s.page_tag s.page_offset
                  (r.cntlr.sets (get_remap_set c s.set_n d).1) found in
              served.page_misses ∙ ground arith
        ])

split_again :
    (c : Config) (q q' : Packet) (m m' : CacheCntlr)
    → q'.address ≡ q.address
    → m'.pages ≡ (split_of c q m).0
    → m'.set_num ≡ m.set_num
    → m'.pagesize ≡ m.pagesize
    → (split_of c q' m').1 ≡ (split_of c q m).1
unfolding split_address
split_again c q q' m m' e f g h =
    let again = translate_address_again q.address m.pages in rw (e, f, g, h, again) refl

-- After a request, with any banks moved before it, an immediate second request at the same address
-- counts no page miss, whatever its kind, time and size, where every set has a way.
pub process_request_again :
    (c : Config) (costs : Costs) (o : Outside) (q q' : Packet) (m : CacheCntlr)
    → ((x : ℕ) → 0 < (m.cntlr.sets x).associativity)
    → q'.address ≡ q.address
    → let m' = (process_request c costs o q m).0 in
      (process_request c costs o q' m').0.cntlr.page_misses ≡ m'.cntlr.page_misses
unfolding process_request split_address receive
process_request_again c costs o q q' m ways same =
    let s = (split_of c q m).1 in
    let r = receive c costs q m in
    let received = receive-IsReceived HasWays c costs q m invalidate_content-HasWays ways in
    let done = branch-IsDone c costs o q s (o.access_cost m.samples) r.1 r.0 received.good in
    let m' = (process_request c costs o q m).0 in
    let r' = receive c costs q' m' in
    let quiet = receive-IsQuiet c costs q' m' (done.remapped ∙ received.remapped) in
    let received' = receive-IsReceived (λ x. x ≡ x) c costs q' m' (λ x h. refl) (λ x. refl) in
    let split : (split_of c q' m').1 ≡ s =
      split_again c q q' m m' same done.pages (done.set_num ∙ received.set_num)
        (done.pagesize ∙ received.pagesize) in
    let ready : IsReady c o (split_of c q' m').1 r'.0.cntlr.sets r'.0.cntlr.dram =
      rw (split, quiet.sets, quiet.dram) done.ready in
    branch-page_misses c costs o q' (split_of c q' m').1 (o.access_cost m'.samples) r'.1 r'.0 ready
    ∙ received'.page_misses
