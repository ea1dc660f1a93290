-- ===== src/Alloy/Refines.antt =====
-- The Alloy cache is a table of the block that each set holds.
use native.Mathlib.Nat.{mod-lt, div-le_self}
use sniper_zip.Prelude.{
  ℕ, zero, suc, ◌+◌, ◌/◌, ◌%◌, ◌^◌, ◌<◌, ◌≤◌, ◌≡◌, ◌≢◌, inl, inr, refl, sym, ap, ◌∙◌, Bool, true,
  false, not, ◌==◌, if◌then◌else◌, Option, none, some, List, [], ◌∷◌, update, u64, arith,
  Bool-cases, if_rule, eq_of_div-mod, u32_of_lt,
}
use sniper_zip.DramVault
use sniper_zip.DramVault.{Access}
use sniper_zip.PageInfo.{no_tag}
use sniper_zip.Alloy.{
  BlockInfo, AlloySet, AlloyCntlr, new_block, new_set, new_alloy, any_tag, access_attempt, fill,
  get_replacement_index, update_replacement_index_tag, split_address, request_delay, count_access,
  dram_latency, process_request, process_all,
}

-- The specification: which block a set holds, if any, and how many requests did not find theirs.
pub record Table : Type 0 where
  pub held : ℕ → Option ℕ
  pub missed : ℕ

unfoldable pub new_table : Table
new_table = record { held = λ x. none; missed = 0 }

abbrev holds : Option ℕ → ℕ → Bool
holds none block = false
holds (some b) block = b == block

-- A request for a block: the set of `count` sets that it belongs to holds it then.
unfoldable pub ask : ℕ → (ℕ → ℕ) → ℕ → Table → Table × ℕ
ask count rounded_latency block t =
    let here = holds (t.held (block % count)) block in
    (
      record {
        held = update t.held (block % count) (some block);
        missed = if here then t.missed else t.missed + 1;
      },
      if here then 0 else u64 (rounded_latency 16384),
    )

unfoldable pub ask_all : ℕ → ℕ → (ℕ → ℕ) → List (ℕ × Access × ℕ) → Table → Table × List ℕ
ask_all count blocksize rounded_latency [] t = (t, [])
ask_all count blocksize rounded_latency (q ∷ rest) t =
    let r = ask count rounded_latency (q.2 / blocksize) t in
    let done = ask_all count blocksize rounded_latency rest r.0 in (done.0, r.1 ∷ done.1)

-- The tag that stands for what a set holds.
abbrev Encodes : ℕ → ℕ → Option ℕ → ℕ → Type 0
Encodes count x none tag = tag ≡ no_tag
Encodes count x (some block) tag = (tag ≡ block / count) × (block % count ≡ x)

record IsTable (count n blocksize : ℕ) (t : Table) (k : AlloyCntlr) : Type 0 where
  ways : (x : ℕ) → 0 < (k.sets x).associativity
  others : (x j : ℕ) → 0 < j → ((k.sets x).blocks j).tag ≡ no_tag
  first : (x : ℕ) → Encodes count x (t.held x) ((k.sets x).blocks 0).tag
  misses : k.misses ≡ t.missed
  set_num : k.set_num ≡ n
  size : k.blocksize ≡ blocksize

any_tag_none :
    (n i tag : ℕ) (blocks : ℕ → BlockInfo)
    → ((j : ℕ) → i ≤ j → (blocks j).tag ≢ tag)
    → any_tag n i tag blocks ≡ false
unfolding any_tag
any_tag_none zero i tag blocks h = refl
any_tag_none (suc n) i tag blocks h =
    let rest = any_tag_none n (i + 1) tag blocks (λ j lo. h j (omega arith)) in
    let here = h i (omega arith) in ground arith

-- Only the first way matters.
any_tag_first :
    (n tag : ℕ) (blocks : ℕ → BlockInfo)
    → 0 < n
    → tag ≢ no_tag
    → ((j : ℕ) → 0 < j → (blocks j).tag ≡ no_tag)
    → any_tag n 0 tag blocks ≡ ((blocks 0).tag == tag)
unfolding any_tag
any_tag_first zero tag blocks p full h = absurd (omega arith)
any_tag_first (suc n) tag blocks p full h =
    let rest = any_tag_none n (0 + 1) tag blocks (λ j lo e. full (sym e ∙ h j (omega arith))) in
    ground arith

first-holds :
    (count x tag block : ℕ) (held : Option ℕ)
    → block % count ≡ x
    → block / count ≢ no_tag
    → Encodes count x held tag
    → (tag == block / count) ≡ holds held block
first-holds count x tag block none e full h = ground arith
first-holds count x tag block (some b) e full (t, m) = elim (Bool-cases (b == block)) [
  | inl f ↦
      let same : b ≡ block = ground arith in
      let there : tag ≡ block / count = rw (← same) t in ground arith
  | inr f ↦
      let differ : tag ≢ block / count =
        λ g. let same = eq_of_div-mod b block count (sym t ∙ g) (m ∙ sym e) in ground arith in
      ground arith
]

-- A set after a request for a tag.
abbrev served : ℕ → AlloySet → AlloySet
served tag s = let r = access_attempt tag s in if r.1 == 0 then fill tag r.0 else r.0

record IsServed (tag : ℕ) (s s' : AlloySet) : Type 0 where
  same_size : s'.associativity ≡ s.associativity
  others : (j : ℕ) → 0 < j → (s'.blocks j).tag ≡ (s.blocks j).tag
  first : (s'.blocks 0).tag ≡ tag

served-IsServed :
    (tag : ℕ) (s : AlloySet)
    → any_tag s.associativity 0 tag s.blocks ≡ ((s.blocks 0).tag == tag)
    → IsServed tag s (served tag s)
unfolding access_attempt fill get_replacement_index update_replacement_index_tag
served-IsServed tag s h = elim (Bool-cases ((s.blocks 0).tag == tag)) [
  | inl e ↦
      let found = h ∙ e in
      rw found (record { same_size = refl; others = λ j p. refl; first = ground arith })
  | inr e ↦
      let missing = h ∙ e in
      rw missing (record { same_size = refl; others = λ j p. ground arith; first = ground arith })
]

missed_lem :
    (tag : ℕ) (s : AlloySet)
    → ((access_attempt tag s).1 == 0) ≡ not (any_tag s.associativity 0 tag s.blocks)
unfolding access_attempt
missed_lem tag s = ground (arith, Bool-cases (any_tag s.associativity 0 tag s.blocks))

-- The controller after a request.
record IsStepped (k k' : AlloyCntlr) (x : ℕ) (set : AlloySet) (missed : Bool) : Type 0 where
  sets : k'.sets ≡ update k.sets x set
  misses : k'.misses ≡ (if missed then k.misses + 1 else k.misses)
  set_num : k'.set_num ≡ k.set_num
  size : k'.blocksize ≡ k.blocksize

process_request-IsStepped :
    (f rounded : ℕ → ℕ) (time : ℕ) (a : Access) (address : ℕ) (k : AlloyCntlr)
    → let s = split_address f k.set_num k.blocksize address in
      let set = k.sets s.set_n in
      IsStepped k
        (process_request f rounded time a address k).0
        s.set_n
        (served s.block_tag set)
        ((access_attempt s.block_tag set).1 == 0)
unfolding process_request count_access
process_request-IsStepped f rounded time DramVault.read address k = record {
  sets = refl;
  misses = refl;
  set_num = refl;
  size = refl;
}
process_request-IsStepped f rounded time DramVault.write address k = record {
  sets = refl;
  misses = refl;
  set_num = refl;
  size = refl;
}

delay_lem :
    (rounded : ℕ → ℕ) (time row : ℕ) (a : Access) (missed : Bool)
    → request_delay rounded time row a missed ≡ (if not missed then 0 else u64 (rounded 16384))
unfolding request_delay dram_latency u64
delay_lem rounded time row a true = ap (λ (n : ℕ). n % 18446744073709551616) (omega arith)
delay_lem rounded time row a false = refl

-- Where an address belongs.
split_lem :
    (f : ℕ → ℕ) (n blocksize address : ℕ) (k : AlloyCntlr)
    → 2 ^ f n ≤ 4294967296
    → 0 < 2 ^ f n
    → k.set_num ≡ n
    → k.blocksize ≡ blocksize
    → let s = split_address f k.set_num k.blocksize address in
      (s.set_n ≡ address / blocksize % 2 ^ f n) × (s.block_tag ≡ address / blocksize / 2 ^ f n)
unfolding split_address
split_lem f n blocksize address k small some_sets e g =
    let less = mod-lt (address / blocksize) some_sets in
    rw (e, g) (u32_of_lt (address / blocksize % 2 ^ f n) (omega arith), refl)

process_request-delay :
    (f rounded : ℕ → ℕ) (time : ℕ) (a : Access) (address : ℕ) (k : AlloyCntlr)
    → let s = split_address f k.set_num k.blocksize address in
      let missed = (access_attempt s.block_tag (k.sets s.set_n)).1 == 0 in
      (process_request f rounded time a address k).1
      ≡ (if not missed then 0 else u64 (rounded 16384))
unfolding process_request
process_request-delay f rounded time a address k = delay_lem rounded time _ a _

if-not : (b : Bool) (x y : ℕ) → (if not (not b) then x else y) ≡ (if b then x else y)
if-not b x y = ground (arith, Bool-cases b)

unfoldable pub AreBelow : ℕ → List (ℕ × Access × ℕ) → Type 0
AreBelow n [] = n ≡ n
AreBelow n (q ∷ rest) = (q.2 < n) × AreBelow n rest

-- The table after a step that asks for `block` in the set `x`.
IsStepped-IsTable :
    (count n blocksize x block : ℕ) (missed : Bool) (t : Table) (k k' : AlloyCntlr)
    → block % count ≡ x
    → missed ≡ not (holds (t.held x) block)
    → IsServed (block / count) (k.sets x) (served (block / count) (k.sets x))
    → IsStepped k k' x (served (block / count) (k.sets x)) missed
    → IsTable count n blocksize t k
    → IsTable count n blocksize
        (record {
          held = update t.held x (some block);
          missed = if holds (t.held x) block then t.missed else t.missed + 1;
        })
        k'
IsStepped-IsTable count n blocksize x block missed t k k' place miss g e h =
    let set = served (block / count) (k.sets x) in
    record {
      ways = λ y. rw e.sets (
          if_rule (λ (s : AlloySet). 0 < s.associativity) (y == x) set (k.sets y)
            (λ _. rw g.same_size (h.ways x)) (λ _. h.ways y));
      others = λ y j p. rw e.sets (
          if_rule (λ (s : AlloySet). (s.blocks j).tag ≡ no_tag) (y == x) set (k.sets y)
            (λ _. g.others j p ∙ h.others x j p) (λ _. h.others y j p));
      first = λ y. elim (Bool-cases (y == x)) [
        | inl f ↦ let same : y ≡ x = ground arith in rw (e.sets, f) (g.first, place ∙ sym same)
        | inr f ↦ rw (e.sets, f) (h.first y)
      ];
      misses = e.misses ∙ ground (arith, h.misses, miss);
      set_num = e.set_num ∙ h.set_num;
      size = e.size ∙ h.size;
    }

-- A request does to the table what the specification says, in the same time.
process_request-ask :
    (f rounded : ℕ → ℕ) (n blocksize time : ℕ) (a : Access) (address : ℕ) (t : Table)
    (k : AlloyCntlr)
    → let count = 2 ^ f n in
      let r = process_request f rounded time a address k in
      let q = ask count rounded (address / blocksize) t in
      count ≤ 4294967296
      → 0 < count
      → address / blocksize / count ≢ no_tag
      → IsTable count n blocksize t k
      → IsTable count n blocksize q.0 r.0 × (r.1 ≡ q.1)
unfolding ask
process_request-ask f rounded n blocksize time a address t k small some_sets full h =
    let count = 2 ^ f n in
    let block = address / blocksize in
    let x = block % count in
    let tag = block / count in
    let s = split_address f k.set_num k.blocksize address in
    let places = split_lem f n blocksize address k small some_sets h.set_num h.size in
    let set = k.sets x in
    let missed = (access_attempt tag set).1 == 0 in
    let only = any_tag_first set.associativity tag set.blocks (h.ways x) full (h.others x) in
    let found = first-holds count x (set.blocks 0).tag block (t.held x) refl full (h.first x) in
    let miss : missed ≡ not (holds (t.held x) block) =
      missed_lem tag set ∙ ap (λ (b : Bool). not b) (only ∙ found) in
    let stepped : IsStepped k (process_request f rounded time a address k).0 x (served tag set)
        missed =
      rw (← places.0, ← places.1) (process_request-IsStepped f rounded time a address k) in
    (
      IsStepped-IsTable count n blocksize x block missed t k _ refl miss
          (served-IsServed tag set only) stepped h,
      process_request-delay f rounded time a address k
          ∙ rw (places.0, places.1, miss) (if-not (holds (t.held x) block) _ _),
    )

process_all-ask_all :
    (f rounded : ℕ → ℕ) (n blocksize : ℕ) (qs : List (ℕ × Access × ℕ)) (t : Table) (k : AlloyCntlr)
    → let count = 2 ^ f n in
      let r = process_all f rounded qs k in
      let q = ask_all count blocksize rounded qs t in
      count ≤ 4294967296
      → 0 < count
      → AreBelow no_tag qs
      → IsTable count n blocksize t k
      → (r.0.misses ≡ q.0.missed) × (r.1 ≡ q.1)
unfolding process_all ask_all AreBelow
process_all-ask_all f rounded n blocksize [] t k small some_sets below h = (h.misses, refl)
process_all-ask_all f rounded n blocksize (p ∷ rest) t k small some_sets below h =
    let tag = p.2 / blocksize / 2 ^ f n in
    let less : tag < no_tag =
      omega (arith, below.0, div-le_self (p.2 / blocksize) (2 ^ f n), div-le_self p.2 blocksize) in
    let (next, time) =
      process_request-ask f rounded n blocksize p.0 p.1 p.2 t k small some_sets (λ e. omega arith)
        h in
    let done = process_all-ask_all f rounded n blocksize rest _ _ small some_sets below.1 next in
    (done.0, rw (time, done.1) refl)

-- The Alloy cache, with at least one way and `set_num` sets (a power of two of at most 2^32), refines
-- a table that says which block each set holds: after any requests to addresses below the tag of an
-- empty block, the misses that it counts and the delay of every request are those of the table, where
-- a request is free if the set of its block holds the block, and otherwise costs 2 KB of the memory
-- bus and makes the set hold the block.
pub process_all-refines :
    (f rounded : ℕ → ℕ) (set_num associativity blocksize : ℕ) (qs : List (ℕ × Access × ℕ))
    → let count = 2 ^ f set_num in
      let r = process_all f rounded qs (new_alloy set_num associativity blocksize) in
      let q = ask_all count blocksize rounded qs new_table in
      count ≤ 4294967296
      → 0 < count
      → 0 < associativity
      → AreBelow no_tag qs
      → (r.0.misses ≡ q.0.missed) × (r.1 ≡ q.1)
unfolding new_alloy new_table new_set new_block
process_all-refines f rounded set_num associativity blocksize qs small some_sets ways below =
    process_all-ask_all f rounded set_num blocksize qs new_table
      (new_alloy set_num associativity blocksize) small some_sets below
      (record {
        ways = λ x. ways;
        others = λ x j p. refl;
        first = λ x. refl;
        misses = refl;
        set_num = refl;
        size = refl;
      })
