-- ===== src/Request/Counts.antt =====
-- What the counters of accesses and misses count.
use sniper_zip.Prelude.{
  ℕ, ◌+◌, ◌<◌, ◌≤◌, ◌≡◌, refl, ap, ◌∙◌, true, ◌||◌, ◌==◌, if◌then◌else◌, List, [], ◌∷◌, length, u32,
  if_rule, arith, Bool-cases, inl, inr, false,
}
use sniper_zip.CacheSet.{CacheSet, new_set}
use sniper_zip.StackedDram.{StackedDram, Config, check_set_disabled}
use sniper_zip.StackedDram.Latency.{Costs}
use sniper_zip.PageTable.{split_address}
use sniper_zip.Request.{
  Outside, CacheCntlr, Packet, receive, pass_by, use_cache, process_request, new_controller,
  new_cache, Event, requests, heats, remaps, clears, throttles, happen, happen_all,
}
use sniper_zip.Request.Kept.{use_cache-IsServed}
use sniper_zip.Request.Received.{receive-IsReceived, receive-IsQuiet}

-- The requests among the events.
unfoldable pub requests_in : List Event → ℕ
requests_in [] = 0
requests_in (requests q ∷ rest) = requests_in rest + 1
requests_in (heats v b t ∷ rest) = requests_in rest
requests_in (remaps ∷ rest) = requests_in rest
requests_in (clears ∷ rest) = requests_in rest
requests_in (throttles lev ∷ rest) = requests_in rest

record IsCounted (n : ℕ) (m : CacheCntlr) : Type 0 where
  accesses : m.cntlr.cache_access ≡ n
  misses : m.cntlr.page_misses + m.cntlr.block_misses ≤ n

-- One lookup counts one miss at most.
one_miss :
    (hit p b n p' b' : ℕ)
    → p + b ≤ n
    → n + 1 < 4294967296
    → p' ≡ (if hit == 0 then u32 (p + 1) else p)
    → b' ≡ (if hit == 1 then u32 (b + 1) else b)
    → p' + b' ≤ n + 1
one_miss hit p b n p' b' h small e f = elim (Bool-cases (hit == 0)) [
  | inl g ↦
      let zero' : hit ≡ 0 = ground arith in
      let e' : p' ≡ u32 (p + 1) = e ∙ rw g refl in
      let f' : b' ≡ b = f ∙ rw zero' refl in omega arith
  | inr g ↦ elim (Bool-cases (hit == 1)) [
    | inl k ↦
        let e' : p' ≡ p = e ∙ rw g refl in let f' : b' ≡ u32 (b + 1) = f ∙ rw k refl in omega arith
    | inr k ↦ let e' : p' ≡ p = e ∙ rw g refl in let f' : b' ≡ b = f ∙ rw k refl in omega arith
  ]
]

process_request-IsCounted :
    (c : Config) (costs : Costs) (o : Outside) (q : Packet) (n : ℕ) (m : CacheCntlr)
    → n + 1 < 4294967296
    → IsCounted n m
    → IsCounted (n + 1) (process_request c costs o q m).0
unfolding process_request pass_by
process_request-IsCounted c costs o q n m small h =
    let s = (split_address c.floor_log2 m.set_num m.pagesize q.address m.pages).1 in
    let r = receive c costs q m in
    let mem = o.access_cost m.samples in
    let got = receive-IsReceived (λ x. x ≡ x) c costs q m (λ x k. refl) (λ x. refl) in
    let (a, p, b) : (r.0.cntlr.cache_access ≡ n + 1)
        × (r.0.cntlr.page_misses ≡ m.cntlr.page_misses)
        × (r.0.cntlr.block_misses ≡ m.cntlr.block_misses) =
      (omega (arith, got.accesses, h.accesses), got.page_misses, got.block_misses) in
    if_rule (λ (y : CacheCntlr × ℕ). IsCounted (n + 1) y.0)
      (check_set_disabled c s.set_n r.0.cntlr.dram || o.disabled) (pass_by c costs o q mem r.1 r.0)
      (use_cache c costs o q s mem r.1 r.0)
      (λ e. record { accesses = a; misses = omega (arith, p, b, h.misses) })
      (λ e.
        let (fp, served) = use_cache-IsServed c costs o q s mem r.1 r.0 in
        record {
          accesses = served.accesses ∙ a;
          misses =
              one_miss _ r.0.cntlr.page_misses r.0.cntlr.block_misses n _ _
                (omega (arith, p, b, h.misses)) small served.page_misses served.block_misses;
        })

happen_all-IsCounted :
    (c : Config) (costs : Costs) (o : Outside) (es : List Event) (n : ℕ) (m : CacheCntlr)
    → n + requests_in es < 4294967296
    → IsCounted n m
    → IsCounted (n + requests_in es) (happen_all c costs o es m)
unfolding happen_all happen requests_in
happen_all-IsCounted c costs o [] n m small h = record {
  accesses = omega (arith, h.accesses);
  misses = omega (arith, h.misses);
}
happen_all-IsCounted c costs o (requests q ∷ rest) n m small h =
    let done =
      happen_all-IsCounted c costs o rest (n + 1) (process_request c costs o q m).0 (omega arith)
        (process_request-IsCounted c costs o q n m (omega arith) h) in
    record { accesses = omega (arith, done.accesses); misses = omega (arith, done.misses) }
happen_all-IsCounted c costs o (heats v b t ∷ rest) n m small h =
    happen_all-IsCounted c costs o rest n _ small
      (record { accesses = h.accesses; misses = h.misses })
happen_all-IsCounted c costs o (remaps ∷ rest) n m small h =
    happen_all-IsCounted c costs o rest n _ small
      (record { accesses = h.accesses; misses = h.misses })
happen_all-IsCounted c costs o (throttles lev ∷ rest) n m small h =
    happen_all-IsCounted c costs o rest n _ small
      (record { accesses = h.accesses; misses = h.misses })
happen_all-IsCounted c costs o (clears ∷ rest) n m small h =
    happen_all-IsCounted c costs o rest n _ small
      (record { accesses = h.accesses; misses = h.misses })

-- In a cache built by the constructor, after events among which are fewer than 2^32 requests:
-- `cache_access` is the number of requests, and page misses and block misses together are not more.
pub happen_all_counts :
    (c : Config) (costs : Costs) (o : Outside) (es : List Event)
    (set_num associativity blocksize pagesize : ℕ) (garbage : ℕ × ℕ × ℕ) (dram : StackedDram)
    → requests_in es < 4294967296
    → let k =
        (happen_all c costs o es
          (new_cache set_num associativity blocksize pagesize garbage dram)).cntlr in
      (k.cache_access ≡ requests_in es) × (k.page_misses + k.block_misses ≤ k.cache_access)
unfolding new_cache new_controller
happen_all_counts c costs o es set_num associativity blocksize pagesize garbage dram small =
    let done =
      happen_all-IsCounted c costs o es 0
        (new_cache set_num associativity blocksize pagesize garbage dram) (omega (arith, small))
        (record { accesses = refl; misses = omega arith }) in
    (omega (arith, done.accesses), omega (arith, done.accesses, done.misses))

-- What a cache that is switched off holds after `n` requests.
record IsOff (n : ℕ) (set : CacheSet) (dram : StackedDram) (m : CacheCntlr) : Type 0 where
  sets : (x : ℕ) → m.cntlr.sets x ≡ set
  dram_same : m.cntlr.dram ≡ dram
  page_misses : m.cntlr.page_misses ≡ 0
  block_misses : m.cntlr.block_misses ≡ n
  page_disabled : m.page_disabled ≡ n

unfoldable pub request_all : List Packet → List Event
request_all [] = []
request_all (q ∷ rest) = requests q ∷ request_all rest

process_request-IsOff :
    (c : Config) (costs : Costs) (o : Outside) (q : Packet) (n : ℕ) (set : CacheSet)
    (dram : StackedDram) (m : CacheCntlr)
    → o.disabled ≡ true
    → dram.remapped ≡ false
    → n + 1 < 4294967296
    → IsOff n set dram m
    → IsOff (n + 1) set dram (process_request c costs o q m).0
unfolding process_request pass_by
process_request-IsOff c costs o q n set dram m off still small h =
    let s = (split_address c.floor_log2 m.set_num m.pagesize q.address m.pages).1 in
    let r = receive c costs q m in
    let mem = o.access_cost m.samples in
    let got = receive-IsReceived (λ x. x ≡ x) c costs q m (λ x k. refl) (λ x. refl) in
    let quiet =
      receive-IsQuiet c costs q m (ap (λ (d : StackedDram). d.remapped) h.dram_same ∙ still) in
    if_rule (λ (y : CacheCntlr × ℕ). IsOff (n + 1) set dram y.0)
      (check_set_disabled c s.set_n r.0.cntlr.dram || o.disabled) (pass_by c costs o q mem r.1 r.0)
      (use_cache c costs o q s mem r.1 r.0)
      (λ e. record {
        sets = λ x. ap (λ (f : ℕ → CacheSet). f x) quiet.sets ∙ h.sets x;
        dram_same = quiet.dram ∙ h.dram_same;
        page_misses = got.page_misses ∙ h.page_misses;
        block_misses = omega (arith, got.block_misses, h.block_misses);
        page_disabled = omega (arith, got.page_disabled, h.page_disabled);
      })
      (λ e. absurd (ground (arith, off)))

happen_all-IsOff :
    (c : Config) (costs : Costs) (o : Outside) (qs : List Packet) (n : ℕ) (set : CacheSet)
    (dram : StackedDram) (m : CacheCntlr)
    → o.disabled ≡ true
    → dram.remapped ≡ false
    → n + length qs < 4294967296
    → IsOff n set dram m
    → IsOff (n + length qs) set dram (happen_all c costs o (request_all qs) m)
unfolding happen_all happen request_all
happen_all-IsOff c costs o [] n set dram m off still small h =
    let same : n + 0 ≡ n = omega arith in rw same h
happen_all-IsOff c costs o (q ∷ rest) n set dram m off still small h =
    let done =
      happen_all-IsOff c costs o rest (n + 1) set dram (process_request c costs o q m).0 off still
        (omega arith) (process_request-IsOff c costs o q n set dram m off still (omega arith) h) in
    let same : n + length (q ∷ rest) ≡ n + 1 + length rest = omega arith in rw same done

-- With the DRAM cache switched off in the configuration, and no bank moved, fewer than 2^32 requests
-- to a cache built by the constructor leave every set and the DRAM as they were, and each is counted
-- as a block miss and as a request to a disabled page, none as a page miss.
pub happen_all_off :
    (c : Config) (costs : Costs) (o : Outside) (qs : List Packet)
    (set_num associativity blocksize pagesize : ℕ) (garbage : ℕ × ℕ × ℕ) (dram : StackedDram)
    (x : ℕ)
    → o.disabled ≡ true
    → dram.remapped ≡ false
    → length qs < 4294967296
    → let m =
        happen_all c costs o
          (request_all qs)
          (new_cache set_num associativity blocksize pagesize garbage dram) in
      (m.cntlr.sets x ≡ new_set associativity)
      × (m.cntlr.dram ≡ dram)
      × (m.cntlr.page_misses ≡ 0)
      × (m.cntlr.block_misses ≡ length qs)
      × (m.page_disabled ≡ length qs)
unfolding new_cache new_controller
happen_all_off c costs o qs set_num associativity blocksize pagesize garbage dram x off still
      small =
    let done =
      happen_all-IsOff c costs o qs 0 (new_set associativity) dram
        (new_cache set_num associativity blocksize pagesize garbage dram) off still
        (omega (arith, small))
        (record {
          sets = λ y. refl;
          dram_same = refl;
          page_misses = refl;
          block_misses = refl;
          page_disabled = refl;
        }) in
    (
      done.sets x,
      done.dram_same,
      done.page_misses,
      omega (arith, done.block_misses),
      omega (arith, done.page_disabled),
    )
