-- ===== src/NewController/Addresses.antt =====
-- What the parts of an address stand for over the second manager.
use native.Mathlib.Nat.{div-add-mod', mod-lt}
use sniper_zip.Prelude.{
  ℕ, ◌+◌, ◌*◌, ◌/◌, ◌%◌, ◌^◌, ◌<◌, ◌≤◌, ◌≡◌, ◌≢◌, sym, ap, ◌∙◌, List, length, u32_of_lt, arith, u32,
}
use sniper_zip.PageTable.{PageTable, Split, new_pages, translate_address, translate_all}
use sniper_zip.PageTable.Distinct.{translate_address-distinct}
use sniper_zip.NewController.Requests.{split_address}

-- The physical address of a split one.
unfoldable pub whole : ℕ → ℕ → Split → ℕ
whole count pagesize s = (s.page_tag * count + s.set_n) * pagesize + s.page_offset

whole-split_address :
    (f : ℕ → ℕ) (set_num pagesize a : ℕ) (t : PageTable)
    → 2 ^ f set_num ≤ 4294967296
    → 0 < 2 ^ f set_num
    → whole (2 ^ f set_num) pagesize (split_address f set_num pagesize a t).1
      ≡ (translate_address a t).1
unfolding whole split_address
whole-split_address f set_num pagesize a t small some_sets =
    let count = 2 ^ f set_num in
    let p = (translate_address a t).1 in
    let addr = p / pagesize in
    let exact : u32 (addr % count) ≡ addr % count =
      u32_of_lt (addr % count) (omega (arith, mod-lt addr some_sets)) in
    rw (exact, div-add-mod' addr count) (div-add-mod' p pagesize)

-- With `set_num` sets, a power of two of at most 2^32, tag, set and offset of an address, put together,
-- are its physical address; and of two different addresses, in a table that starts empty, any
-- addresses translated before and fewer than 2^32 in all, the tag, the set or the offset differ.
pub split_address-whole :
    (f : ℕ → ℕ) (set_num pagesize : ℕ) (rest : List ℕ) (a b : ℕ)
    → 2 ^ f set_num ≤ 4294967296
    → 0 < 2 ^ f set_num
    → length rest + 2 < 4294967296
    → a ≢ b
    → let t = translate_all rest new_pages in
      let r = split_address f set_num pagesize a t in
      let q = split_address f set_num pagesize b r.0 in
      (whole (2 ^ f set_num) pagesize r.1 ≡ (translate_address a t).1) × (r.1 ≢ q.1)
unfolding split_address
split_address-whole f set_num pagesize rest a b small some_sets few differ =
    let count = 2 ^ f set_num in
    let t = translate_all rest new_pages in
    let t' = (translate_address a t).0 in
    let first = whole-split_address f set_num pagesize a t small some_sets in
    let second = whole-split_address f set_num pagesize b t' small some_sets in
    (
      first,
      λ e.
          (translate_address-distinct rest a b few differ).0
            (sym first ∙ ap (λ (s : Split). whole count pagesize s) e ∙ second),
    )
