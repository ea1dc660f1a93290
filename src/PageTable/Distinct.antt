-- ===== src/PageTable/Distinct.antt =====
-- Different addresses have different physical addresses.
use sniper_zip.Prelude.{
  ℕ, ◌+◌, ◌*◌, ◌/◌, ◌%◌, ◌<◌, ◌≤◌, ◌≡◌, ◌≢◌, ◌⊎◌, inl, inr, refl, sym, ap, ◌∙◌, ◌==◌, Option, none,
  some, Option-cases, if_rule, List, [], ◌∷◌, update, update_self, length, u32, u64, arith, ==_refl,
  eq_of_div-mod,
}
use sniper_zip.Prelude.Bits.{bit_or_disjoint}
use sniper_zip.PageTable.{PageTable, new_pages, page_address, translate_address, translate_all}

none_ne_some : (p : ℕ) → none ≢ some p
none_ne_some p h = ground arith

some_inj : (p q : ℕ) → some p ≡ some q → p ≡ q
some_inj p q h = ground arith

-- Every page of the table is below the next free one, and no two tags share a page.
record IsPages (n : ℕ) (t : PageTable) : Type 0 where
  free : t.avail_phy_page_tag ≤ n
  below : (v p : ℕ) → t.page_table v ≡ some p → p < t.avail_phy_page_tag
  apart : (v w p : ℕ) → t.page_table v ≡ some p → t.page_table w ≡ some p → v ≡ w

update-cases :
    (table : ℕ → Option ℕ) (k q v p : ℕ)
    → update table k (some q) v ≡ some p
    → ((v ≡ k) × (p ≡ q)) ⊎ ((v ≢ k) × (table v ≡ some p))
update-cases table k q v p =
    if_rule (λ (x : Option ℕ). x ≡ some p → ((v ≡ k) × (p ≡ q)) ⊎ ((v ≢ k) × (table v ≡ some p)))
      (v == k) (some q) (table v) (λ e h. inl (ground arith, ground arith))
      (λ e h. inr (ground arith, h))

-- What a translation does: the tag has a page, others keep theirs.
record IsTranslated (a : ℕ) (t : PageTable) (r : PageTable × ℕ) : Type 0 where
  page : ℕ
  found : r.0.page_table (a / 4096) ≡ some page
  address : r.1 ≡ page_address page (a % 4096)
  kept : (v p : ℕ) → t.page_table v ≡ some p → r.0.page_table v ≡ some p

translate_address-IsTranslated : (a : ℕ) (t : PageTable) → IsTranslated a t (translate_address a t)
unfolding translate_address
translate_address-IsTranslated a t = elim (Option-cases (t.page_table (a / 4096))) [
  | inr (p, e) ↦
      rw (translate_address, e) (record { page = p; found = e; address = refl; kept = λ v q h. h })
  | inl e ↦
      rw (translate_address, e)
        (record {
          page = t.avail_phy_page_tag;
          found = rw (==_refl (a / 4096)) refl;
          address = refl;
          kept = λ v p h.
              if_rule (λ (x : Option ℕ). x ≡ some p) (v == a / 4096) (some t.avail_phy_page_tag)
                (t.page_table v)
                (λ same. absurd (
                  none_ne_some p
                    (let there : v ≡ a / 4096 = ground arith in sym e ∙ rw (← there) h)))
                (λ other. h);
        })
]

-- Where a page of the longer table stands.
abbrev Found : PageTable → ℕ → ℕ → ℕ → Type 0
Found t a v p =
    ((v ≡ a / 4096) × (p ≡ t.avail_phy_page_tag)) ⊎ ((v ≢ a / 4096) × (t.page_table v ≡ some p))

Found-eq :
    (n a : ℕ) (t : PageTable) → IsPages n t → (v w p : ℕ) → Found t a v p → Found t a w p → v ≡ w
Found-eq n a t h v w p (inl (x, y)) (inl (z, u)) = x ∙ sym z
Found-eq n a t h v w p (inl (x, y)) (inr (z, u)) = absurd (omega (arith, h.below w p u))
Found-eq n a t h v w p (inr (x, y)) (inl (z, u)) = absurd (omega (arith, h.below v p y))
Found-eq n a t h v w p (inr (x, y)) (inr (z, u)) = h.apart v w p y u

translate_address-IsPages :
    (n a : ℕ) (t : PageTable)
    → n + 1 < 4294967296
    → IsPages n t
    → IsPages (n + 1) (translate_address a t).0
unfolding translate_address
translate_address-IsPages n a t small h = elim (Option-cases (t.page_table (a / 4096))) [
  | inr (p, e) ↦
      rw (translate_address, e)
        (record { free = omega (arith, h.free); below = h.below; apart = h.apart })
  | inl e ↦
      rw (translate_address, e)
        (record {
          free = omega (arith, h.free);
          below = λ v p f. elim (update-cases t.page_table (a / 4096) t.avail_phy_page_tag v p f) [
            | inl (s, q) ↦ omega (arith, h.free)
            | inr (s, q) ↦ omega (arith, h.free, h.below v p q)
          ];
          apart = λ v w p f g.
              Found-eq n a t h v w p
                (update-cases t.page_table (a / 4096) t.avail_phy_page_tag v p f)
                (update-cases t.page_table (a / 4096) t.avail_phy_page_tag w p g);
        })
]

translate_all-IsPages :
    (n : ℕ) (rest : List ℕ) (t : PageTable)
    → n + length rest < 4294967296
    → IsPages n t
    → IsPages (n + length rest) (translate_all rest t)
unfolding translate_all
translate_all-IsPages n [] t small h = record {
  free = omega (arith, h.free);
  below = h.below;
  apart = h.apart;
}
translate_all-IsPages n (a ∷ rest) t small h =
    let next = translate_address-IsPages n a t (omega arith) h in
    let done = translate_all-IsPages (n + 1) rest (translate_address a t).0 (omega arith) next in
    record { free = omega (arith, done.free); below = done.below; apart = done.apart }

new_pages-IsPages : IsPages 0 new_pages
unfolding new_pages
new_pages-IsPages = record {
  free = omega arith;
  below = λ v p h. absurd (none_ne_some p h);
  apart = λ v w p h k. absurd (none_ne_some p h);
}

page_address-sum : (p o : ℕ) → p < 4294967296 → o < 4096 → page_address p o ≡ p * 4096 + o
unfolding page_address u64
page_address-sum p o h k =
    let whole : p * 4096 % 18446744073709551616 ≡ p * 4096 = omega arith in
    rw whole (bit_or_disjoint 12 p o k)

page_address-inj :
    (p q o u : ℕ)
    → p < 4294967296
    → q < 4294967296
    → o < 4096
    → u < 4096
    → page_address p o ≡ page_address q u
    → (p ≡ q) × (o ≡ u)
page_address-inj p q o u a b c d e =
    let same : p * 4096 + o ≡ q * 4096 + u =
      sym (page_address-sum p o a c) ∙ e ∙ page_address-sum q u b d in
    (omega arith, omega arith)

-- The two cases of a translation.
translate_found :
    (a p : ℕ) (t : PageTable)
    → t.page_table (a / 4096) ≡ some p
    → translate_address a t ≡ (t, page_address p (a % 4096))
unfolding translate_address
translate_found a p t e = rw (translate_address, e) refl

abbrev with_page : ℕ → PageTable → PageTable
with_page a t = record {
  page_table = update t.page_table (a / 4096) (some t.avail_phy_page_tag);
  avail_phy_page_tag = u32 (t.avail_phy_page_tag + 1);
}

translate_new :
    (a : ℕ) (t : PageTable)
    → t.page_table (a / 4096) ≡ none
    → translate_address a t ≡ (with_page a t, page_address t.avail_phy_page_tag (a % 4096))
unfolding translate_address
translate_new a t e = rw (translate_address, e) refl

-- A translated address has its page: translating it again changes nothing.
pub translate_address_again :
    (a : ℕ) (t : PageTable) → translate_address a (translate_address a t).0 ≡ translate_address a t
translate_address_again a t = elim (Option-cases (t.page_table (a / 4096))) [
  | inr (p, e) ↦ ap (λ (r : PageTable × ℕ). translate_address a r.0) (translate_found a p t e)
  | inl e ↦
      let here = update_self t.page_table (a / 4096) (some t.avail_phy_page_tag) in
      ap (λ (r : PageTable × ℕ). translate_address a r.0) (translate_new a t e)
      ∙ translate_found a t.avail_phy_page_tag (with_page a t) here
      ∙ sym (translate_new a t e)
]

-- In a table that starts empty, any addresses translated before and fewer than 2^32 in all: two
-- different addresses have different physical addresses, and the first keeps its own.
pub translate_address-distinct :
    (rest : List ℕ) (a b : ℕ)
    → length rest + 2 < 4294967296
    → a ≢ b
    → let t = translate_all rest new_pages in
      let r = translate_address a t in
      let q = translate_address b r.0 in (r.1 ≢ q.1) × ((translate_address a q.0).1 ≡ r.1)
translate_address-distinct rest a b small differ =
    let n = length rest in
    let t = translate_all rest new_pages in
    let r = translate_address a t in
    let q = translate_address b r.0 in
    let pages = translate_all-IsPages 0 rest new_pages (omega arith) new_pages-IsPages in
    let pages_r = translate_address-IsPages (0 + n) a t (omega arith) pages in
    let pages_q = translate_address-IsPages (0 + n + 1) b r.0 (omega arith) pages_r in
    let first = translate_address-IsTranslated a t in
    let second = translate_address-IsTranslated b r.0 in
    let again = translate_address-IsTranslated a q.0 in
    let still = second.kept (a / 4096) first.page first.found in
    let p_small = pages_q.below (a / 4096) first.page still in
    let q_small = pages_q.below (b / 4096) second.page second.found in
    let last : again.page ≡ first.page =
      some_inj again.page first.page (sym again.found ∙ again.kept (a / 4096) first.page still) in
    (
      λ e.
          let both =
            page_address-inj first.page second.page (a % 4096) (b % 4096)
              (omega (arith, p_small, pages_q.free)) (omega (arith, q_small, pages_q.free))
              (omega arith) (omega arith) (sym first.address ∙ e ∙ second.address) in
          let tags =
            pages_q.apart (a / 4096) (b / 4096) first.page still
              (second.found ∙ ap (λ (x : ℕ). some x) (sym both.0)) in
          differ (eq_of_div-mod a b 4096 tags both.1),
      again.address ∙ rw last (sym first.address),
    )
