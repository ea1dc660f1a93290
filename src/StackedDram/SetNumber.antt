-- ===== src/StackedDram/SetNumber.antt =====
-- Set numbers, split and put together, in each of the three mappings.
use sniper_zip.Prelude.{
  ℕ, ◌+◌, ◌*◌, ◌/◌, ◌%◌, ◌^◌, ◌<◌, ◌≤◌, ◌≡◌, ◌⊎◌, inl, inr, refl, sym, ap, ◌∙◌, u32_size, u32_of_lt,
  arith, div-of_row, mod-of_row, row-lt,
}
use Prim.Native.Nat.{bit_or}
use sniper_zip.Prelude.Bits.{bit_or_disjoint, pow_add}
use native.Mathlib.Nat.{
  div-add-mod', mul_assoc, one-le-pow, add-mul, mod-lt, le-mul_of_pos_right, add_comm, mul_comm,
}
use sniper_zip.StackedDram.{
  Config, StackedDram, Index, split_vbr, split_bvr, split_rbv, split_set_num, shl32, join,
  get_set_num, vault_bit, bank_bit, row_bit,
}

pow-pos : (k : ℕ) → 0 < 2 ^ k
pow-pos k = one-le-pow k 2 (omega arith)

-- Three fields, the lower two of `m` and `l` bits.
abbrev pub fields : ℕ → ℕ → ℕ → ℕ → ℕ → ℕ
fields m l hi mid lo = (hi * 2 ^ m + mid) * 2 ^ l + lo

fields-sum : (m l hi mid lo : ℕ) → fields m l hi mid lo ≡ hi * 2 ^ (m + l) + mid * 2 ^ l + lo
fields-sum m l hi mid lo = omega (
  arith,
  add-mul (hi * 2 ^ m) mid (2 ^ l),
  mul_assoc hi (2 ^ m) (2 ^ l),
  ap (λ (p : ℕ). hi * p) (pow_add m l),
)

shl32-shl32 : (x a b : ℕ) → x * 2 ^ (a + b) < u32_size → shl32 (shl32 x a) b ≡ x * 2 ^ (a + b)
unfolding shl32
shl32-shl32 x a b h =
    let whole : x * 2 ^ (a + b) ≡ x * 2 ^ a * 2 ^ b =
      ap (λ (p : ℕ). x * p) (pow_add a b) ∙ sym (mul_assoc x (2 ^ a) (2 ^ b)) in
    let wide = le-mul_of_pos_right (x * 2 ^ a) (pow-pos b) in
    rw (u32_of_lt (x * 2 ^ a) (omega (arith, whole, wide)))
      (u32_of_lt (x * 2 ^ a * 2 ^ b) (omega (arith, whole)) ∙ sym whole)

join-fields :
    (m l hi mid lo : ℕ)
    → mid < 2 ^ m
    → lo < 2 ^ l
    → fields m l hi mid lo < u32_size
    → join (hi * 2 ^ (m + l)) mid l lo ≡ fields m l hi mid lo
unfolding join shl32
join-fields m l hi mid lo hm hl small =
    let sum = fields-sum m l hi mid lo in
    let below : mid * 2 ^ l < 2 ^ (m + l) =
      rw (pow_add m l) (omega (arith, row-lt mid 0 (2 ^ m) (2 ^ l) hm (pow-pos l))) in
    let two : bit_or (hi * 2 ^ (m + l)) (mid * 2 ^ l) ≡ (hi * 2 ^ m + mid) * 2 ^ l =
      bit_or_disjoint (m + l) hi (mid * 2 ^ l) below ∙ omega (arith, fields-sum m l hi mid 0) in
    rw (u32_of_lt (mid * 2 ^ l) (omega (arith, sum)), two)
      (bit_or_disjoint l (hi * 2 ^ m + mid) lo hl)

-- The fields of a word.
fields-split : (m l x : ℕ) → fields m l (x / 2 ^ l / 2 ^ m) (x / 2 ^ l % 2 ^ m) (x % 2 ^ l) ≡ x
fields-split m l x = rw (div-add-mod' (x / 2 ^ l) (2 ^ m)) (div-add-mod' x (2 ^ l))

high-small : (m l hi mid lo : ℕ) → fields m l hi mid lo < u32_size → hi * 2 ^ (m + l) < u32_size
high-small m l hi mid lo h = omega (arith, fields-sum m l hi mid lo)

join-split :
    (m l x : ℕ)
    → x < u32_size
    → join (shl32 (shl32 (x / 2 ^ l / 2 ^ m) m) l) (x / 2 ^ l % 2 ^ m) l (x % 2 ^ l) ≡ x
join-split m l x h =
    let hi = x / 2 ^ l / 2 ^ m in
    let mid = x / 2 ^ l % 2 ^ m in
    let lo = x % 2 ^ l in
    let small : fields m l hi mid lo < u32_size = rw (fields-split m l x) h in
    rw (shl32-shl32 hi m l (high-small m l hi mid lo small)) (
      join-fields m l hi mid lo (mod-lt (x / 2 ^ l) (pow-pos m)) (mod-lt x (pow-pos l)) small
      ∙ fields-split m l x)

-- The same with the two shifts in the other order.
shl32_comm :
    (m l hi mid lo : ℕ)
    → fields m l hi mid lo < u32_size
    → shl32 (shl32 hi l) m ≡ shl32 (shl32 hi m) l
shl32_comm m l hi mid lo small =
    let high = high-small m l hi mid lo small in
    let other : hi * 2 ^ (l + m) < u32_size = rw (add_comm l m) high in
    shl32-shl32 hi l m other
    ∙ ap (λ (e : ℕ). hi * 2 ^ e) (add_comm l m)
    ∙ sym (shl32-shl32 hi m l high)

-- One of the three mappings is configured.
unfoldable pub IsMapped : Config → Type 0
IsMapped c = (c.addr_map ≡ 1) ⊎ (c.addr_map ≡ 2) ⊎ (c.addr_map ≡ 3)

-- In each of the three mappings, every 32-bit set number that is split into vault, bank and row and
-- put together again is the same, whatever the sizes are: the message about it is never printed.
pub get_set_num-split_set_num :
    (c : Config) (d : StackedDram) (x : ℕ)
    → IsMapped c
    → x < u32_size
    → get_set_num c d (split_set_num c d x) ≡ x
unfolding IsMapped get_set_num split_set_num split_vbr split_bvr split_rbv
get_set_num-split_set_num c d x (inl e) h = rw e (join-split (bank_bit c d) (row_bit c d) x h)
get_set_num-split_set_num c d x (inr (inl e)) h =
    rw e (join-split (vault_bit c d) (row_bit c d) x h)
get_set_num-split_set_num c d x (inr (inr e)) h =
    let m = bank_bit c d in
    let l = vault_bit c d in
    let small : fields m l (x / 2 ^ l / 2 ^ m) (x / 2 ^ l % 2 ^ m) (x % 2 ^ l) < u32_size =
      rw (fields-split m l x) h in
    rw (e, shl32_comm m l (x / 2 ^ l / 2 ^ m) (x / 2 ^ l % 2 ^ m) (x % 2 ^ l) small)
      (join-split m l x h)

-- An index within the sizes of the DRAM, whose bits fit into a word.
pub record IsInside (c : Config) (d : StackedDram) (i : Index) : Type 0 where
  pub vault_inside : i.vault < 2 ^ vault_bit c d
  pub bank_inside : i.bank < 2 ^ bank_bit c d
  pub row_inside : i.row < 2 ^ row_bit c d
  pub fits : 2 ^ vault_bit c d * 2 ^ bank_bit c d * 2 ^ row_bit c d ≤ u32_size

fields-high :
    (m l hi mid lo : ℕ) → mid < 2 ^ m → lo < 2 ^ l → fields m l hi mid lo / 2 ^ l / 2 ^ m ≡ hi
fields-high m l hi mid lo a b =
    rw (div-of_row (hi * 2 ^ m + mid) lo (2 ^ l) b) (div-of_row hi mid (2 ^ m) a)

fields-middle :
    (m l hi mid lo : ℕ) → mid < 2 ^ m → lo < 2 ^ l → fields m l hi mid lo / 2 ^ l % 2 ^ m ≡ mid
fields-middle m l hi mid lo a b =
    rw (div-of_row (hi * 2 ^ m + mid) lo (2 ^ l) b) (mod-of_row hi mid (2 ^ m) a)

fields-lt :
    (k m l hi mid lo : ℕ)
    → hi < 2 ^ k
    → mid < 2 ^ m
    → lo < 2 ^ l
    → 2 ^ k * 2 ^ m * 2 ^ l ≤ u32_size
    → fields m l hi mid lo < u32_size
fields-lt k m l hi mid lo a b e fits = omega (
  arith,
  fits,
  row-lt (hi * 2 ^ m + mid) lo (2 ^ k * 2 ^ m) (2 ^ l) (row-lt hi mid (2 ^ k) (2 ^ m) a b) e,
)

join-shl32 :
    (k m l hi mid lo : ℕ)
    → hi < 2 ^ k
    → mid < 2 ^ m
    → lo < 2 ^ l
    → 2 ^ k * 2 ^ m * 2 ^ l ≤ u32_size
    → join (shl32 (shl32 hi m) l) mid l lo ≡ fields m l hi mid lo
join-shl32 k m l hi mid lo a b e fits =
    let small = fields-lt k m l hi mid lo a b e fits in
    rw (shl32-shl32 hi m l (high-small m l hi mid lo small)) (join-fields m l hi mid lo b e small)

-- In each of the three mappings, vault, bank and row within the sizes, put together into a set number
-- and split again, are the same.
pub split_set_num-get_set_num :
    (c : Config) (d : StackedDram) (i : Index)
    → IsMapped c
    → IsInside c d i
    → split_set_num c d (get_set_num c d i) ≡ i
unfolding IsMapped get_set_num split_set_num split_vbr split_bvr split_rbv
split_set_num-get_set_num c d i (inl e) h =
    let bb = bank_bit c d in
    let rb = row_bit c d in
    rw
      (
        e,
        join-shl32 (vault_bit c d) bb rb i.vault i.bank i.row h.vault_inside h.bank_inside
            h.row_inside h.fits,
        fields-high bb rb i.vault i.bank i.row h.bank_inside h.row_inside,
        fields-middle bb rb i.vault i.bank i.row h.bank_inside h.row_inside,
        mod-of_row (i.vault * 2 ^ bb + i.bank) i.row (2 ^ rb) h.row_inside,
      )
      refl
split_set_num-get_set_num c d i (inr (inl e)) h =
    let vb = vault_bit c d in
    let rb = row_bit c d in
    let fits : 2 ^ bank_bit c d * 2 ^ vb * 2 ^ rb ≤ u32_size =
      rw (mul_comm (2 ^ bank_bit c d) (2 ^ vb)) h.fits in
    rw
      (
        e,
        join-shl32 (bank_bit c d) vb rb i.bank i.vault i.row h.bank_inside h.vault_inside
            h.row_inside fits,
        fields-high vb rb i.bank i.vault i.row h.vault_inside h.row_inside,
        fields-middle vb rb i.bank i.vault i.row h.vault_inside h.row_inside,
        mod-of_row (i.bank * 2 ^ vb + i.vault) i.row (2 ^ rb) h.row_inside,
      )
      refl
split_set_num-get_set_num c d i (inr (inr e)) h =
    let vb = vault_bit c d in
    let bb = bank_bit c d in
    let rb = row_bit c d in
    let fits : 2 ^ rb * 2 ^ bb * 2 ^ vb ≤ u32_size = omega (
      arith,
      h.fits,
      mul_comm (2 ^ rb * 2 ^ bb) (2 ^ vb),
      mul_comm (2 ^ rb) (2 ^ bb),
      mul_assoc (2 ^ vb) (2 ^ bb) (2 ^ rb),
      ap (λ (p : ℕ). 2 ^ vb * p) (mul_comm (2 ^ rb) (2 ^ bb)),
    ) in
    let small =
      fields-lt rb bb vb i.row i.bank i.vault h.row_inside h.bank_inside h.vault_inside fits in
    rw
      (
        e,
        shl32_comm bb vb i.row i.bank i.vault small,
        join-shl32 rb bb vb i.row i.bank i.vault h.row_inside h.bank_inside h.vault_inside fits,
        fields-high bb vb i.row i.bank i.vault h.bank_inside h.vault_inside,
        fields-middle bb vb i.row i.bank i.vault h.bank_inside h.vault_inside,
        mod-of_row (i.row * 2 ^ bb + i.bank) i.vault (2 ^ vb) h.vault_inside,
      )
      refl
