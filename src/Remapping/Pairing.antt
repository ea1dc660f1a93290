-- ===== src/Remapping/Pairing.antt =====
-- The banks under the combining policy form pairs: a bank stands alone, was combined with one
-- other bank, or has one other bank combined with it.
use sniper_zip.Prelude.{
  ℕ, ◌<◌, ◌≡◌, ◌≢◌, ◌⊎◌, inl, inr, Bool, true, false, ◌==◌, arith, update, Bool-cases,
}
use mathlib.Core.Path.{subst, sym}
use sniper_zip.Remapping.{RemappingManager}
use sniper_zip.Remapping.Bank.{BankStat}

-- The fields that tie banks together.
pub record Link : Type 0 where
  pub physical : ℕ
  pub logical : ℕ
  pub remap : ℕ
  pub combined : Bool

abbrev pub link : BankStat → Link
link b = record {
  physical = b.physical_id;
  logical = b.logical_id;
  remap = b.remap_id;
  combined = b.combined;
}

abbrev pub links : RemappingManager → ℕ → Link
links m i = link (m.bank_stat i)

abbrev pub IsSingle : (ℕ → Link) → ℕ → Type 0
IsSingle s b = ((s b).combined ≡ false) × ((s b).logical ≡ b) × ((s b).remap ≡ b)

-- `b` was combined with `t`, so the accesses to `b` go to `t`.
abbrev pub IsPair : (ℕ → Link) → ℕ → ℕ → Type 0
IsPair s b t =
    (b ≢ t)
    × ((s b).combined ≡ true)
    × ((s b).logical ≡ t)
    × ((s b).remap ≡ b)
    × ((s t).combined ≡ true)
    × ((s t).logical ≡ t)
    × ((s t).remap ≡ b)

pub data Role (n : ℕ) (s : ℕ → Link) (b : ℕ) : Type 0 where
  single : IsSingle s b → Role n s b
  source : (t : ℕ) → t < n → IsPair s b t → Role n s b
  target : (a : ℕ) → a < n → IsPair s a b → Role n s b

pub record IsPaired (n : ℕ) (s : ℕ → Link) : Type 0 where
  pub home : (b : ℕ) → b < n → (s b).physical ≡ b
  pub role : (b : ℕ) → b < n → Role n s b

-- The effect of combining on the ties.
abbrev pub join : ℕ → ℕ → (ℕ → Link) → ℕ → Link
join b t s =
    update (update s b (record (s b) { logical = t; combined = true })) t
      (record (s t) { combined = true; remap = b })

-- Ending a pair.
abbrev pub part : ℕ → ℕ → (ℕ → Link) → ℕ → Link
part b t s =
    update (update s b (record (s b) { physical = b; logical = b; combined = false })) t
      (record (s t) { combined = false; remap = (s t).physical })

join-Role :
    (n b t : ℕ) (s : ℕ → Link)
    → b < n
    → t < n
    → b ≢ t
    → IsSingle s b
    → IsSingle s t
    → (c : ℕ) → Role n s c
    → Role n (join b t s) c
join-Role n b t s hb ht ne sb st c (single h) = elim (Bool-cases (c == b)) [
  | inl e ↦ source t ht (ground arith)
  | inr d ↦ elim (Bool-cases (c == t)) [
    | inl e ↦ target b hb (ground arith)
    | inr d' ↦ single (ground arith)
  ]
]
join-Role n b t s hb ht ne sb st c (source u hu h) = source u hu (ground arith)
join-Role n b t s hb ht ne sb st c (target a ha h) = target a ha (ground arith)

part-Role_other :
    (n b t : ℕ) (s : ℕ → Link)
    → IsPair s b t
    → (c : ℕ) → c ≢ b
    → c ≢ t
    → Role n s c
    → Role n (part b t s) c
part-Role_other n b t s p c d d' (single h) = single (ground arith)
part-Role_other n b t s p c d d' (source u hu h) = source u hu (ground arith)
part-Role_other n b t s p c d d' (target a ha h) = target a ha (ground arith)

ne_of_test : (a b : ℕ) → (a == b) ≡ false → a ≢ b
ne_of_test a b h = ground arith

part-Role :
    (n b t : ℕ) (s : ℕ → Link)
    → (s t).physical ≡ t
    → IsPair s b t
    → (c : ℕ) → Role n s c
    → Role n (part b t s) c
part-Role n b t s home p c r = elim (Bool-cases (c == b)) [
  | inl e ↦ single (ground arith)
  | inr d ↦ elim (Bool-cases (c == t)) [
    | inl e ↦ single (ground arith)
    | inr d' ↦ part-Role_other n b t s p c (ne_of_test c b d) (ne_of_test c t d') r
  ]
]

module _ (n b t : ℕ) (s : ℕ → Link) (hb : b < n) (ht : t < n) where
  pub join-IsPaired : b ≢ t → IsSingle s b → IsSingle s t → IsPaired n s → IsPaired n (join b t s)
  join-IsPaired ne sb st p = record {
    home = λ c h. ground (arith, p.home c h, p.home b hb, p.home t ht);
    role = λ c h. join-Role n b t s hb ht ne sb st c (p.role c h);
  }

  pub part-IsPaired : IsPair s b t → IsPaired n s → IsPaired n (part b t s)
  part-IsPaired q p = record {
    home = λ c h. ground (arith, p.home c h, p.home t ht);
    role = λ c h. part-Role n b t s (p.home t ht) q c (p.role c h);
  }

-- A single bank that is hot or cool has itself as its logical bank; a bank with another logical
-- bank is the source of a pair.
pub source_of_logical :
    (n b : ℕ) (s : ℕ → Link)
    → Role n s b
    → (s b).logical ≢ b
    → IsPair s b (s b).logical × ((s b).logical < n)
source_of_logical n b s (single h) ne = absurd (ne h.1)
source_of_logical n b s (source t ht h) ne = subst (λ x. IsPair s b x × (x < n)) (sym h.2) (h, ht)
source_of_logical n b s (target a ha h) ne = absurd (ne h.5)

pub IsSingle-of_free : (n b : ℕ) (s : ℕ → Link) → Role n s b → (s b).combined ≡ false → IsSingle s b
IsSingle-of_free n b s (single h) e = h
IsSingle-of_free n b s (source t ht h) e = ground arith
IsSingle-of_free n b s (target a ha h) e = ground arith

pub remap-lt : (n b : ℕ) (s : ℕ → Link) → b < n → Role n s b → (s b).remap < n
remap-lt n b s hb (single h) = rw h.2 hb
remap-lt n b s hb (source t ht h) = rw h.3 hb
remap-lt n b s hb (target a ha h) = rw h.6 ha

pub logical-lt : (n b : ℕ) (s : ℕ → Link) → b < n → Role n s b → (s b).logical < n
logical-lt n b s hb (single h) = rw h.1 hb
logical-lt n b s hb (source t ht h) = rw h.2 ht
logical-lt n b s hb (target a ha h) = rw h.5 hb

-- Two banks that share a logical bank are one, or one of them is that bank.
pub logical_shared :
    (n a b : ℕ) (s : ℕ → Link)
    → Role n s a
    → Role n s b
    → (s a).logical ≡ (s b).logical
    → (a ≡ b) ⊎ ((s a).logical ≡ a) ⊎ ((s b).logical ≡ b)
logical_shared n a b s (source t ht h) (source u hu k) e = inl (ground arith)
logical_shared n a b s (single h) r e = inr (inl h.1)
logical_shared n a b s (target u hu h) r e = inr (inl h.5)
logical_shared n a b s (source t ht h) (single k) e = inr (inr k.1)
logical_shared n a b s (source t ht h) (target u hu k) e = inr (inr k.5)
