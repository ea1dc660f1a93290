-- ===== src/Controller/Kept.antt =====
-- What an access to the DRAM leaves as it was: the bits of the banks, their logical banks, and the set
-- numbers.
use sniper_zip.Prelude.{
  ℕ, ◌≡◌, refl, sym, ap, ◌∙◌, Bool, ◌==◌, update, for_range_inv, if_rule, arith,
}
use sniper_zip.DramVault.{Access, read, write}
use sniper_zip.Remapping
use sniper_zip.Remapping.{RemappingManager, get_bank_id, get_logical_index}
use sniper_zip.Remapping.Bank.{BankStat}
use sniper_zip.StackedDram.{
  Config, StackedDram, Index, Served, get_set_num, check_row_valid, check_row_disabled,
  check_set_num, split_set_num, get_remap_set,
}
use sniper_zip.StackedDram.Latency.{Costs, rounds_of, serve, count_access, get_access_latency}
use sniper_zip.Controller.{access_step, handle_dram_access}

-- Two managers with the same sizes, bits of the banks and logical banks.
record IsSame (m m' : RemappingManager) : Type 0 where
  n_banks : m'.n_banks ≡ m.n_banks
  n_rows : m'.n_rows ≡ m.n_rows
  valid : (i : ℕ) → (m'.bank_stat i).valid ≡ (m.bank_stat i).valid
  disabled : (i : ℕ) → (m'.bank_stat i).disabled ≡ (m.bank_stat i).disabled
  logical_id : (i : ℕ) → (m'.bank_stat i).logical_id ≡ (m.bank_stat i).logical_id

-- An access to a row of a bank changes its counters alone.
bank-access_row :
    {A : Type 0} (f : BankStat → A) (id r i : ℕ) (banks : ℕ → BankStat)
    → f (Remapping.Bank.access_row r (banks id)) ≡ f (banks id)
    → f (update banks id (Remapping.Bank.access_row r (banks id)) i) ≡ f (banks i)
bank-access_row f id r i banks h =
    if_rule (λ (x : BankStat). f x ≡ f (banks i)) (i == id) (Remapping.Bank.access_row r (banks id))
      (banks i)
      (λ e. let same : i ≡ id = ground arith in h ∙ ap (λ (j : ℕ). f (banks j)) (sym same))
      (λ e. refl)

access_row-IsSame :
    (remapped : Bool) (v b r : ℕ) (m : RemappingManager)
    → IsSame m (Remapping.access_row remapped v b r m)
unfolding Remapping.access_row Remapping.Bank.access_row
access_row-IsSame remapped v b r m =
    let id = get_bank_id v b m in
    record {
      n_banks = refl;
      n_rows = refl;
      valid = λ i. bank-access_row (λ x. x.valid) id r i m.bank_stat refl;
      disabled = λ i. bank-access_row (λ x. x.disabled) id r i m.bank_stat refl;
      logical_id = λ i. bank-access_row (λ x. x.logical_id) id r i m.bank_stat refl;
    }

check_valid-IsSame :
    (v b r : ℕ) (m m' : RemappingManager)
    → IsSame m m'
    → Remapping.check_valid v b r m' ≡ Remapping.check_valid v b r m
unfolding Remapping.check_valid get_bank_id
check_valid-IsSame v b r m m' h = rw h.n_banks (h.valid _)

check_disabled-IsSame :
    (v b r : ℕ) (m m' : RemappingManager)
    → IsSame m m'
    → Remapping.check_disabled v b r m' ≡ Remapping.check_disabled v b r m
unfolding Remapping.check_disabled get_bank_id
check_disabled-IsSame v b r m m' h = rw h.n_banks (h.disabled _)

get_logical_index-IsSame :
    (v b r : ℕ) (m m' : RemappingManager)
    → IsSame m m'
    → get_logical_index v b r m' ≡ get_logical_index v b r m
unfolding get_logical_index get_bank_id Remapping.split_id
get_logical_index-IsSame v b r m m' h = rw (h.n_banks, h.n_rows, h.logical_id _)

-- What two states of the DRAM have in common.
pub record Keeps (d d' : StackedDram) : Type 0 where
  pub remapped : d'.remapped ≡ d.remapped
  pub split : (c : Config) (x : ℕ) → split_set_num c d' x ≡ split_set_num c d x
  pub disabled : (v b r : ℕ) → check_row_disabled v b r d' ≡ check_row_disabled v b r d
  pub logical : (v b r : ℕ) → get_logical_index v b r d'.manager ≡ get_logical_index v b r d.manager
  pub valid : (v b r : ℕ) → check_row_valid v b r d' ≡ check_row_valid v b r d
  pub set_num : (c : Config) (i : Index) → get_set_num c d' i ≡ get_set_num c d i

pub Keeps-refl : (d : StackedDram) → Keeps d d
Keeps-refl d = record {
  remapped = refl;
  split = λ c x. refl;
  disabled = λ v b r. refl;
  logical = λ v b r. refl;
  valid = λ v b r. refl;
  set_num = λ c i. refl;
}

pub Keeps-trans : (d e f : StackedDram) → Keeps d e → Keeps e f → Keeps d f
Keeps-trans d e f h k = record {
  remapped = k.remapped ∙ h.remapped;
  split = λ c x. k.split c x ∙ h.split c x;
  disabled = λ v b r. k.disabled v b r ∙ h.disabled v b r;
  logical = λ v b r. k.logical v b r ∙ h.logical v b r;
  valid = λ v b r. k.valid v b r ∙ h.valid v b r;
  set_num = λ c i. k.set_num c i ∙ h.set_num c i;
}

-- The same sizes, flag and manager.
record IsLike (d d' : StackedDram) : Type 0 where
  remapped : d'.remapped ≡ d.remapped
  split : (c : Config) (x : ℕ) → split_set_num c d' x ≡ split_set_num c d x
  set_num : (c : Config) (i : Index) → get_set_num c d' i ≡ get_set_num c d i
  manager : IsSame d.manager d'.manager

IsLike-Keeps : (d d' : StackedDram) → IsLike d d' → Keeps d d'
unfolding check_row_disabled check_row_valid
IsLike-Keeps d d' h = record {
  remapped = h.remapped;
  split = h.split;
  disabled = λ v b r. check_disabled-IsSame v b r d.manager d'.manager h.manager;
  logical = λ v b r. get_logical_index-IsSame v b r d.manager d'.manager h.manager;
  valid = λ v b r. check_valid-IsSame v b r d.manager d'.manager h.manager;
  set_num = h.set_num;
}

IsSame-refl : (m : RemappingManager) → IsSame m m
IsSame-refl m = record {
  n_banks = refl;
  n_rows = refl;
  valid = λ i. refl;
  disabled = λ i. refl;
  logical_id = λ i. refl;
}

pub check_set_num-Keeps : (c : Config) (x : ℕ) (d : StackedDram) → Keeps d (check_set_num c x d)
unfolding check_set_num get_set_num split_set_num
check_set_num-Keeps c x d = IsLike-Keeps d (check_set_num c x d) (record {
  remapped = refl;
  split = λ c x. refl;
  set_num = λ c i. refl;
  manager = IsSame-refl d.manager;
})

pub get_remap_set-Keeps : (c : Config) (x : ℕ) (d : StackedDram) → Keeps d (get_remap_set c x d).0
unfolding get_remap_set check_set_num get_set_num split_set_num
get_remap_set-Keeps c x d = IsLike-Keeps d (get_remap_set c x d).0 (record {
  remapped = refl;
  split = λ c x. refl;
  set_num = λ c i. refl;
  manager = IsSame-refl d.manager;
})

count_access-Keeps :
    (c : Config) (t x : ℕ) (a : Access) (d : StackedDram) → Keeps d (count_access c t x a d)
unfolding count_access get_set_num split_set_num
count_access-Keeps c t x read d = IsLike-Keeps d (count_access c t x read d) (record {
  remapped = refl;
  split = λ c x. refl;
  set_num = λ c i. refl;
  manager = access_row-IsSame d.remapped _ _ _ d.manager;
})
count_access-Keeps c t x write d = IsLike-Keeps d (count_access c t x write d) (record {
  remapped = refl;
  split = λ c x. refl;
  set_num = λ c i. refl;
  manager = access_row-IsSame d.remapped _ _ _ d.manager;
})

serve-Keeps :
    (costs : Costs) (q : Served) (k : ℕ) (d : StackedDram) (r : StackedDram × ℕ)
    → Keeps d r.0
    → Keeps d (serve costs q k r).0
unfolding serve get_set_num split_set_num
serve-Keeps costs q k d (e, l) h =
    let next : StackedDram = (serve costs q k (e, l)).0 in
    Keeps-trans d e next h (
      IsLike-Keeps e next (record {
        remapped = refl;
        split = λ c x. refl;
        set_num = λ c i. refl;
        manager = IsSame-refl e.manager;
      }))

get_access_latency-Keeps :
    (c : Config) (costs : Costs) (t size x : ℕ) (a : Access) (d : StackedDram)
    → Keeps d (get_access_latency c costs t size x a d).0
unfolding get_access_latency
get_access_latency-Keeps c costs t size x a d =
    for_range_inv (λ (k : ℕ) (r : StackedDram × ℕ). Keeps d r.0) (serve costs _)
      (rounds_of size costs.max_block) 0 (rounds_of size costs.max_block) _
      (λ k r lo hi h. serve-Keeps costs _ k d r h) (omega arith)
      (Keeps-trans d (check_set_num c x d) _ (check_set_num-Keeps c x d)
        (count_access-Keeps c t x a (check_set_num c x d)))

pub handle_dram_access-Keeps :
    (c : Config) (costs : Costs) (t size x : ℕ) (a : Access) (d : StackedDram)
    → Keeps d (handle_dram_access c costs t size x a d).0
unfolding handle_dram_access access_step
handle_dram_access-Keeps c costs t size x a d =
    for_range_inv (λ (k : ℕ) (r : StackedDram × ℕ). Keeps d r.0) (access_step c costs t x a)
      (rounds_of size costs.bandwidth) 0 (rounds_of size costs.bandwidth) (d, 0)
      (λ k r lo hi h. step k r h) (omega arith) (Keeps-refl d)
  where
    step : (k : ℕ) (r : StackedDram × ℕ) → Keeps d r.0 → Keeps d (access_step c costs t x a k r).0
    step k (e, l) h = Keeps-trans d e _ h (get_access_latency-Keeps c costs _ 128 x a e)
