-- ===== src/PageTable.antt =====
-- The page table of the DRAM cache controller, and how it takes addresses apart:
-- `StackDramCacheCntlrUnison::translateAddress` and `SplitAddress` of
-- performance_model/dram_perf_model_normal.cc. The std::map is a function of the key; `floor_log2` is
-- not under the repository and is a parameter.
pub mod Distinct
use sniper_zip.Prelude.{
  ℕ, ◌+◌, ◌*◌, ◌/◌, ◌%◌, ◌^◌, Option, none, some, List, [], ◌∷◌, update, u32, u64,
}
use Prim.Native.Nat.{bit_or}

pub record PageTable : Type 0 where
  pub page_table : ℕ → Option ℕ
  pub avail_phy_page_tag : ℕ

-- As the constructor of the controller leaves it.
unfoldable pub new_pages : PageTable
new_pages = record { page_table = λ v. none; avail_phy_page_tag = 0 }

-- (p_tag << 12) | offset, on 64 bits.
unfoldable pub page_address : ℕ → ℕ → ℕ
page_address p_tag offset = bit_or (u64 (p_tag * 2 ^ 12)) offset

-- `translateAddress`: the table, and the physical address.
unfoldable pub translate_address : ℕ → PageTable → PageTable × ℕ
unfolding page_address
translate_address address t =
    let offset = address % 2 ^ 12 in
    let v_tag = address / 2 ^ 12 in
    elim (t.page_table v_tag) [
      | some p_tag ↦ (t, page_address p_tag offset)
      | none ↦ (
        record {
          page_table = update t.page_table v_tag (some t.avail_phy_page_tag);
          avail_phy_page_tag = u32 (t.avail_phy_page_tag + 1);
        },
        page_address t.avail_phy_page_tag offset,
      )
    ]

pub record Split : Type 0 where
  pub set_n : ℕ
  pub page_tag : ℕ
  pub page_offset : ℕ

-- `SplitAddress`, in a cache of `set_num` sets and pages of `pagesize` bytes.
unfoldable pub split_address : (ℕ → ℕ) → ℕ → ℕ → ℕ → PageTable → PageTable × Split
unfolding translate_address
split_address floor_log2 set_num pagesize v_address t =
    let r = translate_address v_address t in
    let addr = r.1 / pagesize in
    (
      r.0,
      record {
        set_n = u32 (addr % 2 ^ floor_log2 set_num);
        page_tag = addr;
        page_offset = r.1 % pagesize;
      },
    )

-- The table after some addresses.
unfoldable pub translate_all : List ℕ → PageTable → PageTable
unfolding translate_address
translate_all [] t = t
translate_all (a ∷ rest) t = translate_all rest (translate_address a t).0
