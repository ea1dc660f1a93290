-- ===== src/Remapping/Runs.antt =====
-- Histories of a manager: what the controller of the stacked DRAM calls, in any order.
use sniper_zip.Prelude.{ℕ, ◌*◌, ◌<◌, refl, Bool, List, [], ◌∷◌, arith, u32_of_lt}
use mathlib.Core.Path.{fun_ext}
use sniper_zip.Remapping.{
  RemappingManager, new_manager, set_remap_config, update_temperature, access_row, reset_stats,
}
use sniper_zip.Remapping.Bank.{new_bank}
use sniper_zip.Remapping.Bank
use sniper_zip.Remapping.Mechanism.{run_mechanism}
use sniper_zip.Remapping.Pairing.{single}
use sniper_zip.Remapping.Operations.{IsSafe, IsSafe-same, reset_stats-IsSafe}
use sniper_zip.Remapping.Safety.{IsShaped, run_mechanism-IsSafe}

pub data Event : Type 0 where
  heats : ℕ → ℕ → ℕ → Event
  accesses : Bool → ℕ → ℕ → ℕ → Event
  resets : Bool → Event
  manages : Event

unfoldable pub apply : Event → RemappingManager → RemappingManager
unfolding update_temperature access_row reset_stats run_mechanism
apply (heats v b temp) m = update_temperature v b temp m
apply (accesses remapped v b r) m = access_row remapped v b r m
apply (resets reset) m = reset_stats reset m
apply manages m = run_mechanism m

unfoldable pub run : List Event → RemappingManager → RemappingManager
unfolding apply
run [] m = m
run (e ∷ es) m = run es (apply e m)

-- The manager as the controller sets it up.
unfoldable pub configured : ℕ → ℕ → ℕ → ℕ → ℕ → Bool → ℕ → ℕ → ℕ → ℕ → RemappingManager
unfolding new_manager set_remap_config
configured temp_unit nv nb nr n_remap inter_vault high dangerous remap init =
    set_remap_config n_remap inter_vault high dangerous remap init (new_manager temp_unit nv nb nr)

update_temperature-IsSafe :
    {n nb k : ℕ} (v b temp : ℕ) (m : RemappingManager)
    → IsSafe n nb k m
    → IsSafe n nb k (update_temperature v b temp m)
unfolding update_temperature
update_temperature-IsSafe v b temp m s =
    IsSafe-same s
      (record {
        banks = refl;
        vault_banks = refl;
        policy = refl;
        placed = λ j. ground arith;
        quiet = refl;
      })
      refl

access_row-IsSafe :
    {n nb k : ℕ} (remapped : Bool) (v b r : ℕ) (m : RemappingManager)
    → IsSafe n nb k m
    → IsSafe n nb k (access_row remapped v b r m)
unfolding access_row Bank.access_row
access_row-IsSafe remapped v b r m s =
    IsSafe-same s
      (record {
        banks = refl;
        vault_banks = refl;
        policy = refl;
        placed = λ j. ground arith;
        quiet = refl;
      })
      (fun_ext (λ j. ground arith))

apply-IsSafe :
    {nv nb n k : ℕ} (e : Event) (m : RemappingManager)
    → IsShaped nv nb n
    → k < 3
    → IsSafe n nb k m
    → IsSafe n nb k (apply e m)
unfolding apply
apply-IsSafe (heats v b temp) m h hk s = update_temperature-IsSafe v b temp m s
apply-IsSafe (accesses remapped v b r) m h hk s = access_row-IsSafe remapped v b r m s
apply-IsSafe (resets reset) m h hk s = reset_stats-IsSafe reset m hk s
apply-IsSafe manages m h hk s = run_mechanism-IsSafe h m hk s

run-IsSafe :
    {nv nb n k : ℕ} (es : List Event) (m : RemappingManager)
    → IsShaped nv nb n
    → k < 3
    → IsSafe n nb k m
    → IsSafe n nb k (run es m)
unfolding run
run-IsSafe [] m h hk s = s
run-IsSafe (e ∷ es) m h hk s = run-IsSafe es (apply e m) h hk (apply-IsSafe e m h hk s)

configured-IsSafe :
    (temp_unit nv nb nr k : ℕ) (inter : Bool) (hi da re it : ℕ)
    → nv * nb < 4294967296
    → IsSafe (nv * nb) nb k (configured temp_unit nv nb nr k inter hi da re it)
unfolding configured new_bank
configured-IsSafe temp_unit nv nb nr k inter hi da re it small = record {
  banks = u32_of_lt (nv * nb) small;
  vault_banks = refl;
  policy = refl;
  placed = λ j. refl;
  quiet = refl;
  paired = record { home = λ b h. refl; role = λ b h. single (refl, refl, refl) };
}

-- After any sequence of temperature updates, accesses, resets and runs of the mechanism, under
-- policy 0, 1 or 2 and with less than 2^32 banks in vaults of at least one bank: every bank keeps its
-- own physical bank; every bank stands alone or in one pair of two banks of the table, as source or
-- as target; and no error was printed.
pub run-configured-IsSafe :
    (es : List Event) (temp_unit nv nb nr k : ℕ) (inter : Bool) (hi da re it : ℕ)
    → k < 3
    → 0 < nb
    → nv * nb < 4294967296
    → IsSafe (nv * nb) nb k (run es (configured temp_unit nv nb nr k inter hi da re it))
run-configured-IsSafe es temp_unit nv nb nr k inter hi da re it hk hb small =
    run-IsSafe es _ (record { total = refl; some_banks = hb; small = small }) hk
      (configured-IsSafe temp_unit nv nb nr k inter hi da re it small)
