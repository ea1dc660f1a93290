-- ===== src/Tests/Segments.antt =====
-- An entry of segments at work, and the theorem about its windows.
use sniper_zip.Prelude.{ℕ, ◌≡◌, refl, List, [], ◌∷◌, arith}
use sniper_zip.Segments.{new_entry, access_all, access_entry, heaviest, weigh}
use sniper_zip.Segments.Window.{AllBelow, IsPartial, IsHeaviest, accesses, codes, access_all_window}

-- Segment 3 is accessed 8 times, segment 0 only 4 times.
abbrev first : ℕ
first = 0

abbrev others : List ℕ
others = 3 ∷ 3 ∷ 5 ∷ 0 ∷ 3 ∷ 1 ∷ 3 ∷ 4 ∷ 4 ∷ 0 ∷ 3 ∷ 5 ∷ 3 ∷ 2 ∷ 0 ∷ 3 ∷ 1 ∷ 3 ∷ 5 ∷ []

below : AllBelow (first ∷ others)
unfolding AllBelow
below = ground arith

entry : IsPartial 0 (λ j. 0) (new_entry 5)
unfolding new_entry
entry = record { counted = refl; each = λ j p. refl; few = λ j p. omega arith; window = refl }

access_all_window_example :
    let r = access_all (first ∷ others) (new_entry 5) in
    IsPartial 0 (λ j. 0) r.0
    × IsHeaviest (λ j. accesses j (first ∷ others)) r.0.tag
    × (r.1 ≡ codes 0 r.0.tag (first ∷ others))
unfolding new_entry
access_all_window_example = access_all_window first others (new_entry 5) refl below entry

segment_3 : (access_all (first ∷ others) (new_entry 5)).0.tag ≡ 3
unfolding access_all access_entry heaviest weigh new_entry
segment_3 = refl
