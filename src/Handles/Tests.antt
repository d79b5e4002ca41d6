-- ===== src/Handles/Tests.antt =====
-- src/handles.h at concrete tables: the theorems applied, and a few runs.
use mathlib.Core.List.{Mem}
use source2root.Base.{ℕ, ◌≡◌, ◌<◌, ◌^◌, ◌↔◌, refl, List, [], ◌∷◌, ok, true, false, arith, ◌&&◌, set}
use source2root.Base.Text.{pos}
use source2root.Handles.Id.{encode}
use source2root.Handles.{
  Entry, cleared, Call, adds, removes, add, append, claim, check, get, contains, remove, retire,
  owned, step, run,
}
use source2root.Handles.Cases.{new_entry}
use source2root.Handles.Invariant.{Inv, run-Inv}
use source2root.Handles.Lookup.{get-add, add-id}
use source2root.Handles.Stale.{removed_stays_invalid}
use source2root.Handles.Owners.{contains-retire, mem-owned}

abbrev calls : List (Call ℕ)
calls = adds 5 1 42 ∷ adds 6 2 43 ∷ removes (pos 4097) 5 1 ∷ []

-- Slot 1 is free at generation 1, slot 2 holds 43 for owner 6.
abbrev table : List (Entry ℕ)
table =
    record { generation = 1; type = 0; owner = 0; value = 0 }
    ∷ record { generation = 1; type = 2; owner = 6; value = 43 }
    ∷ []

abbrev reused_table : List (Entry ℕ)
reused_table =
    record { generation = 2; type = 3; owner = 7; value = 44 }
    ∷ record { generation = 1; type = 2; owner = 6; value = 43 }
    ∷ []

run-calls : run 0 [] calls ≡ table
unfolding run step add append claim remove check encode
run-calls = refl

table-Inv : Inv table
unfolding run step add append claim remove check encode
table-Inv = run-Inv 0 calls

add_reuses : add 7 3 44 table ≡ ok (pos 8193, reused_table)
unfolding add append claim encode
add_reuses = refl

run-Inv_example : Inv (run 0 [] calls)
run-Inv_example = run-Inv 0 calls

get-add_example : get (pos 8193) 7 3 reused_table ≡ ok 44
get-add_example = get-add 7 3 44 table reused_table (pos 8193) table-Inv add_reuses

get_43 : get (pos 4098) 6 2 table ≡ ok 43
unfolding get check
get_43 = refl

add-id_example :
    (n : ℕ) × (pos 8193 ≡ pos n)
    × (0 < n)
    × (n < 2 ^ 31)
    × ((o t : ℕ) → contains (pos 8193) o t table ≡ false)
add-id_example = add-id 7 3 44 table reused_table (pos 8193) table-Inv add_reuses

remove_43 : remove 0 (pos 4098) 6 2 table ≡ ok (43, set table 1 (cleared 0 (new_entry 6 2 43 1)))
unfolding remove check
remove_43 = refl

removed_stays_invalid_example :
    contains
      (pos 4098)
      6
      2
      (run 0 (set table 1 (cleared 0 (new_entry 6 2 43 1))) (adds 6 2 50 ∷ adds 6 2 51 ∷ []))
    ≡ false
removed_stays_invalid_example =
    removed_stays_invalid 0 (pos 4098) 6 2 6 2 43 table _ (adds 6 2 50 ∷ adds 6 2 51 ∷ []) remove_43

contains-retire_example :
    contains (pos 4098) 6 2 (retire 0 6 0 table).1 ≡ (contains (pos 4098) 6 2 table && false)
contains-retire_example = contains-retire 0 (pos 4098) 6 2 6 0 table

mem-owned_example : (contains (pos 4098) 6 2 table ≡ true) ↔ Mem (pos 4098) (owned 6 2 table)
mem-owned_example =
    mem-owned table table-Inv 6 2 4098 (λ e. omega arith) (λ e. omega arith) (omega arith)
