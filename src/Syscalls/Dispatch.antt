-- ===== src/Syscalls/Dispatch.antt =====
-- What stands in the table of src/proc/syscalls.c after calls are set.
use just_kernel.Base.{ℕ, ◌<◌, ◌≡◌, ◌≢◌, refl, false, List, [], ◌∷◌, leb, arith}
use just_kernel.Syscalls.{Table, syscalls_set}

-- Calls set one after the other.
unfoldable pub set_all : List (ℕ × ℕ) → Table → Table
set_all [] table = table
set_all ((num, call) ∷ sets) table = set_all sets (syscalls_set num call table)

-- A number that no entry of the list sets.
abbrev pub IsUnset : ℕ → List (ℕ × ℕ) → Type 0
IsUnset num [] = Unit
IsUnset num ((other, call) ∷ sets) = (other ≢ num) × IsUnset num sets

set_all-unset :
    (num : ℕ) (sets : List (ℕ × ℕ)) (table : Table)
    → IsUnset num sets
    → set_all sets table num ≡ table num
unfolding set_all syscalls_set
set_all-unset num [] table unset = refl
set_all-unset num ((other, call) ∷ sets) table (apart, unset) =
    ground (arith, set_all-unset num sets (syscalls_set other call table) unset)

-- A number below 256 has the call that was last set for it.
pub set_all-syscalls_set :
    (num call : ℕ) (sets : List (ℕ × ℕ)) (table : Table)
    → num < 256
    → IsUnset num sets
    → set_all sets (syscalls_set num call table) num ≡ call
unfolding syscalls_set
set_all-syscalls_set num call sets table small unset =
    let kept = set_all-unset num sets (syscalls_set num call table) unset in
    let inside : leb 256 num ≡ false = ground arith in ground (arith, kept)
