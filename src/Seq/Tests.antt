-- ===== src/Seq/Tests.antt =====
-- Runs of the sequence module at concrete states.
use meshx.Base.{◌≡◌, refl, true, false, none, some, [], ◌∷◌, arith}
use meshx.Base.Errno.{success, mem, already}
use meshx.Seq.{Seqs, init, deinit, use_seq}
use meshx.Seq.Inv.{IsValid, init-IsValid}

-- Two elements; the second is about to run out.
abbrev two : Seqs
two = record { seq_array = some (7 ∷ 0xFFFFFE ∷ []); element_num = 2 }

abbrev empty : Seqs
empty = record { seq_array = none; element_num = 0 }

init_twice :
    (init true 2 empty ≡ (success, record { seq_array = some (0 ∷ 0 ∷ []); element_num = 2 }))
    × (init false 2 empty ≡ (mem, empty))
    × (init true 2 two ≡ (already, two))
unfolding init
init_twice = (refl, refl, refl)

deinit_empties : deinit two ≡ empty
unfolding deinit
deinit_empties = refl

use_advances : use_seq 0 two ≡ some (7, record two { seq_array = some (8 ∷ 0xFFFFFE ∷ []) })
unfolding use_seq
use_advances = refl

use_uninitialised : use_seq 0 empty ≡ none
unfolding use_seq
use_uninitialised = refl

two-IsValid : IsValid two
two-IsValid = (refl, omega arith)

init-IsValid_example : IsValid (init true 2 two).1
init-IsValid_example = init-IsValid true 2 two two-IsValid
