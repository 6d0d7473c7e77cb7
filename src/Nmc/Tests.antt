-- ===== src/Nmc/Tests.antt =====
-- Runs of the network message cache at concrete states.
use meshx.Base.{◌≡◌, refl, true, false, some, List, [], ◌∷◌, arith}
use meshx.Base.Errno.{success}
use meshx.Nmc.{Msg, Nmc, zero_msg, init, deinit, add, clear, check}
use meshx.Nmc.Ring.{IsValid, contents, add_lem}

abbrev a : Msg
a = record { src = 1; seq = 1 }

abbrev b : Msg
b = record { src = 1; seq = 2 }

abbrev c : Msg
c = record { src = 2; seq = 1 }

abbrev one : Nmc
one = record {
  nmc_array = some (a ∷ zero_msg ∷ []);
  nmc_index = 1;
  nmc_circle = false;
  nmc_size = 2;
}

-- The ring once round: `b` was overwritten first.
abbrev turned : Nmc
turned = record { nmc_array = some (c ∷ a ∷ []); nmc_index = 1; nmc_circle = true; nmc_size = 2 }

init_zeroes :
    init true 1 (deinit one)
    ≡ some (
      success,
      record { nmc_array = some (zero_msg ∷ []); nmc_index = 0; nmc_circle = false; nmc_size = 1 },
    )
unfolding init deinit
init_zeroes = refl

clear_zeroes : clear turned ≡ record {
  nmc_array = some (zero_msg ∷ zero_msg ∷ []);
  nmc_index = 0;
  nmc_circle = false;
  nmc_size = 2;
}
unfolding clear
clear_zeroes = refl

check_tests :
    (check a one ≡ some false) × (check c turned ≡ some false) × (check a turned ≡ some true)
unfolding check
check_tests = (refl, refl, refl)

turned-IsValid : IsValid turned (c ∷ a ∷ [])
turned-IsValid = record {
  present = refl;
  size = refl;
  used = omega arith;
  positive = omega arith;
  small = omega arith;
}

one-IsValid : IsValid one (a ∷ zero_msg ∷ [])
one-IsValid = record {
  present = refl;
  size = refl;
  used = omega arith;
  positive = omega arith;
  small = omega arith;
}

add_lem_example :
    (t : Nmc) × (ys : List Msg) × (add b turned ≡ some (success, t))
    × IsValid t ys
    × (contents t ys ≡ c ∷ b ∷ [])
add_lem_example = add_lem turned (c ∷ a ∷ []) b turned-IsValid
