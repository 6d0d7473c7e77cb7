-- ===== src/Rpl/Tests.antt =====
-- Runs of the replay protection list at concrete states.
use meshx.Base.{Bool, ◌≡◌, refl, true, false, none, some, List, [], ◌∷◌, replicate, arith}
use meshx.Base.Errno.{success}
use meshx.Rpl.{
  Entry, Rpl, zero_entry, init, update, store, search, check, check_from, clear, deinit, is_full,
}
use meshx.Rpl.Inv.{IsValid, check_lem, search-forever, Accepted, entries}
use meshx.Rpl.Replay.{first_of, replay_accepted}

abbrev old : Entry
old = record { src = 5; seq = 10; iv_index = 1 }

abbrev slots : List Entry
slots = old ∷ zero_entry ∷ zero_entry ∷ []

abbrev one : Rpl
one = record { rpl_array = some slots; rpl_index = 1; rpl_size = 3 }

abbrev newer : Entry
newer = record { src = 5; seq = 11; iv_index = 1 }

abbrev stranger : Entry
stranger = record { src = 6; seq = 3; iv_index = 1 }

-- A full list.
abbrev full : Rpl
full = record { rpl_array = some (old ∷ []); rpl_index = 1; rpl_size = 1 }

init_zeroes :
    init true 1 (deinit one)
    ≡ some (success, record { rpl_array = some (zero_entry ∷ []); rpl_index = 0; rpl_size = 1 })
unfolding init deinit
init_zeroes = refl

clear_zeroes :
    clear full ≡ record { rpl_array = some (zero_entry ∷ []); rpl_index = 0; rpl_size = 1 }
unfolding clear
clear_zeroes = refl

is_full_tests : (is_full one ≡ some false) × (is_full full ≡ some true)
unfolding is_full
is_full_tests = (refl, refl)

update_duplicates :
    update newer one
    ≡ some (
      success,
      record { rpl_array = some (old ∷ newer ∷ zero_entry ∷ []); rpl_index = 2; rpl_size = 3 },
    )
unfolding update search store
update_duplicates = refl

one-IsValid : IsValid one slots
one-IsValid = record {
  present = refl;
  size = refl;
  used = omega arith;
  small = omega arith;
  spare = omega arith;
}

full-IsValid : IsValid full (old ∷ [])
full-IsValid = record {
  present = refl;
  size = refl;
  used = omega arith;
  small = omega arith;
  spare = tt;
}

check_lem_example :
    (b : Bool) × (check newer one ≡ some b)
    × (b ≡ true → Accepted newer (entries one slots))
    × (Accepted newer (entries one slots) → b ≡ true)
check_lem_example = check_lem one slots newer one-IsValid

replay_accepted_example :
    (t : Rpl) × (update newer one ≡ some (success, t)) × (check newer t ≡ some true)
unfolding first_of check check_from
replay_accepted_example =
    replay_accepted one slots newer one-IsValid (omega arith) (omega arith) (omega arith) old refl
      refl

-- A list of 300 slots with 256 in use.
abbrev many : List Entry
many = replicate 300 zero_entry

abbrev crowded : Rpl
crowded = record { rpl_array = some many; rpl_index = 256; rpl_size = 300 }

crowded-IsValid : IsValid crowded many
crowded-IsValid = record {
  present = refl;
  size = refl;
  used = omega arith;
  small = omega arith;
  spare = omega arith;
}

search-forever_example : search 1000 5 256 many 0 ≡ none
search-forever_example =
    search-forever crowded many 5 0 1000 crowded-IsValid (omega arith) (omega arith) (omega arith)
      (omega arith)
