-- ===== src/OlmList/Runs.antt =====
-- Lists of three slots, with room and full.
use libce.Base.{ℕ, ◌≡◌, [], ◌∷◌, ◌++◌, arith}
use libce.Base.Lists.{take, drop}
use libce.OlmList.{OlmList, IsValid, capacity, to_list, insert, insert_front, erase}
use libce.OlmList.Insert.{insert_list, to_list-insert, to_list-insert_front}
use libce.OlmList.Erase.{to_list-erase}

abbrev two_of_three : OlmList ℕ
two_of_three = record { size = 2; data_array = 10 ∷ 20 ∷ 99 ∷ [] }

abbrev full_of_three : OlmList ℕ
full_of_three = record { size = 3; data_array = 10 ∷ 20 ∷ 30 ∷ [] }

abbrev two_of_three-IsValid : IsValid two_of_three
two_of_three-IsValid = record { fits = omega arith }

abbrev full_of_three-IsValid : IsValid full_of_three
full_of_three-IsValid = record { fits = omega arith }

to_list-insert_example :
    to_list (insert full_of_three 1 15)
    ≡ insert_list (capacity full_of_three) (to_list full_of_three) 1 15
to_list-insert_example =
    to_list-insert full_of_three 1 15 full_of_three-IsValid (omega arith) (omega arith)

to_list-insert_front_example :
    to_list (insert_front full_of_three 5)
    ≡ take (capacity full_of_three) (5 ∷ to_list full_of_three)
to_list-insert_front_example =
    to_list-insert_front full_of_three 5 full_of_three-IsValid (omega arith)

to_list-erase_example :
    to_list (erase full_of_three 1)
    ≡ take 1 (to_list full_of_three) ++ drop 2 (to_list full_of_three)
to_list-erase_example = to_list-erase full_of_three 1 full_of_three-IsValid (omega arith)
