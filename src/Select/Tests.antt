-- ===== src/Select/Tests.antt =====
-- A run of the select box, and an instance of its theorem.
use polyquantlab.Common.{◌≡◌, refl, arith, String, true, false, List, [], ◌∷◌, none}
use polyquantlab.Select.{Select, at, key, end, enter, handle_input}
use polyquantlab.Select.Choices.{IsRight, handle_input-IsRight}

abbrev options : List String
options = "BTC" ∷ "ETH" ∷ "SOL" ∷ []

abbrev at_last : Select
at_last = record { is_open = true; highlight = at 2 }

end_key :
    handle_input false options (key end) (record { is_open = true; highlight = at 0 })
    ≡ (at_last, none)
unfolding handle_input
end_key = refl

handle_input-IsRight_example : IsRight options (handle_input false options (key enter) at_last)
handle_input-IsRight_example =
    handle_input-IsRight false options (key enter) at_last tt (omega arith)
