-- ===== src/Scrubber/Tests.antt =====
-- Jumps on concrete snapshots.
use polyquantlab.Common.{◌≡◌, refl, String, List, ℕ, [], ◌∷◌, Option, some, show_nat}
use polyquantlab.Scrubber.{
  jump_to_ts, nearest_loop, apply_manual_input, input_error, jumped, jump_back,
}
use polyquantlab.Scrubber.Book.{
  Scrub, initial_scrub, scrub, fire, settle_book, replied, active_book,
}
use polyquantlab.Scrubber.Nearest.{IsNearest, jump_to_ts-IsNearest}

abbrev some_points : List ℕ
some_points = 100000 ∷ 200000 ∷ 300000 ∷ []

abbrev read_time : String → Option ℕ
read_time s = some 260000

-- 260000 is nearest to the last, and of two as near the first is taken.
jumps :
    (jump_to_ts some_points 260000 ≡ some 2)
    × (jump_to_ts some_points 250000 ≡ some 1)
    × (jump_back (some 300000) 90000 some_points ≡ some 1)
unfolding nearest_loop
jumps = (refl, refl, refl)

inputs :
    (apply_manual_input read_time show_nat "" some_points ≡ input_error "Empty")
    × (apply_manual_input read_time show_nat "t" some_points ≡ jumped (some 2))
    × (apply_manual_input read_time show_nat "t" (1 ∷ 2 ∷ [])
        ≡ input_error "Outside this market's data window (1Z to 2Z)")
unfolding apply_manual_input nearest_loop
inputs = (refl, refl, refl)

jump_to_ts-IsNearest_example : IsNearest some_points 260000 100000 (jump_to_ts some_points 260000)
jump_to_ts-IsNearest_example = jump_to_ts-IsNearest some_points 260000 0 refl

-- Two snapshots are asked for one after the other, and the reply for the first comes last: its book
-- stays on show for the second.
abbrev overtaken : Scrub String
overtaken = settle_book 0 (replied 200 (some "book of t0")) (
    settle_book 0 (replied 200 (some "book of t1")) (
      fire (
        scrub ("t0" ∷ "t1" ∷ []) (some 1)
          (fire (scrub ("t0" ∷ "t1" ∷ []) (some 0) initial_scrub)))))

stale_book :
    (overtaken.index ≡ some 1)
    × (active_book (some "latest") overtaken ≡ some "book of t0")
    × (overtaken.asked ≡ [])
unfolding scrub fire settle_book
stale_book = (refl, refl, refl)
