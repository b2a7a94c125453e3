-- ===== src/Tests/Frame.antt =====
-- The theorems on _frame.py at concrete bytes.
use python_zipline.Base.{◌≡◌, List, [], ◌∷◌, All, arith}
use python_zipline.Base.Outcome.{ok}
use python_zipline.Blocks.Types.{RawOption}
use python_zipline.Frame.{iter_turn, iter_options}
use python_zipline.Frame.Options.{IsOption, region_of, iter_options_loop, iter_options-region_of}

abbrev two_options : List RawOption
two_options =
    record { option_id = 1; value = 104 ∷ 105 ∷ [] }
    ∷ record { option_id = 0x70; value = 1 ∷ 0 ∷ 0 ∷ 0 ∷ [] }
    ∷ []

two_options-All : All IsOption two_options
two_options-All = ((omega arith, omega arith), ((omega arith, omega arith), tt))

iter_options-region_of_example : iter_options (region_of two_options) ≡ ok two_options
iter_options-region_of_example = iter_options-region_of two_options two_options-All

iter_options_loop_example :
    iter_options (1 ∷ 0 ∷ 9 ∷ 0 ∷ 7 ∷ []) ≡ iter_turn (1 ∷ 0 ∷ 9 ∷ 0 ∷ 7 ∷ []) iter_options
iter_options_loop_example = iter_options_loop (1 ∷ 0 ∷ 9 ∷ 0 ∷ 7 ∷ [])
