-- ===== src/Watchdog/Pool/Tests.antt =====
-- Runs of the watchdog's pool of slots.
use lua_ext.Base.{◌≡◌, refl, true, some, List, [], ◌∷◌, ltb}
use lua_ext.Watchdog.Pool.{
  Supply, Turn, taking, giving, fill_block, pool_take, pool_give, turn, turns, started,
}
use lua_ext.Base.Counts.{occurrences}
use lua_ext.Watchdog.Pool.Exclusive.{handed_out_once}

abbrev plenty : Supply
plenty = record { block_made = true; lock_made = λ i. true }

-- A mutex of the block cannot be made.
abbrev unlucky : Supply
unlucky = record { block_made = true; lock_made = λ i. ltb i 5 }

abbrev two_taken : List Turn
two_taken = taking plenty ∷ taking plenty ∷ giving 63 ∷ []

given_again : (pool_take plenty (turns two_taken (started true)).pool).slot ≡ some 63
unfolding fill_block pool_take pool_give turn turns
given_again = refl

-- The slots of a block that fails are all given up.
block_fails : (turns (taking unlucky ∷ []) (started true)).held ≡ []
unfolding fill_block pool_take turn turns
block_fails = refl

handed_out_once_example : occurrences 63 (turns two_taken (started true)).held ≡ 0
handed_out_once_example = handed_out_once two_taken true plenty 63 given_again
