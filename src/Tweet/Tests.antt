-- ===== src/Tweet/Tests.antt =====
-- apps/tweet65.c: keys with a deletion, and more characters than there is room for.
use ip.Common.{ℕ, ◌≡◌, refl, List, [], ◌∷◌, ◌++◌, some, replicate, arith}
use ip.Common.Chars.{codes}
use ip.Tweet.{Line, input}
use ip.Tweet.Typing.{Fits, string_of, typed, input-typed}

abbrev empty : Line
empty = record { str = replicate 5 255; len = 0 }

abbrev keys : List ℕ
keys = codes "ab" ++ 127 ∷ codes "cdefg" ++ 13 ∷ []

empty-Fits : Fits 4 empty
unfolding ip.Tweet.Typing.IsText
empty-Fits = record { len-le = omega arith; room = omega arith; text = tt }

input-typed_example : string_of (input 127 13 4 keys empty) ≡ typed 127 13 4 keys []
input-typed_example = input-typed 127 13 4 keys empty empty-Fits

input_full : string_of (input 127 13 4 keys empty) ≡ some (codes "acde")
unfolding input ip.Tweet.Typing.c_string
input_full = refl
