-- ===== src/Tweet.antt =====
-- apps/tweet65.c: `input`, the line editor, without what it shows on the screen.
pub mod Typing
pub mod Program
mod Tests
use ip.Common.{ℕ, ◌+◌, ◌-◌, List, [], ◌∷◌, ◌==◌, if◌then◌else◌}
use ip.Common.{Option, none, some, set}
use ip.Common.Chars.{is_print}

-- `str` and `len`.
pub record Line : Type 0 where
  pub str : List ℕ
  pub len : ℕ

-- CH_DEL and CH_ENTER of <conio.h>, which the machines differ in.
module _ (del enter : ℕ) (max : ℕ) where
  -- A key that is not CH_ENTER.
  unfoldable pub type_key : ℕ → Line → Line
  unfolding is_print
  type_key chr l =
      if chr == del
      then (if l.len == 0 then l else record l { len = l.len - 1 })
      else (if l.len == max
          then l
          else (if is_print chr
              then record l { str = set l.str l.len chr; len = l.len + 1 }
              else l))

  -- `while (true)` over the keys: the string, and the keys that are left; none if the keys do not
  -- suffice.
  unfoldable pub input : List ℕ → Line → Option (List ℕ × List ℕ)
  unfolding type_key
  input [] l = none
  input (chr ∷ keys) l =
      let next = record l { str = set l.str l.len 0 } in
      let rest = input keys (type_key chr next) in
      if chr == enter then some (next.str, keys) else rest
