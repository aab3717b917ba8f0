-- ===== src/Wget/Name.antt =====
-- apps/wget65.c: the file name that `main` proposes for a URL.
pub mod Laws
mod Tests
use ip.Common.{
  ℕ, zero, suc, ◌+◌, ◌-◌, ◌*◌, ◌/◌, ◌%◌, ◌^◌, ◌<◌, ◌≤◌, ◌≡◌, refl, sym, ◌∙◌, ap, ◌≢◌, ◌↔◌, Bool,
  true, false, not,
}
use ip.Common.{
  ◌&&◌, ◌||◌, Option, none, some, List, [], ◌∷◌, ◌++◌, map, arith, ltb, leb, ◌==◌, Option-cases,
}
use ip.Common.{if◌then◌else◌, length, Bool-cases, inl, inr, bit_and, bit_or, ==_iff, take, drop}
use ip.Common.Chars.{codes, to_upper, is_alpha, is_alnum}

-- `strrchr(arg, '/')`: the character in front of the last slash, and the text behind it. The first
-- argument is the character that stands in front of the text.
behind_slash : ℕ → List ℕ → Option (ℕ × List ℕ)
behind_slash before [] = none
behind_slash before (c ∷ s) = elim (behind_slash c s) [
  | some found ↦ some found
  | none ↦ if c == b'/' then some (before, s) else none
]

-- The loop's variables: `buffer` up to `i`, and the index that `dot` points to.
pub record Scan : Type 0 where
  pub out : List ℕ
  pub dot : Option ℕ

push : ℕ → Scan → Scan
push c st = record st { out = st.out ++ c ∷ [] }

-- Has the name no letter yet, and is this no letter either?
is_skipped : ℕ → Scan → Bool
is_skipped c st = (length st.out == 0) && not (is_alpha c)

-- What a round stores for a character, the test for the first letter passed.
put : ℕ → Scan → Scan
unfolding push
put c st =
    if is_alnum c
    then push (to_upper c) st
    else (if c == b'%'
        then push b'.' st
        else (if c == b'.'
            then record { out = st.out ++ b'.' ∷ []; dot = some (length st.out) }
            else st))

-- A round of `while (*++c)`, but for the step over an encoded character.
pub round : ℕ → Scan → Scan
unfolding put is_skipped
round c st = if is_skipped c st then st else put c st

-- Are the two characters behind this one skipped? (If they are there.)
pub is_code : ℕ → Scan → Bool
unfolding is_skipped
is_code c st = not (is_skipped c st) && c == b'%'

pub scan : List ℕ → Scan → Scan
unfolding round is_code
scan [] st = st
scan (c ∷ []) st = round c st
scan (c ∷ d ∷ []) st = scan (d ∷ []) (round c st)
scan (c ∷ d ∷ e ∷ s) st =
    let skip = scan s (round c st) in
    let on = scan (d ∷ e ∷ s) (round c st) in if is_code c st then skip else on

abbrev empty : Scan
empty = record { out = []; dot = none }

-- `c && c[-1] != '/'`
scan_last : Option (ℕ × List ℕ) → Scan
unfolding scan
scan_last none = empty
scan_last (some (before, s)) = if before == b'/' then empty else scan s empty

-- `sizeof(name) - 1`
abbrev pub name_max : ℕ
name_max = 15

-- `name`, once the begin of the buffer and, where the name is too long, its extension are copied.
pub trim : List ℕ → Option ℕ → List ℕ
trim out none = take name_max out
trim out (some dot) =
    if ltb name_max (length out)
    then (let len = length out - dot in
        let kept = if ltb (name_max - 1) len then name_max - 1 else len in
        take (name_max - kept) out ++ take kept (drop dot out))
    else take name_max out

pub propose_name : ℕ → List ℕ → List ℕ
unfolding behind_slash scan_last trim
propose_name before arg = let st = scan_last (behind_slash before arg) in trim st.out st.dot
