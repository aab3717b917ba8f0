-- ===== src/Ifttt.antt =====
-- apps/ifttt.c: the webhook URL and the request. A C string is the list of its characters
-- without the closing 0, in a character set that has ASCII's codes below 128.
pub mod Encoding
pub mod Url
pub mod Trigger
mod Tests
use ip.Common.{ℕ, ◌+◌, ◌-◌, ◌*◌, ◌/◌, ◌%◌, ◌^◌, Bool, true, false, ◌||◌}
use ip.Common.{Option, none, some, List, [], ◌∷◌, ◌++◌, map, ltb, ◌==◌, if◌then◌else◌, length, drop}
use ip.Common.Chars.{codes, is_alnum, is_digit}
use ip.Common.Int.{ℤ, signed16, neg16, negsuc}

pub is_clean : ℕ → Bool
is_clean c = c == b'*' || c == b'-' || c == b'.' || c == b'_'

-- One digit of `%02X`.
pub hex_digit : ℕ → ℕ
hex_digit d = if ltb d 10 then b'0' + d else b'A' + (d - 10)

-- `sprintf(url, "%%%02X", v)` for a byte `v`.
abbrev pub escape : ℕ → List ℕ
escape v = b'%' ∷ hex_digit (v / 16) ∷ hex_digit (v % 16) ∷ []

-- The rounds of the loop of `querystrcat`: what it stores from `*url` on.
pub encode : (ℕ → ℕ) → List ℕ → List ℕ
unfolding is_clean hex_digit
encode to_ascii [] = []
encode to_ascii (c ∷ val) =
    let rest = encode to_ascii val in
    if is_alnum c || is_clean c
    then c ∷ rest
    else (if c == b' ' then b'+' ∷ rest else escape (to_ascii c) ++ rest)

pub querystrcat : (ℕ → ℕ) → List ℕ → Option (List ℕ) → List ℕ
querystrcat to_ascii url none = url
querystrcat to_ascii url (some val) = url ++ encode to_ascii val

-- The text in `url` before the final loop over it.
pub compose : (ℕ → ℕ) → (key event : List ℕ) → (val1 val2 val3 : Option (List ℕ)) → List ℕ
compose to_ascii key event val1 val2 val3 =
    let base =
      (((codes "http://maker.ifttt.com/trigger/" ++ event) ++ codes "/with/key/") ++ key)
      ++ codes "?value1=" in
    let url1 = querystrcat to_ascii base val1 in
    let url2 = querystrcat to_ascii (url1 ++ codes "&value2=") val2 in
    querystrcat to_ascii (url2 ++ codes "&value3=") val3

pub is_space : ℕ → Bool
is_space c = c == 32 || c == 9 || c == 10 || c == 11 || c == 12 || c == 13

-- The digits that `atoi` reads, in 16 bits.
pub digits_from : ℕ → List ℕ → ℕ
digits_from acc [] = acc
digits_from acc (c ∷ s) =
    let more = digits_from ((acc * 10 + (c - b'0')) % 2 ^ 16) s in if is_digit c then more else acc

-- `atoi`, as a 16-bit pattern.
pub atoi : List ℕ → ℕ
unfolding is_space digits_from
atoi [] = 0
atoi (c ∷ s) =
    let rest = atoi s in
    if is_space c
    then rest
    else (if c == b'-'
        then neg16 (digits_from 0 s)
        else (if c == b'+' then digits_from 0 s else digits_from 0 (c ∷ s)))

-- What a call leaves: the returned `int`, the code that it stored in `ip65_error`, if it stored
-- one, and the URL that it passed to `url_download`, if it made the call.
pub record Outcome : Type 0 where
  pub result : ℤ
  pub error : Option ℕ
  pub requested : Option (List ℕ)

-- `url_download` of ip65: the length of the response and the text left in the buffer, and the code
-- that it stored in `ip65_error`, if it stored one.
abbrev pub Download : Type 0
Download = List ℕ → (ℕ × List ℕ) × Option ℕ

abbrev pub malformed_url : ℕ
malformed_url = 0xA0

abbrev pub minus_one : ℤ
minus_one = negsuc 0

-- The end of `ifttt_trigger`: what it makes of the answer.
pub status_of : ℕ × List ℕ → ℤ
status_of (len, text) = if ltb len 12 then minus_one else signed16 (atoi (drop 9 text))

pub ifttt_trigger :
    (ℕ → ℕ) → Download → (key event : List ℕ) → (val1 val2 val3 : Option (List ℕ)) → Outcome
unfolding encode querystrcat compose atoi status_of
ifttt_trigger to_ascii url_download key event val1 val2 val3 =
    let url = map to_ascii (compose to_ascii key event val1 val2 val3) in
    if ltb 1400 (length url)
    then record { result = minus_one; error = some malformed_url; requested = none }
    else (let (answer, error) = url_download url in
        record { result = status_of answer; error = error; requested = some url })
