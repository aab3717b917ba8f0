-- ===== src/Ifttt/Trigger.antt =====
-- `ifttt_trigger`: the limits of the URL, and the status read from the response.
use ip.Common.{ℕ, ◌+◌, ◌-◌, ◌*◌, ◌%◌, ◌^◌, ◌<◌, ◌≤◌, ◌≡◌, refl, ap, false}
use ip.Common.{Option, none, some, List, [], ◌∷◌, ◌++◌, map, arith, ltb}
use ip.Common.{if◌then◌else◌, length, length-append, length-map, drop-append_self}
use ip.Common.Chars.{codes, is_digit}
use ip.Common.Int.{pos}
use ip.Ifttt.{encode, querystrcat, compose, ifttt_trigger, Download}
use ip.Ifttt.{minus_one, atoi, digits_from, is_space, status_of}
use ip.Ifttt.Url.{text_of}

length-encode : (to_ascii : ℕ → ℕ) (val : List ℕ) → length (encode to_ascii val) ≤ 3 * length val
unfolding encode
length-encode to_ascii [] = omega arith
length-encode to_ascii (c ∷ val) = ground (arith, length-encode to_ascii val)

length-querystrcat :
    (to_ascii : ℕ → ℕ) (url : List ℕ) (v : Option (List ℕ))
    → length (querystrcat to_ascii url v) ≤ length url + 3 * length (text_of v)
unfolding querystrcat
length-querystrcat to_ascii url none = omega arith
length-querystrcat to_ascii url (some val) =
    omega (arith, length-append url (encode to_ascii val), length-encode to_ascii val)

length-compose :
    (to_ascii : ℕ → ℕ) (key event : List ℕ) (v1 v2 v3 : Option (List ℕ))
    → length (compose to_ascii key event v1 v2 v3)
      ≤ 65
        + length key
        + length event
        + 3 * (length (text_of v1) + length (text_of v2) + length (text_of v3))
unfolding compose
length-compose to_ascii key event v1 v2 v3 =
    let base = ((codes "http://maker.ifttt.com/trigger/" ++ event) ++ codes "/with/key/") ++ key in
    let url1 = querystrcat to_ascii (base ++ codes "?value1=") v1 in
    let url2 = querystrcat to_ascii (url1 ++ codes "&value2=") v2 in
    omega (
      arith,
      length-append ((codes "http://maker.ifttt.com/trigger/" ++ event) ++ codes "/with/key/") key,
      length-append event (codes "/with/key/"),
      length-append base (codes "?value1="),
      length-querystrcat to_ascii (base ++ codes "?value1=") v1,
      length-append url1 (codes "&value2="),
      length-querystrcat to_ascii (url1 ++ codes "&value2=") v2,
      length-append url2 (codes "&value3="),
      length-querystrcat to_ascii (url2 ++ codes "&value3=") v3,
    )

-- The status code of a response, as three digits behind its first nine characters.
abbrev digit3 : ℕ → ℕ → ℕ → ℕ
digit3 a b c = 100 * a + 10 * b + c

-- A text that does not go on with a digit.
abbrev pub EndsNumber : List ℕ → Type 0
EndsNumber [] = Unit {0}
EndsNumber (c ∷ s) = is_digit c ≡ false

digits_from-end : (acc : ℕ) (s : List ℕ) → EndsNumber s → digits_from acc s ≡ acc
unfolding digits_from
digits_from-end acc [] h = refl
digits_from-end acc (c ∷ s) h = rw h

digits_from-digit :
    (acc d : ℕ) (s : List ℕ)
    → d < 10
    → acc < 1000
    → digits_from acc ((b'0' + d) ∷ s) ≡ digits_from (acc * 10 + d) s
unfolding digits_from is_digit
digits_from-digit acc d s h k = ground (arith, ap (λ n. digits_from n s) same)
  where
    same : (acc * 10 + (b'0' + d - b'0')) % 2 ^ 16 ≡ acc * 10 + d
    same = omega arith

atoi-digit : (d : ℕ) (s : List ℕ) → d < 10 → atoi ((b'0' + d) ∷ s) ≡ digits_from 0 ((b'0' + d) ∷ s)
unfolding atoi is_space
atoi-digit d s h = ground arith

atoi-digit3 :
    (a b c : ℕ) (s : List ℕ)
    → a < 10
    → b < 10
    → c < 10
    → EndsNumber s
    → atoi ((b'0' + a) ∷ (b'0' + b) ∷ (b'0' + c) ∷ s) ≡ digit3 a b c
atoi-digit3 a b c s ha hb hc hs =
    rw
      (
        atoi-digit a _ ha,
        digits_from-digit 0 a _ ha (omega arith),
        digits_from-digit (0 * 10 + a) b _ hb (omega arith),
        digits_from-digit ((0 * 10 + a) * 10 + b) c _ hc (omega arith),
        digits_from-end _ s hs,
      )
      (omega arith)

module _ (to_ascii : ℕ → ℕ) (url_download : Download) (key event : List ℕ) where
  -- If key, event and three times the values have at most 1335 characters together, the URL keeps to
  -- the limit of 1400 characters and so to its array of 2048, whatever has to be escaped; it is
  -- requested as composed and converted to ASCII, and the result and the code left in `ip65_error`
  -- are those of the answer, since `ifttt_trigger` stores no code of its own.
  pub ifttt_trigger-within :
      (v1 v2 v3 : Option (List ℕ))
      → length key
          + length event
          + 3 * (length (text_of v1) + length (text_of v2) + length (text_of v3))
        ≤ 1335
      → let url = map to_ascii (compose to_ascii key event v1 v2 v3) in
        (length url ≤ 1400)
        × (ifttt_trigger to_ascii url_download key event v1 v2 v3 ≡ record {
          result = status_of (url_download url).0;
          error = (url_download url).1;
          requested = some url;
        })
  unfolding ifttt_trigger
  ifttt_trigger-within v1 v2 v3 h = ground (
    arith,
    length-map (compose to_ascii key event v1 v2 v3) to_ascii,
    length-compose to_ascii key event v1 v2 v3,
  )

  -- A request within the limit returns the status code of the response: the three digits that
  -- follow nine characters such as `HTTP/1.1 `, if no fourth digit follows and at least twelve
  -- characters were received, and -1 if fewer were.
  pub ifttt_trigger-status :
      (v1 v2 v3 : Option (List ℕ)) (len a b c : ℕ) (head rest : List ℕ)
      → length key
          + length event
          + 3 * (length (text_of v1) + length (text_of v2) + length (text_of v3))
        ≤ 1335
      → (url_download (map to_ascii (compose to_ascii key event v1 v2 v3))).0
        ≡ (len, head ++ (b'0' + a) ∷ (b'0' + b) ∷ (b'0' + c) ∷ rest)
      → length head ≡ 9
      → a < 10
      → b < 10
      → c < 10
      → EndsNumber rest
      → (ifttt_trigger to_ascii url_download key event v1 v2 v3).result
        ≡ (if ltb len 12 then minus_one else pos (100 * a + 10 * b + c))
  unfolding status_of
  ifttt_trigger-status v1 v2 v3 len a b c head rest h answer nine ha hb hc hr =
      rw
        (
          (ifttt_trigger-within v1 v2 v3 h).1,
          answer,
          drop-append_self 9 head _ nine,
          atoi-digit3 a b c rest ha hb hc hr,
        )
        (ground arith)
