-- ===== src/Ifttt/Url.antt =====
-- The composed URL: its query, read back by an independent parser, and its length.
use ip.Common.{ℕ, ◌/◌, ◌%◌, ◌<◌, ◌≡◌, refl, sym, ◌≢◌, Bool, true, false}
use ip.Common.{◌||◌, Option, none, some, List, [], ◌∷◌, ◌++◌, map, arith, ◌==◌}
use ip.Common.{
  if◌then◌else◌, All, All-append, All-imp, Bool-cases, inl, inr, append_assoc, append-nil,
}
use ip.Common.Chars.{codes, is_alnum}
use ip.Ifttt.{is_clean, hex_digit, encode, querystrcat, compose}
use ip.Ifttt.Encoding.{decode, decode-encode, IsToAscii}

-- The pieces between the separators.
glue : Bool → ℕ → List (List ℕ) → List (List ℕ)
glue true c pieces = [] ∷ pieces
glue false c [] = []
glue false c (p ∷ pieces) = (c ∷ p) ∷ pieces

pub split_on : ℕ → List ℕ → List (List ℕ)
unfolding glue
split_on sep [] = [] ∷ []
split_on sep (c ∷ s) = glue (c == sep) c (split_on sep s)

-- What stands behind the first separator.
pub after : ℕ → List ℕ → List ℕ
after sep [] = []
after sep (c ∷ s) = let rest = after sep s in if c == sep then s else rest

-- The values of a URL's query, decoded: an independent description of what a server reads.
pub query_values : List ℕ → List (List ℕ)
unfolding split_on after
query_values url = map (λ f. decode (after b'=' f)) (split_on b'&' (after b'?' url))

abbrev Lacks : ℕ → List ℕ → Type 0
Lacks sep = All (λ c. c ≢ sep)

after-append : (sep : ℕ) (a s : List ℕ) → Lacks sep a → after sep (a ++ sep ∷ s) ≡ s
unfolding after
after-append sep [] s h = ground arith
after-append sep (c ∷ a) s h = ground (arith, after-append sep a s h.1)

split_on_last : (sep : ℕ) (a : List ℕ) → Lacks sep a → split_on sep a ≡ a ∷ []
unfolding split_on
split_on_last sep [] h = refl
split_on_last sep (c ∷ a) h = ground (arith, split_on_last sep a h.1)

split_on-append :
    (sep : ℕ) (a s : List ℕ) → Lacks sep a → split_on sep (a ++ sep ∷ s) ≡ a ∷ split_on sep s
unfolding split_on
split_on-append sep [] s h = ground arith
split_on-append sep (c ∷ a) s h = ground (arith, split_on-append sep a s h.1)

-- The characters of an encoded text neither end it nor leave ASCII.
abbrev Safe : ℕ → Type 0
Safe c = (c ≢ b'&') × (c < 128)

kept-Safe : (c : ℕ) → (is_alnum c || is_clean c) ≡ true → Safe c
unfolding is_alnum is_clean
kept-Safe c h = ground arith

hex_digit-Safe : (d : ℕ) → d < 16 → Safe (hex_digit d)
unfolding hex_digit
hex_digit-Safe d h = ground arith

module _ (to_ascii : ℕ → ℕ) (t : IsToAscii to_ascii) where
  encode-Safe : (val : List ℕ) → All Safe (encode to_ascii val)
  unfolding encode
  encode-Safe [] = tt
  encode-Safe (c ∷ val) = elim (Bool-cases (is_alnum c || is_clean c)) [
    | inl keep ↦ rw keep (kept-Safe c keep, encode-Safe val)
    | inr other ↦ rw other (elim (Bool-cases (c == b' ')) [
      | inl space ↦ rw space (omega arith, encode-Safe val)
      | inr special ↦
          let b : to_ascii c < 256 = t.bounded c in
          rw special (
            omega arith,
            (
              hex_digit-Safe (to_ascii c / 16) (omega arith),
              (hex_digit-Safe (to_ascii c % 16) (omega arith), encode-Safe val),
            ),
          )
    ])
  ]

  map_same : (s : List ℕ) → All (λ c. c < 128) s → map to_ascii s ≡ s
  map_same [] h = refl
  map_same (c ∷ s) h = rw (t.same c h.0, map_same s h.1)

-- `querystrcat` appends nothing for NULL.
abbrev pub text_of : Option (List ℕ) → List ℕ
text_of none = []
text_of (some val) = val

encoded : (ℕ → ℕ) → Option (List ℕ) → List ℕ
unfolding encode
encoded to_ascii v = encode to_ascii (text_of v)

querystrcat-eq :
    (to_ascii : ℕ → ℕ) (url : List ℕ) (v : Option (List ℕ))
    → querystrcat to_ascii url v ≡ url ++ encoded to_ascii v
unfolding querystrcat encoded encode
querystrcat-eq to_ascii url none = sym (append-nil url)
querystrcat-eq to_ascii url (some val) = refl

-- The URL up to the `?`.
prefix : List ℕ → List ℕ → List ℕ
prefix key event = codes "http://maker.ifttt.com/trigger/" ++ (event ++ (codes "/with/key/" ++ key))

query : List ℕ → List ℕ → List ℕ → List ℕ
query e1 e2 e3 =
    (codes "value1=" ++ e1) ++ b'&' ∷ ((codes "value2=" ++ e2) ++ b'&' ∷ (codes "value3=" ++ e3))

compose-eq :
    (to_ascii : ℕ → ℕ) (key event : List ℕ) (v1 v2 v3 : Option (List ℕ))
    → compose to_ascii key event v1 v2 v3
      ≡ prefix key event
        ++ b'?' ∷ query (encoded to_ascii v1) (encoded to_ascii v2) (encoded to_ascii v3)
unfolding compose prefix query
compose-eq to_ascii key event v1 v2 v3 = simp (querystrcat-eq, append_assoc)

-- A key or event that stands for itself in a URL: ASCII, with no `?`.
abbrev pub IsPlain : List ℕ → Type 0
IsPlain = All (λ c. (c < 128) × (c ≢ b'?'))

prefix-IsPlain : (key event : List ℕ) → IsPlain key → IsPlain event → IsPlain (prefix key event)
unfolding prefix
prefix-IsPlain key event k e =
    All-append _ (codes "http://maker.ifttt.com/trigger/") _ (omega arith)
      (All-append _ event _ e (All-append _ (codes "/with/key/") key (omega arith) k))

query-Safe :
    (e1 e2 e3 : List ℕ)
    → All Safe e1
    → All Safe e2
    → All Safe e3
    → All (λ c. c < 128) (query e1 e2 e3)
unfolding query
query-Safe e1 e2 e3 h1 h2 h3 =
    All-append _ (codes "value1=" ++ e1) _ (part (codes "value1=") e1 (omega arith) h1) (
      omega arith,
      All-append _ (codes "value2=" ++ e2) _ (part (codes "value2=") e2 (omega arith) h2)
          (omega arith, part (codes "value3=") e3 (omega arith) h3),
    )
  where
    part : (a e : List ℕ) → All (λ c. c < 128) a → All Safe e → All (λ c. c < 128) (a ++ e)
    part a e ha he = All-append _ a e ha (All-imp Safe (λ c. c < 128) e (λ c s. s.1) he)

url-lt_128 :
    (key event q : List ℕ)
    → IsPlain (prefix key event)
    → All (λ c. c < 128) q
    → All (λ c. c < 128) (prefix key event ++ b'?' ∷ q)
url-lt_128 key event q p h =
    All-append (λ c. c < 128) (prefix key event) (b'?' ∷ q)
      (All-imp (λ c. (c < 128) × (c ≢ b'?')) (λ c. c < 128) (prefix key event) (λ c h. h.0) p)
      (omega arith, h)

field : (name e : List ℕ) → Lacks b'=' name → after b'=' ((name ++ b'=' ∷ []) ++ e) ≡ e
field name e h = rw append_assoc (after-append b'=' name e h)

-- The three fields of the query.
query-fields :
    (e1 e2 e3 : List ℕ)
    → All Safe e1
    → All Safe e2
    → All Safe e3
    → map (λ f. decode (after b'=' f)) (split_on b'&' (query e1 e2 e3))
      ≡ decode e1 ∷ decode e2 ∷ decode e3 ∷ []
unfolding query
query-fields e1 e2 e3 h1 h2 h3 = rw (
  split_on-append b'&' _ _ (lacks (codes "value1=") e1 (omega arith) h1),
  split_on-append b'&' _ _ (lacks (codes "value2=") e2 (omega arith) h2),
  split_on_last b'&' _ (lacks (codes "value3=") e3 (omega arith) h3),
  field (codes "value1") e1 (omega arith),
  field (codes "value2") e2 (omega arith),
  field (codes "value3") e3 (omega arith),
)
  where
    lacks : (a e : List ℕ) → Lacks b'&' a → All Safe e → Lacks b'&' (a ++ e)
    lacks a e ha he = All-append _ a e ha (All-imp Safe (λ c. c ≢ b'&') e (λ c s. s.0) he)

module _ (to_ascii : ℕ → ℕ) (t : IsToAscii to_ascii) where
  -- Whatever the three values are, the query of the URL that is sent splits into three fields,
  -- and these decode to the ASCII codes of the values (of nothing where a value is NULL), if key
  -- and event are ASCII without a `?`.
  pub query_values-compose :
      (key event : List ℕ) (v1 v2 v3 : Option (List ℕ))
      → IsPlain key
      → IsPlain event
      → query_values (map to_ascii (compose to_ascii key event v1 v2 v3))
        ≡ map to_ascii (text_of v1) ∷ map to_ascii (text_of v2) ∷ map to_ascii (text_of v3) ∷ []
  unfolding query_values encoded
  query_values-compose key event v1 v2 v3 k e =
      let s1 = encode-Safe to_ascii t (text_of v1) in
      let s2 = encode-Safe to_ascii t (text_of v2) in
      let s3 = encode-Safe to_ascii t (text_of v3) in
      let p = prefix-IsPlain key event k e in
      rw (
        compose-eq to_ascii key event v1 v2 v3,
        map_same to_ascii t _ (url-lt_128 key event _ p (query-Safe _ _ _ s1 s2 s3)),
        after-append b'?' (prefix key event) _ (All-imp _ (λ c. c ≢ b'?') _ (λ c h. h.1) p),
        query-fields _ _ _ s1 s2 s3,
        decode-encode to_ascii t (text_of v1),
        decode-encode to_ascii t (text_of v2),
        decode-encode to_ascii t (text_of v3),
      )
