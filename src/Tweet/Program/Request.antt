-- ===== src/Tweet/Program/Request.antt =====
-- apps/tweet65.c: the request that `main` makes.
use ip.Common.{
  ℕ, suc, ◌≤◌, ◌<◌, ◌≡◌, refl, ap, sym, ◌∙◌, true, false, List, [], ◌∷◌, ◌++◌, ◌==◌, arith, map,
}
use ip.Common.{
  Option, none, some, replicate, get_or, length, length-set, set, length-replicate, Option-cases,
  Bool-cases, inl, inr,
}
use ip.Common.{ltb}
use ip.Common.Buffers.{blit, get_or-blit, length-blit}
use ip.Common.Chars.{codes}
use ip.Startup.{System, start}
use ip.Ifttt.{status_of, compose}
use ip.Ifttt.Trigger.{ifttt_trigger-within}
use ip.Tweet.{Line, input, type_key}
use ip.Tweet.Typing.{c_string, Fits, IsText, string_of, input-typed, length-typed, length-c_string}
use ip.Tweet.Program.{
  Saver, Exit, no_key, no_network, no_text, sent, failed, refused, exit_of, tweet, load_key,
  send_text, main, empty_line, key_size, text_size,
}

empty-Fits : (n : ℕ) → Fits n (empty_line (suc n))
unfolding IsText
empty-Fits n = record {
  len-le = omega arith;
  room = omega (arith, length-replicate {A = ℕ} n 0);
  text = tt;
}

-- What is typed into a new line has at most as many characters as were asked for.
length-input :
    (del enter n : ℕ) (keys str rest : List ℕ)
    → input del enter n keys (empty_line (suc n)) ≡ some (str, rest)
    → length (c_string str) ≤ n
length-input del enter n keys str rest e =
    length-typed del enter n keys [] (c_string str) (omega arith)
      (sym (input-typed del enter n keys (empty_line (suc n)) (empty-Fits n)) ∙ ap string_of e)

length-type_key :
    (del enter n c : ℕ) (l : Line) → length (type_key del enter n c l).str ≡ length l.str
unfolding type_key
length-type_key del enter n c l = ground (arith, length-set l.str l.len c)

size-input :
    (del enter n : ℕ) (keys : List ℕ) (l : Line) (str rest : List ℕ)
    → input del enter n keys l ≡ some (str, rest)
    → length str ≡ length l.str
unfolding input
size-input del enter n [] l str rest e = cc
size-input del enter n (c ∷ keys) l str rest e = elim (Bool-cases (c == enter)) [
  | inl q ↦ ground (arith, rw q at e, length-set l.str l.len 0)
  | inr q ↦
      size-input del enter n keys (type_key del enter n c (record l { str = set l.str l.len 0 }))
        str rest (rw q at e)
      ∙ length-type_key del enter n c (record l { str = set l.str l.len 0 })
      ∙ length-set l.str l.len 0
]

-- A string that ends in its array does not go on behind it.
c_string-append :
    (xs ys : List ℕ) → length (c_string xs) < length xs → c_string (xs ++ ys) ≡ c_string xs
unfolding c_string
c_string-append [] ys h = absurd (omega arith)
c_string-append (x ∷ xs) ys h = ground (arith, c_string-append xs ys)

-- A string that ends in the array of the key.
pub IsKey : List ℕ → Type 0
IsKey key = (length key ≡ key_size) × (length (c_string key) ≤ 80)

IsKey-typed :
    (del enter : ℕ) (keys str rest : List ℕ)
    → input del enter 80 keys (empty_line key_size) ≡ some (str, rest)
    → IsKey str
unfolding IsKey
IsKey-typed del enter keys str rest e = (
  size-input del enter 80 keys (empty_line key_size) str rest e
      ∙ length-replicate {A = ℕ} key_size 0,
  length-input del enter 80 keys str rest e,
)

blit-whole : (src dst : List ℕ) → length src ≡ length dst → blit 0 src dst ≡ src
blit-whole [] [] h = refl
blit-whole [] (y ∷ dst) h = absurd (omega arith)
blit-whole (x ∷ src) [] h = absurd (omega arith)
blit-whole (x ∷ src) (y ∷ dst) h = ap (λ r. x ∷ r) (blit-whole src dst (omega arith))

-- A file that is read into the array, in part or as a whole.
length-read :
    (bytes : List ℕ)
    → length bytes ≤ key_size
    → length (c_string bytes) ≤ 80
    → length (c_string (blit 0 bytes (replicate key_size 0))) ≤ 80
length-read bytes fits ends =
    let zeros = length-replicate {A = ℕ} key_size 0 in
    elim (Bool-cases (ltb (length bytes) key_size)) [
      | inl part ↦
          length-c_string 80 _ (omega (arith, length-blit 0 bytes (replicate key_size 0), zeros))
            (get_or-blit 0 bytes (replicate key_size 0) 80 0 (omega (arith, zeros)) ∙ ground arith)
      | inr whole ↦ omega (
        arith,
        ends,
        ap (λ r. length (c_string r))
            (blit-whole bytes (replicate key_size 0) (ground (arith, zeros))),
      )
    ]

IsKey-read :
    (bytes : List ℕ)
    → length bytes ≤ key_size
    → length (c_string bytes) ≤ 80
    → IsKey (blit 0 bytes (replicate key_size 0))
unfolding IsKey
IsKey-read bytes fits ends = (
  length-blit 0 bytes (replicate key_size 0) ∙ length-replicate {A = ℕ} key_size 0,
  length-read bytes fits ends,
)

module _ (S : System) (V : Saver S) (del enter : ℕ)
    (key_file : (file : ℕ) (s : S.State)
      → (length (S.read_file file key_size s).0 ≤ key_size)
        × (length (c_string (S.read_file file key_size s).0) ≤ 80)) where
  abbrev Loaded : Option (Option (List ℕ) × List ℕ × S.State) → Type 0
  Loaded (some (some key, rest, t)) = IsKey key
  Loaded _ = Unit {0}

  load_key-Loaded : (keys : List ℕ) (s : S.State) → Loaded (load_key S V del enter keys s)
  unfolding load_key
  load_key-Loaded keys s = elim (Option-cases (S.open_file (codes "ifttt.key") s).0) [
    | inl q ↦ elim (Option-cases (input del enter 80 keys (empty_line key_size))) [
      | inl r ↦ rw (q, r, load_key) tt
      | inr ((str, rest), r) ↦ elim (Bool-cases (get_or str 0 0 == 0)) [
        | inl z ↦ rw (q, r, load_key, z) tt
        | inr z ↦ rw (q, r, load_key, z) (IsKey-typed del enter keys str rest r)
      ]
    ]
    | inr (f, q) ↦ rw (q, load_key) (IsKey-read _ (key_file f _).0 (key_file f _).1)
  ]

  -- What the program makes of the answer to a request, the URL of which is within the limit of
  -- `ifttt_trigger`, with a key that is shorter than its array.
  abbrev pub Answered : (to_ascii : ℕ → ℕ) → Exit → Type 0
  Answered to_ascii e =
      (key text : List ℕ) × (s : S.State) × (let url =
          map to_ascii (compose to_ascii key (codes "tweet") (some text) none none) in
        (length key < key_size)
        × (length text < text_size)
        × (length url ≤ 1400)
        × (e ≡ exit_of (status_of (V.url_download s url).0) (V.url_download s url).1))

  abbrev pub HasUrl : (to_ascii : ℕ → ℕ) → Option Exit → Type 0
  HasUrl to_ascii none = Unit {0}
  HasUrl to_ascii (some no_key) = Unit {0}
  HasUrl to_ascii (some no_network) = Unit {0}
  HasUrl to_ascii (some no_text) = Unit {0}
  HasUrl to_ascii (some e) = Answered to_ascii e

  Answered-HasUrl : (to_ascii : ℕ → ℕ) (e : Exit) → Answered to_ascii e → HasUrl to_ascii (some e)
  Answered-HasUrl to_ascii no_key h = tt
  Answered-HasUrl to_ascii no_network h = tt
  Answered-HasUrl to_ascii no_text h = tt
  Answered-HasUrl to_ascii sent h = h
  Answered-HasUrl to_ascii (failed error) h = h
  Answered-HasUrl to_ascii (refused r) h = h

  tweet-Answered :
      (to_ascii : ℕ → ℕ) (s : S.State) (key text : List ℕ)
      → length key ≤ 80
      → length text ≤ 280
      → Answered to_ascii (tweet to_ascii (V.url_download s) key text)
  unfolding tweet
  tweet-Answered to_ascii s key text h k =
      let w =
        ifttt_trigger-within to_ascii (V.url_download s) key (codes "tweet") (some text) none none
          (omega arith) in
      (key, text, s, (omega arith, omega arith, w.0, ap (λ o. exit_of o.result o.error) w.1))

  send_text-HasUrl :
      (to_ascii : ℕ → ℕ) (key behind keys : List ℕ) (s : S.State)
      → IsKey key
      → HasUrl to_ascii (send_text S V del enter to_ascii key behind keys s)
  unfolding send_text IsKey
  send_text-HasUrl to_ascii key behind keys s h =
      elim (Option-cases (input del enter 280 keys (empty_line text_size))) [
        | inl r ↦ rw (r, send_text) tt
        | inr ((str, rest), r) ↦ elim (Bool-cases (get_or str 0 0 == 0)) [
          | inl z ↦ rw (r, send_text, z) tt
          | inr z ↦
              rw (r, send_text, z)
                (Answered-HasUrl to_ascii _ (
                  tweet-Answered to_ascii s (c_string (key ++ behind)) (c_string str)
                    (omega (
                      arith,
                      h.0,
                      h.1,
                      ap length (c_string-append key behind (omega (arith, h.0, h.1))),
                    ))
                    (length-input del enter 280 keys str rest r)))
        ]
      ]

  -- If reading the key file gives no more bytes than the array of 81 that was asked for, and a string
  -- that is shorter than the array, as in the file that the program itself saves, then whatever is
  -- typed: unless the program ends without a key, a text or a network,
  -- it has made its request, with a key of at most 80 and a text of at most 280 characters, and the
  -- URL was within the limit of `ifttt_trigger`; it ends as the answer says, with the code that
  -- `url_download` left if it has failed.
  pub main-HasUrl :
      (to_ascii : ℕ → ℕ) (eth_init : ℕ) (behind keys : List ℕ) (s : S.State)
      → HasUrl to_ascii (main S V del enter to_ascii eth_init behind keys s)
  unfolding main
  main-HasUrl to_ascii eth_init behind keys s =
      go (load_key S V del enter keys s) (load_key-Loaded keys s)
    where
      go :
          (r : Option (Option (List ℕ) × List ℕ × S.State))
          → Loaded r
          → HasUrl to_ascii (elim r as (λ x. Option Exit) [
            | none ↦ none
            | some (key, rest, s1) ↦ elim key [
              | none ↦ some no_key
              | some k ↦
                  let (up, s2) = start S eth_init s1 in
                  elim up [
                    | false ↦ some no_network
                    | true ↦ send_text S V del enter to_ascii k behind rest s2
                  ]
            ]
          ])
      go none h = tt
      go (some (none, rest, s1)) h = tt
      go (some (some k, rest, s1)) h = elim (Bool-cases (start S eth_init s1).0) [
        | inl up ↦ rw up (send_text-HasUrl to_ascii k behind rest _ h)
        | inr down ↦ rw down tt
      ]
