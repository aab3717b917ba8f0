-- ===== src/Tweet/Typing.antt =====
-- apps/tweet65.c: what the line editor makes of the keys.
use ip.Common.{
  ℕ, zero, suc, ◌+◌, ◌-◌, ◌≤◌, ◌<◌, ◌≡◌, refl, ap, ◌∙◌, sym, List, [], ◌∷◌, ◌++◌, ◌==◌,
  if◌then◌else◌, arith,
}
use ip.Common.{
  Option, none, some, set, take, length, length-set, length-take, take-take, length-append, get_or,
  All, All-take, All-append, Bool-cases, inl, inr, true,
}
use ip.Common.Chars.{is_print}
use ip.Tweet.{Line, type_key, input}

-- The characters in front of the first NUL.
unfoldable pub c_string : List ℕ → List ℕ
c_string [] = []
c_string (c ∷ cs) = let rest = c_string cs in if c == 0 then [] else c ∷ rest

-- A text is edited at its end: a deletion takes the last character off, and a printable character is
-- put behind the text if there is room.
unfoldable pub edit : (del max : ℕ) → ℕ → List ℕ → List ℕ
edit del max c text =
    if c == del
    then take (length text - 1) text
    else (if length text == max then text else (if is_print c then text ++ c ∷ [] else text))

unfoldable pub typed : (del enter max : ℕ) → List ℕ → List ℕ → Option (List ℕ)
unfolding edit
typed del enter max [] text = none
typed del enter max (c ∷ keys) text =
    let rest = typed del enter max keys (edit del max c text) in
    if c == enter then some text else rest

unfoldable pub IsText : List ℕ → Type 0
IsText = All (λ c. 0 < c)

c_string-set :
    (n : ℕ) (str : List ℕ)
    → n < length str
    → IsText (take n str)
    → c_string (set str n 0) ≡ take n str
unfolding c_string IsText
c_string-set n [] h t = absurd (omega arith)
c_string-set zero (x ∷ str) h t = refl
c_string-set (suc n) (x ∷ str) h t =
    rw (c_string-set n str (omega arith) t.1)
      (elim (Bool-cases (x == 0)) [ inl e ↦ absurd (ground (arith, t.0)) | inr e ↦ rw e refl ])

take-set : (n m : ℕ) (str : List ℕ) (v : ℕ) → n ≤ m → take n (set str m v) ≡ take n str
take-set zero m str v h = refl
take-set (suc n) m [] v h = refl
take-set (suc n) zero (x ∷ str) v h = absurd (omega arith)
take-set (suc n) (suc m) (x ∷ str) v h = ap (λ r. x ∷ r) (take-set n m str v (omega arith))

take-set_last :
    (n : ℕ) (str : List ℕ) (v : ℕ)
    → n < length str
    → take (suc n) (set str n v) ≡ take n str ++ v ∷ []
take-set_last n [] v h = absurd (omega arith)
take-set_last zero (x ∷ str) v h = refl
take-set_last (suc n) (x ∷ str) v h = ap (λ r. x ∷ r) (take-set_last n str v (omega arith))

length_text : (n : ℕ) (str : List ℕ) → n ≤ length str → length (take n str) ≡ n
length_text n str h = omega (arith, length-take n str)

-- A line whose text stands in front of room for the end.
pub record Fits (max : ℕ) (l : Line) : Type 0 where
  pub len-le : l.len ≤ max
  pub room : max < length l.str
  pub text : IsText (take l.len l.str)

abbrev pub ended : Line → Line
ended l = record l { str = set l.str l.len 0 }

ended-Fits : (max : ℕ) (l : Line) → Fits max l → Fits max (ended l)
ended-Fits max l f = record {
  len-le = f.len-le;
  room = omega (arith, f.room, length-set l.str l.len 0);
  text = rw (take-set l.len l.len l.str 0 (omega arith)) f.text;
}

-- What a key makes of the line and of the text in it.
pub record Typed (max : ℕ) (l : Line) (text : List ℕ) : Type 0 where
  pub fits : Fits max l
  pub same_text : take l.len l.str ≡ text

Typed-same : (max : ℕ) (l : Line) → Fits max l → Typed max l (take l.len l.str)
Typed-same max l f = record { fits = f; same_text = refl }

Typed-deletion :
    (max : ℕ) (l : Line)
    → Fits max l
    → Typed max
        (record l { len = l.len - 1 })
        (take (length (take l.len l.str) - 1) (take l.len l.str))
unfolding IsText
Typed-deletion max l f = record {
  fits = record {
    len-le = omega (arith, f.len-le);
    room = f.room;
    text = simp shorter at shortened;
  };
  same_text = rw (length_text l.len l.str (omega (arith, f.len-le, f.room))) (sym shorter);
}
  where
    shorter : take (l.len - 1) (take l.len l.str) ≡ take (l.len - 1) l.str
    shorter = take-take (l.len - 1) l.len l.str (omega arith)

    shortened : IsText (take (l.len - 1) (take l.len l.str))
    shortened = All-take (λ c. 0 < c) (l.len - 1) (take l.len l.str) f.text

Typed-empty :
    (max : ℕ) (l : Line)
    → Fits max l
    → l.len ≡ 0
    → Typed max l (take (length (take l.len l.str) - 1) (take l.len l.str))
Typed-empty max l f e = record {
  fits = f;
  same_text =
      ap (λ n. take n l.str) {y = l.len - 1} (omega arith)
      ∙ rw (length_text l.len l.str (omega (arith, f.len-le, f.room)))
          (sym (take-take (l.len - 1) l.len l.str (omega arith)));
}

Typed-character :
    (max c : ℕ) (l : Line)
    → Fits max l
    → l.len < max
    → 0 < c
    → Typed max (record { str = set l.str l.len c; len = l.len + 1 }) (take l.len l.str ++ c ∷ [])
unfolding IsText
Typed-character max c l f below positive = record {
  fits = record {
    len-le = omega arith;
    room = omega (arith, f.room, length-set l.str l.len c);
    text = rw longer (All-append (λ c. 0 < c) (take l.len l.str) (c ∷ []) f.text (positive, tt));
  };
  same_text = longer;
}
  where
    longer : take (l.len + 1) (set l.str l.len c) ≡ take l.len l.str ++ c ∷ []
    longer =
        ap (λ n. take n (set l.str l.len c)) {y = suc l.len} (omega arith)
        ∙ take-set_last l.len l.str c (omega (arith, f.room))

is_print-lt : (c : ℕ) → is_print c ≡ true → 0 < c
unfolding is_print
is_print-lt c h = ground arith

type_key-Typed :
    (del enter max c : ℕ) (l : Line)
    → Fits max l
    → Typed max (type_key del enter max c l) (edit del max c (take l.len l.str))
unfolding type_key edit
type_key-Typed del enter max c l f =
    let size = length_text l.len l.str (omega (arith, f.len-le, f.room)) in
    elim (Bool-cases (c == del)) [
      | inl e ↦ rw e (elim (Bool-cases (l.len == 0)) [
        | inl z ↦ rw z (Typed-empty max l f (ground arith))
        | inr z ↦ rw z (Typed-deletion max l f)
      ])
      | inr e ↦
          rw (e, size)
            (elim (Bool-cases (l.len == max)) [
              | inl z ↦ rw z (Typed-same max l f)
              | inr z ↦ rw z (elim (Bool-cases (is_print c)) [
                | inl q ↦
                    rw q (Typed-character max c l f (ground (arith, f.len-le)) (is_print-lt c q))
                | inr q ↦ rw q (Typed-same max l f)
              ])
            ])
    ]

-- The string of a result of `input`.
abbrev pub string_of : Option (List ℕ × List ℕ) → Option (List ℕ)
string_of none = none
string_of (some (str, keys)) = some (c_string str)

-- In a buffer with room for `max` characters and the end, from a line of at most `max` characters,
-- none of them NUL, the line editor leaves the string that editing the line's text at its end
-- makes of the keys in front of the first CH_ENTER, and none if there is no CH_ENTER.
pub input-typed :
    (del enter max : ℕ) (keys : List ℕ) (l : Line)
    → Fits max l
    → string_of (input del enter max keys l) ≡ typed del enter max keys (take l.len l.str)
unfolding input typed
input-typed del enter max [] l f = refl
input-typed del enter max (c ∷ keys) l f =
    let closed = ended-Fits max l f in
    let kept = take-set l.len l.len l.str 0 (omega arith) in
    let key = type_key-Typed del enter max c (ended l) closed in
    elim (Bool-cases (c == enter)) [
      | inl e ↦ rw e (ap some (c_string-set l.len l.str (omega (arith, f.len-le, f.room)) f.text))
      | inr e ↦ rw e (
          input-typed del enter max keys (type_key del enter max c (ended l)) key.fits
          ∙ ap (λ t. typed del enter max keys t) (key.same_text ∙ ap (edit del max c) kept))
    ]

length-edit :
    (del max c : ℕ) (text : List ℕ) → length text ≤ max → length (edit del max c text) ≤ max
unfolding edit
length-edit del max c text h =
    ground (arith, length-take (length text - 1) text, length-append text (c ∷ []))

pub length-typed :
    (del enter max : ℕ) (keys text t : List ℕ)
    → length text ≤ max
    → typed del enter max keys text ≡ some t
    → length t ≤ max
unfolding typed
length-typed del enter max [] text t h e = cc
length-typed del enter max (c ∷ keys) text t h e = elim (Bool-cases (c == enter)) [
  | inl q ↦ ground (arith, rw q at e)
  | inr q ↦
      length-typed del enter max keys (edit del max c text) t (length-edit del max c text h)
        (rw q at e)
]

-- In front of a NUL stand the characters of the string.
pub length-c_string :
    (i : ℕ) (xs : List ℕ) → i < length xs → get_or xs i 0 ≡ 0 → length (c_string xs) ≤ i
unfolding c_string
length-c_string i [] h e = absurd (omega arith)
length-c_string zero (x ∷ xs) h e = ground arith
length-c_string (suc i) (x ∷ xs) h e = ground (arith, length-c_string i xs (omega arith) e)
