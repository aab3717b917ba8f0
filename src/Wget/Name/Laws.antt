-- ===== src/Wget/Name/Laws.antt =====
-- apps/wget65.c: the form of the proposed file name.
use ip.Common.{ℕ, zero, suc, ◌+◌, ◌-◌, ◌<◌, ◌≤◌, ◌≡◌, refl, sym, ◌∙◌, ap, ◌↔◌, Bool, true, false}
use ip.Common.{◌||◌, Option, none, some, List, [], ◌∷◌, ◌++◌, arith, ltb, ◌==◌, Option-cases}
use ip.Common.{
  length, Bool-cases, inl, inr, take, drop, All, All-append, All-take, All-drop, take_all,
}
use ip.Common.{min, length-append, length-take, length-drop, take-append-drop}
use ip.Common.Chars.{to_upper, is_alpha, is_alnum, is_upper, is_digit}
use ip.Wget.Name.{Scan, behind_slash, push, is_skipped, put, round, is_code, scan, empty, scan_last}
use ip.Wget.Name.{name_max, trim, propose_name}

abbrev pub is_name_char : ℕ → Bool
is_name_char c = is_upper c || is_digit c || c == b'.'

abbrev pub NameChars : List ℕ → Type 0
NameChars = All (λ c. is_name_char c ≡ true)

abbrev pub StartsUpper : List ℕ → Type 0
StartsUpper [] = Unit {0}
StartsUpper (c ∷ s) = is_upper c ≡ true

-- A ProDOS file name: at most 15 capital letters, digits and dots, a letter first.
pub record IsFileName (name : List ℕ) : Type 0 where
  pub short : length name ≤ name_max
  pub chars : NameChars name
  pub first : StartsUpper name

-- What the loop keeps: the dot lies behind the first letter.
record IsScan (st : Scan) : Type 0 where
  chars : NameChars st.out
  first : StartsUpper st.out
  dot : (k : ℕ) → st.dot ≡ some k → (0 < k) × (k < length st.out)

StartsUpper-append :
    (out : List ℕ) (c : ℕ)
    → (out ≡ [] → is_upper c ≡ true)
    → StartsUpper out
    → StartsUpper (out ++ c ∷ [])
StartsUpper-append [] c h s = h refl
StartsUpper-append (d ∷ out) c h s = s

NameChars-append :
    (out : List ℕ) (c : ℕ) → is_name_char c ≡ true → NameChars out → NameChars (out ++ c ∷ [])
NameChars-append out c h s = All-append _ out (c ∷ []) s (h, tt)

length-eq-zero : (out : List ℕ) → (out ≡ []) ↔ (length out ≡ 0)
length-eq-zero [] = (λ h. refl, λ h. refl)
length-eq-zero (c ∷ out) = (λ h. cc, λ h. absurd (omega arith))

push-IsScan :
    (c : ℕ) (st : Scan)
    → is_name_char c ≡ true
    → (st.out ≡ [] → is_upper c ≡ true)
    → IsScan st
    → IsScan (push c st)
unfolding push
push-IsScan c st h first v = record {
  chars = NameChars-append st.out c h v.chars;
  first = StartsUpper-append st.out c first v.first;
  dot = λ k e. omega (arith, length-append st.out (c ∷ []), v.dot k e);
}

is_name_char-dot : is_name_char b'.' ≡ true
unfolding is_upper is_digit
is_name_char-dot = refl

dot-IsScan :
    (st : Scan)
    → (st.out ≡ [] → ⊥)
    → IsScan st
    → IsScan (record { out = st.out ++ b'.' ∷ []; dot = some (length st.out) })
dot-IsScan st never v = record {
  chars = NameChars-append st.out b'.' is_name_char-dot v.chars;
  first = StartsUpper-append st.out b'.' (λ e. absurd (never e)) v.first;
  dot = λ k e. ground (arith, length-append st.out (b'.' ∷ []), length-eq-zero st.out, never);
}

-- The first character that is stored is a letter.
first-is_alpha : (c : ℕ) (st : Scan) → is_skipped c st ≡ false → st.out ≡ [] → is_alpha c ≡ true
unfolding is_skipped
first-is_alpha c st h e = ground (arith, (length-eq-zero st.out).0 e)

to_upper-is_name_char : (c : ℕ) → is_alnum c ≡ true → is_name_char (to_upper c) ≡ true
unfolding is_alnum to_upper
to_upper-is_name_char c h = ground arith

to_upper-is_upper : (c : ℕ) → is_alpha c ≡ true → is_upper (to_upper c) ≡ true
unfolding is_alpha to_upper
to_upper-is_upper c h = ground arith

dot-not-is_alpha : (c : ℕ) → is_alnum c ≡ false → is_alpha c ≡ true → ⊥
unfolding is_alnum
dot-not-is_alpha c h k = ground arith

put-IsScan : (c : ℕ) (st : Scan) → is_skipped c st ≡ false → IsScan st → IsScan (put c st)
unfolding put
put-IsScan c st h v = elim (Bool-cases (is_alnum c)) [
  | inl a ↦ rw a (
      push-IsScan (to_upper c) st (to_upper-is_name_char c a)
        (λ e. to_upper-is_upper c (first-is_alpha c st h e)) v)
  | inr a ↦
      let never : st.out ≡ [] → ⊥ = λ e. dot-not-is_alpha c a (first-is_alpha c st h e) in
      let pushed : IsScan (push b'.' st) =
        push-IsScan b'.' st is_name_char-dot (λ e. absurd (never e)) v in
      rw a (elim (Bool-cases (c == b'%')) [
        | inl p ↦ rw p pushed
        | inr p ↦ rw p (elim (Bool-cases (c == b'.')) [
          | inl d ↦ rw d (dot-IsScan st never v)
          | inr d ↦ rw d v
        ])
      ])
]

round-IsScan : (c : ℕ) (st : Scan) → IsScan st → IsScan (round c st)
unfolding round
round-IsScan c st v = elim (Bool-cases (is_skipped c st)) [
  | inl e ↦ rw e v
  | inr e ↦ rw e (put-IsScan c st e v)
]

scan-IsScan : (s : List ℕ) (st : Scan) → IsScan st → IsScan (scan s st)
unfolding scan
scan-IsScan [] st v = v
scan-IsScan (c ∷ []) st v = round-IsScan c st v
scan-IsScan (c ∷ d ∷ []) st v = scan-IsScan (d ∷ []) (round c st) (round-IsScan c st v)
scan-IsScan (c ∷ d ∷ e ∷ s) st v = elim (Bool-cases (is_code c st)) [
  | inl h ↦ rw h (scan-IsScan s (round c st) (round-IsScan c st v))
  | inr h ↦ rw h (scan-IsScan (d ∷ e ∷ s) (round c st) (round-IsScan c st v))
]

StartsUpper-take :
    (n : ℕ) (out s : List ℕ)
    → StartsUpper out
    → 0 < n
    → 0 < length out
    → StartsUpper (take n out ++ s)
StartsUpper-take zero out s h p q = absurd (omega arith)
StartsUpper-take (suc n) [] s h p q = absurd (omega arith)
StartsUpper-take (suc n) (c ∷ out) s h p q = h

StartsUpper-take_max : (out : List ℕ) → StartsUpper out → StartsUpper (take name_max out)
StartsUpper-take_max [] h = tt
StartsUpper-take_max (c ∷ out) h = h

cut-IsFileName : (out : List ℕ) → NameChars out → StartsUpper out → IsFileName (take name_max out)
cut-IsFileName out c f = record {
  short = omega (arith, length-take name_max out);
  chars = All-take _ name_max out c;
  first = StartsUpper-take_max out f;
}

-- The begin of the base name with `n` characters from the extension.
join-IsFileName :
    (out : List ℕ) (n k : ℕ)
    → NameChars out
    → StartsUpper out
    → n < name_max
    → 0 < length out
    → IsFileName (take (name_max - n) out ++ take n (drop k out))
join-IsFileName out n k c f h p = record {
  short = omega (
    arith,
    length-append (take (name_max - n) out) (take n (drop k out)),
    length-take (name_max - n) out,
    length-take n (drop k out),
  );
  chars =
      All-append _ (take (name_max - n) out) _ (All-take _ (name_max - n) out c)
        (All-take _ n (drop k out) (All-drop _ k out c));
  first = StartsUpper-take (name_max - n) out _ f (omega arith) p;
}

trim_dot-IsFileName :
    (out : List ℕ) (k : ℕ)
    → NameChars out
    → StartsUpper out
    → k < length out
    → IsFileName (trim out (some k))
unfolding trim
trim_dot-IsFileName out k c f h = elim (Bool-cases (ltb name_max (length out))) [
  | inl e ↦ rw e (elim (Bool-cases (ltb (name_max - 1) (length out - k))) [
    | inl l ↦ rw l (join-IsFileName out (name_max - 1) k c f (omega arith) (omega arith))
    | inr l ↦ rw l (join-IsFileName out (length out - k) k c f (ground arith) (omega arith))
  ])
  | inr e ↦ rw e (cut-IsFileName out c f)
]

trim-IsFileName : (st : Scan) → IsScan st → IsFileName (trim st.out st.dot)
unfolding trim
trim-IsFileName st v = elim (Option-cases st.dot) [
  | inl e ↦ rw e (cut-IsFileName st.out v.chars v.first)
  | inr (k, e) ↦ rw e (trim_dot-IsFileName st.out k v.chars v.first (v.dot k e).1)
]

empty-IsScan : IsScan empty
empty-IsScan = record { chars = tt; first = tt; dot = λ k e. cc }

scan_last-IsScan : (o : Option (ℕ × List ℕ)) → IsScan (scan_last o)
unfolding scan_last
scan_last-IsScan none = empty-IsScan
scan_last-IsScan (some (before, s)) = elim (Bool-cases (before == b'/')) [
  | inl e ↦ rw e empty-IsScan
  | inr e ↦ rw e (scan-IsScan s empty empty-IsScan)
]

-- Whatever the URL is, the proposed name is a ProDOS file name (or empty).
pub propose_name-IsFileName : (before : ℕ) (arg : List ℕ) → IsFileName (propose_name before arg)
unfolding propose_name
propose_name-IsFileName before arg =
    trim-IsFileName (scan_last (behind_slash before arg))
      (scan_last-IsScan (behind_slash before arg))

-- Whatever the length, the proposed name keeps an extension of at most 14 characters whole, dot
-- included, and before it as much of the base name as 15 characters have room for.
pub trim_extension :
    (out : List ℕ) (dot : ℕ)
    → dot < length out
    → length out ≤ dot + 14
    → trim out (some dot) ≡ take (min dot (name_max - (length out - dot))) out ++ drop dot out
unfolding trim
trim_extension out dot h k = elim (Bool-cases (ltb name_max (length out))) [
  | inl e ↦
      let l : ltb 14 (length out - dot) ≡ false = ground arith in
      let m : min dot (name_max - (length out - dot)) ≡ name_max - (length out - dot) =
        ground arith in
      rw (e, l, m)
        (ap (λ s. take (name_max - (length out - dot)) out ++ s)
          (take_all (length out - dot) (drop dot out) (omega (arith, length-drop dot out))))
  | inr e ↦
      let m : min dot (name_max - (length out - dot)) ≡ dot = ground arith in
      rw (e, m) (take_all name_max out (ground arith) ∙ sym (take-append-drop dot out))
]
