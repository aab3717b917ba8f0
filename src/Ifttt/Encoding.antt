-- ===== src/Ifttt/Encoding.antt =====
-- `querystrcat`: what a form decoder reads back, and which characters the encoded text has.
use ip.Common.{ℕ, ◌+◌, ◌-◌, ◌*◌, ◌/◌, ◌%◌, ◌<◌, ◌≡◌, refl, ap, ◌≢◌, Bool, true}
use ip.Common.{◌||◌, List, [], ◌∷◌, ◌++◌, map, arith, ◌==◌}
use ip.Common.{if◌then◌else◌, Bool-cases, inl, inr}
use ip.Common.Chars.{is_alnum, is_digit}
use ip.Ifttt.{is_clean, hex_digit, escape, encode}

-- The value of a hexadecimal digit.
unhex : ℕ → ℕ
unhex c = if is_digit c then c - b'0' else c - b'A' + 10

-- The decoder of application/x-www-form-urlencoded: `+` is a space, `%XY` a byte.
pub decode : List ℕ → List ℕ
decode [] = []
decode (c ∷ []) = (if c == b'+' then b' ' else c) ∷ []
decode (c ∷ d ∷ []) = (if c == b'+' then b' ' else c) ∷ decode (d ∷ [])
decode (c ∷ d ∷ e ∷ s) =
    let rest = decode (d ∷ e ∷ s) in
    let after = decode s in
    if c == b'%' then (unhex d * 16 + unhex e) ∷ after else (if c == b'+' then b' ' else c) ∷ rest

unhex-hex_digit : (d : ℕ) → d < 16 → unhex (hex_digit d) ≡ d
unfolding unhex hex_digit is_digit
unhex-hex_digit d h = ground arith

decode-nil : decode [] ≡ []
unfolding decode
decode-nil = refl

decode-escape : (v : ℕ) (s : List ℕ) → v < 256 → decode (escape v ++ s) ≡ v ∷ decode s
unfolding decode
decode-escape v s h =
    rw (unhex-hex_digit (v / 16) (omega arith), unhex-hex_digit (v % 16) (omega arith))
      (ap (λ n. n ∷ decode s) (omega arith))

decode-plain : (c : ℕ) (s : List ℕ) → c ≢ b'%' → c ≢ b'+' → decode (c ∷ s) ≡ c ∷ decode s
unfolding decode
decode-plain c [] p q = ground arith
decode-plain c (d ∷ []) p q = ground arith
decode-plain c (d ∷ e ∷ s) p q = ground arith

decode-plus : (s : List ℕ) → decode (b'+' ∷ s) ≡ b' ' ∷ decode s
unfolding decode
decode-plus [] = refl
decode-plus (d ∷ []) = refl
decode-plus (d ∷ e ∷ s) = refl

-- Below 128 the target's characters are ASCII's, and above they become bytes.
pub record IsToAscii (to_ascii : ℕ → ℕ) : Type 0 where
  pub same : (c : ℕ) → c < 128 → to_ascii c ≡ c
  pub bounded : (c : ℕ) → to_ascii c < 256

kept-lt : (c : ℕ) → (is_alnum c || is_clean c) ≡ true → (c < 128) × (c ≢ b'%') × (c ≢ b'+')
unfolding is_alnum is_clean
kept-lt c h = ground arith

module _ (to_ascii : ℕ → ℕ) (t : IsToAscii to_ascii) where
  -- A form decoder reads the encoded text back as the ASCII codes of the text.
  pub decode-encode : (val : List ℕ) → decode (encode to_ascii val) ≡ map to_ascii val
  unfolding encode
  decode-encode [] = decode-nil
  decode-encode (c ∷ val) =
      let rest = encode to_ascii val in
      elim (Bool-cases (is_alnum c || is_clean c)) [
        | inl keep ↦
            let k : (c < 128) × (c ≢ b'%') × (c ≢ b'+') = kept-lt c keep in
            rw keep (rw (decode-plain c rest k.1 k.2, t.same c k.0, decode-encode val))
        | inr other ↦ rw other (elim (Bool-cases (c == b' ')) [
          | inl space ↦ rw space (
              rw (decode-plus rest, decode-encode val)
                (ap (λ n. n ∷ map to_ascii val) (ground (arith, t.same c))))
          | inr special ↦
              rw special (rw (decode-escape (to_ascii c) rest (t.bounded c), decode-encode val))
        ])
      ]

  pub is_query_safe : ℕ → Bool
  is_query_safe c = is_alnum c || is_clean c || c == b'+' || c == b'%'
