-- ===== src/Common/Buffers.antt =====
-- Copies into a buffer.
use Prim.Native.Nat.{ℕ, zero, suc, ◌+◌, ◌-◌, ◌≤◌, ◌<◌}
use Prim.Native.Nat.add
use mathlib.Core.Path.{◌≡◌, refl, ap, sym, ◌∙◌}
use mathlib.Core.Bool.{◌&&◌}
use mathlib.Core.List.{List, [], ◌∷◌, ◌++◌}
use native.Mathlib.Omega.{arith}
use ip.Common.Lists.{length, take, drop, drop-nil, get_or, set}
use ip.Common.Tests.{leb, ltb, if◌then◌else◌}

module _ {ℓ} {A : Type ℓ} where
  -- Stores the items one behind another, from an index on.
  abbrev pub blit : ℕ → List A → List A → List A
  blit n src [] = []
  blit zero [] (y ∷ dst) = y ∷ dst
  blit zero (x ∷ src) (y ∷ dst) = x ∷ blit zero src dst
  blit (suc n) src (y ∷ dst) = y ∷ blit n src dst

module _ {ℓ} {A : Type ℓ} where
  pub length-blit : (n : ℕ) (src dst : List A) → length (blit n src dst) ≡ length dst
  length-blit n src [] = refl
  length-blit zero [] (y ∷ dst) = refl
  length-blit zero (x ∷ src) (y ∷ dst) = ap suc (length-blit zero src dst)
  length-blit (suc n) src (y ∷ dst) = ap suc (length-blit n src dst)

  pub blit-nil : (n : ℕ) (dst : List A) → blit n [] dst ≡ dst
  blit-nil n [] = refl
  blit-nil zero (y ∷ dst) = refl
  blit-nil (suc n) (y ∷ dst) = ap (λ r. y ∷ r) (blit-nil n dst)

  pub take-blit_before : (n : ℕ) (src dst : List A) → take n (blit n src dst) ≡ take n dst
  take-blit_before zero src dst = refl
  take-blit_before (suc n) src [] = refl
  take-blit_before (suc n) src (y ∷ dst) = ap (λ r. y ∷ r) (take-blit_before n src dst)

  -- A copy is the store of the first item, and the copy of the others behind it.
  pub blit-set :
      (n : ℕ) (x : A) (src dst : List A)
      → n < length dst
      → blit n (x ∷ src) dst ≡ blit (suc n) src (set dst n x)
  blit-set n x src [] h = absurd (omega arith)
  blit-set zero x src (y ∷ dst) h = refl
  blit-set (suc n) x src (y ∷ dst) h = ap (λ r. y ∷ r) (blit-set n x src dst (omega arith))

  -- What is in front of the copy stays, and the copy follows it.
  pub take-blit :
      (n m : ℕ) (src dst : List A)
      → length src ≡ m
      → n + m ≤ length dst
      → take (n + m) (blit n src dst) ≡ take n dst ++ src
  take-blit n m src [] e h = nothing n m src e h
    where
      nothing :
          (n m : ℕ) (src : List A) → length src ≡ m → n + m ≤ 0 → take (n + m) [] ≡ take n [] ++ src
      nothing zero zero [] e h = refl
      nothing n m (x ∷ src) e h = absurd (omega arith)
      nothing (suc n) m [] e h = absurd (omega arith)
      nothing zero (suc m) [] e h = absurd (omega arith)
  take-blit zero zero [] (y ∷ dst) e h = refl
  take-blit zero (suc m) [] (y ∷ dst) e h = absurd (omega arith)
  take-blit zero zero (x ∷ src) (y ∷ dst) e h = absurd (omega arith)
  take-blit zero (suc m) (x ∷ src) (y ∷ dst) e h =
      rw add.zero (ap (λ r. x ∷ r) (step (take-blit zero m src dst (omega arith) (omega arith))))
    where
      step : take (zero + m) (blit zero src dst) ≡ src → take m (blit zero src dst) ≡ src
      step q = rw add.zero at q
  take-blit (suc n) m src (y ∷ dst) e h =
      rw add.suc (ap (λ r. y ∷ r) (take-blit n m src dst e (omega arith)))

  pub blit-append :
      (n m : ℕ) (xs ys dst : List A)
      → length xs ≡ m
      → blit n (xs ++ ys) dst ≡ blit (n + m) ys (blit n xs dst)
  blit-append n m [] ys dst e =
      ap (λ k. blit k ys dst) {y = n + m} (omega arith)
      ∙ ap (blit (n + m) ys) (sym (blit-nil n dst))
  blit-append n m (x ∷ xs) ys [] e = refl
  blit-append zero zero (x ∷ xs) ys (y ∷ dst) e = absurd (omega arith)
  blit-append zero (suc m) (x ∷ xs) ys (y ∷ dst) e =
      ap (λ r. x ∷ r) (blit-append zero m xs ys dst (omega arith))
      ∙ ap (λ k. blit k ys (x ∷ blit zero xs dst)) {x = suc (0 + m)} (omega arith)
  blit-append (suc n) m (x ∷ xs) ys (y ∷ dst) e =
      ap (λ r. y ∷ r) (blit-append n m (x ∷ xs) ys dst e)
      ∙ ap (λ k. blit k ys (y ∷ blit n (x ∷ xs) dst)) {x = suc (n + m)} (omega arith)

-- A place holds the copy if it is in its range and in the buffer, and what it held otherwise.
pub get_or-blit :
    (n : ℕ) (src dst : List ℕ) (i e : ℕ)
    → n + length src ≤ length dst
    → get_or (blit n src dst) i e
      ≡ (if leb n i && ltb i (n + length src) then get_or src (i - n) e else get_or dst i e)
get_or-blit n [] [] i e h = ground arith
get_or-blit n (x ∷ src) [] i e h = absurd (omega arith)
get_or-blit zero [] (y ∷ dst) i e h = ground arith
get_or-blit zero (x ∷ src) (y ∷ dst) zero e h = ground arith
get_or-blit zero (x ∷ src) (y ∷ dst) (suc i) e h =
    let shifted : get_or (x ∷ src) (suc i - 0) e ≡ get_or src (i - 0) e =
      ap (λ k. get_or (x ∷ src) k e) {y = suc (i - 0)} (omega arith) in
    ground (arith, shifted, get_or-blit zero src dst i e)
get_or-blit (suc n) src (y ∷ dst) zero e h = ground arith
get_or-blit (suc n) src (y ∷ dst) (suc i) e h =
    let shifted : get_or src (suc i - suc n) e ≡ get_or src (i - n) e =
      ap (λ k. get_or src k e) {y = i - n} (omega arith) in
    ground (arith, shifted, get_or-blit n src dst i e)

-- An element of two lists, one behind the other.
pub get_or-append :
    (xs ys : List ℕ) (i : ℕ)
    → get_or (xs ++ ys) i 0
      ≡ (if ltb i (length xs) then get_or xs i 0 else get_or ys (i - length xs) 0)
get_or-append [] ys i =
    let same : get_or ys (i - 0) 0 ≡ get_or ys i 0 =
      ap (λ k. get_or ys k 0) {y = i} (omega arith) in
    ground (arith, same)
get_or-append (x ∷ xs) ys zero = ground arith
get_or-append (x ∷ xs) ys (suc i) =
    let shifted : get_or ys (suc i - suc (length xs)) 0 ≡ get_or ys (i - length xs) 0 =
      ap (λ k. get_or ys k 0) {y = i - length xs} (omega arith) in
    ground (arith, shifted, get_or-append xs ys i)

pub get_or-take : (n r : ℕ) (xs : List ℕ) → r < n → get_or (take n xs) r 0 ≡ get_or xs r 0
get_or-take zero r xs h = absurd (omega arith)
get_or-take (suc n) r [] h = refl
get_or-take (suc n) zero (x ∷ xs) h = refl
get_or-take (suc n) (suc r) (x ∷ xs) h = get_or-take n r xs (omega arith)

pub get_or-drop : (o r : ℕ) (xs : List ℕ) → get_or (drop o xs) r 0 ≡ get_or xs (o + r) 0
get_or-drop zero r xs = ap (λ k. get_or xs k 0) {x = r} (omega arith)
get_or-drop (suc o) r [] = refl
get_or-drop (suc o) r (x ∷ xs) =
    get_or-drop o r xs ∙ ap (λ k. get_or (x ∷ xs) k 0) {x = suc (o + r)} (omega arith)

pub drop-drop : (n m : ℕ) (xs : List ℕ) → drop m (drop n xs) ≡ drop (n + m) xs
drop-drop zero m xs = ap (λ k. drop k xs) {x = m} (omega arith)
drop-drop (suc n) m [] = drop-nil m ∙ ap (λ k. drop k []) {x = suc (n + m)} (omega arith)
drop-drop (suc n) m (x ∷ xs) =
    drop-drop n m xs ∙ ap (λ k. drop k (x ∷ xs)) {x = suc (n + m)} (omega arith)

pub take-take-drop : (n m : ℕ) (xs : List ℕ) → take n xs ++ take m (drop n xs) ≡ take (n + m) xs
take-take-drop zero m xs = ap (λ k. take k xs) {x = m} (omega arith)
take-take-drop (suc n) zero [] = ap (λ k. take k []) {x = suc (n + 0)} (omega arith)
take-take-drop (suc n) (suc m) [] = ap (λ k. take k []) {x = suc (n + suc m)} (omega arith)
take-take-drop (suc n) m (x ∷ xs) =
    ap (λ r. x ∷ r) (take-take-drop n m xs)
    ∙ ap (λ k. take k (x ∷ xs)) {x = suc (n + m)} (omega arith)
