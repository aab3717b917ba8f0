-- ===== src/Http/Header.antt =====
-- apps/w5100_http.c: the bytes of the header.
use ip.Common.{
  ℕ, zero, suc, ◌+◌, ◌≤◌, ◌<◌, ◌≡◌, refl, sym, ap, ◌∙◌, Bool, true, false, ◌&&◌, List, [], ◌==◌,
  arith,
}
use ip.Common.{length, set, length-set, Bool-cases, inl, inr}
use ip.Common.Buffers.{blit, blit-nil, blit-set, take-blit_before}
use ip.Socket.{Socket, read_bytes}
use ip.Http.{fill, is_end}

-- What a store behind the place changes does not reach the test.
is_end_below :
    (before src dst : List ℕ) (p : ℕ) → is_end before (blit p src dst) p ≡ is_end before dst p
unfolding is_end
is_end_below before src dst p = rw (take-blit_before p src dst)

is_end_same :
    (before buffer : List ℕ) (j k : ℕ) → j ≡ k → is_end before buffer j ≡ is_end before buffer k
is_end_same before buffer j k e = ap (λ i. is_end before buffer i) e

module _ (S : Socket) where
  -- What the loop over a chunk of `n` bytes makes of the buffer: it reads `count` of them, stores
  -- them one behind another, and `ended` tells that they go up to the first end of a header behind
  -- `p`; only then the rest of the chunk is left unread.
  pub record Filled (before : List ℕ) (n p : ℕ) (buffer : List ℕ) (s : S.State) (ended : Bool)
      (count : ℕ) (last : List ℕ) (t : S.State) : Type 0 where
    pub count-le : count ≤ n
    pub buffer_lem : last ≡ blit p (read_bytes S count s).0 buffer
    pub state_lem : t ≡ (read_bytes S count s).1
    pub marks : (j : ℕ) → p < j → j ≤ p + count → is_end before last j ≡ (ended && (j == p + count))
    pub ends : ended ≡ true → 0 < count
    pub goes_on : ended ≡ false → count ≡ n

  unfoldable pub FillsHeader :
      List ℕ → ℕ → ℕ → List ℕ → S.State → Bool × ℕ × List ℕ × S.State → Type 0
  FillsHeader before n p buffer s (ended, count, last, t) =
      Filled before n p buffer s ended count last t

  Filled-end :
      (before : List ℕ) (n p : ℕ) (buffer : List ℕ) (s : S.State)
      → p < length buffer
      → is_end before (set buffer p (S.read s).0) (suc p) ≡ true
      → Filled before (suc n) p buffer s true 1 (set buffer p (S.read s).0) (S.read s).1
  unfolding read_bytes
  Filled-end before n p buffer s h e = record {
    count-le = omega arith;
    buffer_lem = sym (blit-set p (S.read s).0 [] buffer h ∙ blit-nil (suc p) _);
    state_lem = refl;
    marks = λ j low high. is_end_same before _ j (suc p) (omega arith) ∙ e ∙ ground arith;
    ends = λ _. omega arith;
    goes_on = λ q. ground arith;
  }

  Filled-step :
      (before : List ℕ) (n p : ℕ) (buffer : List ℕ) (s : S.State) (ended : Bool) (m : ℕ)
      (last : List ℕ) (t : S.State)
      → p < length buffer
      → is_end before (set buffer p (S.read s).0) (suc p) ≡ false
      → Filled before n (suc p) (set buffer p (S.read s).0) (S.read s).1 ended m last t
      → Filled before (suc n) p buffer s ended (suc m) last t
  unfolding read_bytes
  Filled-step before n p buffer s ended m last t h e ih = record {
    count-le = omega (arith, ih.count-le);
    buffer_lem = ih.buffer_lem ∙ sym (blit-set p (S.read s).0 _ buffer h);
    state_lem = ih.state_lem;
    marks = λ j low high. elim (Bool-cases (j == suc p)) [
      | inl at ↦
          is_end_same before last j (suc p) (ground arith)
          ∙ ap (λ l. is_end before l (suc p)) ih.buffer_lem
          ∙ is_end_below before (read_bytes S m (S.read s).1).0 _ (suc p)
          ∙ e
          ∙ (elim (Bool-cases ended) [
            | inl q ↦ ground (arith, ih.ends q)
            | inr q ↦ ground (arith, q)
          ])
      | inr off ↦ ih.marks j (ground arith) (omega arith) ∙ ground arith
    ];
    ends = λ _. omega arith;
    goes_on = λ q. ap suc (ih.goes_on q);
  }

  -- Reading a chunk for which the buffer has room leaves the buffer with the bytes read stored one
  -- behind another and with the socket moved behind them. It stops right behind the first place at
  -- which CR LF CR LF are in front, and reads the whole chunk if there is none.
  pub fill-FillsHeader :
      (before : List ℕ) (n p : ℕ) (buffer : List ℕ) (s : S.State)
      → p + n ≤ length buffer
      → FillsHeader before n p buffer s (fill S before n p buffer s)
  unfolding fill FillsHeader read_bytes
  fill-FillsHeader before zero p buffer s h = record {
    count-le = omega arith;
    buffer_lem = sym (blit-nil p buffer);
    state_lem = refl;
    marks = λ j low high. absurd (omega arith);
    ends = λ q. ground arith;
    goes_on = λ q. refl;
  }
  fill-FillsHeader before (suc n) p buffer s h =
      elim (Bool-cases (is_end before (set buffer p (S.read s).0) (suc p))) [
        | inl e ↦ rw e (Filled-end before n p buffer s (omega arith) e)
        | inr e ↦ rw e (
            Filled-step before n p buffer s _ _ _ _ (omega arith) e (
              fill-FillsHeader before n (suc p) (set buffer p (S.read s).0) (S.read s).1
                (omega (arith, length-set buffer p (S.read s).0))))
      ]
