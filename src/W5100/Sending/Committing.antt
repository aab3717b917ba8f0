-- ===== src/W5100/Sending/Committing.antt =====
-- apps/w5100.c: sending the bytes that have been written.
use ip.Common.{ℕ, suc, ◌+◌, ◌/◌, ◌%◌, ◌^◌, ◌<◌, ◌≤◌, ◌≡◌, refl, ap, ◌∙◌, true, List, [], ◌∷◌, ◌++◌}
use ip.Common.{◌+◌, ◌/◌, ◌%◌, ◌^◌, ◌<◌, ◌≤◌}
use ip.Common.{arith, bit_and, bit_or, get_or, length}
use ip.Common.Bits.{low}
use ip.Common.Words.{add16}
use ip.W5100.{
  Machine, Driver, byte, sock_reg, set_addr, get_word, set_word, set_byte, w5100_data_commit,
}
use ip.W5100.Bus.{IsChip, address-set_addr}
use ip.W5100.Commit.{KeepsPointers, pointer, bytes-set_word}
use ip.W5100.Accesses.{set_word-Rel}
use ip.W5100.Window.{IsArea, place_in_area}
use ip.W5100.Sending.{Kept-trans, waiting, IsSendingCard}
use ip.W5100.Sending.Same.{
  KeptBy, set_addr-Same, get_word-Same, Idles, Kept-IsKept, get_word-pointer,
}

module _ (M : Machine) (d : Driver) (C : IsChip M d) (K : KeepsPointers M d C)
    (T : IsSendingCard M d C K) (v : IsArea d.sending) where
  open C use {address, memory}

  -- The bytes stand in the memory behind `base`, in front of the end.
  pub record Stands (p : ℕ) (bytes : List ℕ) (s : M.State) : Type 0 where
    pub fits : d.sending.basis + low v.bits (T.base s) + p + length bytes ≤ d.sending.limit
    pub written :
        (j : ℕ)
        → j < length bytes
        → memory s (d.sending.basis + low v.bits (T.base s) + p + j) ≡ get_or bytes j 0

  waiting-eq :
      (p : ℕ) (bytes : List ℕ) (s : M.State)
      → Stands p bytes s
      → waiting M d C T.sent T.base T.room (length bytes) p s ≡ bytes
  unfolding waiting
  waiting-eq p [] s w = refl
  waiting-eq p (b ∷ bytes) s w =
      let first : memory s (bit_or (bit_and (T.base s + p) d.sending.mask) d.sending.basis) ≡ b =
        ap (memory s) (place_in_area d.sending (T.base s) p v (omega (arith, w.fits)))
        ∙ ap (memory s) {y = d.sending.basis + low v.bits (T.base s) + p + 0} (omega arith)
        ∙ w.written 0 (omega arith) in
      let rest : Stands (suc p) bytes s = record {
        fits = omega (arith, w.fits);
        written = λ j h.
            ap (memory s) {y = d.sending.basis + low v.bits (T.base s) + p + suc j} (omega arith)
            ∙ w.written (suc j) (omega arith);
      } in
      ap (λ x. x ∷ waiting M d C T.sent T.base T.room (length bytes) (suc p) s) first
      ∙ ap (λ xs. b ∷ xs) (waiting-eq (suc p) bytes s rest)

  Stands-Kept :
      (bytes : List ℕ) (s s' : M.State)
      → KeptBy M d C K T s s'
      → Stands 0 bytes s
      → Stands 0 bytes s'
  Stands-Kept bytes s s' h w =
      let same : low v.bits (T.base s') ≡ low v.bits (T.base s) = ap (low v.bits) h.base-is in
      record {
        fits = omega (arith, same, w.fits);
        written = λ j lt.
            ap (memory s') {y = d.sending.basis + low v.bits (T.base s) + 0 + j}
              (omega (arith, same))
            ∙ h.window (d.sending.basis + low v.bits (T.base s) + 0 + j) (omega arith)
                (omega (arith, w.fits))
            ∙ w.written j lt;
      }

  set_word-Kept : (x : ℕ) (s : M.State) → KeptBy M d C K T s (set_word M d (sock_reg 0x24) x s)
  set_word-Kept x s =
      set_word-Rel M d (KeptBy M d C K T) (Kept-IsKept M d C K T) C (sock_reg 0x24) x s
        (omega arith) (λ b t low high. T.pointer-Kept b t (ground arith))

  -- A commit of room sends the bytes that stand there, and leaves nothing to be sent.
  pub commit-sent :
      (bytes : List ℕ) (s : M.State)
      → Idles M d C K T s
      → Stands 0 bytes s
      → length bytes ≤ T.room s
      → (T.sent (w5100_data_commit M d true (length bytes) s) ≡ T.sent s ++ bytes)
        × Idles M d C K T (w5100_data_commit M d true (length bytes) s)
  unfolding w5100_data_commit set_byte
  commit-sent bytes s r w few =
      let k = length bytes in
      let q = (get_word M d (sock_reg 0x24) s).0 in
      let read : q ≡ T.base s = get_word-pointer M d C K T s r in
      let s1 = (get_word M d (sock_reg 0x24) s).1 in
      let same = get_word-Same M d C K T (sock_reg 0x24) s in
      let s2 = set_word M d (sock_reg 0x24) (add16 q k) s1 in
      let moved =
        bytes-set_word M d C K 0x0524 (add16 q k) s1 (omega arith) (omega arith) refl refl in
      let s3 = set_addr M d (sock_reg 0x01) s2 in
      let same3 = set_addr-Same M d C K T (sock_reg 0x01) s2 in
      let kept : KeptBy M d C K T s s3 = Kept-trans M d C T.sent T.base T.room s s1 s3 same.kept (
        Kept-trans M d C T.sent T.base T.room s1 s2 s3 (set_word-Kept (add16 q k) s1) same3.kept) in
      let hi : memory s3 0x0524 ≡ byte (add16 q k / 2 ^ 8) = same3.pointers 0x0524 refl ∙ moved.0 in
      let lo : memory s3 0x0525 ≡ byte (add16 q k) = same3.pointers 0x0525 refl ∙ moved.1 in
      let on : pointer M d C K true s3 ≡ (T.base s3 + k) % 2 ^ 16 =
        omega (arith, hi, lo, read, kept.base-is) in
      let done =
        T.transmitted k s3 (address-set_addr M d C (sock_reg 0x01) s2 (omega arith))
          (omega (arith, few, kept.room-le)) on in
      (
        done.0
            ∙ ap (λ xs. T.sent s3 ++ xs) (waiting-eq 0 bytes s3 (Stands-Kept bytes s s3 kept w))
            ∙ ap (λ xs. xs ++ bytes) kept.sent-is,
        record {
          at_base = omega (arith, done.1, done.2 0x0524 refl, done.2 0x0525 refl);
          byte_hi = omega (arith, done.2 0x0524 refl, hi);
          byte_lo = omega (arith, done.2 0x0525 refl, lo);
        },
      )
