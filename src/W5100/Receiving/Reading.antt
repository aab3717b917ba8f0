-- ===== src/W5100/Receiving/Reading.antt =====
-- apps/w5100.c: reading and acknowledging received bytes.
use ip.Common.{ℕ, zero, suc, ◌+◌, ◌/◌, ◌%◌, ◌^◌, ◌<◌, ◌≤◌, ◌≡◌, refl, sym, ap, ◌∙◌, false, ◌∷◌}
use ip.Common.{◌+◌, ◌/◌, ◌%◌, ◌^◌, ◌<◌, ◌≤◌}
use ip.Common.{arith, get_or, take, drop, drop-eq-cons}
use ip.Common.Bits.{low}
use ip.Common.Words.{add16}
use ip.Socket.{read_bytes}
use ip.W5100.{
  Machine, Driver, byte, sock_reg, set_addr, get_word, set_word, set_byte, w5100_data_commit,
}
use ip.W5100.Bus.{IsChip, address-set_addr}
use ip.W5100.Commit.{KeepsPointers, pointer, bytes-set_word}
use ip.W5100.Interface.{driver_socket}
use ip.W5100.Accesses.{set_word-Rel}
use ip.W5100.Window.{IsArea, place_in_area}
use ip.W5100.Receiving.{Held, Kept-trans, IsReceivingCard}
use ip.W5100.Receiving.Same.{
  Same, KeptBy, Same-refl, Same-trans, load-Same, set_addr-Same, get_word-Same, Rests, Kept-IsKept,
  get_word-pointer,
}

module _ (M : Machine) (d : Driver) (fuel : ℕ) (C : IsChip M d) (K : KeepsPointers M d C)
    (R : IsReceivingCard M d C K) (v : IsArea d.receiving) where
  open C use {address, memory}

  abbrev HeldAt : ℕ → M.State → Type 0
  HeldAt = Held M d C R.stream R.base

  abbrev SameAs : M.State → M.State → Type 0
  SameAs = Same M d C K R

  module _ (above : 0x6000 ≤ d.receiving.basis) (below : d.receiving.limit ≤ 0x8000) where
    -- The bytes read from the address register on are those of the stream.
    pub read_bytes-stream :
        (k p n : ℕ) (s : M.State)
        → HeldAt n s
        → (0 < k → address s ≡ d.receiving.basis + low v.bits (R.base s) + p)
        → p + k ≤ n
        → d.receiving.basis + low v.bits (R.base s) + p + k ≤ d.receiving.limit
        → ((read_bytes (driver_socket M d fuel) k s).0 ≡ take k (drop p (R.stream s)))
          × SameAs s (read_bytes (driver_socket M d fuel) k s).1
    unfolding read_bytes
    read_bytes-stream zero p n s w at few fits = (refl, Same-refl M d C K R s)
    read_bytes-stream (suc k) p n s w at few fits =
        let s1 = (M.load d.w5100_data s).1 in
        let same = load-Same M d C K R s in
        let here : address s ≡ d.receiving.basis + low v.bits (R.base s) + p = at (omega arith) in
        let first : (M.load d.w5100_data s).0 ≡ get_or (R.stream s) p 0 =
          C.load-data s
          ∙ ap (memory s) (here ∙ sym (place_in_area d.receiving (R.base s) p v (omega arith)))
          ∙ w.bytes p (omega arith) in
        let base_is : R.base s1 ≡ R.base s = same.kept.base-is in
        let there : 0 < k → address s1 ≡ d.receiving.basis + low v.bits (R.base s1) + suc p =
          λ more. omega (
            arith,
            here,
            C.address-load s (omega arith),
            ap (λ b. d.receiving.basis + low v.bits b) base_is,
          ) in
        let room : d.receiving.basis + low v.bits (R.base s1) + suc p + k ≤ d.receiving.limit =
          omega (arith, ap (λ b. d.receiving.basis + low v.bits b) base_is) in
        let rest = read_bytes-stream k (suc p) n s1 (same.kept.held n w) there (omega arith) room in
        let behind : get_or (R.stream s) p 0 ∷ drop (suc p) (R.stream s) ≡ drop p (R.stream s) =
          sym (drop-eq-cons p (R.stream s) 0 (omega (arith, w.fits))) in
        (
          ap (λ x. x ∷ (read_bytes (driver_socket M d fuel) k s1).0) first
              ∙ ap (λ xs. get_or (R.stream s) p 0 ∷ xs)
                  (rest.0 ∙ ap (λ xs. take k (drop (suc p) xs)) same.kept.stream-is)
              ∙ ap (take (suc k)) behind,
          Same-trans M d C K R s s1 _ same rest.1,
        )

  set_word-Kept : (x : ℕ) (s : M.State) → KeptBy M d C K R s (set_word M d (sock_reg 0x28) x s)
  set_word-Kept x s =
      set_word-Rel M d (KeptBy M d C K R) (Kept-IsKept M d C K R) C (sock_reg 0x28) x s
        (omega arith) (λ b t low high. R.pointer-Kept b t (ground arith))

  -- A commit of received bytes takes them off the stream, and leaves nothing to be acknowledged.
  pub commit-stream :
      (n k : ℕ) (s : M.State)
      → Rests M d C K R s
      → HeldAt n s
      → k ≤ n
      → k < 2 ^ 16
      → (R.stream (w5100_data_commit M d false k s) ≡ drop k (R.stream s))
        × Rests M d C K R (w5100_data_commit M d false k s)
  unfolding w5100_data_commit set_byte
  commit-stream n k s r w few small =
      let q = (get_word M d (sock_reg 0x28) s).0 in
      let read : q ≡ R.base s = get_word-pointer M d C K R s r in
      let s1 = (get_word M d (sock_reg 0x28) s).1 in
      let same = get_word-Same M d C K R (sock_reg 0x28) s in
      let s2 = set_word M d (sock_reg 0x28) (add16 q k) s1 in
      let moved =
        bytes-set_word M d C K 0x0528 (add16 q k) s1 (omega arith) (omega arith) refl refl in
      let s3 = set_addr M d (sock_reg 0x01) s2 in
      let same3 = set_addr-Same M d C K R (sock_reg 0x01) s2 in
      let kept : KeptBy M d C K R s s3 =
        Kept-trans M d C R.stream R.base s s1 s3 same.kept
          (Kept-trans M d C R.stream R.base s1 s2 s3 (set_word-Kept (add16 q k) s1) same3.kept) in
      let hi : memory s3 0x0528 ≡ byte (add16 q k / 2 ^ 8) = same3.pointers 0x0528 refl ∙ moved.0 in
      let lo : memory s3 0x0529 ≡ byte (add16 q k) = same3.pointers 0x0529 refl ∙ moved.1 in
      let on : pointer M d C K false s3 ≡ (R.base s3 + k) % 2 ^ 16 =
        omega (arith, hi, lo, read, kept.base-is) in
      let done =
        R.received n k s3 (address-set_addr M d C (sock_reg 0x01) s2 (omega arith)) (kept.held n w)
          few small on in
      (
        done.0 ∙ ap (drop k) kept.stream-is,
        record {
          at_base = omega (arith, done.1, done.2 0x0528 refl, done.2 0x0529 refl);
          byte_hi = omega (arith, done.2 0x0528 refl, hi);
          byte_lo = omega (arith, done.2 0x0529 refl, lo);
        },
      )
