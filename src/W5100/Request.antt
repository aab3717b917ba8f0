-- ===== src/W5100/Request.antt =====
-- apps/w5100.c: what `w5100_data_request` finds, in either direction.
use ip.Common.{
  ℕ, zero, suc, ◌+◌, ◌<◌, ◌≤◌, ◌≡◌, ◌≢◌, refl, sym, ap, ◌∙◌, Bool, ◌==◌, ==_iff, ltb, if◌then◌else◌,
}
use ip.Common.{Option, none, some, arith, Bool-cases, inl, inr, ◌⊎◌, bit_and, bit_or}
use ip.Common.Bits.{low, low-le-ones}
use ip.Common.Words.{sub16}
use ip.W5100.{
  Machine, Driver, area, pick, sock_reg, set_addr, get_byte, get_word, settle, settled, grant,
  w5100_data_request,
}
use ip.W5100.Bus.{IsChip, address-set_addr}
use ip.W5100.Window.{IsArea, address_in_area, cut_off}
use ip.W5100.Accesses.{IsKept, set_addr-Rel, get_byte-Rel, get_word-Rel}

-- The registers of a direction: the size, and the pointer.
abbrev pub size_reg : Bool → ℕ
size_reg do_send = pick do_send (sock_reg 0x26) (sock_reg 0x20)

abbrev pub pointer_reg : Bool → ℕ
pointer_reg do_send = pick do_send (sock_reg 0x28) (sock_reg 0x24)

-- A direction of the socket: `Rel` relates a state to one behind accesses, `Idle` says that no command is
-- outstanding, `Found` that so many bytes are received or free, and `base` is where they begin.
pub record IsDirection (M : Machine) (d : Driver) (do_send : Bool)
    (Rel : M.State → M.State → Type 0) (Idle : M.State → Type 0) (Found : ℕ → M.State → Type 0)
    (base : M.State → ℕ) : Type 0 where
  pub kept : IsKept M d Rel
  pub Idle-Rel : (s s' : M.State) → Rel s s' → Idle s → Idle s'
  pub Found-Rel : (n : ℕ) (s s' : M.State) → Rel s s' → Found n s → Found n s'
  pub Found-le : (n k : ℕ) (s : M.State) → k ≤ n → Found n s → Found k s
  pub base-Rel : (s s' : M.State) → Rel s s' → base s' ≡ base s
  pub read_base : (s : M.State) → Idle s → (get_word M d (pointer_reg do_send) s).0 ≡ base s
  pub settled-Found :
      (n : ℕ) (s0 s1 s2 : M.State)
      → n ≢ 0
      → get_word M d (size_reg do_send) s0 ≡ (n, s1)
      → get_word M d (size_reg do_send) s1 ≡ (n, s2)
      → Idle s2
      → Found n s2

module _ (M : Machine) (d : Driver) (C : IsChip M d) (do_send : Bool)
    (Rel : M.State → M.State → Type 0) (Idle : M.State → Type 0) (Found : ℕ → M.State → Type 0)
    (base : M.State → ℕ) (G : IsDirection M d do_send Rel Idle Found base)
    (v : IsArea (area d do_send)) where
  open C use {address}

  -- The size that was read last, if any was.
  abbrev Read : ℕ → M.State → Type 0
  Read size s = (size ≡ 0) ⊎ ((s0 : M.State) × (get_word M d (size_reg do_send) s0 ≡ (size, s)))

  abbrev Settles : M.State → Option (ℕ × M.State) → Type 0
  Settles s none = Unit
  Settles s (some (n, s')) = Rel s s' × ((n ≡ 0) ⊎ Found n s')

  Settles-trans : (s t : M.State) (r : Option (ℕ × M.State)) → Rel s t → Settles t r → Settles s r
  Settles-trans s t none h k = tt
  Settles-trans s t (some (n, s')) h k = (G.kept.rel_trans s t s' h k.0, k.1)

  settle-Settles :
      (fuel size : ℕ) (s : M.State)
      → Idle s
      → Read size s
      → Settles s (settle M d fuel (size_reg do_send) size s)
  unfolding settle
  settle-Settles zero size s r h = tt
  settle-Settles (suc fuel) size s r h =
      let next = get_word M d (size_reg do_send) s in
      let same = get_word-Rel M d Rel G.kept (size_reg do_send) s in
      let rests = G.Idle-Rel s next.1 same r in
      elim (Bool-cases (next.0 == size)) [
        | inl equal ↦ rw equal (same, twice next.0 ((==_iff _ _).0 equal) refl h)
        | inr differs ↦ rw differs (
            Settles-trans s next.1 _ same (settle-Settles fuel next.0 next.1 rests (inr (s, refl))))
      ]
    where
      twice :
          (n : ℕ)
          → n ≡ size
          → (get_word M d (size_reg do_send) s).0 ≡ n
          → Read size s
          → (n ≡ 0) ⊎ Found n (get_word M d (size_reg do_send) s).1
      twice n e now (inl z) = inl (e ∙ z)
      twice n e now (inr (s0, p)) = elim (Bool-cases (n == 0)) [
        | inl z ↦ inl ((==_iff _ _).0 z)
        | inr some_data ↦
            let same = get_word-Rel M d Rel G.kept (size_reg do_send) s in
            inr (
              G.settled-Found n s0 s (get_word M d (size_reg do_send) s).1 (ground arith)
                (p ∙ (λ i. (sym e i, s))) (λ i. (now i, (get_word M d (size_reg do_send) s).1))
                (G.Idle-Rel s _ same r))
      ]

  -- A request finds bytes, and sets the address register to the first of them; no more are granted
  -- than stand in front of the end of the memory.
  abbrev pub Asks : M.State → Option (ℕ × M.State) → Type 0
  Asks s none = Unit
  Asks s (some (n, s')) =
      Rel s s'
      × ((n ≡ 0)
          ⊎ (Found n s'
              × (address s' ≡ (area d do_send).basis + low v.bits (base s'))
              × (address s' + n ≤ (area d do_send).limit)))

  Asks-trans : (s t : M.State) (r : Option (ℕ × M.State)) → Rel s t → Asks t r → Asks s r
  Asks-trans s t none h k = tt
  Asks-trans s t (some (n, s')) h k = (G.kept.rel_trans s t s' h k.0, k.1)

  grant-Asks :
      (n : ℕ) (s : M.State) → Idle s → 0 < n → Found n s → Asks s (some (grant M d do_send n s))
  unfolding grant
  grant-Asks n s r some_data w =
      let p = (get_word M d (pointer_reg do_send) s).0 in
      let s1 = (get_word M d (pointer_reg do_send) s).1 in
      let addr = bit_or (bit_and p (area d do_send).mask) (area d do_send).basis in
      let s' = set_addr M d addr s1 in
      let room = sub16 (area d do_send).limit addr in
      let k = if ltb n room then n else room in
      let read : p ≡ base s = G.read_base s r in
      let e : addr ≡ (area d do_send).basis + low v.bits p = address_in_area (area d do_send) p v in
      let inside : addr < (area d do_send).limit =
        omega (arith, e, low-le-ones v.bits p, v.mask_is, v.limit_is) in
      let cut = cut_off addr (area d do_send).limit n inside v.limit-lt some_data in
      let at : address s' ≡ addr = address-set_addr M d C addr s1 (omega (arith, v.limit-lt)) in
      let same : Rel s s' =
        G.kept.rel_trans s s1 s' (get_word-Rel M d Rel G.kept (pointer_reg do_send) s)
          (set_addr-Rel M d Rel G.kept addr s1) in
      (
        same,
        inr (
          G.Found-le n k s' cut.0 (G.Found-Rel n s s' same w),
          at
              ∙ e
              ∙ ap (λ q. (area d do_send).basis + low v.bits q) (read ∙ sym (G.base-Rel s s' same)),
          omega (arith, at, cut.1),
        ),
      )

  settled-Asks :
      (s : M.State) (r : Option (ℕ × M.State))
      → Idle s
      → Settles s r
      → Asks s (settled M d do_send r)
  unfolding settled
  settled-Asks s none r h = tt
  settled-Asks s (some (n, s1)) r (same, found) = elim (Bool-cases (n == 0)) [
    | inl nothing ↦ rw nothing (same, inl refl)
    | inr something ↦ rw something (go (ground arith) found)
  ]
    where
      go : 0 < n → (n ≡ 0) ⊎ Found n s1 → Asks s (some (grant M d do_send n s1))
      go positive (inl z) = absurd (omega arith)
      go positive (inr w) =
          Asks-trans s s1 (some (grant M d do_send n s1)) same
            (grant-Asks n s1 (G.Idle-Rel s s1 same r) positive w)

  pub w5100_data_request-Asks :
      (fuel : ℕ) (s : M.State) → Idle s → Asks s (w5100_data_request M d fuel do_send s)
  unfolding w5100_data_request
  w5100_data_request-Asks fuel s r =
      let start = get_byte M d (sock_reg 0x01) s in
      let same = get_byte-Rel M d Rel G.kept (sock_reg 0x01) s in
      let rests = G.Idle-Rel s start.1 same r in
      elim (Bool-cases (start.0 == 0)) [
        | inl idle ↦ rw idle (
            Asks-trans s start.1 _ same (
              settled-Asks start.1 (settle M d fuel (size_reg do_send) 0 start.1) rests
                (settle-Settles fuel 0 start.1 rests (inl refl))))
        | inr busy ↦ rw busy (same, inl refl)
      ]
