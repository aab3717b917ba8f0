-- ===== src/W5100/Accesses.antt =====
-- apps/w5100.c: what the accesses keep that only set an address and read.
use ip.Common.{ℕ, zero, suc, ◌+◌, ◌/◌, ◌^◌, ◌<◌, ◌≤◌, ◌≡◌, Bool, ◌==◌}
use ip.Common.{Option, none, some, Bool-cases, inl, inr, arith}
use ip.W5100.{
  Machine, Driver, pick, sock_reg, set_addr, get_byte, get_word, settle, settled, grant,
  w5100_data_request, w5100_connected,
}
use ip.W5100.{byte, set_word}
use ip.W5100.Bus.{IsChip, address-set_addr}
use ip.W5100.Interface.{granted}

-- A relation between a state and a later one that such accesses keep.
pub record IsKept (M : Machine) (d : Driver) (Rel : M.State → M.State → Type 0) : Type 0 where
  pub rel_refl : (s : M.State) → Rel s s
  pub rel_trans : (s t u : M.State) → Rel s t → Rel t u → Rel s u
  pub rel-store_hi : (v : ℕ) (s : M.State) → Rel s (M.store d.w5100_addr_hi v s)
  pub rel-store_lo : (v : ℕ) (s : M.State) → Rel s (M.store d.w5100_addr_lo v s)
  pub rel-load : (s : M.State) → Rel s (M.load d.w5100_data s).1

module _ (M : Machine) (d : Driver) (Rel : M.State → M.State → Type 0) (E : IsKept M d Rel) where
  pub set_addr-Rel : (addr : ℕ) (s : M.State) → Rel s (set_addr M d addr s)
  unfolding set_addr
  set_addr-Rel addr s =
      E.rel_trans s (M.store d.w5100_addr_hi _ s) _ (E.rel-store_hi _ s) (E.rel-store_lo _ _)

  pub get_byte-Rel : (addr : ℕ) (s : M.State) → Rel s (get_byte M d addr s).1
  unfolding get_byte
  get_byte-Rel addr s = E.rel_trans s _ _ (set_addr-Rel addr s) (E.rel-load _)

  pub get_word-Rel : (addr : ℕ) (s : M.State) → Rel s (get_word M d addr s).1
  unfolding get_word
  get_word-Rel addr s =
      E.rel_trans s _ _ (set_addr-Rel addr s) (E.rel_trans _ _ _ (E.rel-load _) (E.rel-load _))

  pub connected-Rel : (s : M.State) → Rel s (w5100_connected M d s).1
  unfolding w5100_connected
  connected-Rel s = get_byte-Rel (sock_reg 0x03) s

  abbrev RelTo : M.State → Option (ℕ × M.State) → Type 0
  RelTo s none = Unit
  RelTo s (some (n, s')) = Rel s s'

  RelTo-trans : (s t : M.State) (r : Option (ℕ × M.State)) → Rel s t → RelTo t r → RelTo s r
  RelTo-trans s t none h k = tt
  RelTo-trans s t (some (n, s')) h k = E.rel_trans s t s' h k

  settle-RelTo : (fuel reg size : ℕ) (s : M.State) → RelTo s (settle M d fuel reg size s)
  unfolding settle
  settle-RelTo zero reg size s = tt
  settle-RelTo (suc fuel) reg size s =
      let next = get_word M d reg s in
      elim (Bool-cases (next.0 == size)) [
        | inl same ↦ rw same (get_word-Rel reg s)
        | inr differs ↦
            rw differs
              (RelTo-trans s next.1 _ (get_word-Rel reg s) (settle-RelTo fuel reg next.0 next.1))
      ]

  settled-RelTo :
      (do_send : Bool) (s : M.State) (r : Option (ℕ × M.State))
      → RelTo s r
      → RelTo s (settled M d do_send r)
  unfolding settled grant
  settled-RelTo do_send s none h = tt
  settled-RelTo do_send s (some (size, s1)) h = elim (Bool-cases (size == 0)) [
    | inl nothing ↦ rw nothing h
    | inr something ↦ rw something (
        E.rel_trans s s1 _ h (
          E.rel_trans s1 _ _ (get_word-Rel (pick do_send (sock_reg 0x28) (sock_reg 0x24)) s1)
            (set_addr-Rel _ _)))
  ]

  request-RelTo :
      (fuel : ℕ) (do_send : Bool) (s : M.State) → RelTo s (w5100_data_request M d fuel do_send s)
  unfolding w5100_data_request
  request-RelTo fuel do_send s =
      let start = get_byte M d (sock_reg 0x01) s in
      let reg = pick do_send (sock_reg 0x26) (sock_reg 0x20) in
      let first = get_byte-Rel (sock_reg 0x01) s in
      elim (Bool-cases (start.0 == 0)) [
        | inl idle ↦ rw idle (
            RelTo-trans s start.1 _ first (
              settled-RelTo do_send start.1 (settle M d fuel reg 0 start.1)
                (settle-RelTo fuel reg 0 start.1)))
        | inr busy ↦ rw busy first
      ]

  granted-Rel : (s : M.State) (r : Option (ℕ × M.State)) → RelTo s r → Rel s (granted s r).1
  granted-Rel s none h = E.rel_refl s
  granted-Rel s (some (n, s')) h = h

  -- A request only sets addresses and reads.
  pub request-Rel :
      (fuel : ℕ) (do_send : Bool) (s : M.State)
      → Rel s (granted s (w5100_data_request M d fuel do_send s)).1
  request-Rel fuel do_send s = granted-Rel s _ (request-RelTo fuel do_send s)

  -- A word is written to two registers, the writes to which keep the relation.
  pub set_word-Rel :
      (C : IsChip M d) (reg v : ℕ) (s : M.State)
      → reg < 0x5FFE
      → ((x : ℕ) (t : M.State)
          → reg ≤ C.address t
          → C.address t ≤ reg + 1
          → Rel t (M.store d.w5100_data x t))
      → Rel s (set_word M d reg v s)
  unfolding set_word
  set_word-Rel C reg v s small rel-write =
      let s0 = set_addr M d reg s in
      let e0 : C.address s0 ≡ reg = address-set_addr M d C reg s (omega arith) in
      let s1 = M.store d.w5100_data (byte (v / 2 ^ 8)) s0 in
      let e1 : C.address s1 ≡ reg + 1 = omega (arith, e0, C.address-store (byte (v / 2 ^ 8)) s0) in
      E.rel_trans s s0 _ (set_addr-Rel reg s) (
        E.rel_trans s0 s1 _ (rel-write (byte (v / 2 ^ 8)) s0 (omega arith) (omega arith))
          (rel-write (byte v) s1 (omega arith) (omega arith)))
