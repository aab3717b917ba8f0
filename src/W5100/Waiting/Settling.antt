-- ===== src/W5100/Waiting/Settling.antt =====
-- apps/w5100.c: the loop of w5100_data_request that reads a size until it settles.
use ip.Common.{ℕ, zero, suc, ◌≤◌, ◌<◌, ◌≢◌, Bool, ◌==◌}
use ip.Common.{Option, none, some, arith, Bool-cases, inl, inr}
use ip.W5100.{
  Machine, Driver, sock_reg, pick, get_byte, get_word, settle, settled, w5100_data_request,
}

module _ (M : Machine) (d : Driver) where
  open M use {State}

  -- What the card still needs to give the same size twice is within a limit too.
  pub record SettlesWithin (limit : ℕ) : Type 0 where
    pub unsettled : (reg size : ℕ) → State → ℕ
    pub unsettled-le : (reg size : ℕ) (s : State) → unsettled reg size s ≤ limit
    pub unsettled-wait :
        (reg size : ℕ) (s : State)
        → (get_word M d reg s).0 ≢ size
        → unsettled reg (get_word M d reg s).0 (get_word M d reg s).1 < unsettled reg size s

  module _ (limit : ℕ) (A : SettlesWithin limit) where
    abbrev pub Returns : Option (ℕ × State) → Type 0
    Returns none = ⊥
    Returns (some r) = Unit

    settle-Returns :
        (fuel reg size : ℕ) (s : State)
        → A.unsettled reg size s < fuel
        → Returns (settle M d fuel reg size s)
    unfolding settle
    settle-Returns zero reg size s enough = absurd (omega arith)
    settle-Returns (suc fuel) reg size s enough =
        let next = get_word M d reg s in
        elim (Bool-cases (next.0 == size)) [
          | inl same ↦ rw same tt
          | inr differs ↦ rw differs (
              settle-Returns fuel reg next.0 next.1
                (omega (arith, A.unsettled-wait reg size s (ground arith))))
        ]

    settled-Returns :
        (do_send : Bool) (r : Option (ℕ × State)) → Returns r → Returns (settled M d do_send r)
    unfolding settled
    settled-Returns do_send none h = h
    settled-Returns do_send (some (size, s)) h = elim (Bool-cases (size == 0)) [
      | inl nothing ↦ rw nothing tt
      | inr something ↦ rw something tt
    ]

    pub request-Returns :
        (fuel : ℕ) (do_send : Bool) (s : State)
        → limit < fuel
        → Returns (w5100_data_request M d fuel do_send s)
    unfolding w5100_data_request
    request-Returns fuel do_send s enough =
        let start = get_byte M d (sock_reg 0x01) s in
        let reg = pick do_send (sock_reg 0x26) (sock_reg 0x20) in
        elim (Bool-cases (start.0 == 0)) [
          | inl idle ↦ rw idle (
              settled-Returns do_send (settle M d fuel reg 0 start.1)
                (settle-Returns fuel reg 0 start.1 (omega (arith, A.unsettled-le reg 0 start.1))))
          | inr busy ↦ rw busy tt
        ]
