-- ===== src/W5100/Waiting.antt =====
-- apps/w5100.c: the loops that wait for the card or for the abort key, and for a size to settle
-- (Waiting/Settling).
mod Tests
pub mod Settling
use ip.Common.{
  ℕ, zero, suc, ◌+◌, ◌≤◌, ◌<◌, ◌≡◌, ◌≢◌, ◌^◌, refl, sym, ◌∙◌, ap, Bool, true, false, List, ◌==◌,
  ==_iff, if◌then◌else◌,
}
use ip.Common.{Option, none, some, arith, Bool-cases, inl, inr, ◌⊎◌, not, Option-cases}
use ip.W5100.{Machine, Driver, area, sock_reg, pick, get_byte, get_word, set_byte}
use ip.W5100.{
  await_init, await_connection, command_connect, w5100_connect, w5100_connect_addr,
  w5100_connect_name, w5100_disconnect,
}
use ip.W5100.{settle, settled, w5100_data_request}
use mathlib.Core.Path.{subst}
use ip.W5100.Bus.{IsChip}
pub use ip.W5100.Waiting.Settling.{SettlesWithin, Returns, request-Returns}
use ip.W5100.Mode.{IsTcp, memory-ports, memory-addr, memory-name}
use ip.W5100.Window.{IsArea, Granted, w5100_data_request-Granted}

module _ (M : Machine) (d : Driver) where
  open M use {State, abort_key}

  -- The command register is cleared once the card has taken the command: what it still needs for
  -- that is counted in rounds of the loop that waits for it, and is never more than a limit. A round
  -- in which a command is pending and no key is pressed counts.
  pub record TakesWithin (limit : ℕ) : Type 0 where
    pub pending : State → ℕ
    pub pending-le : (s : State) → pending s ≤ limit
    pub pending-wait :
        (s : State)
        → (get_byte M d (sock_reg 0x01) s).0 ≢ 0
        → (abort_key (get_byte M d (sock_reg 0x01) s).1).0 ≡ false
        → pending (abort_key (get_byte M d (sock_reg 0x01) s).1).1 < pending s

  -- Behind the command OPEN for a TCP socket the card gets ready to SOCK_INIT, and behind the command
  -- CONNECT for a socket that was found there it connects or gives up, each within a limit of polls of
  -- the status register.
  pub record ConnectsWithin (C : IsChip M d) (limit : ℕ) : Type 1 where
    pub Opening : State → Type 0
    pub opening : State → ℕ
    pub opening-command :
        (s : State)
        → IsTcp (IsChip.memory C s 0x0500)
        → Opening (set_byte M d (sock_reg 0x01) 0x01 s)
    pub opening-le : (s : State) → Opening s → opening s ≤ limit
    pub opening-wait :
        (s : State)
        → Opening s
        → (get_byte M d (sock_reg 0x03) s).0 ≢ 0x13
        → (abort_key (get_byte M d (sock_reg 0x03) s).1).0 ≡ false
        → Opening (abort_key (get_byte M d (sock_reg 0x03) s).1).1
          × (opening (abort_key (get_byte M d (sock_reg 0x03) s).1).1 < opening s)
    pub Connecting : State → Type 0
    pub connecting : State → ℕ
    pub connecting-command :
        (s : State)
        → (get_byte M d (sock_reg 0x03) s).0 ≡ 0x13
        → Connecting (set_byte M d (sock_reg 0x01) 0x04 (get_byte M d (sock_reg 0x03) s).1)
    pub connecting-le : (s : State) → Connecting s → connecting s ≤ limit
    pub connecting-wait :
        (s : State)
        → Connecting s
        → (get_byte M d (sock_reg 0x03) s).0 ≢ 0x00
        → (get_byte M d (sock_reg 0x03) s).0 ≢ 0x17
        → (abort_key (get_byte M d (sock_reg 0x03) s).1).0 ≡ false
        → Connecting (abort_key (get_byte M d (sock_reg 0x03) s).1).1
          × (connecting (abort_key (get_byte M d (sock_reg 0x03) s).1).1 < connecting s)

  -- The abort key has just been found pressed.
  pub Aborted : State → Type 0
  Aborted s = (s0 : State) × ((abort_key s0).0 ≡ true) × (s ≡ (abort_key s0).1)

  -- A register has just been read, with that value.
  pub Found : (reg value : ℕ) → State → Type 0
  Found reg value s =
      (s0 : State) × ((get_byte M d reg s0).0 ≡ value) × (s ≡ (get_byte M d reg s0).1)

  -- Success is the status SOCK_INIT; a failure is the abort key.
  abbrev pub Inits : Option (Bool × State) → Type 0
  Inits none = ⊥
  Inits (some (true, s)) = Found (sock_reg 0x03) 0x13 s
  Inits (some (false, s)) = Aborted s

  -- Success is the status SOCK_ESTABLISHED; a failure is SOCK_CLOSED or the abort key.
  abbrev pub Connects : Option (Bool × State) → Type 0
  Connects none = ⊥
  Connects (some (true, s)) = Found (sock_reg 0x03) 0x17 s
  Connects (some (false, s)) = Found (sock_reg 0x03) 0x00 s ⊎ Aborted s

  -- The command DISCON has been given, when no other was pending, or the abort key was pressed.
  abbrev pub Disconnects : Option State → Type 0
  Disconnects none = ⊥
  Disconnects (some s) =
      ((s0 : State) × Found (sock_reg 0x01) 0 s0 × (s ≡ set_byte M d (sock_reg 0x01) 0x08 s0))
      ⊎ Aborted s

  module _ (C : IsChip M d) (limit : ℕ) (A : ConnectsWithin C limit) where
    init-Inits :
        (fuel : ℕ) (s : State) → A.Opening s → A.opening s < fuel → Inits (await_init M d fuel s)
    unfolding await_init Aborted Found
    init-Inits zero s o enough = absurd (omega arith)
    init-Inits (suc fuel) s o enough =
        let read = get_byte M d (sock_reg 0x03) s in
        let key = abort_key read.1 in
        elim (Bool-cases (read.0 == 0x13)) [
          | inl ready ↦ rw ready (s, (==_iff _ _).0 ready, refl)
          | inr waits ↦ rw waits (elim (Bool-cases key.0) [
            | inl pressed ↦ rw pressed (read.1, pressed, refl)
            | inr calm ↦
                let next = A.opening-wait s o (ground arith) calm in
                rw calm (init-Inits fuel key.1 next.0 (omega (arith, next.1)))
          ])
        ]

    connection-Connects :
        (fuel : ℕ) (s : State)
        → A.Connecting s
        → A.connecting s < fuel
        → Connects (await_connection M d fuel s)
    unfolding await_connection Aborted Found
    connection-Connects zero s o enough = absurd (omega arith)
    connection-Connects (suc fuel) s o enough =
        let read = get_byte M d (sock_reg 0x03) s in
        let key = abort_key read.1 in
        elim (Bool-cases (read.0 == 0x00)) [
          | inl closed ↦ rw closed (inl (s, (==_iff _ _).0 closed, refl))
          | inr open_still ↦ rw open_still (elim (Bool-cases (read.0 == 0x17)) [
            | inl up ↦ rw up (s, (==_iff _ _).0 up, refl)
            | inr waits ↦ rw waits (elim (Bool-cases key.0) [
              | inl pressed ↦ rw pressed (inr (read.1, pressed, refl))
              | inr calm ↦
                  let next = A.connecting-wait s o (ground arith) (ground arith) calm in
                  rw calm (connection-Connects fuel key.1 next.0 (omega (arith, next.1)))
            ])
          ])
        ]

    command-Connects :
        (fuel : ℕ) (r : Option (Bool × State))
        → limit < fuel
        → Inits r
        → Connects (command_connect M d fuel r)
    unfolding command_connect Found
    command-Connects fuel none enough h = h
    command-Connects fuel (some (false, s)) enough h = inr h
    command-Connects fuel (some (true, s)) enough (s0, ready, e) =
        let o : A.Connecting (set_byte M d (sock_reg 0x01) 0x04 s) =
          rw e (A.connecting-command s0 ready) in
        connection-Connects fuel _ o (omega (arith, A.connecting-le _ o))

    connect-Connects :
        (fuel port : ℕ) (s : State)
        → limit < fuel
        → IsTcp (IsChip.memory C s 0x0500)
        → Connects (w5100_connect M d fuel port s)
    unfolding w5100_connect
    connect-Connects fuel port s enough tcp =
        let o = A.opening-command _ (subst IsTcp (sym (memory-ports M d C port s)) tcp) in
        command-Connects fuel (await_init M d fuel _) enough
          (init-Inits fuel _ o (omega (arith, A.opening-le _ o)))

    -- With a card that, behind the command OPEN for a socket whose mode register says TCP, gets to
    -- SOCK_INIT within a limit of polls, and behind the command CONNECT from there to SOCK_ESTABLISHED
    -- or SOCK_CLOSED, and with fuel above that limit, connecting to an address or to a name of less
    -- than 256 bytes ends: with success right behind the status SOCK_ESTABLISHED, with failure right
    -- behind the status SOCK_CLOSED or the abort key.
    pub w5100_connect-Connects :
        (fuel addr port : ℕ) (name : List ℕ) (length : ℕ) (s : State)
        → limit < fuel
        → length < 2 ^ 8
        → Connects (w5100_connect_addr M d fuel addr port s)
          × Connects (w5100_connect_name M d fuel name length port s)
    unfolding w5100_connect_addr w5100_connect_name
    w5100_connect-Connects fuel addr port name length s enough small = (
      connect-Connects fuel port _ enough (inl (memory-addr M d C addr s)),
      connect-Connects fuel port _ enough (inr (memory-name M d C name length s small)),
    )

  module _ (limit : ℕ) (A : TakesWithin limit) where
    disconnect-Disconnects :
        (fuel : ℕ) (s : State) → A.pending s < fuel → Disconnects (w5100_disconnect M d fuel s)
    unfolding w5100_disconnect Aborted Found
    disconnect-Disconnects zero s enough = absurd (omega arith)
    disconnect-Disconnects (suc fuel) s enough =
        let read = get_byte M d (sock_reg 0x01) s in
        let key = abort_key read.1 in
        elim (Bool-cases (read.0 == 0)) [
          | inl ready ↦ rw ready (inl (read.1, (s, (==_iff _ _).0 ready, refl), refl))
          | inr waits ↦ rw waits (elim (Bool-cases key.0) [
            | inl pressed ↦ rw pressed (inr (read.1, pressed, refl))
            | inr calm ↦ rw calm (
                disconnect-Disconnects fuel key.1
                  (omega (arith, A.pending-wait s (ground arith) calm)))
          ])
        ]

    -- With a card that takes a pending command, and so clears the command register, within a limit of
    -- polls, and with fuel above that limit, disconnecting ends: the command DISCON is given right
    -- behind a poll that finds no command pending, unless the abort key is pressed before.
    pub w5100_disconnect-Disconnects :
        (fuel : ℕ) (s : State) → limit < fuel → Disconnects (w5100_disconnect M d fuel s)
    w5100_disconnect-Disconnects fuel s enough =
        disconnect-Disconnects fuel s (omega (arith, A.pending-le s))

  module _ (limit : ℕ) (A : SettlesWithin M d limit) where
    -- Nothing is granted, or bytes of the memory of socket 1 from the address register on.
    abbrev pub Answers : IsChip M d → Bool → Option (ℕ × State) → Type 0
    Answers C do_send none = ⊥
    Answers C do_send (some (n, s)) = (n ≡ 0) ⊎ Granted M d C (area d do_send) n s

    -- A request for data or room ends, with fuel above the limit within which the card's sizes settle,
    -- if the memory of socket 1 is a power of two of bytes at a multiple of its size, which it is
    -- unless socket 1 is given more memory than socket 0; it grants nothing, or a part of that memory
    -- at which the address register stands.
    pub w5100_data_request-Answers :
        (C : IsChip M d) (fuel : ℕ) (do_send : Bool) (s : State)
        → IsArea (area d do_send)
        → limit < fuel
        → Answers C do_send (w5100_data_request M d fuel do_send s)
    w5100_data_request-Answers C fuel do_send s v enough =
        go (w5100_data_request M d fuel do_send s) refl
          (request-Returns M d limit A fuel do_send s enough)
      where
        go :
            (r : Option (ℕ × State))
            → w5100_data_request M d fuel do_send s ≡ r
            → Returns M d limit A r
            → Answers C do_send r
        go none e h = h
        go (some (n, s')) e h = elim (Bool-cases (n == 0)) [
          | inl nothing ↦ inl ((==_iff _ _).0 nothing)
          | inr something ↦
              inr (w5100_data_request-Granted M d C fuel do_send s n s' v e (ground arith))
        ]
