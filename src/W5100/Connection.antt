-- ===== src/W5100/Connection.antt =====
-- What a connection attempt leaves in the card's registers.
use ip.Common.{ℕ, zero, suc, ◌/◌, ◌^◌, ◌≡◌, refl, ◌∙◌, Bool, true, false, ◌==◌, if◌then◌else◌}
use ip.Common.{Option, none, some, arith, Bool-cases, inl, inr}
use ip.W5100.{Machine, Driver, sock_reg, byte, get_byte, set_byte, set_word, set_quad}
use ip.W5100.{await_init, await_connection, command_connect, w5100_connect, w5100_connect_addr}
use ip.W5100.Bus.{
  IsChip, is_host_register, memory-get_byte, memory-set_byte, memory-set_word, memory-set_quad,
}

module _ (M : Machine) (d : Driver) (C : IsChip M d) where
  open C use {memory}

  -- The outcome of a call, if there is one, has a register as a state has it.
  abbrev pub Kept : ℕ → M.State → Option (Bool × M.State) → Type 0
  Kept a s none = Unit {0}
  Kept a s (some (connected, s')) = memory s' a ≡ memory s a

  Kept-trans :
      (a : ℕ) (s t : M.State) (o : Option (Bool × M.State))
      → memory t a ≡ memory s a
      → Kept a t o
      → Kept a s o
  Kept-trans a s t none e k = tt
  Kept-trans a s t (some (connected, s')) e k = k ∙ e

  module _ (a : ℕ) (h : is_host_register a ≡ true) where
    await_init-Kept : (fuel : ℕ) (s : M.State) → Kept a s (await_init M d fuel s)
    unfolding await_init
    await_init-Kept zero s = tt
    await_init-Kept (suc fuel) s =
        let polled = get_byte M d (sock_reg 0x03) s in
        let e : memory polled.1 a ≡ memory s a = memory-get_byte M d C (sock_reg 0x03) s a h in
        let keyed = M.abort_key polled.1 in
        let k : memory keyed.1 a ≡ memory s a = C.memory-abort_key polled.1 a h ∙ e in
        elim (Bool-cases (polled.0 == 0x13)) [
          | inl ready ↦ rw ready e
          | inr waiting ↦ rw waiting (elim (Bool-cases keyed.0) [
            | inl aborted ↦ rw aborted k
            | inr on ↦ rw on (Kept-trans a s keyed.1 _ k (await_init-Kept fuel keyed.1))
          ])
        ]

    await_connection-Kept : (fuel : ℕ) (s : M.State) → Kept a s (await_connection M d fuel s)
    unfolding await_connection
    await_connection-Kept zero s = tt
    await_connection-Kept (suc fuel) s =
        let polled = get_byte M d (sock_reg 0x03) s in
        let e : memory polled.1 a ≡ memory s a = memory-get_byte M d C (sock_reg 0x03) s a h in
        let keyed = M.abort_key polled.1 in
        let k : memory keyed.1 a ≡ memory s a = C.memory-abort_key polled.1 a h ∙ e in
        elim (Bool-cases (polled.0 == 0x00)) [
          | inl closed ↦ rw closed e
          | inr other ↦ rw other (elim (Bool-cases (polled.0 == 0x17)) [
            | inl established ↦ rw established e
            | inr waiting ↦ rw waiting (elim (Bool-cases keyed.0) [
              | inl aborted ↦ rw aborted k
              | inr on ↦ rw on (Kept-trans a s keyed.1 _ k (await_connection-Kept fuel keyed.1))
            ])
          ])
        ]

    command-Kept : (v : ℕ) (s : M.State) → memory (set_byte M d (sock_reg 0x01) v s) a ≡ memory s a
    command-Kept v s =
        memory-set_byte M d C (sock_reg 0x01) v s a (omega arith) h ∙ rw (command_is_no_host a h)
      where
        command_is_no_host : (a : ℕ) → is_host_register a ≡ true → (sock_reg 0x01 == a) ≡ false
        command_is_no_host a h = ground arith

    command_connect-Kept :
        (fuel : ℕ) (s : M.State) (o : Option (Bool × M.State))
        → Kept a s o
        → Kept a s (command_connect M d fuel o)
    unfolding command_connect
    command_connect-Kept fuel s none k = tt
    command_connect-Kept fuel s (some (false, t)) k = k
    command_connect-Kept fuel s (some (true, t)) k =
        let u = set_byte M d (sock_reg 0x01) 0x04 t in
        Kept-trans a s u _ (command-Kept 0x04 t ∙ k) (await_connection-Kept fuel u)

    -- The registers that the attempt itself does not set.
    connect-Kept :
        (fuel port : ℕ) (s : M.State) (v : ℕ)
        → memory
            (set_word M d
              (sock_reg 0x10)
              port
              (set_word M d (sock_reg 0x04) (M.random_word s).0 (M.random_word s).1))
            a
          ≡ v
        → (connected : Bool) (s' : M.State) → w5100_connect M d fuel port s ≡ some (connected, s')
        → memory s' a ≡ v
    unfolding w5100_connect
    connect-Kept fuel port s v e connected s' r =
        let t =
          set_word M d (sock_reg 0x10) port
            (set_word M d (sock_reg 0x04) (M.random_word s).0 (M.random_word s).1) in
        let u = set_byte M d (sock_reg 0x01) 0x01 t in
        let k : Kept a u (command_connect M d fuel (await_init M d fuel u)) =
          command_connect-Kept fuel u (await_init M d fuel u) (await_init-Kept fuel u) in
        let k' : memory s' a ≡ memory u a = rw r at k in k' ∙ (command-Kept 0x01 t ∙ e)

  -- The registers of socket 1 that describe the connection: TCP without delayed ACK, the peer's
  -- address in the order of the network (`cfg_ip` and the like hold it little-endian), the port.
  pub record Requested (addr port : ℕ) (s : M.State) : Type 0 where
    pub mode : memory s 0x0500 ≡ 0x21
    pub addr_0 : memory s 0x050C ≡ byte addr
    pub addr_1 : memory s 0x050D ≡ byte (addr / 2 ^ 8)
    pub addr_2 : memory s 0x050E ≡ byte (addr / 2 ^ 16)
    pub addr_3 : memory s 0x050F ≡ byte (addr / 2 ^ 24)
    pub port_hi : memory s 0x0510 ≡ byte (port / 2 ^ 8)
    pub port_lo : memory s 0x0511 ≡ byte port

  -- A register in front of the commands of a connection attempt.
  abbrev set_up : (addr port source : ℕ) → M.State → ℕ → ℕ
  set_up addr port source s a =
      if 0x0511 == a
      then byte port
      else (if 0x0510 == a
          then byte (port / 2 ^ 8)
          else (if 0x0505 == a
              then byte source
              else (if 0x0504 == a
                  then byte (source / 2 ^ 8)
                  else (if 0x050F == a
                      then byte (addr / 2 ^ 24)
                      else (if 0x050E == a
                          then byte (addr / 2 ^ 16)
                          else (if 0x050D == a
                              then byte (addr / 2 ^ 8)
                              else (if 0x050C == a
                                  then byte addr
                                  else (if 0x0500 == a then 0x21 else memory s a))))))))

  connect_addr-register :
      (fuel addr port : ℕ) (s : M.State) (connected : Bool) (s' : M.State)
      → w5100_connect_addr M d fuel addr port s ≡ some (connected, s')
      → (a : ℕ) → is_host_register a ≡ true
      → memory s' a
        ≡ set_up addr port
            (M.random_word
              (set_quad M d (sock_reg 0x0C) addr (set_byte M d (sock_reg 0x00) 0x21 s))).0
            s
            a
  unfolding w5100_connect_addr
  connect_addr-register fuel addr port s connected s' r a h =
      let s1 = set_byte M d (sock_reg 0x00) 0x21 s in
      let s2 = set_quad M d (sock_reg 0x0C) addr s1 in
      let (source, s3) = M.random_word s2 in
      connect-Kept a h fuel port s2 _
        (memory-set_word M d C (sock_reg 0x10) port _ a (omega arith) h
          ∙ rw (
            memory-set_word M d C (sock_reg 0x04) source s3 a (omega arith) h,
            C.memory-random_word s2 a h,
            memory-set_quad M d C (sock_reg 0x0C) addr s1 a (omega arith) h,
            memory-set_byte M d C (sock_reg 0x00) 0x21 s a (omega arith) h,
          ))
        connected s' r

  -- When a connection attempt to an address ends, successfully or not, socket 1 is set to TCP and to
  -- the address and the port that were asked for.
  pub w5100_connect_addr-Requested :
      (fuel addr port : ℕ) (s : M.State) (connected : Bool) (s' : M.State)
      → w5100_connect_addr M d fuel addr port s ≡ some (connected, s')
      → Requested addr port s'
  w5100_connect_addr-Requested fuel addr port s connected s' r =
      let register = connect_addr-register fuel addr port s connected s' r in
      record {
        mode = register 0x0500 refl;
        addr_0 = register 0x050C refl;
        addr_1 = register 0x050D refl;
        addr_2 = register 0x050E refl;
        addr_3 = register 0x050F refl;
        port_hi = register 0x0510 refl;
        port_lo = register 0x0511 refl;
      }
