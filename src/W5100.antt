-- ===== src/W5100.antt =====
-- apps/w5100.c, built without SINGLE_SOCKET: the driver of the W5100's socket 1.
pub mod Bus
pub mod Ports
pub mod Window
pub mod Mode
pub mod Waiting
pub mod Commit
pub mod Interface
pub mod Accesses
pub mod Request
pub mod Falling
pub mod Patience
pub mod Duplex
pub mod Draining
pub mod Exchange
pub mod Card
pub mod Configuration
pub mod Ring
pub mod Receiving
pub mod Sending
pub mod Connection
mod Tests
use ip.Common.{
  ℕ, zero, suc, ◌+◌, ◌-◌, ◌*◌, ◌/◌, ◌%◌, ◌^◌, Bool, true, false, List, [], ◌∷◌, ◌==◌, ltb,
  if◌then◌else◌,
}
use ip.Common.{Option, none, some, bit_and, bit_or, get_or, take, not}
use ip.Common.Words.{add16, sub16}

-- The machine that the driver runs on: byte accesses to I/O addresses, the abort key, and
-- `ip65_random_word`. Every access may change the machine.
pub record Machine : Type 1 where
  pub State : Type 0
  pub load : ℕ → State → ℕ × State
  pub store : ℕ → ℕ → State → State
  pub abort_key : State → Bool × State
  pub random_word : State → ℕ × State

-- `addr_basis`, `addr_limit` and `addr_mask` for one direction.
pub record Area : Type 0 where
  pub basis : ℕ
  pub limit : ℕ
  pub mask : ℕ

-- The static variables.
pub record Driver : Type 0 where
  pub w5100_mode : ℕ
  pub w5100_addr_hi : ℕ
  pub w5100_addr_lo : ℕ
  pub w5100_data : ℕ
  pub receiving : Area
  pub sending : Area

-- An entry of `addr_basis[do_send]` and the like.
abbrev pub area : Driver → Bool → Area
area d false = d.receiving
area d true = d.sending

abbrev set_area : Driver → Bool → Area → Driver
set_area d false a = record d { receiving = a }
set_area d true a = record d { sending = a }

-- An entry of a table of two.
abbrev pub pick : Bool → ℕ → ℕ → ℕ
pick false rx tx = rx
pick true rx tx = tx

-- `SOCK_REG`
abbrev pub sock_reg : ℕ → ℕ
sock_reg offset = bit_or 0x0500 offset

abbrev pub byte : ℕ → ℕ
byte v = v % 2 ^ 8

-- The addresses of the card's four registers.
pub set_ports : ℕ → Driver → Driver
set_ports eth_init d =
    let mode = bit_or (eth_init * 2 ^ 4) 0xC084 in
    record d {
      w5100_mode = mode;
      w5100_addr_hi = mode + 1;
      w5100_addr_lo = mode + 2;
      w5100_data = mode + 3;
    }

-- `size[n]`
abbrev pub memory_size : ℕ → ℕ
memory_size n = get_or (0x0400 ∷ 0x0800 ∷ 0x1000 ∷ 0x2000 ∷ []) n 0

-- The part of the memory that starts at `addr` which belongs to socket 1, behind socket 0's.
pub socket_area : ℕ → ℕ → Area
socket_area addr sizes =
    let basis = add16 addr (memory_size (bit_and sizes 0x03)) in
    let size = memory_size (bit_and (sizes / 2 ^ 2) 0x03) in
    record { basis = basis; limit = add16 basis size; mask = size - 1 }

module _ (M : Machine) where
  open M use {State, load, store, abort_key, random_word}

  module _ (d : Driver) where
    unfoldable pub set_addr : ℕ → State → State
    set_addr addr s =
        store d.w5100_addr_lo (byte addr) (store d.w5100_addr_hi (byte (addr / 2 ^ 8)) s)

    unfoldable pub get_byte : ℕ → State → ℕ × State
    unfolding set_addr
    get_byte addr s = load d.w5100_data (set_addr addr s)

    unfoldable pub set_byte : ℕ → ℕ → State → State
    unfolding set_addr
    set_byte addr v s = store d.w5100_data (byte v) (set_addr addr s)

    unfoldable pub get_word : ℕ → State → ℕ × State
    unfolding set_addr
    get_word addr s =
        let (hi, s1) = load d.w5100_data (set_addr addr s) in
        let (lo, s2) = load d.w5100_data s1 in (bit_or (hi * 2 ^ 8) lo, s2)

    unfoldable pub set_word : ℕ → ℕ → State → State
    unfolding set_addr
    set_word addr v s =
        store d.w5100_data (byte v) (store d.w5100_data (byte (v / 2 ^ 8)) (set_addr addr s))

    -- The lowest byte goes first: `v` is an address in network order on a little-endian machine.
    unfoldable pub set_quad : ℕ → ℕ → State → State
    unfolding set_addr
    set_quad addr v s = store d.w5100_data (byte (v / 2 ^ 24)) (
        store d.w5100_data (byte (v / 2 ^ 16))
          (store d.w5100_data (byte (v / 2 ^ 8)) (store d.w5100_data (byte v) (set_addr addr s))))

  -- Is this the virtual W5100 that offloads DNS?
  pub w5100_init : ℕ → Driver → State → Bool × Driver × State
  unfolding set_ports get_byte
  w5100_init eth_init d s =
      let d1 = set_ports eth_init d in let (v, s1) = get_byte d1 0x0028 s in (v == 0x00, d1, s1)

  -- A round of the loop over `do_send`.
  pub config_area : Bool → Driver → State → Driver × State
  unfolding socket_area get_byte
  config_area do_send d s =
      let (sizes, s1) = get_byte d (pick do_send 0x001A 0x001B) s in
      (set_area d do_send (socket_area (pick do_send 0x6000 0x4000) sizes), s1)

  -- With `cfg_ip`, `cfg_netmask` and `cfg_gateway` of ip65.
  pub w5100_config : (cfg_ip cfg_netmask cfg_gateway : ℕ) → Driver → State → Driver × State
  unfolding config_area set_quad
  w5100_config cfg_ip cfg_netmask cfg_gateway d s =
      let s1 = set_quad d 0x000F cfg_ip s in
      let s2 = set_quad d 0x0005 cfg_netmask s1 in
      let s3 = set_quad d 0x0001 cfg_gateway s2 in
      let (d1, s4) = config_area false d s3 in config_area true d1 s4

  module _ (d : Driver) where
    -- `while (get_byte(SOCK_REG(0x03)) != 0x13)`; none if the fuel runs out.
    unfoldable pub await_init : ℕ → State → Option (Bool × State)
    unfolding get_byte
    await_init zero s = none
    await_init (suc fuel) s =
        let (status, s1) = get_byte d (sock_reg 0x03) s in
        let (key, s2) = abort_key s1 in
        let rest = await_init fuel s2 in
        if status == 0x13 then some (true, s1) else (if key then some (false, s2) else rest)

    -- `while (true)` behind the CONNECT command.
    unfoldable pub await_connection : ℕ → State → Option (Bool × State)
    unfolding get_byte
    await_connection zero s = none
    await_connection (suc fuel) s =
        let (status, s1) = get_byte d (sock_reg 0x03) s in
        let (key, s2) = abort_key s1 in
        let rest = await_connection fuel s2 in
        if status == 0x00
        then some (false, s1)
        else (if status == 0x17 then some (true, s1) else (if key then some (false, s2) else rest))

    -- CONNECT, if the socket was opened.
    pub command_connect : ℕ → Option (Bool × State) → Option (Bool × State)
    unfolding await_connection set_byte
    command_connect fuel none = none
    command_connect fuel (some (false, s)) = some (false, s)
    command_connect fuel (some (true, s)) =
        await_connection fuel (set_byte d (sock_reg 0x01) 0x04 s)

    unfoldable pub w5100_connect : ℕ → ℕ → State → Option (Bool × State)
    unfolding command_connect await_init set_word
    w5100_connect fuel port s =
        let (source, s1) = random_word s in
        let s2 = set_word d (sock_reg 0x04) source s1 in
        let s3 = set_word d (sock_reg 0x10) port s2 in
        command_connect fuel (await_init fuel (set_byte d (sock_reg 0x01) 0x01 s3))

    unfoldable pub w5100_connect_addr : ℕ → (addr port : ℕ) → State → Option (Bool × State)
    unfolding w5100_connect set_quad
    w5100_connect_addr fuel addr port s =
        w5100_connect fuel port
          (set_quad d (sock_reg 0x0C) addr (set_byte d (sock_reg 0x00) 0x21 s))

    -- `while (length--) *w5100_data = *name++;` over the first `length` characters of the name.
    unfoldable pub store_name : List ℕ → State → State
    store_name [] s = s
    store_name (c ∷ name) s = store_name name (store d.w5100_data (byte c) s)

    pub w5100_connect_name : ℕ → List ℕ → (length port : ℕ) → State → Option (Bool × State)
    unfolding w5100_connect set_byte store_name
    w5100_connect_name fuel name length port s = w5100_connect fuel port (
        store_name (take length name)
          (set_byte d (sock_reg 0x2A) length (set_byte d (sock_reg 0x00) 0x29 s)))

    unfoldable pub w5100_connected : State → Bool × State
    unfolding get_byte
    w5100_connected s = let (status, s1) = get_byte d (sock_reg 0x03) s in (status == 0x17, s1)

    -- None if the fuel runs out while a command is pending.
    unfoldable pub w5100_disconnect : ℕ → State → Option State
    unfolding get_byte set_byte
    w5100_disconnect zero s = none
    w5100_disconnect (suc fuel) s =
        let (pending, s1) = get_byte d (sock_reg 0x01) s in
        let (key, s2) = abort_key s1 in
        let rest = w5100_disconnect fuel s2 in
        if pending == 0
        then some (set_byte d (sock_reg 0x01) 0x08 s1)
        else (if key then some s2 else rest)

    -- `do … while (size != prev_size)`, with the size that was read last; none if the fuel runs out.
    unfoldable pub settle : ℕ → (reg size : ℕ) → State → Option (ℕ × State)
    unfolding get_word
    settle zero reg size s = none
    settle (suc fuel) reg size s =
        let (next, s1) = get_word d reg s in
        let rest = settle fuel reg next s1 in if next == size then some (next, s1) else rest

    -- The end of `w5100_data_request`: the physical address is set, and the length is cut off at the
    -- end of the memory.
    unfoldable pub grant : Bool → ℕ → State → ℕ × State
    unfolding get_word set_addr
    grant do_send size s =
        let (pointer, s1) = get_word d (pick do_send (sock_reg 0x28) (sock_reg 0x24)) s in
        let a = area d do_send in
        let addr = bit_or (bit_and pointer a.mask) a.basis in
        let room = sub16 a.limit addr in (if ltb size room then size else room, set_addr d addr s1)

    unfoldable pub settled : Bool → Option (ℕ × State) → Option (ℕ × State)
    unfolding grant
    settled do_send none = none
    settled do_send (some (size, s)) =
        if size == 0 then some (0, s) else some (grant do_send size s)

    unfoldable pub w5100_data_request : ℕ → Bool → State → Option (ℕ × State)
    unfolding get_byte settle settled
    w5100_data_request fuel do_send s =
        let (pending, s1) = get_byte d (sock_reg 0x01) s in
        if not (pending == 0)
        then some (0, s1)
        else settled do_send (settle fuel (pick do_send (sock_reg 0x26) (sock_reg 0x20)) 0 s1)

    unfoldable pub w5100_data_commit : Bool → ℕ → State → State
    unfolding get_word set_word set_byte
    w5100_data_commit do_send size s =
        let reg = pick do_send (sock_reg 0x28) (sock_reg 0x24) in
        let (pointer, s1) = get_word d reg s in
        set_byte d (sock_reg 0x01) (pick do_send 0x40 0x20) (set_word d reg (add16 pointer size) s1)
