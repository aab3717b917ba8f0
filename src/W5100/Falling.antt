-- ===== src/W5100/Falling.antt =====
-- apps/w5100.c: a measure of the machine that no access makes larger.
use ip.Common.{ℕ, zero, suc, ◌+◌, ◌/◌, ◌%◌, ◌^◌, ◌≤◌, Bool, true, List, [], ◌∷◌}
use ip.Common.{arith, length}
use ip.Socket.{read_bytes, write_bytes, put}
use ip.W5100.{
  Machine, Driver, pick, sock_reg, set_addr, get_word, set_byte, set_word, w5100_data_request,
  w5100_data_commit, w5100_connected,
}
use ip.W5100.Interface.{driver_socket, granted}
use ip.W5100.Accesses.{IsKept, set_addr-Rel, get_word-Rel, request-Rel, connected-Rel}

pub record Falls (M : Machine) (f : M.State → ℕ) : Type 0 where
  pub falls-load : (port : ℕ) (s : M.State) → f (M.load port s).1 ≤ f s
  pub falls-store : (port v : ℕ) (s : M.State) → f (M.store port v s) ≤ f s
  pub falls-abort_key : (s : M.State) → f (M.abort_key s).1 ≤ f s

module _ (M : Machine) (d : Driver) (f : M.State → ℕ) (F : Falls M f) where
  pub falls-IsKept : IsKept M d (λ s t. f t ≤ f s)
  falls-IsKept = record {
    rel_refl = λ s. omega arith;
    rel_trans = λ s t u h k. omega (arith, h, k);
    rel-store_hi = λ v s. F.falls-store d.w5100_addr_hi v s;
    rel-store_lo = λ v s. F.falls-store d.w5100_addr_lo v s;
    rel-load = λ s. F.falls-load d.w5100_data s;
  }

  falls-set_addr : (addr : ℕ) (s : M.State) → f (set_addr M d addr s) ≤ f s
  falls-set_addr addr s = set_addr-Rel M d (λ s t. f t ≤ f s) falls-IsKept addr s

  falls-set_byte : (addr v : ℕ) (s : M.State) → f (set_byte M d addr v s) ≤ f s
  unfolding set_byte
  falls-set_byte addr v s =
      omega
        (arith, F.falls-store d.w5100_data (v % 2 ^ 8) (set_addr M d addr s), falls-set_addr addr s)

  falls-set_word : (addr v : ℕ) (s : M.State) → f (set_word M d addr v s) ≤ f s
  unfolding set_word
  falls-set_word addr v s =
      let s0 = set_addr M d addr s in
      let s1 = M.store d.w5100_data (v / 2 ^ 8 % 2 ^ 8) s0 in
      omega (
        arith,
        F.falls-store d.w5100_data (v % 2 ^ 8) s1,
        F.falls-store d.w5100_data (v / 2 ^ 8 % 2 ^ 8) s0,
        falls-set_addr addr s,
      )

  pub falls-request :
      (fuel : ℕ) (do_send : Bool) (s : M.State)
      → f (granted s (w5100_data_request M d fuel do_send s)).1 ≤ f s
  falls-request fuel do_send s = request-Rel M d (λ s t. f t ≤ f s) falls-IsKept fuel do_send s

  pub falls-connected : (s : M.State) → f (w5100_connected M d s).1 ≤ f s
  falls-connected s = connected-Rel M d (λ s t. f t ≤ f s) falls-IsKept s

  pub falls-read_bytes :
      (fuel k : ℕ) (s : M.State) → f (read_bytes (driver_socket M d fuel) k s).1 ≤ f s
  unfolding read_bytes
  falls-read_bytes fuel zero s = omega arith
  falls-read_bytes fuel (suc k) s =
      omega (arith, F.falls-load d.w5100_data s, falls-read_bytes fuel k (M.load d.w5100_data s).1)

  pub falls-write_bytes :
      (fuel : ℕ) (bytes : List ℕ) (s : M.State)
      → f (write_bytes (driver_socket M d fuel) bytes s) ≤ f s
  unfolding write_bytes
  falls-write_bytes fuel [] s = omega arith
  falls-write_bytes fuel (b ∷ bytes) s = omega (
    arith,
    F.falls-store d.w5100_data b s,
    falls-write_bytes fuel bytes (M.store d.w5100_data b s),
  )

  pub falls-commit :
      (do_send : Bool) (size : ℕ) (s : M.State) → f (w5100_data_commit M d do_send size s) ≤ f s
  unfolding w5100_data_commit
  falls-commit do_send size s =
      let reg = pick do_send (sock_reg 0x28) (sock_reg 0x24) in
      let q = get_word M d reg s in
      let v = (q.0 + size) % 2 ^ 16 in
      omega (
        arith,
        get_word-Rel M d (λ s t. f t ≤ f s) falls-IsKept reg s,
        falls-set_word reg v q.1,
        falls-set_byte (sock_reg 0x01) (pick do_send 0x40 0x20) (set_word M d reg v q.1),
      )

  pub falls-put :
      (fuel : ℕ) (s : M.State) (bytes : List ℕ) → f (put (driver_socket M d fuel) bytes s) ≤ f s
  falls-put fuel s bytes =
      let s1 = (granted s (w5100_data_request M d fuel true s)).1 in
      omega (
        arith,
        falls-request fuel true s,
        falls-write_bytes fuel bytes s1,
        falls-commit true (length bytes) (write_bytes (driver_socket M d fuel) bytes s1),
      )
