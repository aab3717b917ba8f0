-- ===== src/W5100/Interface.antt =====
-- apps/w5100.h: the driver as the socket that its clients use.
use ip.Common.{ℕ, true, false, Option, none, some}
use ip.Socket.{Socket}
use ip.W5100.{
  Machine, Driver, w5100_connected, w5100_data_request, w5100_data_commit, w5100_disconnect,
}

-- The result of a call; if it does not return, nothing is granted.
abbrev pub granted {ℓ} : {A : Type ℓ} → A → Option (ℕ × A) → ℕ × A
granted s none = (0, s)
granted s (some r) = r

abbrev pub returned {ℓ} : {A : Type ℓ} → A → Option A → A
returned s none = s
returned s (some r) = r

-- `w5100_receive_request` and the like are macros for `w5100_data_request` and `w5100_data_commit`.
-- The waiting loops have the same fuel in each call.
abbrev pub driver_socket : Machine → Driver → ℕ → Socket
driver_socket M d fuel = record {
  State = M.State;
  abort_key = M.abort_key;
  connected = w5100_connected M d;
  receive_request = λ s. granted s (w5100_data_request M d fuel false s);
  send_request = λ s. granted s (w5100_data_request M d fuel true s);
  read = M.load d.w5100_data;
  write = M.store d.w5100_data;
  receive_commit = w5100_data_commit M d false;
  send_commit = w5100_data_commit M d true;
  disconnect = λ s. returned s (w5100_disconnect M d fuel s);
}
