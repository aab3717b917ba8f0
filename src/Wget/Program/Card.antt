-- ===== src/Wget/Program/Card.antt =====
-- apps/wget65.c over apps/w5100.c: a transfer as a whole, from the card to the file.
mod Tests
use ip.Common.{ℕ, Bool, false, length}
use ip.Common.{Option, none, some}
use ip.Socket.{Socket}
use ip.W5100.{Machine, Driver, w5100_init, w5100_config, w5100_connect_addr, w5100_connect_name}
use ip.W5100.Interface.{driver_socket}
use ip.W5100.Card.{IsSocketCard}
use ip.Wget.Receive.{Files}
use ip.Wget.Receive.Writer.{IsWriter}
use ip.Wget.Device.{Drives}
use ip.Wget.Program.{Network}

-- A call that does not return has not connected.
abbrev pub connected {ℓ} : {A : Type ℓ} → A → Option (Bool × A) → Bool × A
connected s none = (false, s)
connected s (some r) = r

-- The driver's own calls to connect. `w5100_init` and `w5100_config` change the static variables, which are
-- fixed here as the two have left them, so that they are parameters.
abbrev pub driver_network :
    (M : Machine) (d : Driver) (fuel : ℕ) (init : ℕ → M.State → Bool × M.State)
    (config : M.State → M.State)
    → Network (driver_socket M d fuel)
driver_network M d fuel init config = record {
  w5100_init = init;
  w5100_config = config;
  w5100_connect_addr = λ addr port s. connected s (w5100_connect_addr M d fuel addr port s);
  w5100_connect_name =
      λ name length port s. connected s (w5100_connect_name M d fuel name length port s);
}

module _ (M : Machine) (d : Driver) (rounds : ℕ) (X : IsSocketCard M d rounds)
    (init : ℕ → M.State → Bool × M.State) (config : M.State → M.State) (F : Files) (W : IsWriter F)
    (D : Drives) where
  abbrev pub S : Socket
  S = driver_socket M d rounds

  abbrev pub N : Network (driver_socket M d rounds)
  N = driver_network M d rounds init config
