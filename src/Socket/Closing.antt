-- ===== src/Socket/Closing.antt =====
-- How a program leaves the socket.
use ip.Common.{◌≡◌}
use ip.Socket.{Socket}

-- The last thing that happened to the socket is that it was disconnected.
abbrev pub Closed : (S : Socket) → S.State → Type 0
Closed S s = (s0 : S.State) × (s ≡ S.disconnect s0)
