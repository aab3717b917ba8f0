-- ===== src/Date/Tests.antt =====
-- apps/date65.c: the file of the repository, and a directory of which the first program fails to be
-- loaded.
use ip.Common.{
  ℕ, ◌≡◌, refl, true, false, List, [], ◌∷◌, ◌++◌, ◌==◌, bit_and, if◌then◌else◌, none, arith, length,
  ltb,
}
use ip.Common.Chars.{codes}
use ip.Common.Int.{pos, negsuc}
use ip.Common.{some, ◌+◌, ◌<◌}
use ip.Startup.{System, set_slot}
use ip.Startup.Slot.{set_slot-lt}
use ip.Date.{Clock, timezone, seconds, negated, chain}
use ip.Date.Timezone.{timezone_lem}
use ip.Date.Chain.{chain-behind_own, exec_first, systems, behind_own}

timezone_shipped : timezone (codes "-06") ≡ negsuc 5
unfolding timezone
timezone_shipped = refl

timezone_lem_example :
    timezone (b'-' ∷ b'0' ∷ b'6' ∷ []) ≡ (if bit_and b'-' 0x7F == b'-' then negated 6 else pos 6)
timezone_lem_example = timezone_lem b'-' 6 (omega arith)

seconds_shipped : seconds (timezone (codes "-06")) ≡ negsuc 21599
unfolding timezone seconds
seconds_shipped = refl

-- The state is what was tried to be loaded; the second try succeeds.
abbrev system : System
system = record {
  State = List (List ℕ);
  open_file = λ name s. (none, s);
  read_file = λ file count s. ([], s);
  close_file = λ file s. s;
  ip65_init = λ slot s. (false, s);
  dhcp_init = λ s. (false, s);
}

abbrev clock : Clock system
clock = record {
  set_timezone = λ z s. s;
  dns_resolve = λ name s. (1, s);
  sntp_get_time = λ server s. (3900000000, s);
  clock_settime = λ now s. (false, s);
  names = λ s. (none, s);
  exec = λ name s. (ltb 0 (length s), s ++ name ∷ []);
}

abbrev directory : List (List ℕ)
directory =
    codes "A.SYSTEM"
    ∷ codes "DATE65.SYSTEM"
    ∷ codes "B.SYSTEM"
    ∷ codes "README"
    ∷ codes "C.SYSTEM"
    ∷ []

chain-behind_own_example :
    chain system clock false directory []
    ≡ exec_first system clock (systems (behind_own directory)) []
chain-behind_own_example = chain-behind_own system clock directory []

chain_second :
    chain system clock false directory [] ≡ (true, codes "B.SYSTEM" ∷ codes "C.SYSTEM" ∷ [])
unfolding chain
chain_second = refl

-- The file ethernet.slot with an Apple II text character.
abbrev slot_system : System
slot_system = record {
  State = ℕ;
  open_file = λ name s. (some 1, s + 1);
  read_file = λ file count s. (0xB5 ∷ [], s);
  close_file = λ file s. s + 1;
  ip65_init = λ slot s. (false, s);
  dhcp_init = λ s. (false, s);
}

set_slot-lt_example : (set_slot slot_system 3 0).0 < 8
set_slot-lt_example = set_slot-lt slot_system 3 0 (omega arith)

slot_five : set_slot slot_system 3 0 ≡ (5, 2)
unfolding set_slot
slot_five = refl
