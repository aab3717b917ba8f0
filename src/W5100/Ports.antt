-- ===== src/W5100/Ports.antt =====
-- Where the driver finds the card.
use ip.Common.{ℕ, ◌+◌, ◌*◌, ◌<◌, ◌≡◌, refl, ◌==◌, true, arith}
use ip.Common.Bits.{table, table_lem}
use ip.W5100.{Driver, set_ports}
use Prim.Native.Nat.{bit_or}

ports_table : table 8 (λ slot. bit_or (slot * 16) 0xC084 == 0xC084 + 16 * slot) ≡ true
unfolding table
ports_table = refl

-- For a slot below 8 the four ports are the fifth to the eighth of the slot's I/O addresses, which
-- begin at 0xC080 + 16 * slot.
pub set_ports_lem :
    (slot : ℕ) (d : Driver)
    → slot < 8
    → let p = set_ports slot d in
      (p.w5100_mode ≡ 0xC080 + 16 * slot + 4)
      × (p.w5100_addr_hi ≡ 0xC080 + 16 * slot + 5)
      × (p.w5100_addr_lo ≡ 0xC080 + 16 * slot + 6)
      × (p.w5100_data ≡ 0xC080 + 16 * slot + 7)
unfolding set_ports
set_ports_lem slot d h = ground (arith, table_lem 8 _ ports_table slot h)
