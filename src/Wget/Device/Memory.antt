-- ===== src/Wget/Device/Memory.antt =====
-- A drive in memory, which shows that the laws of Wget.Device.Sectors can be met.
use ip.Common.{ℕ, ◌==◌, if◌then◌else◌, refl, false, List}
use ip.Common.{some}
use ip.Wget.Device.{Drives}
use ip.Wget.Device.Sectors.{IsDisk}

-- A disk as a function from sector numbers to sectors, with 280 sectors.
abbrev pub disk : Drives
disk = record {
  State = ℕ → List ℕ;
  open_drive = λ device t. (some 1, t);
  sectcount = λ drive t. (280, t);
  write_sector = λ drive num bytes t. (false, λ k. if k == num then bytes else t k);
  close_drive = λ drive t. (false, t);
}

pub disk-IsDisk : IsDisk disk
disk-IsDisk = record {
  sector = λ drive num t. t num;
  sector-write = λ drive num bytes t k fine. refl;
  sector-close = λ drive k t. refl;
}
