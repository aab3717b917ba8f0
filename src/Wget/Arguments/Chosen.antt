-- ===== src/Wget/Arguments/Chosen.antt =====
-- apps/wget65.c: the argument for the file or the drive that `main` goes on with.
use ip.Common.{
  ℕ, zero, suc, ◌≡◌, ◌≢◌, refl, sym, ap, ◌∙◌, true, false, List, [], ◌∷◌, ◌==◌, ==_iff, arith,
}
use ip.Common.{Option, none, some, get_or, Bool-cases, Option-cases, inl, inr, ◌⊎◌}
use ip.Common.Chars.{codes}
use ip.Wget.Device.{Drives}
use ip.Wget.Drive.{parse_drive, IsDevice, parse_drive_iff}
use ip.Wget.Arguments.{Terminal, get_argument, check_drive, choose_file}

parse_drive-IsDevice :
    (val : List ℕ) (device : ℕ)
    → (get_or val 0 0 == b'!') ≡ true
    → parse_drive val ≡ some device
    → IsDevice device
parse_drive-IsDevice [] device h p = absurd (ground arith)
parse_drive-IsDevice (c ∷ text) device h p =
    ((parse_drive_iff text device).0
      (ap (λ x. parse_drive (x ∷ text)) (sym ((==_iff _ _).0 h)) ∙ p)).0

module _ (U : Terminal) (D : Drives) where
  -- A drive that could be opened and holds a disk with sectors.
  pub HasSectors : ℕ → Type 0
  HasSectors device =
      (t : D.State) × (drive : ℕ) × ((D.open_drive device t).0 ≡ some drive)
      × ((D.sectcount drive (D.open_drive device t).1).0 ≢ 0)

  check_drive-HasSectors :
      (device : ℕ) (t : D.State) (u : U.State)
      → (check_drive U D device t u).0 ≡ true
      → HasSectors device
  unfolding check_drive HasSectors
  check_drive-HasSectors device t u h = elim (Option-cases (D.open_drive device t).0) [
    | inl e ↦ let never : false ≡ true = rw (e, check_drive) at h in absurd (ground arith)
    | inr (drive, e) ↦ elim (Bool-cases ((D.sectcount drive (D.open_drive device t).1).0 == 0)) [
      | inl z ↦ let never : false ≡ true = rw (e, check_drive, z) at h in absurd (ground arith)
      | inr z ↦ (t, drive, e, ground arith)
    ]
  ]

module _ (U : Terminal) (argv : List (List ℕ)) (D : Drives) where
  -- A file, with the device 0, or a drive: a slot with a drive bit, never 0, that could be opened and
  -- holds a disk with sectors.
  abbrev pub Chosen : Option (Option (List ℕ × ℕ) × D.State × U.State) → Type 0
  Chosen none = Unit
  Chosen (some (none, t, u)) = Unit
  Chosen (some (some (arg, device), t, u)) =
      ((get_or arg 0 0 ≢ b'!') × (device ≡ 0))
      ⊎ ((get_or arg 0 0 ≡ b'!')
          × (parse_drive arg ≡ some device)
          × IsDevice device
          × HasSectors U D device)

  -- The argument that the program goes on with, if it does, is a file exactly if it does not begin
  -- with an exclamation mark, and then the device is 0; else it is the specification of a drive whose device is
  -- not 0, and which could be opened and holds a disk with sectors.
  pub choose_file-Chosen :
      (fuel : ℕ) (t : D.State) (u : U.State) → Chosen (choose_file U argv D fuel t u)
  unfolding choose_file
  choose_file-Chosen zero t u = tt
  choose_file-Chosen (suc fuel) t u =
      let u1 = (get_argument U argv 2 (codes "File") u).1 in
      elim (Option-cases (get_argument U argv 2 (codes "File") u).0) [
        | inl e ↦ rw (e, choose_file) tt
        | inr (val, e) ↦ elim (Bool-cases (get_or val 0 0 == b'!')) [
          | inr f ↦ rw (e, choose_file, f) (inl (ground arith, refl))
          | inl f ↦ elim (Option-cases (parse_drive val)) [
            | inl p ↦ rw (e, choose_file, f, p) (choose_file-Chosen fuel t u1)
            | inr (device, p) ↦ elim (Bool-cases (check_drive U D device t u1).0) [
              | inl c ↦
                  rw (e, choose_file, f, p, c)
                    (inr (
                      (==_iff _ _).0 f,
                      p,
                      parse_drive-IsDevice val device f p,
                      check_drive-HasSectors U D device t u1 c,
                    ))
              | inr c ↦
                  rw (e, choose_file, f, p, c)
                    (choose_file-Chosen fuel (check_drive U D device t u1).1
                      (check_drive U D device t u1).2)
            ]
          ]
        ]
      ]
