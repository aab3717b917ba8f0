-- ===== src/Wget/Device/Skew.antt =====
-- The places of a track's bytes in DOS 3.3 order.
use ip.Common.{
  ℕ, ◌+◌, ◌-◌, ◌*◌, ◌/◌, ◌%◌, ◌^◌, ◌≤◌, ◌<◌, ◌≡◌, refl, sym, ◌∙◌, ap, true, false, ◌&&◌, List, ◌++◌,
  ◌==◌, ltb, ◌||◌, if◌then◌else◌,
}
use ip.Common.{length, arith, get_or, bit_or, ==_iff, Bool-cases, inl, inr, length-append, ltb→lt}
use ip.Common.Bits.{table, table_lem, shift, low, shift-bit_or}
use ip.Common.Buffers.{get_or-blit, get_or-append}
use ip.Wget.Receive.{buffer_size}
use ip.Wget.Device.{skew, dos_offset, dos_room, place}

-- The byte of a track goes to the page that the skewing table names.
pub dos_offset_lem : (len : ℕ) → dos_offset len ≡ get_or skew (len / 0x100) 0 * 0x100 + len % 0x100
unfolding dos_offset
dos_offset_lem len = omega (arith, digits, shift-bit_or 8 len page)
  where
    page : ℕ
    page = get_or skew (len / 0x100) 0

    digits : bit_or (page * 2 ^ 8) (len % 0x100) ≡ bit_or (shift 8 page) (low 8 len)
    digits = λ i. bit_or (shifted i) (lowest i)
      where
        lowest : len % 0x100 ≡ low 8 len
        lowest = omega arith

        shifted : page * 2 ^ 8 ≡ shift 8 page
        shifted = omega arith

skew_pages :
    table 16 (λ k. ltb (get_or skew k 0) 16 && (get_or skew (get_or skew k 0) 0 == k)) ≡ true
unfolding table
skew_pages = refl

-- The table exchanges pages: it maps the 16 pages to pages, and is its own inverse.
pub skew-skew : (k : ℕ) → k < 16 → (get_or skew k 0 < 16) × (get_or skew (get_or skew k 0) 0 ≡ k)
skew-skew k h = ground (arith, table_lem 16 _ skew_pages k h)

-- The physical sector of a track that DOS 3.3 uses as its sector `k`, and the one that ProDOS uses for
-- the page `q` of the track: the first counts down and the second up by two from sector to sector,
-- around the first fifteen, and the last one is alike.
abbrev pub dos_physical : ℕ → ℕ
dos_physical k = if k == 15 then 15 else 13 * k % 15

abbrev pub prodos_physical : ℕ → ℕ
prodos_physical q = if q == 15 then 15 else 2 * q % 15

-- The page of a ProDOS track that is the same physical sector as a DOS 3.3 sector.
abbrev pub dos_page : ℕ → ℕ
dos_page k = if k == 0 || k == 15 then k else 15 - k

pages_agree : table 16 (λ k. prodos_physical (dos_page k) == dos_physical k) ≡ true
unfolding table
pages_agree = refl

pub dos_page-physical : (k : ℕ) → k < 16 → prodos_physical (dos_page k) ≡ dos_physical k
dos_page-physical k h = (==_iff _ _).0 (table_lem 16 _ pages_agree k h)

-- The place of a byte of a track in DOS 3.3 order.
abbrev pub dos_place : ℕ → ℕ
dos_place j = dos_page (j / 0x100) * 0x100 + j % 0x100

skew_is_dos_page : table 16 (λ k. get_or skew k 0 == dos_page k) ≡ true
unfolding table
skew_is_dos_page = refl

-- The table takes the bytes to these places.
pub dos_offset-place : (j : ℕ) → j < buffer_size → dos_offset j ≡ dos_place j
dos_offset-place j h =
    let page : get_or skew (j / 0x100) 0 ≡ dos_page (j / 0x100) =
      (==_iff _ _).0 (table_lem 16 _ skew_is_dos_page (j / 0x100) (omega arith)) in
    omega (arith, dos_offset_lem j, page)

-- The buffer holds every byte of a text at its place.
unfoldable pub Placed : List ℕ → List ℕ → Type 0
Placed got buffer = (j : ℕ) → j < length got → get_or buffer (dos_place j) 0 ≡ get_or got j 0

-- The same with the places of the table.
AtOffsets : List ℕ → List ℕ → Type 0
AtOffsets got buffer = (j : ℕ) → j < length got → get_or buffer (dos_offset j) 0 ≡ get_or got j 0

-- Two places are on the same page only for bytes of the same page.
page_injective : (a b : ℕ) → a < 16 → b < 16 → get_or skew a 0 ≡ get_or skew b 0 → a ≡ b
page_injective a b h k e = sym ((skew-skew a h).1) ∙ ap (λ p. get_or skew p 0) e ∙ (skew-skew b k).1

-- Where an earlier byte of the track lies, the copy of a part of a page does not reach.
elsewhere :
    (len j n : ℕ)
    → len < buffer_size
    → j < len
    → n ≤ dos_room len
    → dos_offset len ≤ dos_offset j
    → dos_offset len + n ≤ dos_offset j
unfolding dos_room
elsewhere len j n h k fits lower =
    elim (Bool-cases (get_or skew (len / 0x100) 0 == get_or skew (j / 0x100) 0)) [
      | inl e ↦ omega (
        arith,
        dos_offset_lem len,
        dos_offset_lem j,
        page_injective (len / 0x100) (j / 0x100) (omega arith) (omega arith) ((==_iff _ _).0 e),
      )
      | inr e ↦ ground (arith, dos_offset_lem len, dos_offset_lem j)
    ]

-- A later byte of the part lies as far behind the first as in the track.
behind :
    (len j n : ℕ)
    → len ≤ j
    → j < len + n
    → n ≤ dos_room len
    → dos_offset j ≡ dos_offset len + (j - len)
unfolding dos_room
behind len j n low high fits =
    let same : get_or skew (j / 0x100) 0 ≡ get_or skew (len / 0x100) 0 =
      ap (λ k. get_or skew k 0) {y = len / 0x100} (omega arith) in
    omega (arith, dos_offset_lem len, dos_offset_lem j, same)

inside : (len n : ℕ) → len < buffer_size → n ≤ dos_room len → dos_offset len + n ≤ buffer_size
unfolding dos_room
inside len n h fits = omega (arith, dos_offset_lem len, (skew-skew (len / 0x100) (omega arith)).0)

place-AtOffsets :
    (got bytes buffer : List ℕ)
    → length buffer ≡ buffer_size
    → length got < buffer_size
    → length bytes ≤ dos_room (length got)
    → AtOffsets got buffer
    → AtOffsets (got ++ bytes) (place false (length got) bytes buffer)
unfolding place AtOffsets
place-AtOffsets got bytes buffer full below fits placed j bound =
    get_or-blit (dos_offset (length got)) bytes buffer (dos_offset j) 0
      (omega (arith, full, inside (length got) (length bytes) below fits))
    ∙ elim (Bool-cases (ltb j (length got))) [
      | inl e ↦ ground (
        arith,
        get_or-append got bytes j,
        placed j (ltb→lt _ _ e),
        elsewhere (length got) j (length bytes) below (ltb→lt _ _ e) fits,
      )
      | inr e ↦
          let later =
            behind (length got) j (length bytes) (ground arith)
              (omega (arith, length-append got bytes)) fits in
          let same : get_or bytes (dos_offset j - dos_offset (length got)) 0
              ≡ get_or bytes (j - length got) 0 =
            ap (λ k. get_or bytes k 0) {y = j - length got} (omega (arith, later)) in
          ground (arith, later, same, get_or-append got bytes j, length-append got bytes)
    ]

-- A buffer of the size of a track in which every byte received so far lies at its place for DOS 3.3
-- order, which is the page of the track that is the same physical sector of the disk, keeps those bytes, and gets the next ones to their places, when bytes for which the page has
-- room are put into it.
pub place-Placed :
    (got bytes buffer : List ℕ)
    → length buffer ≡ buffer_size
    → length got < buffer_size
    → length bytes ≤ dos_room (length got)
    → Placed got buffer
    → Placed (got ++ bytes) (place false (length got) bytes buffer)
unfolding dos_room Placed AtOffsets
place-Placed got bytes buffer full below fits placed j bound =
    let within : j < buffer_size = omega (arith, length-append got bytes) in
    ap (λ k. get_or (place false (length got) bytes buffer) k 0) (sym (dos_offset-place j within))
    ∙ place-AtOffsets got bytes buffer full below fits
        (λ i h. ap (λ k. get_or buffer k 0) (dos_offset-place i (omega arith)) ∙ placed i h) j bound
