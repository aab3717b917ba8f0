-- ===== src/Wget/Device/Order.antt =====
-- apps/wget65.c: where `write_device` puts the bytes of a track, in either sector order.
use ip.Common.{ℕ, ◌+◌, ◌≤◌, ◌<◌, ◌≡◌, ◌∙◌, Bool, true, false, List, [], ◌++◌, arith}
use ip.Common.{length, get_or, length-append}
use ip.Common.Buffers.{blit-nil, length-blit, get_or-blit, get_or-append}
use ip.Wget.Receive.{buffer_size}
use ip.Wget.Device.{dos_offset, dos_room, place, clip}
use ip.Wget.Device.Skew.{Placed, place-Placed, dos_place}

-- The place of a byte in its track.
abbrev pub offset : (prodos : Bool) → ℕ → ℕ
offset true j = j
offset false j = dos_place j

pub offset-lt : (prodos : Bool) (j : ℕ) → j < buffer_size → offset prodos j < buffer_size
offset-lt true j h = h
offset-lt false j h = ground arith

-- The buffer holds every byte of a text at its place.
unfoldable pub PlacedIn : (prodos : Bool) → List ℕ → List ℕ → Type 0
PlacedIn prodos got buffer =
    (j : ℕ) → j < length got → get_or buffer (offset prodos j) 0 ≡ get_or got j 0

-- A part that has room in its page, or in the buffer.
pub HasRoom : (prodos : Bool) → (len n : ℕ) → Type 0
HasRoom true len n = len + n ≤ buffer_size
HasRoom false len n = n ≤ dos_room len

pub place-PlacedIn :
    (prodos : Bool) (got bytes buffer : List ℕ)
    → length buffer ≡ buffer_size
    → length got < buffer_size
    → HasRoom prodos (length got) (length bytes)
    → PlacedIn prodos got buffer
    → PlacedIn prodos (got ++ bytes) (place prodos (length got) bytes buffer)
unfolding PlacedIn HasRoom Placed place
place-PlacedIn true got bytes buffer full below fits placed j bound =
    get_or-blit (length got) bytes buffer j 0 (omega arith)
    ∙ ground (arith, get_or-append got bytes j, placed j, length-append got bytes)
place-PlacedIn false got bytes buffer full below fits placed j bound =
    place-Placed got bytes buffer full below fits placed j bound

-- What is read of a grant: something, no more than was granted, and no more than fits.
pub clip_lem :
    (prodos : Bool) (len rcv : ℕ)
    → len < buffer_size
    → 0 < rcv
    → (clip prodos len rcv ≤ rcv)
      × (0 < clip prodos len rcv)
      × (len + clip prodos len rcv ≤ buffer_size)
      × HasRoom prodos len (clip prodos len rcv)
unfolding clip HasRoom dos_room
clip_lem true len rcv h k = ground arith
clip_lem false len rcv h k = ground arith

pub clip_zero : (prodos : Bool) (len : ℕ) → clip prodos len 0 ≡ 0
unfolding clip dos_room
clip_zero true len = ground arith
clip_zero false len = ground arith

pub place-nil : (prodos : Bool) (len : ℕ) (buffer : List ℕ) → place prodos len [] buffer ≡ buffer
unfolding place
place-nil true len buffer = blit-nil len buffer
place-nil false len buffer = blit-nil (dos_offset len) buffer

pub length-place :
    (prodos : Bool) (len : ℕ) (bytes buffer : List ℕ)
    → length (place prodos len bytes buffer) ≡ length buffer
unfolding place
length-place true len bytes buffer = length-blit len bytes buffer
length-place false len bytes buffer = length-blit (dos_offset len) bytes buffer

pub HasRoom-zero : (prodos : Bool) (len : ℕ) → len < buffer_size → HasRoom prodos len 0
unfolding HasRoom
HasRoom-zero true len h = omega arith
HasRoom-zero false len h = omega arith
