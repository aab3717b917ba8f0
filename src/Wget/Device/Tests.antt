-- ===== src/Wget/Device/Tests.antt =====
-- The first bytes of a track in DOS 3.3 order, and a whole transfer to a drive in memory.
use ip.Common.{ℕ, ◌+◌, ◌*◌, ◌≤◌, ◌<◌, ◌≡◌, refl, true, false, Bool, List, [], ◌∷◌, ◌++◌}
use ip.Common.{some, take, drop, length, replicate, arith, length-replicate, Option, none}
use ip.Common.Buffers.{length-blit}
use ip.Common.Chars.{codes}
use ip.Wget.Receive.{buffer_size}
use ip.Wget.Device.{place, is_po, dos_offset, dos_room}
use ip.Common.{false, ◌==◌, if◌then◌else◌}
use ip.Socket.Script.{Script, script_socket, script_socket-IsReceiver}
use ip.Wget.Device.{sector_order, write_device}
use ip.Wget.Device.Memory.{disk, disk-IsDisk}
use ip.Wget.Device.Laws.{Finishes, write_device-Finishes}
use ip.Wget.Device.Skew.{Placed, place-Placed, dos_place}
use ip.Common.{zero, suc, length-append, ◌^◌}

abbrev blank : List ℕ
blank = replicate buffer_size 0

-- `n` pages, each of its number.
abbrev pages : ℕ → List ℕ
pages zero = []
pages (suc n) = pages n ++ replicate 0x100 n

length-pages : (n : ℕ) → length (pages n) ≡ n * 0x100
length-pages zero = refl
length-pages (suc n) = omega (
  arith,
  length-append (pages n) (replicate 0x100 n),
  length-pages n,
  length-replicate {A = ℕ} 0x100 n,
)

-- The first page, and the begin of the second one, which goes to page 0xE of the buffer.
abbrev page : List ℕ
page = replicate 0x100 7

abbrev first : List ℕ
first = place false 0 page blank

length-page : length page ≡ 0x100
length-page = length-replicate {A = ℕ} 0x100 7

length-first : length first ≡ buffer_size
unfolding place
length-first =
    omega (arith, length-blit (dos_offset 0) page blank, length-replicate {A = ℕ} buffer_size 0)

room_begin : length page ≤ dos_room 0
unfolding dos_room
room_begin = omega (arith, length-page)

nothing : Placed [] blank
unfolding Placed
nothing j h = absurd (omega arith)

first_part : Placed page first
first_part =
    place-Placed [] page blank (length-replicate {A = ℕ} buffer_size 0) (omega arith) room_begin
      nothing

room_behind : 2 ≤ dos_room (length page)
unfolding dos_room
room_behind = omega (arith, length-page)

place-Placed_example : Placed (page ++ codes "de") (place false (length page) (codes "de") first)
place-Placed_example =
    place-Placed page (codes "de") first length-first (omega (arith, length-page)) room_behind
      first_part

second_page : dos_place 0x101 ≡ 0xE01
second_page = refl

is_po_lower : is_po (codes "/1/") (codes "GAME.po") ≡ true
unfolding is_po ip.Common.Chars.to_upper
is_po_lower = refl

is_po_short : is_po (codes "/.P") (codes "o") ≡ true
unfolding is_po ip.Common.Chars.to_upper
is_po_short = refl

-- A track in DOS 3.3 order, and six bytes of the next one.
abbrev incoming : List ℕ
incoming = pages 16 ++ codes "sector"

length-incoming : length incoming ≡ 4102
length-incoming = omega (arith, length-append (pages 16) (codes "sector"), length-pages 16)

short : length incoming < 2 ^ 25
short = omega (arith, length-incoming)

abbrev peer : Script
peer = record { incoming = incoming; position = 0; pauses = 1; sent = []; hung_up = false }

abbrev unwritten : ℕ → List ℕ
unwritten k = []

dos_order : (sector_order script_socket disk (codes "///") (codes "A.DSK") 1 unwritten).0 ≡ false
unfolding sector_order ip.Common.Chars.to_upper
dos_order = refl

write_device-Finishes_example :
    Finishes script_socket script_socket-IsReceiver disk disk-IsDisk 1
      (sector_order script_socket disk (codes "///") (codes "A.DSK") 1 unwritten).0
      incoming
      short
      (write_device script_socket disk 5000 (codes "///") (codes "A.DSK") blank 5 peer unwritten)
unfolding script_socket-IsReceiver
write_device-Finishes_example =
    write_device-Finishes script_socket script_socket-IsReceiver disk disk-IsDisk 5000 (codes "///")
      (codes "A.DSK") blank 5 1 peer unwritten short tt (length-replicate {A = ℕ} buffer_size 0)
      refl (omega (arith, length-incoming))
