-- ===== src/Hfs/Send/Whole/Tests.antt =====
-- apps/hfs65.c: a page.
use ip.Common.{ℕ, ◌≡◌, List, [], ◌∷◌, ◌++◌, replicate, length-replicate, arith}
use ip.Common.Chars.{codes}
use ip.Hfs.Send.{Sender, noheader, html, buffer_size, send_page}
use ip.Hfs.Send.Whole.{body, concat, Marks, send_page_lem}

abbrev idle_sender : Sender
idle_sender = record { send_buffer = replicate buffer_size 0; send_size = 0; send_type = noheader }

abbrev rows : List (List ℕ)
rows = codes "<tr>A</tr>" ∷ codes "<tr>B</tr>" ∷ []

send_page_lem_example :
    (body (send_page (codes "<table>") rows (codes "</table>") idle_sender).1
      ≡ codes "<table>" ++ (concat rows ++ codes "</table>"))
    × Marks html (send_page (codes "<table>") rows (codes "</table>") idle_sender).1 noheader
unfolding ip.Hfs.Send.Whole.IsShort
send_page_lem_example =
    send_page_lem (codes "<table>") rows (codes "</table>") idle_sender
      (length-replicate {A = ℕ} buffer_size 0) (omega arith) (omega arith, (omega arith, tt))
      (omega arith)
