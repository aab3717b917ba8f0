-- ===== src/Hfs/Send/Whole.antt =====
-- apps/hfs65.c: what the calls of `send` for a page bring to the client.
mod Tests
use ip.Common.{
  ℕ, ◌+◌, ◌-◌, ◌≤◌, ◌<◌, ◌≡◌, refl, ap, sym, ◌∙◌, Bool, true, false, List, [], ◌∷◌, ◌++◌,
  append_assoc, append-nil, if◌then◌else◌, arith,
}
use ip.Common.{take, length, take_all, length-append, Bool-cases, inl, inr, All, ◌==◌, ◌||◌, ltb}
use ip.Common.Words.{sub16, add16}
use ip.Common.Buffers.{blit, length-blit, blit-append, take-blit, take-blit_before}
use ip.Hfs.Send.{
  Sender, Call, Response, html, noheader, buffer_size, printed, append, flush, send, send_all,
  send_page, send_more, send_first, send_last, begin,
}

-- The bytes of the calls, one behind another.
unfoldable pub body : List Call → List ℕ
body [] = []
body (c ∷ cs) = c.bytes ++ body cs

unfoldable pub concat : List (List ℕ) → List ℕ
concat [] = []
concat (x ∷ xs) = x ++ concat xs

-- The first call has the one kind of response, and those behind it have no header; the last argument
-- is the kind that is due next.
unfoldable pub Marks : Response → List Call → Response → Type 0
Marks r [] next = r ≡ next
Marks r (c ∷ cs) next = (c.response ≡ r) × Marks noheader cs next

unfoldable pub pending : Sender → List ℕ
pending b = take b.send_size b.send_buffer

-- A buffer of which at least a quarter is free.
pub record Ready (b : Sender) : Type 0 where
  pub whole : length b.send_buffer ≡ buffer_size
  pub free : b.send_size ≤ 768

body-append : (xs ys : List Call) → body (xs ++ ys) ≡ body xs ++ body ys
unfolding body
body-append [] ys = refl
body-append (c ∷ xs) ys = rw (body-append xs ys) (sym (append_assoc c.bytes (body xs) (body ys)))

pub Marks-append :
    (xs ys : List Call) (r t u : Response) → Marks r xs t → Marks t ys u → Marks r (xs ++ ys) u
unfolding Marks
Marks-append [] ys r t u hx hy = rw hx hy
Marks-append (c ∷ xs) ys r t u hx hy = (hx.0, Marks-append xs ys noheader t u hx.1 hy)

printed_lem : (n : ℕ) (text : List ℕ) → length text < n → printed n text ≡ text ++ 0 ∷ []
unfolding printed
printed_lem n text h = elim (Bool-cases (n == 0)) [
  | inl e ↦ absurd (ground arith)
  | inr e ↦ rw (e, take_all (n - 1) text (omega arith)) refl
]

-- A text that has room is put behind what is in the buffer.
pending-append :
    (b : Sender) (text : List ℕ)
    → Ready b
    → length text < 256
    → pending (append text b) ≡ pending b ++ text
unfolding pending append
pending-append b text r h =
    rw (printed_lem (sub16 buffer_size b.send_size) text (omega (arith, r.free))) (
      ap (λ k. take k (blit b.send_size (text ++ 0 ∷ []) b.send_buffer))
        {y = b.send_size + length text} (omega (arith, r.free))
      ∙ ap (take (b.send_size + length text))
          (blit-append b.send_size (length text) text (0 ∷ []) b.send_buffer refl)
      ∙ take-blit_before (b.send_size + length text) (0 ∷ []) _
      ∙ take-blit b.send_size (length text) text b.send_buffer refl
          (omega (arith, r.free, r.whole)))

-- What a call brings: the client and the buffer have the text more.
pub record Brings (b : Sender) (text : List ℕ) (b1 : Sender) (calls : List Call) : Type 0 where
  pub ready : Ready b1
  pub whole_text : body calls ++ pending b1 ≡ pending b ++ text
  pub marks : Marks b.send_type calls b1.send_type

AnyBrings : Sender → List ℕ → Sender × List Call → Type 0
AnyBrings b text (b1, calls) = Brings b text b1 calls

append-Ready :
    (b : Sender) (text : List ℕ)
    → Ready b
    → length text < 256
    → (length (append text b).send_buffer ≡ buffer_size)
      × ((append text b).send_size ≡ b.send_size + length text)
unfolding append
append-Ready b text r h = (length-blit b.send_size _ b.send_buffer ∙ r.whole, omega (arith, r.free))

quarter_free :
    (last : Bool) (n : ℕ) → n < 1024 → (last || ltb (sub16 buffer_size n) 256) ≡ false → n ≤ 768
quarter_free true n h e = absurd (ground arith)
quarter_free false n h e = ground arith

flush-Brings :
    (last : Bool) (b : Sender) (text : List ℕ)
    → Ready b
    → length text < 256
    → AnyBrings b text (flush last (append text b))
unfolding flush AnyBrings pending Marks body append
flush-Brings last b text r h =
    let done = pending-append b text r h in
    let sized = append-Ready b text r h in
    elim (Bool-cases (last || ltb (sub16 buffer_size (append text b).send_size) 256)) [
      | inl e ↦ rw e (record {
        ready = record { whole = sized.0; free = omega arith };
        whole_text = append-nil _ ∙ append-nil _ ∙ done;
        marks = (refl, refl);
      })
      | inr e ↦ rw e (record {
        ready = record {
          whole = sized.0;
          free = quarter_free last _ (omega (arith, r.free, sized.1)) e;
        };
        whole_text = done;
        marks = refl;
      })
    ]

Brings-both :
    (b b1 b2 : Sender) (t u : List ℕ) (calls more : List Call)
    → Brings b t b1 calls
    → Brings b1 u b2 more
    → Brings b (t ++ u) b2 (calls ++ more)
Brings-both b b1 b2 t u calls more h k = record {
  ready = k.ready;
  whole_text =
      ap (λ r. r ++ pending b2) (body-append calls more)
      ∙ append_assoc (body calls) (body more) (pending b2)
      ∙ ap (λ r. body calls ++ r) k.whole_text
      ∙ sym (append_assoc (body calls) (pending b1) u)
      ∙ ap (λ r. r ++ u) h.whole_text
      ∙ append_assoc (pending b) t u;
  marks = Marks-append calls more _ _ _ h.marks k.marks;
}

pub IsShort : List ℕ → Type 0
IsShort text = length text < 256

send_all-Brings :
    (texts : List (List ℕ)) (b : Sender)
    → Ready b
    → All IsShort texts
    → AnyBrings b (concat texts) (send_all texts b)
unfolding send_all send concat AnyBrings IsShort begin body Marks
send_all-Brings [] b r h = record {
  ready = r;
  whole_text = sym (append-nil (pending b));
  marks = refl;
}
send_all-Brings (text ∷ texts) b r h =
    let one : AnyBrings b text (flush false (append text b)) = flush-Brings false b text r h.0 in
    Brings-both b _ _ text (concat texts) _ _ one (send_all-Brings texts _ one.ready h.1)

send_first-Brings :
    (head : List ℕ) (b : Sender)
    → length b.send_buffer ≡ buffer_size
    → length head < 256
    → AnyBrings (record b { send_size = 0; send_type = html }) head (send send_first head b)
unfolding send begin
send_first-Brings head b whole short =
    flush-Brings false (record b { send_size = 0; send_type = html }) head
      (record { whole = whole; free = omega arith }) short

send_last-Brings :
    (foot : List ℕ) (b : Sender)
    → Ready b
    → length foot < 256
    → AnyBrings b foot (send send_last foot b)
unfolding send begin
send_last-Brings foot b r short = flush-Brings true b foot r short

last_empties :
    (foot : List ℕ) (b : Sender)
    → (pending (send send_last foot b).0 ≡ []) × ((send send_last foot b).0.send_type ≡ noheader)
unfolding send flush pending
last_empties foot b = (refl, refl)

nothing_pending : (b : Sender) → pending (record b { send_size = 0; send_type = html }) ≡ []
unfolding pending
nothing_pending b = refl

Brings-all :
    (b b1 : Sender) (text : List ℕ) (calls : List Call)
    → Brings b text b1 calls
    → pending b ≡ []
    → pending b1 ≡ []
    → b.send_type ≡ html
    → b1.send_type ≡ noheader
    → (body calls ≡ text) × Marks html calls noheader
Brings-all b b1 text calls h e f k l = (
  sym (append-nil (body calls))
      ∙ ap (λ r. body calls ++ r) (sym f)
      ∙ h.whole_text
      ∙ ap (λ r. r ++ text) e,
  rw (k, l) at h.marks,
)

-- The calls of `httpd_send_response` that a page makes, each of its texts being shorter than a quarter of the
-- buffer, bring the client the first text, those between and the last one, whole and in order; only
-- the first call has a header, that of an HTML page.
pub send_page_lem :
    (head : List ℕ) (texts : List (List ℕ)) (foot : List ℕ) (b : Sender)
    → length b.send_buffer ≡ buffer_size
    → IsShort head
    → All IsShort texts
    → IsShort foot
    → (body (send_page head texts foot b).1 ≡ head ++ (concat texts ++ foot))
      × Marks html (send_page head texts foot b).1 noheader
unfolding send_page AnyBrings IsShort
send_page_lem head texts foot b whole short_head short short_foot =
    let first : AnyBrings _ head (send send_first head b) =
      send_first-Brings head b whole short_head in
    let middle : AnyBrings _ (concat texts) (send_all texts (send send_first head b).0) =
      send_all-Brings texts _ first.ready short in
    let final : AnyBrings _ foot
        (send send_last foot (send_all texts (send send_first head b).0).0) =
      send_last-Brings foot _ middle.ready short_foot in
    let all =
      Brings-both _ _ _ head _ _ _ first (Brings-both _ _ _ (concat texts) foot _ _ middle final) in
    let empty = last_empties foot (send_all texts (send send_first head b).0).0 in
    Brings-all _ _ (head ++ (concat texts ++ foot)) _ all (nothing_pending b) empty.0 refl empty.1
