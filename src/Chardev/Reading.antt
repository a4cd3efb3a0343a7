-- ===== src/Chardev/Reading.antt =====
-- A process that opens the device and reads it in pieces of any size gets the message.
use mathlib.Core.Path.{subst}
use computer_networks_assign.Prelude.{
  length-drop, ◌%◌, ◌^◌, ℕ, zero, suc, ◌+◌, ◌≤◌, ◌<◌, ◌≡◌, ◌≢◌, refl, ◌∙◌, ap, sym, Option, none,
  some, List, [], ◌∷◌, ◌++◌, length, length-append, take, get_elem?, drop, All, All-append, arith,
}
use computer_networks_assign.Prelude.Int.{pos}
use computer_networks_assign.Chardev.{
  Device, Decimal, message, head_text, tail_text, buf_len, sprintf_into, device_open, read_loop,
  Read, device_read,
}

abbrev IsText : List ℕ → Type 0
IsText t = All (λ c. c ≢ 0) t

-- What a reader of the device has still to see: `text`, up to the NUL.
pub record Pending (d : Device) (text : List ℕ) : Type 0 where
  pub at : ℕ
  pub rest : List ℕ
  pub ptr : d.msg_ptr ≡ some at
  pub here : drop at d.msg ≡ text ++ 0 ∷ rest
  pub is_text : IsText text

get_elem?-drop :
    (msg : List ℕ) (p : ℕ) (c : ℕ) (r : List ℕ) → drop p msg ≡ c ∷ r → get_elem? msg p ≡ some c
get_elem?-drop [] zero c r e = cc
get_elem?-drop (x ∷ xs) zero c r e = cc
get_elem?-drop [] (suc p) c r e = cc
get_elem?-drop (x ∷ xs) (suc p) c r e = get_elem?-drop xs p c r e

drop-drop : (msg : List ℕ) (p : ℕ) (c : ℕ) (r : List ℕ) → drop p msg ≡ c ∷ r → drop (suc p) msg ≡ r
drop-drop [] zero c r e = cc
drop-drop (x ∷ xs) zero c r e = cc
drop-drop [] (suc p) c r e = cc
drop-drop (x ∷ xs) (suc p) c r e = drop-drop xs p c r e

read_loop-take :
    (msg : List ℕ) (p len : ℕ) (t rest : List ℕ)
    → drop p msg ≡ t ++ 0 ∷ rest
    → IsText t
    → (q : ℕ) × (read_loop msg p len ≡ some (take len t, q)) × (drop q msg ≡ drop len t ++ 0 ∷ rest)
unfolding read_loop
read_loop-take msg p zero t rest e h = (p, refl, e)
read_loop-take msg p (suc len) [] rest e h = (p, ground (arith, get_elem?-drop msg p 0 rest e), e)
read_loop-take msg p (suc len) (c ∷ t) rest e h =
    let next : drop (p + 1) msg ≡ t ++ 0 ∷ rest =
      ap (λ n. drop n msg) {y = suc p} (omega arith) ∙ drop-drop msg p c (t ++ 0 ∷ rest) e in
    let (q, run, left) = read_loop-take msg (p + 1) len t rest next h.1 in
    (q, ground (arith, get_elem?-drop msg p c (t ++ 0 ∷ rest) e, h.0), left)

drop_nil : (n : ℕ) → ◌≡◌ {A = List ℕ} [] (drop n [])
drop_nil zero = refl
drop_nil (suc n) = refl

take_nil : (n : ℕ) → ◌≡◌ {A = List ℕ} (take n []) []
take_nil zero = refl
take_nil (suc n) = refl

All-drop : (n : ℕ) (t : List ℕ) → IsText t → IsText (drop n t)
All-drop zero t h = h
All-drop (suc n) [] h = tt
All-drop (suc n) (x ∷ t) h = All-drop n t h.1

-- One read takes the next `len` bytes of the message, or what is left of it, and returns their
-- number; at the end it takes none and returns 0.
pub device_read-Pending :
    (d : Device) (text : List ℕ) (len : ℕ)
    → Pending d text
    → (r : Read) × (device_read d len ≡ some r)
      × (r.out ≡ take len text)
      × (r.bytes_read ≡ pos (length r.out))
      × Pending r.device (drop len text)
      × (r.device ≡ record d { msg_ptr = r.device.msg_ptr })
unfolding device_read
device_read-Pending d [] len w = (
  record { device = d; out = []; bytes_read = pos 0 },
  ground (arith, w.ptr, get_elem?-drop d.msg w.at 0 w.rest w.here),
  sym (take_nil len),
  refl,
  subst (Pending d) (drop_nil len) w,
  refl,
)
device_read-Pending d (c ∷ text) len w =
    let (q, run, left) = read_loop-take d.msg w.at len (c ∷ text) w.rest w.here w.is_text in
    (
      record {
        device = record d { msg_ptr = some q };
        out = take len (c ∷ text);
        bytes_read = pos (length (take len (c ∷ text)));
      },
      ground
          (arith, w.ptr, run, w.is_text.0, get_elem?-drop d.msg w.at c (text ++ 0 ∷ w.rest) w.here),
      refl,
      refl,
      record {
        at = q;
        rest = w.rest;
        ptr = refl;
        here = left;
        is_text = All-drop len (c ∷ text) w.is_text;
      },
      refl,
    )

-- The reads of a process, one after the other, with all that they put into its buffer.
unfoldable pub reads : Device → List ℕ → Option (List ℕ × Device)
reads d [] = some ([], d)
reads d (len ∷ lens) = elim (device_read d len) [
  | none ↦ none
  | some r ↦ elim (reads r.device lens) [ none ↦ none | some (out, d') ↦ some (r.out ++ out, d') ]
]

abbrev pub total : List ℕ → ℕ
total [] = 0
total (n ∷ ns) = n + total ns

take-add : (m n : ℕ) (t : List ℕ) → take (m + n) t ≡ take m t ++ take n (drop m t)
take-add zero n t = ap (λ k. take k t) {y = n} (omega arith)
take-add (suc m) n [] = ap (λ k. take k []) {y = suc (m + n)} (omega arith) ∙ sym (take_nil n)
take-add (suc m) n (x ∷ t) =
    ap (λ k. take k (x ∷ t)) {y = suc (m + n)} (omega arith) ∙ ap (λ l. x ∷ l) (take-add m n t)

pub reads-Pending :
    (d : Device) (text : List ℕ) (lens : List ℕ)
    → Pending d text
    → (d' : Device) × (reads d lens ≡ some (take (total lens) text, d'))
      × (d' ≡ record d { msg_ptr = d'.msg_ptr })
unfolding reads
reads-Pending d text [] w = (d, refl, refl)
reads-Pending d text (len ∷ lens) w =
    let (r, run, out, _, w', same) = device_read-Pending d text len w in
    let (d', run', same') = reads-Pending r.device (drop len text) lens w' in
    (
      d',
      ground (arith, run, out, run', take-add len (total lens) text),
      same' ∙ ap (λ (x : Device). record x { msg_ptr = d'.msg_ptr }) same,
    )

message-IsText : (dec : Decimal) (n : ℕ) → IsText (message dec n)
message-IsText dec n =
    All-append _ head_text (dec.print n ++ tail_text) (omega arith)
      (All-append _ (dec.print n) tail_text (dec.no_nul n) (omega arith))

length-message : (dec : Decimal) (n : ℕ) → length (message dec n) ≤ 50
length-message dec n = omega (arith, length-append (dec.print n) tail_text, dec.short n)

drop-append : (t r : List ℕ) → drop 0 (t ++ r) ≡ t ++ r
drop-append t r = refl

sprintf_fits :
    (buf t : List ℕ)
    → length t < length buf
    → sprintf_into buf t ≡ some (t ++ (0 ∷ drop (length t + 1) buf))
unfolding sprintf_into
sprintf_fits buf t h = ground arith

-- A free device always opens, and shows the message with the number of earlier opens.
pub device_open-Pending :
    (dec : Decimal) (d : Device)
    → d.device_open_count ≡ 0
    → length d.msg ≡ buf_len
    → (d' : Device) × (device_open dec d ≡ some (d', pos 0))
      × Pending d' (message dec d.counter)
      × (d'.device_open_count ≡ 1)
      × (d'.uses ≡ d.uses + 1)
      × (length d'.msg ≡ buf_len)
      × (d'.counter ≡ (d.counter + 1) % 2 ^ 32)
unfolding device_open
device_open-Pending dec d free size =
    let text = message dec d.counter in
    let kept = drop (length text + 1) d.msg in
    let fits : length text ≤ 50 = length-message dec d.counter in
    (
      record d {
        device_open_count = (d.device_open_count + 1) % 2 ^ 32;
        counter = (d.counter + 1) % 2 ^ 32;
        msg = text ++ (0 ∷ kept);
        msg_ptr = some 0;
        uses = d.uses + 1;
      },
      ground (arith, free, sprintf_fits d.msg text (omega arith)),
      record {
        at = 0;
        rest = kept;
        ptr = refl;
        here = refl;
        is_text = message-IsText dec d.counter;
      },
      omega arith,
      refl,
      omega (arith, length-append text (0 ∷ kept), length-drop (length text + 1) d.msg),
      refl,
    )
