-- ===== src/Encoding/Injective.antt =====
-- The encodings are unambiguous: two lists of parts with one encoding are one list.
use mathlib.Core.List.{append_assoc, append-nil}
use secure_messenger_lab.Prelude.{
  ℕ, ◌^◌, ◌<◌, ◌≡◌, refl, sym, ap, ◌∙◌, List, [], ◌∷◌, ◌++◌, arith, length, length-append, All,
  le→leb,
}
use secure_messenger_lab.Errors.{ok, >>=-eq-ok}
use secure_messenger_lab.Bytes.{Bytes, to_be_bytes, u64_max}
use secure_messenger_lab.Bytes.Laws.{length-to_be_bytes, append_injective, to_be_bytes_injective}
use secure_messenger_lab.Encoding.{
  append_part, append_parts, canonical, try_append_part, try_append_parts, protocol_domain,
}

-- One part behind its `w`-byte length, and a list of such.
abbrev pub frame : ℕ → Bytes → Bytes
frame w part = to_be_bytes w (length part) ++ part

abbrev pub frames : ℕ → List Bytes → Bytes
frames w [] = []
frames w (part ∷ parts) = frame w part ++ frames w parts

-- A part whose length fits the prefix.
abbrev pub Fits : ℕ → Bytes → Type 0
Fits w part = length part < 256 ^ w

frame_injective :
    (w : ℕ) (x y r s : Bytes)
    → Fits w x
    → Fits w y
    → frame w x ++ r ≡ frame w y ++ s
    → (x ≡ y) × (r ≡ s)
frame_injective w x y r s hx hy e =
    let prefixes : length (to_be_bytes w (length x)) ≡ length (to_be_bytes w (length y)) =
      length-to_be_bytes w (length x) ∙ sym (length-to_be_bytes w (length y)) in
    let outer = append_injective _ _ _ _ prefixes (
      sym (append_assoc (to_be_bytes w (length x)) x r)
      ∙ e
      ∙ append_assoc (to_be_bytes w (length y)) y s) in
    append_injective x y r s (to_be_bytes_injective w _ _ hx hy outer.0) outer.1

nil-ne-frame : (w : ℕ) (x r : Bytes) → 0 < w → [] ≡ frame w x ++ r → ⊥
nil-ne-frame w x r h e = omega (
  arith,
  ap length e,
  length-append (frame w x) r,
  length-append (to_be_bytes w (length x)) x,
  length-to_be_bytes w (length x),
)

pub frames_injective :
    (w : ℕ) (xs ys : List Bytes)
    → 0 < w
    → All (Fits w) xs
    → All (Fits w) ys
    → frames w xs ≡ frames w ys
    → xs ≡ ys
frames_injective w [] [] p hx hy e = refl
frames_injective w [] (y ∷ ys) p hx hy e = absurd (nil-ne-frame w y (frames w ys) p e)
frames_injective w (x ∷ xs) [] p hx hy e = absurd (nil-ne-frame w x (frames w xs) p (sym e))
frames_injective w (x ∷ xs) (y ∷ ys) p hx hy e =
    let parts = frame_injective w x y (frames w xs) (frames w ys) hx.0 hy.0 e in
    cc (parts.0, frames_injective w xs ys p hx.1 hy.1 parts.1)

append_part-frame :
    (target part : Bytes) → Fits 8 part → append_part target part ≡ target ++ frame 8 part
unfolding append_part
append_part-frame target part h =
    rw (le→leb (length part) u64_max (omega arith))
      (append_assoc target (to_be_bytes 8 (length part)) part)

append_parts-frames :
    (target : Bytes) (parts : List Bytes)
    → All (Fits 8) parts
    → append_parts target parts ≡ target ++ frames 8 parts
unfolding append_parts
append_parts-frames target [] h = sym (append-nil target)
append_parts-frames target (part ∷ parts) h =
    append_parts-frames (append_part target part) parts h.1
    ∙ ap (λ t. t ++ frames 8 parts) (append_part-frame target part h.0)
    ∙ append_assoc target (frame 8 part) (frames 8 parts)

pub canonical-frames :
    (action : Bytes) (parts : List Bytes)
    → Fits 8 action
    → All (Fits 8) parts
    → canonical action parts ≡ frames 8 (protocol_domain ∷ action ∷ parts)
unfolding canonical
canonical-frames action parts ha hp =
    append_parts-frames _ parts hp
    ∙ ap (λ t. t ++ frames 8 parts) (append_part-frame _ action ha)
    ∙ ap (λ t. (t ++ frame 8 action) ++ frames 8 parts)
        (append_part-frame [] protocol_domain (omega arith))
    ∙ append_assoc (frame 8 protocol_domain) (frame 8 action) (frames 8 parts)

-- Two signed commands whose actions and parts are shorter than 2^64 bytes have the same canonical
-- bytes only if they are the same action with the same list of parts.
pub canonical_injective :
    (a b : Bytes) (ps qs : List Bytes)
    → Fits 8 a
    → Fits 8 b
    → All (Fits 8) ps
    → All (Fits 8) qs
    → canonical a ps ≡ canonical b qs
    → (a ≡ b) × (ps ≡ qs)
canonical_injective a b ps qs ha hb hp hq e =
    let same =
      frames_injective 8 (protocol_domain ∷ a ∷ ps) (protocol_domain ∷ b ∷ qs) (omega arith)
        (omega arith, (ha, hp)) (omega arith, (hb, hq))
        (sym (canonical-frames a ps ha hp) ∙ e ∙ canonical-frames b qs hb hq) in
    (cc same, cc same)

try_append_part-frame :
    (target part : Bytes) {longer : Bytes}
    → try_append_part target part ≡ ok longer
    → Fits 4 part × (longer ≡ target ++ frame 4 part)
unfolding try_append_part
try_append_part-frame target part e =
    ground (arith, append_assoc target (to_be_bytes 4 (length part)) part)

-- The fallible encoding refuses a part of 2^32 bytes or more, and else appends the framed parts.
pub try_append_parts-frames :
    (target : Bytes) (parts : List Bytes) {encoded : Bytes}
    → try_append_parts target parts ≡ ok encoded
    → All (Fits 4) parts × (encoded ≡ target ++ frames 4 parts)
unfolding try_append_parts
try_append_parts-frames target [] e = (tt, ground (arith, append-nil target))
try_append_parts-frames target (part ∷ parts) {encoded} e =
    let (longer, first, rest) = >>=-eq-ok (try_append_part target part) _ e in
    let head = try_append_part-frame target part first in
    let tail = try_append_parts-frames longer parts rest in
    (
      (head.0, tail.0),
      tail.1
          ∙ ap (λ t. t ++ frames 4 parts) head.1
          ∙ append_assoc target (frame 4 part) (frames 4 parts),
    )
