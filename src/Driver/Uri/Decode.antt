-- ===== src/Driver/Uri/Decode.antt =====
-- `percent_decode` of src/driver/uri.rs.
use adbc_spanner.Common.{
  ℕ, ◌+◌, ◌*◌, true, false, ◌&&◌, [], ◌∷◌, Str, ◌==◌, if◌then◌else◌, contains, Result, ok, err,
  ◌>>=◌, invalid_arguments, ◌≡◌, ◌≢◌, refl, ap, sym, ◌∙◌, subst, arith, Bool-cases, inl, inr,
}
use adbc_spanner.Driver.Uri.{percent_decode, decode_bytes, then_byte, is_hex, hex_value, is_utf8}

-- The text `e` is the bytes `s`, some of them, with every `%`, as escapes of two hexadecimal digits.
pub data Encodes : Str → Str → Type 0 where
  done : Encodes [] []
  plain : (c : ℕ) {e s : Str} → c ≢ b'%' → Encodes e s → Encodes (c ∷ e) (c ∷ s)
  escape :
      (p h l b : ℕ) {e s : Str}
      → p ≡ b'%'
      → is_hex h ≡ true
      → is_hex l ≡ true
      → b ≡ hex_value h * 16 + hex_value l
      → Encodes e s
      → Encodes (p ∷ h ∷ l ∷ e) (b ∷ s)

decode_plain :
    (c : ℕ) (e : Str) → (c == b'%') ≡ false → decode_bytes (c ∷ e) ≡ then_byte c (decode_bytes e)
unfolding decode_bytes
decode_plain c [] h = rw h refl
decode_plain c (d ∷ []) h = rw h refl
decode_plain c (d ∷ l ∷ rest) h = rw h refl

decode_escape :
    (p h l : ℕ) (e : Str)
    → p ≡ b'%'
    → is_hex h ≡ true
    → is_hex l ≡ true
    → decode_bytes (p ∷ h ∷ l ∷ e) ≡ then_byte (hex_value h * 16 + hex_value l) (decode_bytes e)
unfolding decode_bytes
decode_escape p h l e q x y = rw (q, x, y) refl

decode_bytes-Encodes : {e s : Str} → Encodes e s → decode_bytes e ≡ ok s
unfolding decode_bytes
decode_bytes-Encodes Encodes.done = refl
decode_bytes-Encodes (Encodes.plain c {e} {s} h k) =
    decode_plain c e (ground arith) ∙ ap (then_byte c) (decode_bytes-Encodes k)
decode_bytes-Encodes (Encodes.escape p h l b {e} {s} q x y v k) =
    decode_escape p h l e q x y
    ∙ ap (then_byte (hex_value h * 16 + hex_value l)) (decode_bytes-Encodes k)
    ∙ ap (λ c. ok (c ∷ s)) (sym v)

then_byte-ok :
    (b : ℕ) (r : Result Str) {s : Str}
    → then_byte b r ≡ ok s
    → (out : Str) × (r ≡ ok out) × (ok s ≡ ok (b ∷ out))
then_byte-ok b (ok out) h = (out, refl, sym h)
then_byte-ok b (err e) h = cc

encodes_ok : {e s t : Str} → Encodes e s → ok t ≡ ok s → Encodes e t
encodes_ok {e} {s} {t} k h = subst (λ u. Encodes e u) (cc) k

plain_back :
    (c : ℕ) (e s : Str)
    → (c == b'%') ≡ false
    → ((out : Str) → decode_bytes e ≡ ok out → Encodes e out)
    → decode_bytes (c ∷ e) ≡ ok s
    → Encodes (c ∷ e) s
plain_back c e s f k h =
    let (out, decoded, same) = then_byte-ok c (decode_bytes e) (sym (decode_plain c e f) ∙ h) in
    encodes_ok (Encodes.plain c (λ p. ground arith) (k out decoded)) same

escape_back :
    (p h l : ℕ) (e s : Str)
    → p ≡ b'%'
    → is_hex h ≡ true
    → is_hex l ≡ true
    → ((out : Str) → decode_bytes e ≡ ok out → Encodes e out)
    → decode_bytes (p ∷ h ∷ l ∷ e) ≡ ok s
    → Encodes (p ∷ h ∷ l ∷ e) s
escape_back p h l e s q x y k r =
    let (out, decoded, same) =
      then_byte-ok (hex_value h * 16 + hex_value l) (decode_bytes e)
        (sym (decode_escape p h l e q x y) ∙ r) in
    encodes_ok (Encodes.escape p h l (hex_value h * 16 + hex_value l) q x y refl (k out decoded))
      same

not_hex :
    (p h l : ℕ) (e s : Str)
    → p ≡ b'%'
    → (is_hex h && is_hex l) ≡ false
    → decode_bytes (p ∷ h ∷ l ∷ e) ≢ ok s
unfolding decode_bytes
not_hex p h l e s q x r = ground arith

Encodes_decoded : (e s : Str) → decode_bytes e ≡ ok s → Encodes e s
unfolding decode_bytes
Encodes_decoded [] s h = encodes_ok Encodes.done (sym h)
Encodes_decoded (c ∷ []) s h = elim (Bool-cases (c == b'%')) [
  | inl t ↦ absurd (ground arith)
  | inr f ↦ plain_back c [] s f (Encodes_decoded []) h
]
Encodes_decoded (c ∷ d ∷ []) s h = elim (Bool-cases (c == b'%')) [
  | inl t ↦ absurd (ground arith)
  | inr f ↦ plain_back c (d ∷ []) s f (Encodes_decoded (d ∷ [])) h
]
Encodes_decoded (c ∷ d ∷ l ∷ e) s h = elim (Bool-cases (c == b'%')) [
  | inl t ↦ elim (Bool-cases (is_hex d && is_hex l)) [
    | inl x ↦
        escape_back c d l e s (ground arith) (ground arith) (ground arith) (Encodes_decoded e) h
    | inr x ↦ absurd (not_hex c d l e s (ground arith) x h)
  ]
  | inr f ↦ plain_back c (d ∷ l ∷ e) s f (Encodes_decoded (d ∷ l ∷ e)) h
]

no_escapes : (s : Str) → contains b'%' s ≡ false → Encodes s s
unfolding contains
no_escapes [] h = Encodes.done
no_escapes (c ∷ cs) h = Encodes.plain c (λ p. ground arith) (no_escapes cs (ground arith))

-- Text without an escape is the bytes themselves.
decode_whole : (s out : Str) → contains b'%' s ≡ false → Encodes s out → out ≡ s
unfolding contains
decode_whole _ _ h Encodes.done = refl
decode_whole _ _ h (Encodes.plain x {e} {s} q k) =
    ap (λ l. x ∷ l) (decode_whole e s (ground arith) k)
decode_whole _ _ h (Encodes.escape p d l b q x y v k) = absurd (ground arith)

-- An escaped text decodes to the bytes that it stands for, where those are UTF-8.
pub percent_decode_complete : (e s : Str) → Encodes e s → is_utf8 s ≡ true → percent_decode e ≡ ok s
unfolding percent_decode
percent_decode_complete e s k u = elim (Bool-cases (contains b'%' e)) [
  | inl t ↦ rw t (rw (decode_bytes-Encodes k) (rw u refl))
  | inr f ↦ rw f (ap ok (sym (decode_whole e s f k)))
]

utf8_gate :
    (r : Result Str) {s : Str}
    → (r >>= λ out. if is_utf8 out then ok out else err invalid_arguments) ≡ ok s
    → r ≡ ok s
utf8_gate (ok out) {s} h = elim (Bool-cases (is_utf8 out)) [
  | inl t ↦ ground arith
  | inr f ↦ absurd (ground arith)
]
utf8_gate (err e) h = cc

-- Text is accepted as its own escaped form only: every `%` starts two hexadecimal digits, and every byte
-- of the result stands in the text or is escaped there.
pub percent_decode-Encodes : (e s : Str) → percent_decode e ≡ ok s → Encodes e s
unfolding percent_decode
percent_decode-Encodes e s h = elim (Bool-cases (contains b'%' e)) [
  | inl t ↦ Encodes_decoded e s (utf8_gate (decode_bytes e) (ground arith))
  | inr f ↦ encodes_ok (no_escapes e f) (ground arith)
]
