-- ===== src/Protocol/Utf8/Errors.antt =====
-- What `decode` refuses, and that a text of no characters comes from no bytes.
use recsync.Prelude.{
  ℕ, ◌<◌, Option, none, some, ap, ◌∙◌, Raises-bind, ◌≡◌, ◌≢◌, refl, [], ◌∷◌, Str, Bytes, ok, err,
  Error, unicode_error, arith, length, >>=-eq-ok, Raises,
}
use recsync.Protocol.Utf8.{Decoder, ready, feed, decode_from, emit, decode}

feed-none : (d d' : Decoder) (b : ℕ) → feed d b ≡ ok (d', none) → 0 < d'.due
unfolding feed
feed-none d d' b h = ground arith

nothing_emitted : (o : Option ℕ) (s : Str) → emit o s ≡ [] → (o ≡ none) × (s ≡ [])
nothing_emitted none s h = (refl, h)
nothing_emitted (some c) s h = cc

decode_from-nil : (d : Decoder) (bs : Bytes) → decode_from d bs ≡ ok [] → (d.due ≡ 0) × (bs ≡ [])
unfolding decode_from
decode_from-nil d [] h = ground arith
decode_from-nil d (b ∷ bs) h =
    let (r, p, h1) = >>=-eq-ok (feed d b) _ h in
    let (s, q, h2) = >>=-eq-ok (decode_from r.0 bs) _ h1 in
    let (silent, empty) = nothing_emitted r.1 s (ground arith) in
    let left = decode_from-nil r.0 bs (q ∙ ap ok empty) in
    let due = feed-none d r.0 b (p ∙ ap (λ (o : Option ℕ). ok (r.0, o)) silent) in
    absurd (omega arith)

-- Only the empty byte string decodes to the empty text.
pub decode-nil : (bs : Bytes) → decode bs ≡ ok [] → bs ≡ []
unfolding decode
decode-nil bs h = (decode_from-nil ready bs h).1

abbrev pub IsUnicodeError : Error → Type 0
IsUnicodeError e = e ≡ unicode_error

feed_error : (d : Decoder) (b : ℕ) (e : Error) → feed d b ≡ err e → IsUnicodeError e
unfolding feed
feed_error d b e h = ground arith

decode_from_error : (d : Decoder) (bs : Bytes) → Raises IsUnicodeError (decode_from d bs)
unfolding decode_from
decode_from_error d [] = record { at = λ e h. ground arith }
decode_from_error d (b ∷ bs) =
    Raises-bind (feed d b) _ (record { at = feed_error d b })
      λ r p.
        Raises-bind (decode_from r.0 bs) _ (decode_from_error r.0 bs)
          λ s q. record { at = λ e h. cc }

-- Decoding fails with a UnicodeDecodeError and with nothing else.
pub decode_error : (bs : Bytes) → Raises IsUnicodeError (decode bs)
unfolding decode
decode_error bs = decode_from_error ready bs

-- Some bytes decode to some characters.
pub text_of_bytes : (b : Bytes) (s : Str) → decode b ≡ ok s → 0 < length b → s ≢ []
text_of_bytes b s d h e =
    let no_bytes : length b ≡ 0 = ap length (decode-nil b (d ∙ ap ok e)) in absurd (omega arith)

pub no_text : (b : Bytes) (s : Str) → decode b ≡ ok s → length b ≡ 0 → s ≡ []
unfolding decode
no_text [] s d h = ground arith
no_text (x ∷ b) s d h = absurd (omega arith)
