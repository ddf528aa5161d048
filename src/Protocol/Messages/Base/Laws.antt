-- ===== src/Protocol/Messages/Base/Laws.antt =====
-- What the checks of the base module let through, and which exceptions they raise.
use recsync.Prelude.{
  ℕ, ◌≤◌, ◌<◌, ◌≡◌, refl, arith, ◌⊎◌, inl, inr, Bool, true, false, Bytes, ok, Error, protocol_error,
  unicode_error, guard, length, take, length-take, All, All-take, Raises,
}
use recsync.Protocol.Struct.{Format, Values, size, unpack}
use recsync.Protocol.Struct.Bounds.{Fits, IsByte}
use recsync.Protocol.Struct.RoundTrip.{unpack_total}
use recsync.Protocol.Utf8
use recsync.Protocol.Utf8.Errors.{decode_error}
use recsync.Protocol.Messages.Base.{
  RecordKind, plain, alias, kind_value, record_kind, require_length, validate_record_lengths,
}

pub record_kind-kind_value : (k : RecordKind) → record_kind (kind_value k) ≡ ok k
unfolding record_kind
record_kind-kind_value plain = refl
record_kind-kind_value alias = refl

pub require_exact : (wire : Bytes) (n : ℕ) → length wire ≡ n → require_length wire n true ≡ ok tt
unfolding require_length
require_exact wire n h = ground arith

pub require_at_least :
    (wire : Bytes) (n : ℕ) → n ≤ length wire → require_length wire n false ≡ ok tt
unfolding require_length
require_at_least wire n h = ground arith

-- The exceptions of a `decode` method.
abbrev pub IsDecodeError : Error → Type 0
IsDecodeError e = (e ≡ protocol_error) ⊎ (e ≡ unicode_error)

pub guard-Raises : (b : Bool) → Raises IsDecodeError (guard b protocol_error)
guard-Raises true = record { at = λ e h. cc }
guard-Raises false = record { at = λ e h. inl (ground arith) }

pub require_length-Raises :
    (wire : Bytes) (n : ℕ) (exact : Bool) → Raises IsDecodeError (require_length wire n exact)
unfolding require_length
require_length-Raises wire n exact = record { at = λ e h. inl (ground arith) }

pub record_kind-Raises : (n : ℕ) → Raises IsDecodeError (record_kind n)
unfolding record_kind
record_kind-Raises n = record { at = λ e h. inl (ground arith) }

pub validate-Raises :
    (k : RecordKind) (t n : ℕ) → Raises IsDecodeError (validate_record_lengths k t n)
unfolding validate_record_lengths
validate-Raises k t n = record { at = λ e h. inl (ground arith) }

pub utf8-Raises : (b : Bytes) → Raises IsDecodeError (Utf8.decode b)
utf8-Raises b = record { at = λ e h. inr ((decode_error b).at e h) }

pub ok-Raises {ℓ} : {A : Type ℓ} (a : A) → Raises IsDecodeError (ok a)
ok-Raises a = record { at = λ e h. cc }

pub at_least_of_required :
    (wire : Bytes) (n : ℕ) → require_length wire n false ≡ ok tt → n ≤ length wire
unfolding require_length
at_least_of_required wire n h = ground arith

pub exact_of_required :
    (wire : Bytes) (n : ℕ) → require_length wire n true ≡ ok tt → length wire ≡ n
unfolding require_length
exact_of_required wire n h = ground arith

-- `unpack` of the bytes in front, which were counted, raises nothing.
pub unpack_front :
    (fs : Format) (body : Bytes)
    → All IsByte body
    → require_length body (size fs) false ≡ ok tt
    → (vs : Values fs) × (unpack fs (take (size fs) body) ≡ ok vs) × Fits fs vs
unpack_front fs body w h =
    let enough = at_least_of_required body (size fs) h in
    let (vs, u, f, _) =
      unpack_total fs (take (size fs) body) (omega (arith, length-take (size fs) body))
        (All-take IsByte (size fs) body w) in
    (vs, u, f)

pub name_required : (k : RecordKind) (t n : ℕ) → validate_record_lengths k t n ≡ ok tt → 0 < n
unfolding validate_record_lengths
name_required k t n h = ground arith
