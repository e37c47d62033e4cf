-- ===== src/Queue/Dlq/Naming.antt =====
-- The names of dead-letter streams and the headers of redriven messages (internal/queue/dlq.go).
use messq.Common.{
  ◌-◌, ◌≡◌, ◌≢◌, ◌≤◌, refl, ap, ◌∙◌, List, [], ◌∷◌, ◌++◌, true, false, ◌&&◌, Option, none, some,
  Bytes, bytes_eq, bytes_eq_iff, has_prefix, has_suffix-append, length, length-append, take, arith,
  ok, if◌then◌else◌,
}
use messq.Subject.Name.{
  name_byte, all_name_bytes, starts_with_dot, ends_with_dot, has_two_dots, validate_stream_name,
  validate_new_stream_name,
}
use messq.Queue.Dlq.{dlq_suffix, dlq_name, origin_of, Headers, reserved_prefix, strip_provenance}

take-append {ℓ} : {A : Type ℓ} (xs ys : List A) → take (length xs) (xs ++ ys) ≡ xs
take-append [] ys = refl
take-append (x ∷ xs) ys = ap (λ r. x ∷ r) (take-append xs ys)

-- The origin of a derived dead-letter stream is the stream that it was derived from.
pub origin_of-dlq_name : (stream : Bytes) → origin_of (dlq_name stream) ≡ some stream
unfolding origin_of dlq_name
origin_of-dlq_name stream =
    let long : length (stream ++ dlq_suffix) - length dlq_suffix ≡ length stream =
      omega (arith, length-append {0} stream dlq_suffix) in
    rw (has_suffix-append stream dlq_suffix, long, take-append stream dlq_suffix)

all_name_bytes-append :
    (s t : Bytes) → all_name_bytes true (s ++ t) ≡ (all_name_bytes true s && all_name_bytes true t)
unfolding all_name_bytes
all_name_bytes-append [] t = refl
all_name_bytes-append (c ∷ s) t = ground (arith, all_name_bytes-append s t)

starts-suffixed : (s : Bytes) → s ≢ [] → starts_with_dot (s ++ dlq_suffix) ≡ starts_with_dot s
unfolding starts_with_dot
starts-suffixed [] h = absurd (h refl)
starts-suffixed (c ∷ s) h = refl

ends-suffixed : (s : Bytes) → ends_with_dot (s ++ dlq_suffix) ≡ false
unfolding ends_with_dot
ends-suffixed [] = refl
ends-suffixed (c ∷ []) = refl
ends-suffixed (c ∷ d ∷ s) = ends-suffixed (d ∷ s)

two_dots-suffixed :
    (s : Bytes) → ends_with_dot s ≡ false → has_two_dots (s ++ dlq_suffix) ≡ has_two_dots s
unfolding has_two_dots ends_with_dot
two_dots-suffixed [] h = refl
two_dots-suffixed (c ∷ []) h = ground arith
two_dots-suffixed (c ∷ d ∷ s) h = ground (arith, two_dots-suffixed (d ∷ s) h)

-- What the rules for a new name say, one by one.
record Accepted (name : Bytes) : Type 0 where
  not_empty : name ≢ []
  short : length name ≤ 60
  charset : all_name_bytes true name ≡ true
  no_first_dot : starts_with_dot name ≡ false
  no_last_dot : ends_with_dot name ≡ false
  no_two_dots : has_two_dots name ≡ false

new_name-Accepted : (name : Bytes) → validate_new_stream_name name ≡ ok tt → Accepted name
unfolding validate_new_stream_name
new_name-Accepted name h = ground (arith, bytes_eq_iff name [])

suffixed-ne-nil : (name : Bytes) → bytes_eq (name ++ dlq_suffix) [] ≡ false
unfolding bytes_eq
suffixed-ne-nil [] = refl
suffixed-ne-nil (c ∷ s) = refl

suffixed-charset :
    (name : Bytes)
    → all_name_bytes true name ≡ true
    → all_name_bytes true (name ++ dlq_suffix) ≡ true
suffixed-charset name h =
    rw (all_name_bytes-append name dlq_suffix, h) (unfold all_name_bytes name_byte in refl)

-- Every name that an operator may give a stream has an expressible dead-letter stream.
pub dlq_name-valid :
    (name : Bytes)
    → validate_new_stream_name name ≡ ok tt
    → validate_stream_name (dlq_name name) ≡ ok tt
unfolding validate_stream_name dlq_name
dlq_name-valid name h =
    let a = new_name-Accepted name h in
    ground (
      arith,
      a.short,
      suffixed-ne-nil name,
      suffixed-charset name a.charset,
      starts-suffixed name a.not_empty ∙ a.no_first_dot,
      ends-suffixed name,
      two_dots-suffixed name a.no_last_dot ∙ a.no_two_dots,
      length-append {0} name dlq_suffix,
    )

-- The value of a key.
abbrev pub get : Bytes → Headers → Option Bytes
get k [] = none
get k ((j, v) ∷ h) = if bytes_eq j k then some v else get k h

-- Stripping removes the keys in the reserved namespace, and leaves every other header as it was.
pub get-strip_provenance :
    (k : Bytes) (h : Headers)
    → get k (strip_provenance h) ≡ (if has_prefix k reserved_prefix then none else get k h)
unfolding strip_provenance
get-strip_provenance k [] = ground arith
get-strip_provenance k ((j, v) ∷ h) = ground (arith, get-strip_provenance k h, bytes_eq_iff j k)
