-- ===== src/Common/Decimal/RoundTrip.antt =====
-- Printing and reading a uint64 undo one another.
use Prim.Native.Nat.{ℕ, zero, suc, ◌+◌, ◌-◌, ◌*◌, ◌/◌, ◌%◌, ◌^◌, ◌≤◌, ◌<◌}
use mathlib.Core.Path.{◌≡◌, refl, ◌∙◌, ap₂}
use mathlib.Core.List.{[], ◌∷◌, ◌++◌, append-nil}
use mathlib.Core.Logic.{◌≢◌, ◌⊎◌, inl, inr}
use mathlib.Core.Option.{some}
use native.Mathlib.Nat.{pow-suc}
use native.Mathlib.Omega.{arith}
use messq.Common.Tests.{ltb, Bool-cases}
use messq.Common.Lists.{length}
use messq.Common.Text.{Bytes, Lacks}
use messq.Common.Decimal.{digits_of, format, read_digits, parse_uint}

read_last :
    (n : ℕ) (out : Bytes)
    → n < 2 ^ 64
    → read_digits ((b'0' + n % 10) ∷ out) (n / 10) ≡ read_digits out n
unfolding read_digits
read_last n out fits = ground arith

-- A round at a number of two digits or more.
pub digits_step :
    (f n : ℕ) (out : Bytes)
    → 10 ≤ n
    → digits_of (suc f) n out ≡ digits_of f (n / 10) ((b'0' + n % 10) ∷ out)
unfolding digits_of
digits_step f n out h = ground arith

-- A round at a number of one digit.
pub digits_stop : (f n : ℕ) (out : Bytes) → n < 10 → digits_of (suc f) n out ≡ (b'0' + n) ∷ out
unfolding digits_of
digits_stop f n out h = ground arith

pub size_cases : (n : ℕ) → (n < 10) ⊎ (10 ≤ n)
size_cases n = ground arith

read_stop : (n : ℕ) (out : Bytes) → n < 10 → read_digits ((b'0' + n) ∷ out) 0 ≡ read_digits out n
unfolding read_digits
read_stop n out h = ground arith

-- Reading the digits in front of `out` is reading `out` behind the number.
read-digits_of :
    (f n : ℕ) (out : Bytes)
    → n < 10 ^ f
    → 0 < f
    → n < 2 ^ 64
    → read_digits (digits_of f n out) 0 ≡ read_digits out n
read-digits_of zero n out h p fits = absurd (omega arith)
read-digits_of (suc zero) n out h p fits =
    rw (digits_stop zero n out (omega arith)) (read_stop n out (omega arith))
read-digits_of (suc (suc f)) n out h p fits = elim (size_cases n) [
  | inl small ↦ rw (digits_stop (suc f) n out small) (read_stop n out small)
  | inr large ↦ rw (digits_step (suc f) n out large) (
      read-digits_of (suc f) (n / 10) ((b'0' + n % 10) ∷ out) (omega (arith, pow-suc 10 (suc f)))
        (omega arith) (omega arith)
      ∙ read_last n out fits)
]

digits_of-ne-nil : (f n : ℕ) (out : Bytes) → out ≢ [] → digits_of f n out ≢ []
unfolding digits_of
digits_of-ne-nil zero n out h = h
digits_of-ne-nil (suc f) n out h =
    ground (arith, digits_of-ne-nil f (n / 10) ((b'0' + n % 10) ∷ out))

pub format-ne-nil : (n : ℕ) → format n ≢ []
unfolding format
format-ne-nil n = elim (size_cases n) [
  | inl small ↦ rw (digits_stop 19 n [] small) (λ e. cc)
  | inr large ↦ rw (digits_step 19 n [] large) (digits_of-ne-nil 19 (n / 10) _ (λ e. cc))
]

parse_uint-read : (s : Bytes) → s ≢ [] → parse_uint s ≡ read_digits s 0
unfolding parse_uint
parse_uint-read [] h = absurd (h refl)
parse_uint-read (c ∷ s) h = refl

-- Every uint64 is read back from its print.
pub parse-format : (n : ℕ) → n < 2 ^ 64 → parse_uint (format n) ≡ some n
unfolding format read_digits
parse-format n h =
    parse_uint-read (format n) (format-ne-nil n)
    ∙ read-digits_of 20 n [] (omega arith) (omega arith) h

read_inv :
    (c : ℕ) (s : Bytes) (v w : ℕ)
    → read_digits (c ∷ s) v ≡ some w
    → (b'0' ≤ c) × (c ≤ b'9') × (read_digits s (v * 10 + (c - b'0')) ≡ some w)
unfolding read_digits
read_inv c s v w e = ground arith

-- A digit read back off the end.
unread_digit :
    (g v c : ℕ) (rest printed : Bytes)
    → 0 < v
    → b'0' ≤ c
    → c ≤ b'9'
    → v * 10 + (c - b'0') < 10 ^ g
    → printed ≡ digits_of g (v * 10 + (c - b'0')) rest
    → (k : ℕ) × (v < 10 ^ k) × (printed ≡ digits_of k v (c ∷ rest))
unread_digit zero v c rest printed p lo hi h e = absurd (omega arith)
unread_digit (suc g) v c rest printed p lo hi h e =
    let n = v * 10 + (c - b'0') in
    let quotient : n / 10 ≡ v = omega arith in
    let digit : b'0' + n % 10 ≡ c = omega arith in
    (
      g,
      omega (arith, pow-suc 10 g),
      e ∙ digits_step g n rest (omega arith) ∙ ap₂ (λ q d. digits_of g q (d ∷ rest)) quotient digit,
    )

-- How the digits of `v` grow by those of `s`.
read-grows :
    (s : Bytes) (v w f : ℕ) (out : Bytes)
    → 0 < v
    → w < 10 ^ f
    → read_digits s v ≡ some w
    → (g : ℕ) × (v < 10 ^ g) × (digits_of f w out ≡ digits_of g v (s ++ out))
unfolding read_digits
read-grows [] v w f out p h e = (f, ground arith, ground arith)
read-grows (c ∷ s) v w f out p h e =
    let (lo, hi, rest) = read_inv c s v w e in
    let (g, small, grown) = read-grows s (v * 10 + (c - b'0')) w f out (omega arith) h rest in
    unread_digit g v c (s ++ out) (digits_of f w out) p lo hi small grown

read-lt : (s : Bytes) (v w : ℕ) → v < 2 ^ 64 → read_digits s v ≡ some w → w < 2 ^ 64
unfolding read_digits
read-lt [] v w h e = ground arith
read-lt (c ∷ s) v w h e = ground (arith, read-lt s (v * 10 + (c - b'0')) w)

pub parse_uint-lt : (s : Bytes) {w : ℕ} → parse_uint s ≡ some w → w < 2 ^ 64
unfolding parse_uint
parse_uint-lt [] e = cc
parse_uint-lt (c ∷ s) {w} e = read-lt (c ∷ s) 0 w (omega arith) e

last_digit :
    (g v : ℕ) (rest printed : Bytes)
    → 0 < v
    → v < 10
    → v < 10 ^ g
    → printed ≡ digits_of g v rest
    → printed ≡ (b'0' + v) ∷ rest
last_digit zero v rest printed p small h e = absurd (omega arith)
last_digit (suc g) v rest printed p small h e = e ∙ digits_stop g v rest small

-- A text with no leading zero that is read as a number is that number's print.
pub format-parse :
    (c : ℕ) (s : Bytes) {w : ℕ} → parse_uint (c ∷ s) ≡ some w → c ≢ b'0' → format w ≡ c ∷ s
unfolding format parse_uint
format-parse c s {w} e nonzero =
    let (lo, hi, rest) = read_inv c s 0 w e in
    let fits : w < 2 ^ 64 = read-lt (c ∷ s) 0 w (omega arith) e in
    let v = 0 * 10 + (c - b'0') in
    let (g, small, grown) = read-grows s v w 20 [] (omega arith) (omega arith) rest in
    let digit : b'0' + v ≡ c = omega arith in
    last_digit g v (s ++ []) (digits_of 20 w []) (omega arith) (omega arith) small grown
    ∙ ap₂ ◌∷◌ digit (append-nil s)

-- A number below 10 ^ k has at most k digits.
length-digits_of :
    (f k n : ℕ) (out : Bytes) → n < 10 ^ suc k → length (digits_of f n out) ≤ suc k + length out
length-digits_of zero k n out h = unfold digits_of in omega arith
length-digits_of (suc f) zero n out h = rw (digits_stop f n out (omega arith)) (omega arith)
length-digits_of (suc f) (suc k) n out h = elim (size_cases n) [
  | inl small ↦ rw (digits_stop f n out small) (omega arith)
  | inr large ↦ rw (digits_step f n out large) (
      omega (
        arith,
        length-digits_of f k (n / 10) ((b'0' + n % 10) ∷ out) (omega (arith, pow-suc 10 (suc k))),
      ))
]

pub length-format-le : (k n : ℕ) → n < 10 ^ suc k → length (format n) ≤ suc k
unfolding format
length-format-le k n h = omega (arith, length-digits_of 20 k n [] h)

head_nonzero :
    (f n : ℕ) (out : Bytes)
    → 0 < n
    → n < 10 ^ f
    → (c : ℕ) × (s : Bytes) × (digits_of f n out ≡ c ∷ s) × (c ≢ b'0')
head_nonzero zero n out p h = absurd (omega arith)
head_nonzero (suc f) n out p h = elim (size_cases n) [
  | inl small ↦ (b'0' + n, out, digits_stop f n out small, omega arith)
  | inr large ↦
      let (c, s, e, nonzero) =
        head_nonzero f (n / 10) ((b'0' + n % 10) ∷ out) (omega arith)
          (omega (arith, pow-suc 10 f)) in
      (c, s, digits_step f n out large ∙ e, nonzero)
]

-- A positive number is printed with no leading zero.
pub format-head :
    (n : ℕ) → 0 < n → n < 2 ^ 64 → (c : ℕ) × (s : Bytes) × (format n ≡ c ∷ s) × (c ≢ b'0')
unfolding format
format-head n p h = head_nonzero 20 n [] p (omega arith)

digits_of-Lacks : (b f n : ℕ) (out : Bytes) → b < b'0' → Lacks b out → Lacks b (digits_of f n out)
unfolding digits_of
digits_of-Lacks b zero n out h l = l
digits_of-Lacks b (suc f) n out h l =
    let here : b'0' + n % 10 ≢ b = omega arith in
    elim (Bool-cases (ltb n 10)) [
      | inl small ↦ rw small (here, l)
      | inr large ↦ rw large (digits_of-Lacks b f (n / 10) ((b'0' + n % 10) ∷ out) h (here, l))
    ]

-- A print holds no byte below the digits, such as a slash.
pub format-Lacks : (b n : ℕ) → b < b'0' → Lacks b (format n)
unfolding format
format-Lacks b n h = digits_of-Lacks b 20 n [] h tt
