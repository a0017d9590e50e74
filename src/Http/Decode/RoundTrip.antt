-- ===== src/Http/Decode/RoundTrip.antt =====
-- Percent decoding undoes percent encoding, and never makes a string longer.
use linux_api_and_socket_pro.Common.{
  ℕ, ◌+◌, ◌-◌, ◌*◌, ◌/◌, ◌%◌, ◌≤◌, ◌<◌, ◌≡◌, refl, ap, ◌∙◌, ◌≢◌, ◌⊎◌, inl, inr, Bool, true, false,
  List, [], ◌∷◌, ◌++◌, arith, ℕ_discrete, ltb, ◌==◌, if◌then◌else◌, length, All,
}
use linux_api_and_socket_pro.Http.Bytes.{isxdigit}
use linux_api_and_socket_pro.Http.Decode.{hexit, is_escape, decode_str}

-- Decoding never makes a path longer, so the result fits where the path did.
pub length-decode_str : (s : List ℕ) → length (decode_str s) ≤ length s
unfolding decode_str
length-decode_str [] = omega arith
length-decode_str (c ∷ []) = ground arith
length-decode_str (c ∷ d ∷ []) = ground (arith, length-decode_str (d ∷ []))
length-decode_str (c ∷ d ∷ e ∷ s) =
    shorter (c == 0) (is_escape c d e) (hexit d * 16 + hexit e) (length-decode_str (d ∷ e ∷ s))
      (length-decode_str s)
  where
    shorter :
        (ends escape : Bool) (byte : ℕ)
        → length (decode_str (d ∷ e ∷ s)) ≤ length (d ∷ e ∷ s)
        → length (decode_str s) ≤ length s
        → length (
            if ends then [] else if escape then byte ∷ decode_str s else c ∷ decode_str (d ∷ e ∷ s))
          ≤ length (c ∷ d ∷ e ∷ s)
    shorter true escape byte hp hd = omega arith
    shorter false true byte hp hd = omega (arith, hd)
    shorter false false byte hp hd = omega (arith, hp)

-- the digit of a number below 16, in upper case or in lower case
abbrev pub digit : (upper : Bool) → ℕ → ℕ
digit upper n = if ltb n 10 then b'0' + n else (if upper then b'A' else b'a') + (n - 10)

-- What an encoder does with a byte: it leaves it, or escapes it, with each of the two digits in either case.
pub data Choice : Type 0 where
  as_is : Choice
  escaped : (high low : Bool) → Choice

unfoldable pub encode_byte : Choice → ℕ → List ℕ
encode_byte as_is c = c ∷ []
encode_byte (escaped high low) c = b'%' ∷ digit high (c / 16) ∷ digit low (c % 16) ∷ []

-- The choice may differ from one place to another.
unfoldable pub encode : (choice : (place byte : ℕ) → Choice) → List ℕ → List ℕ
unfolding encode_byte
encode choice [] = []
encode choice (c ∷ s) = encode_byte (choice 0 c) c ++ encode (λ k. choice (k + 1)) s

hexit-digit : (upper : Bool) (n : ℕ) → n < 16 → hexit (digit upper n) ≡ n
unfolding hexit
hexit-digit true n h = ground arith
hexit-digit false n h = ground arith

isxdigit-digit : (upper : Bool) (n : ℕ) → n < 16 → isxdigit (digit upper n) ≡ true
unfolding isxdigit
isxdigit-digit true n h = ground arith
isxdigit-digit false n h = ground arith

is_escape-digits :
    (high low : Bool) (m n : ℕ)
    → m < 16
    → n < 16
    → is_escape b'%' (digit high m) (digit low n) ≡ true
unfolding is_escape
is_escape-digits high low m n hm hn = rw (isxdigit-digit high m hm, isxdigit-digit low n hn)

is_escape-ne : (c d e : ℕ) → c ≢ b'%' → is_escape c d e ≡ false
unfolding is_escape
is_escape-ne c d e h = ground arith

zero_test : (c : ℕ) → c ≢ 0 → (c == 0) ≡ false
zero_test c h = ground arith

pub decode_str-cons :
    (c : ℕ) (s : List ℕ) → c ≢ b'%' → c ≢ 0 → decode_str (c ∷ s) ≡ c ∷ decode_str s
unfolding decode_str
decode_str-cons c [] h n = rw (zero_test c n) refl
decode_str-cons c (d ∷ []) h n = rw (zero_test c n) refl
decode_str-cons c (d ∷ e ∷ s) h n = rw (zero_test c n, is_escape-ne c d e h) refl

decode_str-encode_byte :
    (choice : Choice) (c : ℕ) (s : List ℕ)
    → (c < 256) × (c ≢ 0)
    → (c ≢ b'%') ⊎ (choice ≢ as_is)
    → decode_str (encode_byte choice c ++ s) ≡ c ∷ decode_str s
unfolding encode_byte decode_str
decode_str-encode_byte as_is c s h (inl plain) = decode_str-cons c s plain h.1
decode_str-encode_byte as_is c s h (inr safe) = absurd (safe refl)
decode_str-encode_byte (escaped high low) c s h safe =
    rw
      (
        decode_str,
        is_escape-digits high low (c / 16) (c % 16) (omega (arith, h.0)) (omega arith),
        hexit-digit high (c / 16) (omega (arith, h.0)),
        hexit-digit low (c % 16) (omega arith),
      )
      (ap (λ n. n ∷ decode_str s) (omega arith))

-- A path of bytes other than NUL, in which at each place the byte may be left or escaped, with each digit in either
-- case, and every `%` is escaped, is decoded to the path that was encoded.
pub decode_str-encode :
    (choice : (place byte : ℕ) → Choice) (s : List ℕ)
    → All (λ c. (c < 256) × (c ≢ 0)) s
    → ((k : ℕ) → choice k b'%' ≢ as_is)
    → decode_str (encode choice s) ≡ s
unfolding encode decode_str
decode_str-encode choice [] h safe = refl
decode_str-encode choice (c ∷ s) h safe =
    decode_str-encode_byte (choice 0 c) c (encode (λ k. choice (k + 1)) s) h.0 safe_here
    ∙ ap (λ t. c ∷ t) (decode_str-encode (λ k. choice (k + 1)) s h.1 (λ k. safe (k + 1)))
  where
    safe_here : (c ≢ b'%') ⊎ (choice 0 c ≢ as_is)
    safe_here = elim (ℕ_discrete c b'%') [ yes e ↦ inr (rw e (safe 0)) | no ne ↦ inl ne ]
