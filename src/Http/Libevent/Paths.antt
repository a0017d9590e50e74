-- ===== src/Http/Libevent/Paths.antt =====
-- The path in a request to the libevent server.
use linux_api_and_socket_pro.Common.{
  ℕ, zero, suc, ◌+◌, ◌/◌, ◌%◌, ◌≤◌, ◌<◌, ◌≡◌, refl, ap, ◌≢◌, ◌⊎◌, inl, inr, Bool, true, false, some,
  List, [], ◌∷◌, ◌++◌, arith, ℕ_discrete, codes, length, take, All, All-append,
}
use linux_api_and_socket_pro.Http.Libevent.{file_path, scan_head}
use linux_api_and_socket_pro.Http.Bytes.{blank, cstr}
use linux_api_and_socket_pro.Http.Decode.RoundTrip.{
  digit, Choice, as_is, escaped, encode_byte, encode, decode_str-cons, decode_str-encode,
}
use linux_api_and_socket_pro.Http.Epoll.Requests.{IsWord, cstr_word, scan_word-append}
use linux_api_and_socket_pro.Http.Epoll.Answer.{path_or_dot}

pub take_all : (n : ℕ) (s : List ℕ) → length s ≤ n → take n s ≡ s
take_all zero [] h = refl
take_all zero (c ∷ s) h = absurd (omega arith)
take_all (suc n) [] h = refl
take_all (suc n) (c ∷ s) h = ap (λ t. c ∷ t) (take_all n s (omega arith))

cstr_self : (s : List ℕ) → All (λ c. c ≢ 0) s → cstr s ≡ s
unfolding cstr
cstr_self [] h = refl
cstr_self (c ∷ s) h = ground (arith, h.0, cstr_self s h.1)

-- a byte of a path
abbrev pub IsByte : ℕ → Type 0
IsByte c = (c < 256) × (c ≢ 0)

digit-IsWord : (upper : Bool) (n : ℕ) → n < 16 → IsWord (digit upper n)
digit-IsWord true n h = (ground arith, ground arith)
digit-IsWord false n h = (ground arith, ground arith)

encode_byte-IsWord :
    (choice : Choice) (c : ℕ)
    → IsByte c
    → (c ≢ blank) ⊎ (choice ≢ as_is)
    → All IsWord (encode_byte choice c)
unfolding encode_byte
encode_byte-IsWord as_is c h (inl ne) = ((ne, h.1), tt)
encode_byte-IsWord as_is c h (inr ne) = absurd (ne refl)
encode_byte-IsWord (escaped high low) c h safe = (
  (omega arith, omega arith),
  (digit-IsWord high (c / 16) (omega (arith, h.0)), (digit-IsWord low (c % 16) (omega arith), tt)),
)

pub encode-IsWord :
    (choice : (place byte : ℕ) → Choice) (path : List ℕ)
    → All IsByte path
    → ((k : ℕ) → choice k blank ≢ as_is)
    → All IsWord (encode choice path)
unfolding encode
encode-IsWord choice [] h safe = tt
encode-IsWord choice (c ∷ path) h safe =
    All-append IsWord (encode_byte (choice 0 c) c) (encode (λ k. choice (k + 1)) path)
      (encode_byte-IsWord (choice 0 c) c h.0 safe_here)
      (encode-IsWord (λ k. choice (k + 1)) path h.1 (λ k. safe (k + 1)))
  where
    safe_here : (c ≢ blank) ⊎ (choice 0 c ≢ as_is)
    safe_here = elim (ℕ_discrete c blank) [ yes e ↦ inr (rw e (safe 0)) | no ne ↦ inl ne ]

no_nul : (path : List ℕ) → All IsByte path → All (λ c. c ≢ 0) path
no_nul [] h = tt
no_nul (c ∷ path) h = (h.0.1, no_nul path h.1)

-- A path that was encoded and put behind a slash names itself.
pub file_path-encode :
    (choice : (place byte : ℕ) → Choice) (path : List ℕ)
    → All IsByte path
    → ((k : ℕ) → choice k b'%' ≢ as_is)
    → file_path (b'/' ∷ encode choice path) ≡ path_or_dot path
unfolding file_path
file_path-encode choice path h safe =
    rw
      (
        file_path,
        decode_str-cons b'/' (encode choice path) (omega arith) (omega arith),
        decode_str-encode choice path h safe,
        cstr_self path (no_nul path h),
      )
      (or_dot path)
  where
    or_dot : (p : List ℕ) → elim p [ [] ↦ codes "." | c ∷ q ↦ c ∷ q ] ≡ path_or_dot p
    or_dot [] = refl
    or_dot (c ∷ q) = refl

pub scan_head_lem :
    (m : ℕ) (method path rest : List ℕ)
    → All IsWord (m ∷ method)
    → All IsWord path
    → scan_head ((m ∷ method) ++ (blank ∷ ((b'/' ∷ path) ++ (blank ∷ rest))))
      ≡ (some (m ∷ method), some (b'/' ∷ path))
unfolding scan_head
scan_head_lem m method path rest hm hp = ground (
  arith,
  cstr_word (m ∷ method) ((b'/' ∷ path) ++ (blank ∷ rest)) hm,
  cstr_word (b'/' ∷ path) rest ((omega arith, omega arith), hp),
  scan_word-append (m ∷ method) ((b'/' ∷ path) ++ (blank ∷ cstr rest)) hm,
  scan_word-append (b'/' ∷ path) (cstr rest) ((omega arith, omega arith), hp),
)
