-- ===== src/Http/Bytes.antt =====
-- C strings as lists of bytes, and the functions of <string.h> and <ctype.h> that the servers call.
use linux_api_and_socket_pro.Common.{
  ℕ, zero, suc, ◌+◌, ◌/◌, ◌%◌, ◌≡◌, refl, ◌≢◌, Bool, true, false, ◌&&◌, ◌||◌, Option, none, some,
  List, [], ◌∷◌, ◌++◌, arith, ltb, leb, ◌==◌, if◌then◌else◌, ne_test, codes, All,
}

abbrev pub cr : ℕ
cr = 13

abbrev pub lf : ℕ
lf = 10

abbrev pub blank : ℕ
blank = 32

-- what a C string function reads of a buffer: the bytes before the first NUL
unfoldable pub cstr : List ℕ → List ℕ
cstr [] = []
cstr (c ∷ s) = if c == 0 then [] else c ∷ cstr s

-- `strcmp(a, b) == 0`
unfoldable pub str_eq : List ℕ → List ℕ → Bool
str_eq [] [] = true
str_eq [] (b ∷ t) = false
str_eq (a ∷ s) [] = false
str_eq (a ∷ s) (b ∷ t) = (a == b) && str_eq s t

-- `strrchr(s, c)`: the string from the last `c` on
unfoldable pub strrchr : List ℕ → ℕ → Option (List ℕ)
strrchr [] c = none
strrchr (b ∷ s) c = elim (strrchr s c) [
  | some t ↦ some t
  | none ↦ if b == c then some (b ∷ s) else none
]

unfoldable pub tolower : ℕ → ℕ
tolower c = if leb b'A' c && leb c b'Z' then c + 32 else c

-- `isspace`, in the C locale
unfoldable pub isspace : ℕ → Bool
isspace c = (c == 32) || (leb 9 c && leb c 13)

unfoldable pub isxdigit : ℕ → Bool
isxdigit c =
    (leb b'0' c && leb c b'9') || ((leb b'a' c && leb c b'f') || (leb b'A' c && leb c b'F'))

-- `x | flag`, for a flag of one bit
unfoldable pub bit_or : ℕ → ℕ → ℕ
bit_or x flag = if (x / flag) % 2 == 1 then x else x + flag

-- `%d` of a number that is not negative
unfoldable pub decimal_from : ℕ → ℕ → List ℕ
decimal_from zero n = []
decimal_from (suc fuel) n =
    let high = decimal_from fuel (n / 10) in
    if ltb n 10 then (b'0' + n) ∷ [] else high ++ ((b'0' + n % 10) ∷ [])

unfoldable pub decimal : ℕ → List ℕ
unfolding decimal_from
decimal n = decimal_from (n + 1) n

pub str_eq_refl : (s : List ℕ) → str_eq s s ≡ true
unfolding str_eq
str_eq_refl [] = refl
str_eq_refl (a ∷ s) = ground (arith, str_eq_refl s)

-- A byte that does not stand in the rest is found where it stands.
pub strrchr-append :
    (stem ext : List ℕ) (c : ℕ)
    → All (λ b. b ≢ c) ext
    → strrchr (stem ++ (c ∷ ext)) c ≡ some (c ∷ ext)
unfolding strrchr
strrchr-append [] ext c h = rw (missing ext h) (ground arith)
  where
    missing : (ext : List ℕ) → All (λ b. b ≢ c) ext → strrchr ext c ≡ none
    missing [] h = refl
    missing (b ∷ ext) h = rw (missing ext h.1) (ground (arith, h.0))
strrchr-append (b ∷ stem) ext c h = rw (strrchr-append stem ext c h)

pub strrchr_missing : (s : List ℕ) (c : ℕ) → All (λ b. b ≢ c) s → strrchr s c ≡ none
unfolding strrchr
strrchr_missing [] c h = refl
strrchr_missing (b ∷ s) c h = rw (strrchr_missing s c h.1) (ground (arith, h.0))

decimal_runs : decimal 99999 ≡ codes "99999"
unfolding decimal
decimal_runs = refl

-- a string with its NUL in front of other bytes
pub cstr-nul : (d s : List ℕ) → All (λ c. c ≢ 0) d → cstr (d ++ (0 ∷ s)) ≡ d
unfolding cstr
cstr-nul [] s h = refl
cstr-nul (c ∷ d) s h = rw (ne_test c 0 h.0, cstr-nul d s h.1) refl
