-- ===== src/Echo/Buffer/Upper.antt =====
-- What an echo sends, whatever an earlier one left in the buffer.
use linux_api_and_socket_pro.Common.{
  ℕ, zero, suc, ◌≤◌, ◌<◌, ◌≡◌, refl, sym, ap, ◌∙◌, ◌≢◌, none, some, List, [], ◌∷◌, ◌++◌, append-nil,
  arith, ℕ_discrete, ◌==◌, if◌then◌else◌, ne_test, length, take, drop, All, length-append,
  length-drop,
}
use linux_api_and_socket_pro.Echo.Buffer.{toupper, upper_string, read_into, echo}

-- upper case up to the first NUL, and what follows that as it is
unfoldable pub upper_to_nul : List ℕ → List ℕ
upper_to_nul [] = []
upper_to_nul (c ∷ s) = let rest = upper_to_nul s in if c == 0 then c ∷ s else toupper c ∷ rest

-- The last byte of a buffer is NUL.
unfoldable pub EndsInNul : List ℕ → Type 0
EndsInNul [] = ⊥
EndsInNul (c ∷ []) = c ≡ 0
EndsInNul (c ∷ d ∷ s) = EndsInNul (d ∷ s)

-- what the loop leaves behind bytes `d` in front of `s`
abbrev Uppered : List ℕ → List ℕ → Type 0
Uppered d s =
    (t : List ℕ) × (upper_string (d ++ s) ≡ some (upper_to_nul d ++ t))
    × EndsInNul t
    × (length t ≡ length s)

upper_string-one : (c : ℕ) → c ≡ 0 → upper_string (c ∷ []) ≡ some (c ∷ [])
unfolding upper_string
upper_string-one c e = rw e refl

cons-EndsInNul : (c : ℕ) (s : List ℕ) → EndsInNul s → EndsInNul (c ∷ s)
unfolding EndsInNul
cons-EndsInNul c [] h = absurd h
cons-EndsInNul c (d ∷ s) h = h

upper_past : (s : List ℕ) → EndsInNul s → Uppered [] s
unfolding EndsInNul upper_string upper_to_nul
upper_past [] h = absurd h
upper_past (c ∷ []) h = (c ∷ [], upper_string-one c h, h, refl)
upper_past (c ∷ d ∷ s) h = elim (ℕ_discrete c 0) [
  | yes e ↦ (c ∷ d ∷ s, rw (e, upper_string) refl, h, refl)
  | no ne ↦
      let (t, e, ends, len) = upper_past (d ∷ s) h in
      (toupper c ∷ t, rw (ne_test c 0 ne, e) refl, cons-EndsInNul (toupper c) t ends, ap suc len)
]

upper_lem : (d s : List ℕ) → EndsInNul s → Uppered d s
unfolding upper_string upper_to_nul
upper_lem [] s h = upper_past s h
upper_lem (c ∷ d) s h = elim (ℕ_discrete c 0) [
  | yes e ↦ (s, rw e refl, h, refl)
  | no ne ↦ let (t, e, ends, len) = upper_lem d s h in (t, rw (ne_test c 0 ne, e) refl, ends, len)
]

drop-EndsInNul : (n : ℕ) (s : List ℕ) → n < length s → EndsInNul s → EndsInNul (drop n s)
unfolding EndsInNul
drop-EndsInNul zero s small h = h
drop-EndsInNul (suc n) [] small h = h
drop-EndsInNul (suc n) (c ∷ []) small h = absurd (omega arith)
drop-EndsInNul (suc n) (c ∷ d ∷ s) small h = drop-EndsInNul n (d ∷ s) (omega arith) h

append-EndsInNul : (d s : List ℕ) → EndsInNul s → EndsInNul (d ++ s)
append-EndsInNul [] s h = h
append-EndsInNul (c ∷ d) s h = cons-EndsInNul c (d ++ s) (append-EndsInNul d s h)

pub length-upper_to_nul : (s : List ℕ) → length (upper_to_nul s) ≡ length s
unfolding upper_to_nul
length-upper_to_nul [] = refl
length-upper_to_nul (c ∷ s) = ground (arith, length-upper_to_nul s)

pub take-append : (d s : List ℕ) → take (length d) (d ++ s) ≡ d
take-append [] s = refl
take-append (c ∷ d) s = ap (λ t. c ∷ t) (take-append d s)

-- A read that leaves the last byte of a buffer that ends in NUL alone is sent back in upper case up to its first
-- NUL, whatever else was in the buffer, which still has its length and its NUL at the end.
pub echo_lem :
    (buff input : List ℕ)
    → EndsInNul buff
    → length input < length buff
    → (b : List ℕ) × (echo buff input ≡ some (upper_to_nul input, b))
      × EndsInNul b
      × (length b ≡ length buff)
unfolding echo read_into
echo_lem buff input ends short =
    let (t, e, ends', len) =
      upper_lem input (drop (length input) buff) (drop-EndsInNul (length input) buff short ends) in
    (
      upper_to_nul input ++ t,
      rw (e, echo)
          (ap (λ l. some (l, upper_to_nul input ++ t))
            (ap (λ n. take n (upper_to_nul input ++ t)) (sym (length-upper_to_nul input))
              ∙ take-append (upper_to_nul input) t)),
      append-EndsInNul (upper_to_nul input) t ends',
      omega (
        arith,
        len,
        length-append (upper_to_nul input) t,
        length-upper_to_nul input,
        length-drop (length input) buff,
      ),
    )

-- Bytes other than NUL that fill the buffer make the loop run past its end.
pub echo_overrun :
    (buff input : List ℕ)
    → length input ≡ length buff
    → All (λ c. c ≢ 0) input
    → echo buff input ≡ none
unfolding echo read_into
echo_overrun buff input full plain =
    rw (drop_all (length input) buff (omega arith), append-nil input, past_end input plain, echo)
  where
    drop_all : (n : ℕ) (s : List ℕ) → length s ≤ n → drop n s ≡ []
    drop_all zero [] h = refl
    drop_all zero (c ∷ s) h = absurd (omega arith)
    drop_all (suc n) [] h = refl
    drop_all (suc n) (c ∷ s) h = drop_all n s (omega arith)

    past_end : (s : List ℕ) → All (λ c. c ≢ 0) s → upper_string s ≡ none
    past_end [] h = unfold upper_string in refl
    past_end (c ∷ s) h = unfold upper_string in rw (ne_test c 0 h.0, past_end s h.1)
