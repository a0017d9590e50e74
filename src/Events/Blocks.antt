-- ===== src/Events/Blocks.antt =====
-- What `cb_read` writes.
use linux_api_and_socket_pro.Common.{
  ℕ, zero, suc, ◌+◌, ◌-◌, ◌<◌, ◌≡◌, refl, sym, ap, ◌∙◌, true, some, List, [], ◌∷◌, ◌++◌,
  append_assoc, arith, ℕ_discrete, leb, ne_test, length, take, drop, replicate, length-append,
}
use linux_api_and_socket_pro.Echo.Buffer.{upper_string, read_into}
use linux_api_and_socket_pro.Echo.Buffer.Upper.{upper_to_nul, length-upper_to_nul, take-append}
use linux_api_and_socket_pro.Events.{cb_read}

-- The whole block for what is read: in upper case up to its first NUL, and one NUL more.
abbrev pub block_for : List ℕ → List ℕ
block_for input = upper_to_nul input ++ (0 ∷ [])

upper_string-nul : (d s : List ℕ) → upper_string (d ++ (0 ∷ s)) ≡ some (upper_to_nul d ++ (0 ∷ s))
unfolding upper_string upper_to_nul
upper_string-nul [] s = refl
upper_string-nul (c ∷ d) s = elim (ℕ_discrete c 0) [
  | yes e ↦ rw e refl
  | no ne ↦ rw (ne_test c 0 ne, upper_string-nul d s) refl
]

drop-zeros : (n m : ℕ) → n < m → drop {A = ℕ} n (replicate m 0) ≡ 0 ∷ replicate (m - n - 1) 0
drop-zeros n zero h = absurd (omega arith)
drop-zeros zero (suc m) h = ap (λ k. 0 ∷ replicate k 0) (omega arith)
drop-zeros (suc n) (suc m) h =
    drop-zeros n m (omega arith) ∙ ap (λ k. 0 ∷ replicate k 0) (omega arith)

pub cb_read_lem : (input : List ℕ) → length input < 1024 → cb_read input ≡ some (block_for input)
unfolding cb_read read_into
cb_read_lem input h =
    rw
      (
        drop-zeros (length input) 1024 h,
        upper_string-nul input (replicate (1024 - length input - 1) 0),
        fits (length input) h,
        cb_read,
      )
      (ap some taken)
  where
    fits : (n : ℕ) → n < 1024 → leb (n + 1) 1024 ≡ true
    fits n h = ground arith

    zeros : List ℕ
    zeros = replicate (1024 - length input - 1) 0

    taken : take (length input + 1) (upper_to_nul input ++ (0 ∷ zeros)) ≡ block_for input
    taken =
        ap (λ n. take n (upper_to_nul input ++ (0 ∷ zeros))) {x = length input + 1}
          {y = length (block_for input)}
          (omega (arith, length-append (upper_to_nul input) (0 ∷ []), length-upper_to_nul input))
        ∙ ap (take (length (block_for input)))
            (sym (append_assoc (upper_to_nul input) (0 ∷ []) zeros))
        ∙ take-append (block_for input) zeros
