-- ===== src/Clients/Session/Replies.antt =====
-- What a client gets back for each of its messages.
use linux_api_and_socket_pro.Common.{
  ℕ, zero, suc, ◌+◌, ◌-◌, ◌<◌, ◌≡◌, refl, sym, ap, ◌∙◌, ◌≢◌, some, List, [], ◌∷◌, ◌++◌, map,
  append_assoc, arith, ne_test, length, take, drop, replicate, All, length-append, All-append,
}
use linux_api_and_socket_pro.Echo.Buffer.{
  toupper, upper_string, read_into, Answer, bytes, end, failed,
}
use linux_api_and_socket_pro.Echo.Buffer.Upper.{take-append}
use linux_api_and_socket_pro.Clients.Session.{cut, worker_reply, worker_loop}

-- A message: its last byte, and those before it.
pub record Message : Type 0 where
  pub body : List ℕ
  pub last : ℕ

abbrev pub whole : Message → List ℕ
whole m = m.body ++ (m.last ∷ [])

-- bytes other than NUL that leave the last byte of the buffer alone
abbrev pub IsText : Message → Type 0
IsText m = All (λ c. c ≢ 0) m.body × ((m.last ≢ 0) × (length m.body < 511))

pub upper_before_nul :
    (d s : List ℕ)
    → All (λ c. c ≢ 0) d
    → upper_string (d ++ (0 ∷ s)) ≡ some (map toupper d ++ (0 ∷ s))
unfolding upper_string
upper_before_nul [] s h = refl
upper_before_nul (c ∷ d) s h = rw (ne_test c 0 h.0, upper_before_nul d s h.1) refl

pub toupper_ne : (c : ℕ) → c ≢ 0 → toupper c ≢ 0
unfolding toupper
toupper_ne c h e = ground (arith, h, e)

cut_lem :
    (body : List ℕ) (last : ℕ) (s : List ℕ)
    → All (λ c. c ≢ 0) body
    → last ≢ 0
    → cut (map toupper (body ++ (last ∷ [])) ++ (0 ∷ s)) ≡ some (map toupper body ++ (0 ∷ 0 ∷ s))
unfolding cut
cut_lem [] last s hb hl = rw (ne_test (toupper last) 0 (toupper_ne last hl)) refl
cut_lem (c ∷ []) last s hb hl =
    rw (ne_test (toupper c) 0 (toupper_ne c hb.0), ne_test (toupper last) 0 (toupper_ne last hl))
      refl
cut_lem (c ∷ d ∷ body) last s hb hl =
    rw
      (
        ne_test (toupper c) 0 (toupper_ne c hb.0),
        ne_test (toupper d) 0 (toupper_ne d hb.1.0),
        cut_lem (d ∷ body) last s hb.1 hl,
        cut,
      )
      refl

drop-replicate : (n m : ℕ) → n < m → drop {A = ℕ} n (replicate m 0) ≡ 0 ∷ replicate (m - n - 1) 0
drop-replicate n zero h = absurd (omega arith)
drop-replicate zero (suc m) h = ap (λ k. 0 ∷ replicate k 0) (omega arith)
drop-replicate (suc n) (suc m) h =
    drop-replicate n m (omega arith) ∙ ap (λ k. 0 ∷ replicate k 0) (omega arith)

pub length-map : (s : List ℕ) → length (map toupper s) ≡ length s
length-map [] = refl
length-map (c ∷ s) = ap suc (length-map s)

worker_reply_lem :
    (m : Message) → IsText m → worker_reply (whole m) ≡ some (map toupper m.body ++ (0 ∷ []))
unfolding worker_reply read_into
worker_reply_lem m h =
    rw
      (
        drop-replicate (length (whole m)) 512 (omega (arith, size, h.1.1)),
        upper_before_nul (whole m) _ (All-append (λ c. c ≢ 0) m.body (m.last ∷ []) h.0 (h.1.0, tt)),
        cut_lem m.body m.last (replicate (512 - length (whole m) - 1) 0) h.0 h.1.0,
        worker_reply,
      )
      (ap some taken)
  where
    size : length (whole m) ≡ length m.body + 1
    size = length-append m.body (m.last ∷ [])

    sent : List ℕ
    sent = map toupper m.body ++ (0 ∷ [])

    rest : List ℕ
    rest = 0 ∷ replicate (512 - length (whole m) - 1) 0

    taken : take (length (whole m)) (map toupper m.body ++ (0 ∷ rest)) ≡ sent
    taken =
        ap (λ n. take n (map toupper m.body ++ (0 ∷ rest))) {x = length (whole m)} {y = length sent}
          (omega (arith, size, length-append (map toupper m.body) (0 ∷ []), length-map m.body))
        ∙ ap (take (length sent)) (sym (append_assoc (map toupper m.body) (0 ∷ []) rest))
        ∙ take-append sent rest

-- what ends the loop
abbrev pub IsLast : Answer → Type 0
IsLast (bytes _) = ⊥
IsLast _ = Unit

-- While a client sends messages of 1 to 511 bytes other than NUL, each comes back in upper case with its last byte
-- replaced by NUL; the loop ends when the client closes its side or a read fails, and accesses no byte outside the
-- buffer.
pub worker_loop_lem :
    (messages : List Message) (last : Answer)
    → All IsText messages
    → IsLast last
    → worker_loop (map (λ m. bytes (whole m)) messages ++ (last ∷ []))
      ≡ some (map (λ m. map toupper m.body ++ (0 ∷ [])) messages)
unfolding worker_loop
worker_loop_lem [] (bytes input) ok ends = absurd ends
worker_loop_lem [] end ok ends = refl
worker_loop_lem [] (failed errno) ok ends = refl
worker_loop_lem (m ∷ messages) last ok ends =
    rw (worker_reply_lem m ok.0, worker_loop_lem messages last ok.1 ends, worker_loop) refl
