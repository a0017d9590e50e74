-- ===== src/Clients/Fork/Child.antt =====
-- What a client of the forking server gets back: its messages over what is left of those before.
use linux_api_and_socket_pro.Common.{
  ℕ, zero, suc, ◌+◌, ◌-◌, ◌<◌, ◌≡◌, refl, sym, ap, ◌∙◌, ◌≢◌, some, List, [], ◌∷◌, ◌++◌, map,
  append_assoc, arith, ne_test, length, drop, replicate, All, length-append, length-drop,
  All-append,
}
use linux_api_and_socket_pro.Echo.Buffer.{toupper, read_into, Answer, bytes, end, failed}
use linux_api_and_socket_pro.Clients.Session.{cut}
use linux_api_and_socket_pro.Clients.Session.Replies.{
  upper_before_nul, toupper_ne, length-map, IsLast,
}
use linux_api_and_socket_pro.Clients.Fork.{
  child_reply, Exit, closes_and_exits, exits_on_error, still_reading, child_loop,
}

-- all but the last byte
unfoldable pub but_last : List ℕ → List ℕ
but_last [] = []
but_last (c ∷ []) = []
but_last (c ∷ d ∷ s) = let rest = but_last (d ∷ s) in c ∷ rest

-- a message over the text that the buffer holds
abbrev pub over : (text input : List ℕ) → List ℕ
over text input = input ++ drop (length input) text

-- the text that the buffer holds afterwards
abbrev pub next_text : (text input : List ℕ) → List ℕ
next_text text input = map toupper (but_last (over text input))

-- `text` in a buffer that is zero behind it
abbrev pub padded : List ℕ → List ℕ
padded text = text ++ replicate (512 - length text) 0

-- 1 to 511 bytes other than NUL
pub record IsMessage (input : List ℕ) : Type 0 where
  pub no_nul : All (λ c. c ≢ 0) input
  pub low : 0 < length input
  pub high : length input < 512

-- the blocks that come back
unfoldable pub replies : (text : List ℕ) → List (List ℕ) → List (List ℕ)
replies text [] = []
replies text (input ∷ inputs) =
    padded (next_text text input) ∷ replies (next_text text input) inputs

-- how the answer that ends the loop ends the child
abbrev pub exit_of : Answer → Exit
exit_of end = closes_and_exits
exit_of (failed errno) = exits_on_error
exit_of (bytes input) = still_reading

pub cut_text :
    (v s : List ℕ)
    → All (λ c. c ≢ 0) v
    → 0 < length v
    → cut (map toupper v ++ (0 ∷ s)) ≡ some (map toupper (but_last v) ++ (0 ∷ 0 ∷ s))
unfolding cut but_last
cut_text [] s h pos = absurd (omega arith)
cut_text (c ∷ []) s h pos = rw (ne_test (toupper c) 0 (toupper_ne c h.0)) refl
cut_text (c ∷ d ∷ v) s h pos =
    rw
      (
        ne_test (toupper c) 0 (toupper_ne c h.0),
        ne_test (toupper d) 0 (toupper_ne d h.1.0),
        cut_text (d ∷ v) s h.1 (omega arith),
        cut,
      )
      refl

length-but_last : (v : List ℕ) → length (but_last v) ≡ length v - 1
unfolding but_last
length-but_last [] = refl
length-but_last (c ∷ []) = refl
length-but_last (c ∷ d ∷ v) = ap suc (length-but_last (d ∷ v)) ∙ omega arith

All-but_last : (v : List ℕ) → All (λ c. c ≢ 0) v → All (λ c. c ≢ 0) (map toupper (but_last v))
unfolding but_last
All-but_last [] h = tt
All-but_last (c ∷ []) h = tt
All-but_last (c ∷ d ∷ v) h = (toupper_ne c h.0, All-but_last (d ∷ v) h.1)

All-drop : (n : ℕ) (v : List ℕ) → All (λ c. c ≢ 0) v → All (λ c. c ≢ 0) (drop n v)
All-drop zero v h = h
All-drop (suc n) [] h = tt
All-drop (suc n) (c ∷ v) h = All-drop n v h.1

drop-zeros : (n k : ℕ) → drop {A = ℕ} n (replicate k 0) ≡ replicate (k - n) 0
drop-zeros zero k = ap (λ m. replicate m 0) {x = k} {y = k - 0} (omega arith)
drop-zeros (suc n) zero = ap (λ m. replicate m 0) {x = 0} {y = 0 - suc n} (omega arith)
drop-zeros (suc n) (suc k) =
    drop-zeros n k ∙ ap (λ m. replicate m 0) {x = k - n} {y = suc k - suc n} (omega arith)

drop-padded :
    (n : ℕ) (v : List ℕ) (k : ℕ)
    → drop n (v ++ replicate k 0) ≡ drop n v ++ replicate (k - (n - length v)) 0
drop-padded zero v k = ap (λ m. v ++ replicate m 0) {x = k} {y = k - (0 - length v)} (omega arith)
drop-padded (suc n) [] k =
    drop-zeros (suc n) k
    ∙ ap (λ m. replicate m 0) {x = k - suc n} {y = k - (suc n - 0)} (omega arith)
drop-padded (suc n) (c ∷ v) k =
    drop-padded n v k
    ∙ ap (λ m. drop n v ++ replicate m 0) {x = k - (n - length v)}
        {y = k - (suc n - suc (length v))} (omega arith)

-- a text that leaves room for its NUL
pub record IsHeld (text : List ℕ) : Type 0 where
  pub no_nul : All (λ c. c ≢ 0) text
  pub short : length text < 512

pub child_reply_lem :
    (text input : List ℕ)
    → IsHeld text
    → IsMessage input
    → (child_reply (padded text) input ≡ some (padded (next_text text input)))
      × IsHeld (next_text text input)
unfolding child_reply read_into
child_reply_lem text input t h = (
  rw (laid_out, upper_before_nul v (replicate (m - 1) 0) clean, child_reply)
      (cut_text v (replicate (m - 1) 0) clean (omega (arith, size, h.low)) ∙ ap some end_same),
  record {
    no_nul = All-but_last v clean;
    short = omega (arith, size', size, h.low, h.high, t.short);
  },
)
  where
    v : List ℕ
    v = over text input

    m : ℕ
    m = 512 - length text - (length input - length text)

    clean : All (λ c. c ≢ 0) v
    clean =
        All-append (λ c. c ≢ 0) input (drop (length input) text) h.no_nul
          (All-drop (length input) text t.no_nul)

    size : length v ≡ length input + (length text - length input)
    size =
        length-append input (drop (length input) text)
        ∙ ap (λ n. length input + n) (length-drop (length input) text)

    size' : length (map toupper (but_last v)) ≡ length v - 1
    size' = length-map (but_last v) ∙ length-but_last v

    laid_out : input ++ drop (length input) (padded text) ≡ v ++ (0 ∷ replicate (m - 1) 0)
    laid_out =
        ap (λ l. input ++ l) (drop-padded (length input) text (512 - length text))
        ∙ sym (append_assoc input (drop (length input) text) (replicate m 0))
        ∙ ap (λ k. v ++ replicate k 0) {x = m} {y = suc (m - 1)} (omega (arith, h.high, t.short))

    end_same :
        map toupper (but_last v) ++ (0 ∷ 0 ∷ replicate (m - 1) 0)
        ≡ padded (map toupper (but_last v))
    end_same =
        ap (λ k. map toupper (but_last v) ++ replicate k 0) {x = suc (suc (m - 1))}
          {y = 512 - length (map toupper (but_last v))}
          (omega (arith, size', size, h.low, h.high, t.short))

-- While a client sends messages of 1 to 511 bytes other than NUL, the child accesses nothing outside its buffer and
-- writes all 512 bytes each time: the message over the text that was in the buffer, in upper case and without the
-- last byte, then zeros. It ends with `exit` after `close` when the client closes its side, and with `exit` alone
-- when a read fails.
pub child_loop_lem :
    (text : List ℕ) (inputs : List (List ℕ)) (last : Answer)
    → IsHeld text
    → All IsMessage inputs
    → IsLast last
    → child_loop (padded text) (map bytes inputs ++ (last ∷ []))
      ≡ some (replies text inputs, exit_of last)
unfolding child_loop replies
child_loop_lem text [] (bytes input) t ok ends = absurd ends
child_loop_lem text [] end t ok ends = refl
child_loop_lem text [] (failed errno) t ok ends = refl
child_loop_lem text (input ∷ inputs) last t ok ends =
    let (e, held) = child_reply_lem text input t ok.0 in
    rw (e, child_loop_lem (next_text text input) inputs last held ok.1 ends, child_loop) refl
