-- ===== src/Clients/Client/Session.antt =====
-- A client with either server: each line comes back in upper case.
use linux_api_and_socket_pro.Common.{
  ℕ, zero, suc, ◌+◌, ◌-◌, ◌<◌, ◌≡◌, refl, ap, ◌∙◌, ◌≢◌, false, some, List, [], ◌∷◌, ◌++◌, map,
  append_assoc, arith, codes, length, take, drop, replicate, All, length-append, All-append,
}
use linux_api_and_socket_pro.Echo.Buffer.{toupper, read_into}
use linux_api_and_socket_pro.Http.Bytes.{cstr, str_eq, cstr-nul}
use linux_api_and_socket_pro.Clients.Session.Replies.{toupper_ne, length-map}
use linux_api_and_socket_pro.Clients.Client.{Peer, typed, is_quit, message, printed, client_loop}

-- a line: its characters, and the line end
abbrev pub line_of : (body : List ℕ) → List ℕ
line_of body = body ++ (10 ∷ [])

-- characters other than NUL that fit the buffers with the line end and the NUL, and that do not quit
pub record IsTyped (body : List ℕ) : Type 0 where
  pub no_nul : All (λ c. c ≢ 0) body
  pub short : length body < 510
  pub stays : str_eq (line_of body) (codes "qqq\n") ≡ false

typed_lem :
    (body : List ℕ)
    → length body < 510
    → typed (line_of body) ≡ line_of body ++ (0 ∷ replicate (510 - length body) 0)
unfolding typed
typed_lem body h =
    ap (λ n. line_of body ++ replicate n 0) {x = 512 - length (line_of body)}
      {y = suc (510 - length body)} (omega (arith, length-append body (10 ∷ [])))

pub line_clean : (body : List ℕ) → All (λ c. c ≢ 0) body → All (λ c. c ≢ 0) (line_of body)
line_clean body h = All-append (λ c. c ≢ 0) body (10 ∷ []) h (omega arith)

pub take-nul :
    (d rest : List ℕ) (n : ℕ)
    → length d < n
    → take n (d ++ (0 ∷ rest)) ≡ d ++ (0 ∷ take (n - length d - 1) rest)
take-nul d rest zero h = absurd (omega arith)
take-nul [] rest (suc n) h = ap (λ k. 0 ∷ take k rest) (omega arith)
take-nul (c ∷ d) rest (suc n) h =
    ap (λ l. c ∷ l)
      (take-nul d rest n (omega arith)
        ∙ ap (λ k. d ++ (0 ∷ take k rest)) {x = n - length d - 1} {y = suc n - suc (length d) - 1}
            (omega arith))

message_lem : (body : List ℕ) → IsTyped body → message (line_of body) ≡ line_of body ++ (0 ∷ [])
unfolding message
message_lem body h =
    rw
      (
        typed_lem body h.short,
        cstr-nul (line_of body) (replicate (510 - length body) 0) (line_clean body h.no_nul),
      )
      (take-nul (line_of body) zeros (length (line_of body) + 1) (omega arith)
        ∙ ap (λ k. line_of body ++ (0 ∷ take k zeros))
            {x = length (line_of body) + 1 - length (line_of body) - 1} {y = 0} (omega arith))
  where
    zeros : List ℕ
    zeros = replicate (510 - length body) 0

is_quit_lem : (body : List ℕ) → IsTyped body → is_quit (line_of body) ≡ false
unfolding is_quit
is_quit_lem body h =
    rw
      (
        typed_lem body h.short,
        cstr-nul (line_of body) (replicate (510 - length body) 0) (line_clean body h.no_nul),
      )
      h.stays

pub upper_clean : (body : List ℕ) → All (λ c. c ≢ 0) body → All (λ c. c ≢ 0) (map toupper body)
upper_clean [] h = tt
upper_clean (c ∷ body) h = (toupper_ne c h.0, upper_clean body h.1)

-- an answer that starts with the line in upper case and a NUL
printed_lem :
    (body rest : List ℕ)
    → IsTyped body
    → printed (line_of body) (map toupper body ++ (0 ∷ rest)) ≡ map toupper body
unfolding printed read_into
printed_lem body rest h =
    rw
      (
        take-nul (map toupper body) rest 512 (omega (arith, length-map body, h.short)),
        append_assoc (map toupper body) (0 ∷ take (512 - length (map toupper body) - 1) rest) (
            drop
              (length (map toupper body ++ (0 ∷ take (512 - length (map toupper body) - 1) rest)))
              (typed (line_of body))),
      )
      (cstr-nul (map toupper body) _ (upper_clean body h.no_nul))

-- What the client relies on: each line with its NUL is answered by the line in upper case, a NUL, and what may follow.
pub record Answers {S : Type 0} (peer : Peer S) (s : S) (body : List ℕ) : Type 0 where
  pub rest : List ℕ
  pub after : S
  pub answered :
      peer.respond s (line_of body ++ (0 ∷ [])) ≡ some (map toupper body ++ (0 ∷ rest), after)

pub client_loop-Answers :
    {S : Type 0} (peer : Peer S)
    → ((s : S) (body : List ℕ) → IsTyped body → Answers peer s body)
    → (s : S) (bodies later : List (List ℕ)) → All IsTyped bodies
    → client_loop peer s (map line_of bodies ++ (codes "qqq\n" ∷ later))
      ≡ some (map (map toupper) bodies)
unfolding client_loop is_quit typed cstr str_eq
client_loop-Answers peer law s [] later ok = refl
client_loop-Answers peer law s (body ∷ bodies) later ok =
    let a = law s body ok.0 in
    rw
      (
        is_quit_lem body ok.0,
        message_lem body ok.0,
        a.answered,
        client_loop-Answers peer law a.after bodies later ok.1,
        printed_lem body a.rest ok.0,
        client_loop,
      )
      refl
