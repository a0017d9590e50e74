-- ===== src/Clients/Client/Peers.antt =====
-- Both servers of tcp_code answer a client of tcp_code alike.
use linux_api_and_socket_pro.Common.{
  ℕ, ◌-◌, ◌<◌, ◌≡◌, refl, ap, ◌∙◌, some, List, [], ◌∷◌, ◌++◌, map, append_assoc, arith, codes,
  length, take, drop, All, length-append,
}
use linux_api_and_socket_pro.Echo.Buffer.{toupper, upper_string, read_into}
use linux_api_and_socket_pro.Clients.Session.{cleared, cut, worker_reply}
use linux_api_and_socket_pro.Clients.Session.Replies.{upper_before_nul, length-map}
use linux_api_and_socket_pro.Clients.Fork.{child_reply}
use linux_api_and_socket_pro.Clients.Fork.Child.{but_last, cut_text}
use linux_api_and_socket_pro.Clients.Client.{client_loop, paired, worker_peer, child_peer}
use linux_api_and_socket_pro.Clients.Client.Session.{
  line_of, IsTyped, line_clean, take-nul, Answers, client_loop-Answers,
}

but_last-line_of : (body : List ℕ) → but_last (line_of body) ≡ body
unfolding but_last
but_last-line_of [] = refl
but_last-line_of (c ∷ []) = refl
but_last-line_of (c ∷ d ∷ body) = ap (λ l. c ∷ l) (but_last-line_of (d ∷ body))

-- what a buffer holds when a line and its NUL are read into it, in upper case and without the line end
buffer_after :
    (body buff : List ℕ)
    → IsTyped body
    → (s : List ℕ) × (upper_string (read_into buff (line_of body ++ (0 ∷ [])))
        ≡ some (map toupper (line_of body) ++ (0 ∷ s)))
      × (cut (map toupper (line_of body) ++ (0 ∷ s)) ≡ some (map toupper body ++ (0 ∷ 0 ∷ s)))
unfolding read_into
buffer_after body buff h =
    let s = drop (length (line_of body ++ (0 ∷ []))) buff in
    (
      s,
      ap upper_string (append_assoc (line_of body) (0 ∷ []) s)
          ∙ upper_before_nul (line_of body) s (line_clean body h.no_nul),
      cut_text (line_of body) s (line_clean body h.no_nul)
            (omega (arith, length-append body (10 ∷ [])))
          ∙ ap (λ l. some (map toupper l ++ (0 ∷ 0 ∷ s))) (but_last-line_of body),
    )

child_reply_line :
    (buff body : List ℕ)
    → IsTyped body
    → (s : List ℕ) × (child_reply buff (line_of body ++ (0 ∷ []))
        ≡ some (map toupper body ++ (0 ∷ 0 ∷ s)))
unfolding child_reply
child_reply_line buff body h =
    let (s, upper, cuts) = buffer_after body buff h in (s, rw (upper, child_reply) cuts)

worker_reply_line :
    (body : List ℕ)
    → IsTyped body
    → (s : List ℕ) × (worker_reply (line_of body ++ (0 ∷ [])) ≡ some (map toupper body ++ (0 ∷ s)))
unfolding worker_reply
worker_reply_line body h =
    let (s, upper, cuts) = buffer_after body cleared h in
    (
      take (length (line_of body ++ (0 ∷ [])) - length (map toupper body) - 1) (0 ∷ s),
      rw (upper, cuts, worker_reply)
          (ap some
            (take-nul (map toupper body) (0 ∷ s) (length (line_of body ++ (0 ∷ []))) longer)),
    )
  where
    longer : length (map toupper body) < length (line_of body ++ (0 ∷ []))
    longer = omega (
      arith,
      length-map body,
      length-append (line_of body) (0 ∷ []),
      length-append body (10 ∷ []),
    )

child-Answers : (buff body : List ℕ) → IsTyped body → Answers child_peer buff body
child-Answers buff body h =
    let (s, e) = child_reply_line buff body h in
    record {
      rest = 0 ∷ s;
      after = map toupper body ++ (0 ∷ 0 ∷ s);
      answered = ap (paired (λ reply. reply)) e;
    }

worker-Answers : (u : Unit) (body : List ℕ) → IsTyped body → Answers worker_peer u body
worker-Answers u body h =
    let (s, e) = worker_reply_line body h in
    record { rest = s; after = tt; answered = ap (paired (λ reply. tt)) e }

-- A client of tcp_code types lines of at most 510 characters with their line end, none of them NUL, and then qqq. With
-- a worker of server_thread.c, and with a child of server_fork.c whatever its buffer holds, it prints each line in
-- upper case and without its line end, in order; the servers access nothing outside their buffers.
pub client_loop_lem :
    (bodies later : List (List ℕ)) (buff : List ℕ)
    → All IsTyped bodies
    → let lines = map line_of bodies ++ (codes "qqq\n" ∷ later) in
      (client_loop worker_peer tt lines ≡ some (map (map toupper) bodies))
      × (client_loop child_peer buff lines ≡ some (map (map toupper) bodies))
client_loop_lem bodies later buff ok = (
  client_loop-Answers worker_peer worker-Answers tt bodies later ok,
  client_loop-Answers child_peer child-Answers buff bodies later ok,
)
