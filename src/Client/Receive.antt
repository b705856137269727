-- ===== src/Client/Receive.antt =====
-- lib/libtsagent/src/client.c, `clnt_recv_parse`: the messages in what has been received, each up to
-- its NUL.
use v_perf_generator.Common.{
  ◌∙◌, length-append, ap, ==_of_ne, ℕ, zero, suc, ◌==◌, ◌≤◌, ◌≡◌, ◌≢◌, if◌then◌else◌, some, none,
  Option, List, [], ◌∷◌, ◌++◌, All, length, refl, arith,
}

-- `strlen(msg)` and the bytes before and behind the NUL; the buffer behind the bytes received is 0.
unfoldable pub split_nul : List ℕ → List ℕ × List ℕ
split_nul [] = ([], [])
split_nul (c ∷ cs) = let (msg, rest) = split_nul cs in if c == 0 then ([], cs) else (c ∷ msg, rest)

module _ {Node : Type 0} (json_parse : List ℕ → Option Node) where
  -- What is pushed to `proc_queue`; a message that is not valid JSON is logged. There are at most as
  -- many messages as bytes, which is the fuel.
  unfoldable pub recv_parse_from : ℕ → List ℕ → List Node
  unfolding split_nul
  recv_parse_from fuel [] = []
  recv_parse_from zero (c ∷ cs) = []
  recv_parse_from (suc fuel) (c ∷ cs) =
      let (msg, rest) = split_nul (c ∷ cs) in
      let queued = recv_parse_from fuel rest in
      elim (json_parse msg) [ none ↦ queued | some node ↦ node ∷ queued ]

  unfoldable pub clnt_recv_parse : List ℕ → List Node
  unfolding recv_parse_from
  clnt_recv_parse buffer = recv_parse_from (length buffer) buffer

  -- The messages that are valid, in order.
  unfoldable pub valid : List (List ℕ) → List Node
  valid [] = []
  valid (msg ∷ msgs) = elim (json_parse msg) [ none ↦ valid msgs | some node ↦ node ∷ valid msgs ]

-- What `clnt_send` writes for each message: its text and a NUL.
unfoldable pub framed : List (List ℕ) → List ℕ
framed [] = []
framed (msg ∷ msgs) = msg ++ (0 ∷ framed msgs)

split_nul-append :
    (msg rest : List ℕ) → All (λ c. c ≢ 0) msg → split_nul (msg ++ (0 ∷ rest)) ≡ (msg, rest)
unfolding split_nul
split_nul-append [] rest no_nul = refl
split_nul-append (c ∷ msg) rest no_nul =
    rw (==_of_ne c 0 no_nul.0)
      (ap (λ (p : List ℕ × List ℕ). (c ∷ p.0, p.1)) (split_nul-append msg rest no_nul.1))

module _ {Node : Type 0} (json_parse : List ℕ → Option Node) where
  -- One message and the rest, for a buffer that starts with a byte.
  one_message :
      (fuel c : ℕ) (cs msg rest : List ℕ)
      → split_nul (c ∷ cs) ≡ (msg, rest)
      → recv_parse_from json_parse (suc fuel) (c ∷ cs) ≡ (elim (json_parse msg) [
        | none ↦ recv_parse_from json_parse fuel rest
        | some node ↦ node ∷ recv_parse_from json_parse fuel rest
      ])
  unfolding recv_parse_from
  one_message fuel c cs msg rest e =
      ap
        (λ (p : List ℕ × List ℕ). elim (json_parse p.0) [
          | none ↦ recv_parse_from json_parse fuel p.1
          | some node ↦ node ∷ recv_parse_from json_parse fuel p.1
        ])
        e

  recv_parse_from-framed :
      (fuel : ℕ) (msgs : List (List ℕ))
      → All (All (λ c. c ≢ 0)) msgs
      → length (framed msgs) ≤ fuel
      → recv_parse_from json_parse fuel (framed msgs) ≡ valid json_parse msgs
  unfolding recv_parse_from framed valid
  recv_parse_from-framed fuel [] clean h = refl
  recv_parse_from-framed zero ([] ∷ msgs) clean h = absurd (omega (arith, h))
  recv_parse_from-framed zero ((c ∷ msg) ∷ msgs) clean h = absurd (omega (arith, h))
  recv_parse_from-framed (suc fuel) ([] ∷ msgs) clean h =
      let rest = recv_parse_from-framed fuel msgs clean.1 (omega (arith, h)) in
      one_message fuel 0 (framed msgs) [] (framed msgs) (split_nul-append [] (framed msgs) tt)
      ∙ ap (λ (q : List Node). elim (json_parse []) [ none ↦ q | some node ↦ node ∷ q ]) rest
  recv_parse_from-framed (suc fuel) ((c ∷ msg) ∷ msgs) clean h =
      let rest =
        recv_parse_from-framed fuel msgs clean.1
          (omega (arith, h, length-append msg (0 ∷ framed msgs))) in
      one_message fuel c (msg ++ (0 ∷ framed msgs)) (c ∷ msg) (framed msgs)
        (split_nul-append (c ∷ msg) (framed msgs) clean.0)
      ∙ ap (λ (q : List Node). elim (json_parse (c ∷ msg)) [ none ↦ q | some node ↦ node ∷ q ]) rest

  -- Messages that are sent one after the other, each its text and a NUL as clnt_send writes it, and
  -- received whole are handed to the queue in their order by clnt_recv_parse, those that are no JSON
  -- left out, as long as no text holds a NUL itself.
  pub clnt_recv_parse-framed :
      (msgs : List (List ℕ))
      → All (All (λ c. c ≢ 0)) msgs
      → clnt_recv_parse json_parse (framed msgs) ≡ valid json_parse msgs
  unfolding clnt_recv_parse
  clnt_recv_parse-framed msgs clean =
      recv_parse_from-framed (length (framed msgs)) msgs clean (omega arith)
