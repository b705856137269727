-- ===== src/Client/Handlers.antt =====
-- lib/libtsagent/src/client.c: what is found in the table of handlers after a change of it.
use v_perf_generator.Client.{
  Handler, ResponseType, find_handler, change_handler, answered, disconnected,
}
use v_perf_generator.Common.{
  ℕ, ℕ, ◌≡◌, ◌≢◌, if◌then◌else◌, true, false, some, none, Option, List, [], ◌∷◌, ◌++◌, refl,
  Bool-cases, arith, ◌==◌, map, inl, inr, ap, ==_self,
}
use v_perf_generator.Common.Int.{ℤ}

module _ {Node : Type 0} where
  pub find_handler-change_handler :
      (id : ℕ) (f : Handler Node → Handler Node) (hs : List (Handler Node)) (h : Handler Node)
      → (f h).mh_msg_id ≡ h.mh_msg_id
      → find_handler id hs ≡ some h
      → find_handler id (change_handler id f hs) ≡ some (f h)
  unfolding find_handler change_handler
  find_handler-change_handler id f [] h keep found = absurd (cc)
  find_handler-change_handler id f (x ∷ hs) h keep found = elim (Bool-cases (x.mh_msg_id == id)) [
    | inl here ↦
        let same : x ≡ h = ground (arith, rw here at found) in
        let still : ((f x).mh_msg_id == id) ≡ true = rw same (rw keep (rw same at here)) in
        rw (here, still) (ap (λ y. some (f y)) same)
    | inr other ↦ rw (other, other) (find_handler-change_handler id f hs h keep (rw other at found))
  ]

  pub find_handler-change_handler_ne :
      (id other : ℕ) (f : Handler Node → Handler Node) (hs : List (Handler Node))
      → ((h : Handler Node) → (f h).mh_msg_id ≡ h.mh_msg_id)
      → other ≢ id
      → find_handler id (change_handler other f hs) ≡ find_handler id hs
  unfolding find_handler change_handler
  find_handler-change_handler_ne id other f [] keep ne = refl
  find_handler-change_handler_ne id other f (x ∷ hs) keep ne =
      elim (Bool-cases (x.mh_msg_id == other)) [
        | inl here ↦
            let old : (x.mh_msg_id == id) ≡ false = ground (arith, here) in
            let new : ((f x).mh_msg_id == id) ≡ false = rw (keep x) old in rw (here, new, old) refl
        | inr away ↦ rw away (
            ap (λ r. if x.mh_msg_id == id then some x else r)
              (find_handler-change_handler_ne id other f hs keep ne))
      ]

  pub find_handler-append :
      (id : ℕ) (hs : List (Handler Node)) (h : Handler Node)
      → find_handler id hs ≡ none
      → h.mh_msg_id ≡ id
      → find_handler id (hs ++ (h ∷ [])) ≡ some h
  unfolding find_handler
  find_handler-append id [] h fresh e = rw (e, ==_self id) refl
  find_handler-append id (x ∷ hs) h fresh e = elim (Bool-cases (x.mh_msg_id == id)) [
    | inl here ↦ absurd (ground (arith, rw here at fresh))
    | inr other ↦ rw other (find_handler-append id hs h (rw other at fresh) e)
  ]

  pub answered-id :
      (node : Node) (rt : ResponseType) (code : Option ℤ) (h : Handler Node)
      → (answered node rt code h).mh_msg_id ≡ h.mh_msg_id
  unfolding answered
  answered-id node rt none h = refl
  answered-id node rt (some c) h = refl

  pub find_handler-map :
      (id : ℕ) (hs : List (Handler Node)) (h : Handler Node)
      → find_handler id hs ≡ some h
      → find_handler id (map disconnected hs) ≡ some (disconnected h)
  unfolding find_handler disconnected
  find_handler-map id [] h found = absurd (cc)
  find_handler-map id (x ∷ hs) h found = elim (Bool-cases (x.mh_msg_id == id)) [
    | inl here ↦
        let same : x ≡ h = ground (arith, rw here at found) in
        rw here (ap (λ y. some (disconnected y)) same)
    | inr other ↦ rw other (find_handler-map id hs h (rw other at found))
  ]
