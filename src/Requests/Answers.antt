-- ===== src/Requests/Answers.antt =====
-- crates/arbitro-client-tokio/src/state/pending.rs: no request is answered twice, and the table is bounded.
use arbitro.Common.{
  Bool-cases, Distinct, Distinct-erase, Distinct-put, List, Option-cases, Result, [], ap, arith,
  erase, err, false, if◌then◌else◌, inl, inr, leb, length, length-erase-le, length-put-le, lookup,
  ltb, none, ok, put, refl, some, sym, true, ℕ, ◌+◌, ◌==◌, ◌∙◌, ◌∷◌, ◌≡◌, ◌≤◌,
}
use arbitro.Subject.{Bytes}
use arbitro.Requests.{
  Call, ClientError, Pending, cancel, cancel_call, complete, complete_err, complete_err_call,
  complete_ok, complete_ok_call, default_max_inflight, disconnected, drain_call, drain_disconnected,
  from_wire_code, new_table, perform, register, register_call, run, send_all,
}

-- How many of the entries hold a channel.
unfoldable pub waiting : ℕ → List (ℕ × ℕ) → ℕ
waiting tx [] = 0
waiting tx ((seq, t) ∷ m) = (if t == tx then 1 else 0) + waiting tx m

-- How many answers a channel got.
unfoldable pub answers : ℕ → List (ℕ × Result ClientError Bytes) → ℕ
answers tx [] = 0
answers tx ((t, result) ∷ sent) = (if t == tx then 1 else 0) + answers tx sent

-- How many channels of a number are the one that is asked for.
abbrev at_number : ℕ → ℕ → List (ℕ × ℕ) → ℕ
at_number tx seq m = elim (lookup seq m) [ some t ↦ if t == tx then 1 else 0 | none ↦ 0 ]

at_number-here :
    (tx seq k u : ℕ) (m : List (ℕ × ℕ))
    → (k == seq) ≡ true
    → at_number tx seq ((k, u) ∷ m) ≡ (if u == tx then 1 else 0)
unfolding lookup
at_number-here tx seq k u m e = rw (at_number, e) refl

at_number-there :
    (tx seq k u : ℕ) (m : List (ℕ × ℕ))
    → (k == seq) ≡ false
    → at_number tx seq ((k, u) ∷ m) ≡ at_number tx seq m
unfolding lookup
at_number-there tx seq k u m e = rw (at_number, e) refl

at_number-found :
    (tx seq t : ℕ) (m : List (ℕ × ℕ))
    → lookup seq m ≡ some t
    → at_number tx seq m ≡ (if t == tx then 1 else 0)
at_number-found tx seq t m e = rw (at_number, e) refl

waiting-put :
    (tx seq t : ℕ) (m : List (ℕ × ℕ))
    → waiting tx (put seq t m) + at_number tx seq m ≡ (if t == tx then 1 else 0) + waiting tx m
unfolding waiting put lookup
waiting-put tx seq t [] = omega arith
waiting-put tx seq t ((k, u) ∷ m) = elim (Bool-cases (k == seq)) [
  | inl e ↦ rw (put, e) (omega (arith, at_number-here tx seq k u m e))
  | inr e ↦ rw (put, e) (omega (arith, at_number-there tx seq k u m e, waiting-put tx seq t m))
]

waiting-erase-none :
    (tx seq : ℕ) (m : List (ℕ × ℕ)) → lookup seq m ≡ none → waiting tx (erase seq m) ≡ waiting tx m
unfolding waiting erase lookup
waiting-erase-none tx seq [] h = refl
waiting-erase-none tx seq ((k, u) ∷ m) h = elim (Bool-cases (k == seq)) [
  | inl e ↦ absurd (ground (arith, e, h))
  | inr e ↦ rw (erase, e) (omega (arith, waiting-erase-none tx seq m (ground (arith, e, h))))
]

waiting-erase :
    (tx seq : ℕ) (m : List (ℕ × ℕ))
    → Distinct m
    → waiting tx (erase seq m) + at_number tx seq m ≡ waiting tx m
unfolding waiting erase lookup
waiting-erase tx seq [] d = omega arith
waiting-erase tx seq ((k, u) ∷ m) d = elim (Bool-cases (k == seq)) [
  | inl e ↦
      rw (erase, e)
        (omega (
          arith,
          at_number-here tx seq k u m e,
          waiting-erase-none tx seq m (ap (λ i. lookup i m) (sym (ground (arith, e))) ∙ d.0),
        ))
  | inr e ↦
      rw (erase, e) (omega (arith, at_number-there tx seq k u m e, waiting-erase tx seq m d.1))
]

answers-send_all :
    (tx : ℕ) (m : List (ℕ × ℕ)) (sent : List (ℕ × Result ClientError Bytes))
    → answers tx (send_all m sent) ≡ waiting tx m + answers tx sent
unfolding answers send_all waiting
answers-send_all tx [] sent = omega arith
answers-send_all tx ((k, u) ∷ m) sent =
    omega (arith, answers-send_all tx m ((u, err disconnected) ∷ sent))

-- How often a call gives up a channel that waits: a cancellation of its number, or a new request under
-- its number that the table takes.
unfoldable pub given_up : ℕ → Pending → Call → ℕ
given_up tx p (cancel_call seq) = at_number tx seq p.map
given_up tx p (register_call seq) = if ltb (length p.map) 100000 then at_number tx seq p.map else 0
given_up tx p (complete_ok_call seq payload) = 0
given_up tx p (complete_err_call seq code) = 0
given_up tx p drain_call = 0

unfoldable pub given_up_in : ℕ → Pending → List Call → ℕ
given_up_in tx p [] = 0
given_up_in tx p (c ∷ calls) = given_up tx p c + given_up_in tx (perform p c) calls

-- The channels that were made, as ones.
abbrev made : ℕ → Pending → ℕ
made tx p = if ltb tx p.channels then 1 else 0

-- The entries and the answers of a channel.
abbrev held : ℕ → Pending → ℕ
held tx p = waiting tx p.map + answers tx p.sent

abbrev IsTable : Pending → Type 0
IsTable p = (length p.map ≤ 100000) × Distinct p.map

new_table-IsTable : IsTable new_table
new_table-IsTable = (omega arith, tt)

-- A call keeps the table bounded with one entry for a number, and what a channel has more or gives up
-- is what was made.
Accounts : Pending → Call → Type 0
Accounts p c =
    IsTable (perform p c)
    × ((tx : ℕ)
        → held tx (perform p c) + given_up tx p c + made tx p ≡ held tx p + made tx (perform p c))

register-Accounts : (seq : ℕ) (p : Pending) → IsTable p → Accounts p (register_call seq)
unfolding Accounts perform register answers given_up
register-Accounts seq p h = elim (Bool-cases (leb default_max_inflight (length p.map))) [
  | inl e ↦ rw e (h, (λ tx. ground (arith, e)))
  | inr e ↦ rw e (
    (ground (arith, e, length-put-le seq p.channels p.map), Distinct-put seq p.channels p.map h.1),
    (λ tx. ground (arith, e, waiting-put tx seq p.channels p.map)),
  )
]

complete-Accounts :
    (seq : ℕ) (result : Result ClientError Bytes) (p : Pending)
    → IsTable p
    → IsTable (complete seq result p)
      × ((tx : ℕ)
          → held tx (complete seq result p) + made tx p
            ≡ held tx p + made tx (complete seq result p))
unfolding complete answers
complete-Accounts seq result p h = elim (Option-cases (lookup seq p.map)) [
  | inl e ↦ rw (complete, e) (h, (λ tx. refl))
  | inr (t, e) ↦
      rw (complete, e)
        (
          (omega (arith, h.0, length-erase-le seq p.map), Distinct-erase seq p.map h.1),
          (λ tx. omega (arith, waiting-erase tx seq p.map h.1, at_number-found tx seq t p.map e)),
        )
]

cancel-Accounts : (seq : ℕ) (p : Pending) → IsTable p → Accounts p (cancel_call seq)
unfolding Accounts perform cancel given_up
cancel-Accounts seq p h = (
  (omega (arith, h.0, length-erase-le seq p.map), Distinct-erase seq p.map h.1),
  (λ tx. omega (arith, waiting-erase tx seq p.map h.1)),
)

drain_disconnected-Accounts : (p : Pending) → IsTable p → Accounts p drain_call
unfolding Accounts perform drain_disconnected given_up waiting
drain_disconnected-Accounts p h =
    ((omega arith, tt), (λ tx. omega (arith, answers-send_all tx p.map p.sent)))

none_given_up :
    (p q : Pending)
    → IsTable q × ((tx : ℕ) → held tx q + made tx p ≡ held tx p + made tx q)
    → IsTable q × ((tx : ℕ) → held tx q + 0 + made tx p ≡ held tx p + made tx q)
none_given_up p q h = (h.0, (λ tx. omega (arith, h.1 tx)))

perform-Accounts : (p : Pending) (c : Call) → IsTable p → Accounts p c
unfolding Accounts perform complete_ok complete_err given_up
perform-Accounts p (register_call seq) h = register-Accounts seq p h
perform-Accounts p (complete_ok_call seq payload) h =
    none_given_up p (complete seq (ok payload) p) (complete-Accounts seq (ok payload) p h)
perform-Accounts p (complete_err_call seq code) h =
    let result = err (from_wire_code code) in
    none_given_up p (complete seq result p) (complete-Accounts seq result p h)
perform-Accounts p (cancel_call seq) h = cancel-Accounts seq p h
perform-Accounts p drain_call h = drain_disconnected-Accounts p h

run-Accounts :
    (p : Pending) (calls : List Call)
    → IsTable p
    → IsTable (run p calls)
      × ((tx : ℕ)
          → held tx (run p calls) + given_up_in tx p calls + made tx p
            ≡ held tx p + made tx (run p calls))
unfolding run given_up_in Accounts
run-Accounts p [] h = (h, (λ tx. omega arith))
run-Accounts p (c ∷ calls) h =
    let one = perform-Accounts p c h in
    let more = run-Accounts (perform p c) calls one.0 in
    (more.0, (λ tx. omega (arith, one.1 tx, more.1 tx)))

-- What calls on a new table lead to.
pub record IsAccounted (calls : List Call) : Type 0 where
  pub bounded : length (run new_table calls).map ≤ 100000
  pub distinct : Distinct (run new_table calls).map
  pub once :
      (tx : ℕ)
      → waiting tx (run new_table calls).map
          + answers tx (run new_table calls).sent
          + given_up_in tx new_table calls
        ≡ (if ltb tx (run new_table calls).channels then 1 else 0)

-- After any calls on a new table it has at most 100000 entries, one for a number. Each channel that
-- was made for a request either has the one entry that waits, or got one answer, or was given up once
-- by a call that cancelled its number or registered that number again, and only one of these; no other
-- channel has any.
pub run-IsAccounted : (calls : List Call) → IsAccounted calls
unfolding waiting answers
run-IsAccounted calls =
    let r = run-Accounts new_table calls new_table-IsTable in
    record { bounded = r.0.0; distinct = r.0.1; once = λ tx. ground (arith, r.1 tx) }
