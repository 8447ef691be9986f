-- ===== src/Usage/Collector/Flush.antt =====
-- What `flush` of internal/usage/collector.go does with the event queue.
use mathlib.Core.List.{Perm, perm_append_singleton}
use mathlib.Core.List.Perm
use agentic_demo.Prelude.{
  ℕ, zero, suc, ◌+◌, ◌≤◌, ◌≡◌, refl, sym, ap, ◌∙◌, inl, inr, true, false, none, some, List, [], ◌∷◌,
  ◌++◌, length, append_assoc, append-nil, length-append, arith, Bool-cases, false, if◌then◌else◌,
}
use agentic_demo.Usage.Emitter.{UsageEvent, Entry}
use agentic_demo.Usage.Collector.{FlushEnv, flush_batch_size, flush_from, flush}

-- The events of a queue, oldest first.
abbrev pub events_of : List Entry → List UsageEvent
events_of [] = []
events_of (none ∷ q) = events_of q
events_of (some e ∷ q) = e ∷ events_of q

events_of-append : (p q : List Entry) → events_of (p ++ q) ≡ events_of p ++ events_of q
events_of-append [] q = refl
events_of-append (none ∷ p) q = events_of-append p q
events_of-append (some e ∷ p) q = ap (◌∷◌ e) (events_of-append p q)

snoc_append :
    (xs : List UsageEvent) (e : UsageEvent) (ys : List UsageEvent)
    → (xs ++ (e ∷ [])) ++ ys ≡ xs ++ (e ∷ ys)
snoc_append xs e ys = append_assoc xs (e ∷ []) ys

-- The events that a flush has lost, by the table that it leaves: none, or one that could neither be
-- inserted nor put back.
abbrev pub Lost : FlushEnv → List UsageEvent → List UsageEvent → Type 0
Lost env after [] = Unit
Lost env after (e ∷ []) = (env.insert_ok after e ≡ false) × (env.requeue_ok after e ≡ false)
Lost env after (e ∷ f ∷ es) = ⊥

-- What is stored, queued and lost is what was stored and queued.
abbrev pub Accounted :
    FlushEnv → List UsageEvent → List Entry → List Entry × List UsageEvent → Type 0
Accounted env stored pending (queue, after) =
    (lost : List UsageEvent) × Lost env after lost
    × Perm ((after ++ events_of queue) ++ lost) (stored ++ events_of pending)

none-lost :
    (env : FlushEnv) (stored : List UsageEvent) (pending : List Entry)
    → Accounted env stored pending (pending, stored)
none-lost env stored pending = ([], tt, rw (append-nil (stored ++ events_of pending)) (Perm.refl _))

not-inserted :
    (env : FlushEnv) (stored : List UsageEvent) (e : UsageEvent) (pending : List Entry)
    → env.insert_ok stored e ≡ false
    → Accounted env stored
        (some e ∷ pending)
        (if env.requeue_ok stored e then pending ++ (some e ∷ []) else pending, stored)
not-inserted env stored e pending failed = elim (Bool-cases (env.requeue_ok stored e)) [
  | inl back ↦ rw back (
    [],
    tt,
    rw
        (
          append-nil (stored ++ events_of (pending ++ (some e ∷ []))),
          events_of-append pending (some e ∷ []),
        )
        (Perm.append_left stored (perm_append_singleton e (events_of pending))),
  )
  | inr gone ↦ rw gone (
    e ∷ [],
    (failed, gone),
    rw (append_assoc stored (events_of pending) (e ∷ []))
        (Perm.append_left stored (perm_append_singleton e (events_of pending))),
  )
]

flush_from-Accounted :
    (env : FlushEnv) (left : ℕ) (pending : List Entry) (stored : List UsageEvent)
    → Accounted env stored pending (flush_from env left pending stored)
unfolding flush_from
flush_from-Accounted env zero pending stored = none-lost env stored pending
flush_from-Accounted env (suc left) [] stored = none-lost env stored []
flush_from-Accounted env (suc left) (none ∷ pending) stored =
    elim (Bool-cases (env.cancelled stored)) [
      | inl c ↦ rw (c, flush_from) (none-lost env stored (none ∷ pending))
      | inr c ↦ rw (c, flush_from) (flush_from-Accounted env (suc left) pending stored)
    ]
flush_from-Accounted env (suc left) (some e ∷ pending) stored =
    elim (Bool-cases (env.cancelled stored)) [
      | inl c ↦ rw (c, flush_from) (none-lost env stored (some e ∷ pending))
      | inr c ↦ elim (Bool-cases (env.insert_ok stored e)) [
        | inl ok ↦
            let (lost, few, all) = flush_from-Accounted env left pending (stored ++ (e ∷ [])) in
            rw (c, flush_from, ok, flush_from)
              (lost, few, rw (← snoc_append stored e (events_of pending)) all)
        | inr failed ↦
            rw (c, flush_from, failed, flush_from) (not-inserted env stored e pending failed)
      ]
    ]

-- A flush makes no event up, and loses none but one that it could neither insert nor put back, after
-- which it stops: the events stored, those still queued and the lost one are, in some order, those
-- that were stored and queued before.
pub flush-Accounted :
    (env : FlushEnv) (pending : List Entry) (stored : List UsageEvent)
    → Accounted env stored pending (flush env pending stored)
unfolding flush
flush-Accounted env pending stored = flush_from-Accounted env flush_batch_size pending stored

-- The events that a loop stores are the oldest of the queue, in their order, and at most `left`.
abbrev Ordered : ℕ → List UsageEvent → List UsageEvent → List UsageEvent → Type 0
Ordered left before after queued =
    (rest : List UsageEvent) × (after ++ rest ≡ before ++ queued)
    × (length after ≤ length before + left)

flush_from-Ordered :
    (env : FlushEnv) (left : ℕ) (pending : List Entry) (stored : List UsageEvent)
    → Ordered left stored (flush_from env left pending stored).1 (events_of pending)
unfolding flush_from
flush_from-Ordered env zero pending stored = (events_of pending, refl, omega arith)
flush_from-Ordered env (suc left) [] stored = ([], refl, omega arith)
flush_from-Ordered env (suc left) (none ∷ pending) stored =
    elim (Bool-cases (env.cancelled stored)) [
      | inl c ↦ rw (c, flush_from) (events_of pending, refl, omega arith)
      | inr c ↦ rw (c, flush_from) (flush_from-Ordered env (suc left) pending stored)
    ]
flush_from-Ordered env (suc left) (some e ∷ pending) stored =
    elim (Bool-cases (env.cancelled stored)) [
      | inl c ↦ rw (c, flush_from) (e ∷ events_of pending, refl, omega arith)
      | inr c ↦ elim (Bool-cases (env.insert_ok stored e)) [
        | inl ok ↦
            let (rest, order, few) = flush_from-Ordered env left pending (stored ++ (e ∷ [])) in
            rw (c, flush_from, ok, flush_from)
              (
                rest,
                order ∙ snoc_append stored e (events_of pending),
                omega (arith, few, length-append stored (e ∷ [])),
              )
        | inr ok ↦ rw (c, flush_from, ok, flush_from) (e ∷ events_of pending, refl, omega arith)
      ]
    ]

-- Events are stored in the order in which they were queued, and a flush stores at most 100: what it
-- adds to the table is a prefix of the queued events, also if it is cut short.
pub flush_ordered :
    (env : FlushEnv) (pending : List Entry) (stored : List UsageEvent)
    → (rest : List UsageEvent) × ((flush env pending stored).1 ++ rest
        ≡ stored ++ events_of pending)
      × (length (flush env pending stored).1 ≤ length stored + 100)
unfolding flush
flush_ordered env pending stored = flush_from-Ordered env flush_batch_size pending stored

-- Nothing fails and nothing is cancelled.
abbrev pub healthy : FlushEnv
healthy = record { cancelled = λ s. false; insert_ok = λ s e. true; requeue_ok = λ s e. true }

flush_from-healthy :
    (left : ℕ) (pending : List Entry) (stored : List UsageEvent)
    → length (events_of pending) ≤ left
    → ((flush_from healthy left pending stored).1 ≡ stored ++ events_of pending)
      × (events_of (flush_from healthy left pending stored).0 ≡ [])
unfolding flush_from
flush_from-healthy zero [] stored h = (sym (append-nil stored), refl)
flush_from-healthy zero (none ∷ pending) stored h = flush_from-healthy zero pending stored h
flush_from-healthy zero (some e ∷ pending) stored h = absurd (omega arith)
flush_from-healthy (suc left) [] stored h = (sym (append-nil stored), refl)
flush_from-healthy (suc left) (none ∷ pending) stored h =
    flush_from-healthy (suc left) pending stored h
flush_from-healthy (suc left) (some e ∷ pending) stored h =
    let (all, drained) = flush_from-healthy left pending (stored ++ (e ∷ [])) (omega arith) in
    (all ∙ snoc_append stored e (events_of pending), drained)

-- With nothing failing, a flush of at most 100 events stores them all and leaves none queued.
pub flush-healthy :
    (pending : List Entry) (stored : List UsageEvent)
    → length (events_of pending) ≤ 100
    → ((flush healthy pending stored).1 ≡ stored ++ events_of pending)
      × (events_of (flush healthy pending stored).0 ≡ [])
unfolding flush
flush-healthy pending stored h = flush_from-healthy flush_batch_size pending stored h
