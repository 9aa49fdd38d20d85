-- ===== src/Events/Consumer/Counter.antt =====
-- The counter of errors of the consumer, over sequences of what the queue's library signals.
use node_ddd_boilerplate_typ.Base.{
  Bool-cases, List, [], ap, arith, false, inl, inr, length, ltb, refl, suc, sym, true, ℕ, ◌+◌, ◌<◌,
  ◌↔◌, ◌∙◌, ◌∷◌, ◌≡◌,
}
use node_ddd_boilerplate_typ.Effects.{Call, Result, bind-ok, bind-post, bind-throw, ok, throw, ◌>>◌}
use node_ddd_boilerplate_typ.Events.Consumer.{
  Consumer, Counted, count_error, handle_message, handle_message_batch, on_error,
  on_processing_error, on_timeout_error, queue_error, set_count, store_and_delete, uncounted,
}
use node_ddd_boilerplate_typ.Exceptions.{Error}
use node_ddd_boilerplate_typ.Platform.{Platform}
use node_ddd_boilerplate_typ.Value.{Date, Value}

-- What the library calls the consumer for.
pub data Signal : Type 0 where
  batch_received : List Value → Signal
  consume_error : Error → Signal
  timeout_error : Error → Signal
  processing_error : Error → Value → Signal

-- One error one_more the other, up to the first that is thrown.
abbrev pub run_errors : ⦃p : Platform⦄ {S : Type 0} → List Error → Call (Counted S) (Unit {0})
run_errors [] c = (ok tt, c)
run_errors (e ∷ es) c = let rest = run_errors es in (on_error e >> rest) c

module _ ⦃p : Platform⦄ {S : Type 0} (consumer : Consumer S) (now : Date) where
  abbrev pub step : Signal → Call (Counted S) (Unit {0})
  step (batch_received messages) = handle_message_batch consumer now messages
  step (consume_error e) = on_error e
  step (timeout_error e) = on_timeout_error e
  step (processing_error e message) = on_processing_error consumer now e message

  -- A sequence of signals, none of which threw.
  pub data Runs (c : Counted S) : Counted S → Type 0 where
    no_signal : Runs c c
    one_more :
        (d e : Counted S) (signal : Signal) → Runs c d → step signal d ≡ (ok tt, e) → Runs c e

-- Where a call returns, the counter is below 20.
abbrev pub IsSmallIfOk : {S : Type 0} → Result (Unit {0}) × Counted S → Type 0
IsSmallIfOk (ok u, c) = c.0 < 20
IsSmallIfOk (throw e, c) = Unit

module _ ⦃p : Platform⦄ {S : Type 0} where
  count_error-IsSmallIfOk : (e : Error) (c : Counted S) → IsSmallIfOk (count_error e c)
  count_error-IsSmallIfOk e (n, s) = elim (Bool-cases (ltb (suc n) 20)) [
    | inl h ↦ rw h (ground arith)
    | inr h ↦ rw h tt
  ]

  module _ (consumer : Consumer S) (now : Date) where
    handle_message_batch-IsSmallIfOk :
        (messages : List Value) (c : Counted S)
        → c.0 < 20
        → IsSmallIfOk (handle_message_batch consumer now messages c)
    unfolding handle_message_batch
    handle_message_batch-IsSmallIfOk [] c small = small
    handle_message_batch-IsSmallIfOk (m ∷ ms) c small =
        bind-post IsSmallIfOk (uncounted (handle_message consumer now m))
          (λ u. set_count 0 >> handle_message_batch consumer now ms) c
          (λ u d. handle_message_batch-IsSmallIfOk ms (0, d.1) (ground arith)) (λ e d. tt)

    step-IsSmallIfOk :
        (signal : Signal) (c : Counted S) → c.0 < 20 → IsSmallIfOk (step consumer now signal c)
    unfolding on_error on_timeout_error on_processing_error
    step-IsSmallIfOk (batch_received messages) c small =
        handle_message_batch-IsSmallIfOk messages c small
    step-IsSmallIfOk (consume_error e) c small = count_error-IsSmallIfOk e c
    step-IsSmallIfOk (timeout_error e) c small = count_error-IsSmallIfOk e c
    step-IsSmallIfOk (processing_error e message) c small =
        bind-post IsSmallIfOk (uncounted (store_and_delete consumer now message))
          (λ u. count_error e) c (λ u d. count_error-IsSmallIfOk e d) (λ x d. tt)

    -- However batches of messages, consume errors, timeouts and processing errors follow each other,
    -- as long as none of them throws the counter of errors stays below 20.
    pub Runs-IsSmall : (c d : Counted S) → c.0 < 20 → Runs consumer now c d → d.0 < 20
    Runs-IsSmall c d small no_signal = small
    Runs-IsSmall c e small (one_more d _ signal run stepped) =
        let post = step-IsSmallIfOk signal d (Runs-IsSmall c d small run) in
        let g : IsSmallIfOk (ok tt, e) = rw stepped at post in g

  run_errors-below :
      (e : Error) (es : List Error) (n : ℕ) (s : S)
      → ltb (suc n) 20 ≡ true
      → run_errors (e ∷ es) (n, s) ≡ run_errors es (suc n, s)
  unfolding on_error
  run_errors-below e es n s h =
      bind-ok (on_error e) (λ u. run_errors es) (n, s) (suc n, s) tt (rw h refl)

  run_errors-above :
      (e : Error) (es : List Error) (n : ℕ) (s : S)
      → ltb (suc n) 20 ≡ false
      → run_errors (e ∷ es) (n, s) ≡ (throw (queue_error e), (suc n, s))
  unfolding on_error
  run_errors-above e es n s h =
      bind-throw (on_error e) (λ u. run_errors es) (n, s) (suc n, s) (queue_error e) (rw h refl)

  run_errors-ok_from :
      (es : List Error) (n : ℕ) (s : S)
      → n < 20
      → ((run_errors es (n, s)).0 ≡ ok tt) ↔ (n + length es < 20)
  run_errors-ok_from [] n s small = (λ h. omega arith, λ h. refl)
  run_errors-ok_from (e ∷ es) n s small = elim (Bool-cases (ltb (suc n) 20)) [
    | inl h ↦
        (let (to, from) = run_errors-ok_from es (suc n) s (ground arith) in
          let below = run_errors-below e es n s h in
          (
            λ r. let shorter = to (ap (λ x. x.0) (sym below) ∙ r) in omega arith,
            λ fewer. ap (λ x. x.0) below ∙ from (omega arith),
          ))
    | inr h ↦
        (let above = run_errors-above e es n s h in
          (
            λ r. let g : throw (queue_error e) ≡ ok tt = ap (λ x. x.0) (sym above) ∙ r in cc,
            λ fewer. ground arith,
          ))
  ]

  -- Consume errors in a row, from a counter of 0, are all answered without throwing exactly when
  -- they are fewer than 20.
  pub run_errors-ok_iff :
      (es : List Error) (s : S) → ((run_errors es (0, s)).0 ≡ ok tt) ↔ (length es < 20)
  run_errors-ok_iff es s =
      let (to, from) = run_errors-ok_from es 0 s (ground arith) in
      (λ h. let fewer = to h in omega arith, λ h. from (omega arith))
