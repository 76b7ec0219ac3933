-- ===== src/PollingOperation/Ends.antt =====
-- How a polling operation ends.
use camunda_8_js_sdk.Base.{
  ℕ, zero, suc, ◌+◌, ◌*◌, ◌≤◌, ◌<◌, ◌≡◌, refl, ◌⊎◌, inl, inr, Option, none, some, ltb, arith, subst,
  Bool-cases,
}
use camunda_8_js_sdk.PollingOperation.{
  Answer, accepted, refused, threw, Call, returned, failed, pending, Failure, predicate_error,
  error, Ending, resolved, rejected, unsettled, Report, Options, Surroundings, chosen_predicate,
  interval_of, timeout_of, catch, judged, settled, poll, polling_operation,
}

equal_or_less : (n k : ℕ) → n ≤ k → (n ≡ k) ⊎ (n + 1 ≤ k)
equal_or_less n k h = ground arith

one_interval_less :
    (f t now interval late timeout : ℕ)
    → t ≤ now
    → timeout ≤ t + suc f * interval
    → timeout ≤ now + interval + late + f * interval
one_interval_less f t now interval late timeout later enough = ground arith

module _ {V E : Type 0} (s : Surroundings V E) (o : Options V E) where
  -- A call that does not end the polling, with what is thrown.
  abbrev pub Fails : ℕ → Failure V E → Type 0
  Fails n (predicate_error v) =
      (took : ℕ) × (s.operation n ≡ returned v took) × (chosen_predicate s o.predicate v ≡ refused)
  Fails n (error e) =
      ((took : ℕ) × (s.operation n ≡ failed e took))
      ⊎ ((v : V) × (took : ℕ) × (s.operation n ≡ returned v took)
          × (chosen_predicate s o.predicate v ≡ threw e))

  abbrev pub Explains : ℕ → ℕ → Ending V E → Type 0
  Explains n now (resolved v) =
      (took : ℕ) × (s.operation n ≡ returned v took) × (chosen_predicate s o.predicate v ≡ accepted)
  Explains n now (rejected e) = Fails n e × (timeout_of o ≤ now)
  Explains n now unsettled = s.operation n ≡ pending

  abbrev pub Retried : ℕ → ℕ → Type 0
  Retried first n = (k : ℕ) → first ≤ k → k < n → (e : Failure V E) × Fails k e

  abbrev pub EndsBetween : ℕ → ℕ → Option (Report V E) → Type 0
  EndsBetween first last p =
      (r : Report V E) × (p ≡ some r)
      × Explains r.call r.time r.ending
      × Retried first r.call
      × (first ≤ r.call)
      × (r.call ≤ last)

  more_retried :
      (n last : ℕ) (e : Failure V E) (p : Option (Report V E))
      → Fails n e
      → EndsBetween (n + 1) last p
      → EndsBetween n last p
  more_retried n last e p h (r, eq, x, retried, low, high) = (
    r,
    eq,
    x,
    (λ k lo hi. elim (equal_or_less n k lo) [
      | inl same ↦ (e, subst (λ i. Fails i e) same h)
      | inr less ↦ retried k less hi
    ]),
    ground arith,
    high,
  )

  catch-EndsBetween :
      (poll_at : ℕ → Option (Report V E)) (n last now : ℕ) (e : Failure V E)
      → Fails n e
      → n ≤ last
      → (now < timeout_of o → EndsBetween (n + 1) last (poll_at (now + interval_of o + s.late n)))
      → EndsBetween n last (catch s o poll_at n now e)
  unfolding catch
  catch-EndsBetween poll_at n last now e h le next = elim (Bool-cases (ltb now (timeout_of o))) [
    | inl in_time ↦
        rw in_time
          (more_retried n last e (poll_at (now + interval_of o + s.late n)) h (next (ground arith)))
    | inr over ↦ (
      record { ending = rejected e; call = n; time = now },
      rw over refl,
      (h, ground arith),
      (λ k lo hi. absurd (ground arith)),
      ground arith,
      le,
    )
  ]

  judged-EndsBetween :
      (poll_at : ℕ → Option (Report V E)) (n last now took : ℕ) (v : V) (a : Answer E)
      → s.operation n ≡ returned v took
      → chosen_predicate s o.predicate v ≡ a
      → n ≤ last
      → (now < timeout_of o → EndsBetween (n + 1) last (poll_at (now + interval_of o + s.late n)))
      → EndsBetween n last (judged s o poll_at n now v a)
  unfolding judged
  judged-EndsBetween poll_at n last now took v accepted called said le next = (
    record { ending = resolved v; call = n; time = now },
    refl,
    (took, called, said),
    (λ k lo hi. absurd (ground arith)),
    ground arith,
    le,
  )
  judged-EndsBetween poll_at n last now took v refused called said le next =
      catch-EndsBetween poll_at n last now (predicate_error v) (took, called, said) le next
  judged-EndsBetween poll_at n last now took v (threw e) called said le next =
      catch-EndsBetween poll_at n last now (error e) (inr (v, took, called, said)) le next

  settled-EndsBetween :
      (poll_at : ℕ → Option (Report V E)) (n last t : ℕ) (c : Call V E)
      → s.operation n ≡ c
      → n ≤ last
      → ((now : ℕ)
          → t ≤ now
          → now < timeout_of o
          → EndsBetween (n + 1) last (poll_at (now + interval_of o + s.late n)))
      → EndsBetween n last (settled s o poll_at n t c)
  unfolding settled
  settled-EndsBetween poll_at n last t (returned v took) called le next =
      judged-EndsBetween poll_at n last (t + took) took v (chosen_predicate s o.predicate v) called
        refl le (next (t + took) (ground arith))
  settled-EndsBetween poll_at n last t (failed e took) called le next =
      catch-EndsBetween poll_at n last (t + took) (error e) (inl (took, called)) le
        (next (t + took) (ground arith))
  settled-EndsBetween poll_at n last t pending called le next = (
    record { ending = unsettled; call = n; time = t },
    refl,
    called,
    (λ k lo hi. absurd (ground arith)),
    ground arith,
    le,
  )

  poll-EndsBetween :
      (f n t last : ℕ)
      → n + f ≡ last
      → timeout_of o ≤ t + f * interval_of o
      → EndsBetween n last (poll s o (suc f) n t)
  unfolding poll
  poll-EndsBetween zero n t last sum enough =
      settled-EndsBetween (λ u. none) n last t (s.operation n) refl (ground arith)
        (λ now later early. absurd (ground arith))
  poll-EndsBetween (suc f) n t last sum enough =
      settled-EndsBetween (λ u. poll s o (suc f) (n + 1) u) n last t (s.operation n) refl
        (ground arith)
        (λ now later early.
          poll-EndsBetween f (n + 1) (now + interval_of o + s.late n) last (ground arith)
            (one_interval_less f t now (interval_of o) (s.late n) (timeout_of o) later enough))

  -- Whatever the operation, the predicate and the lateness of the timers: when `fuel` intervals cover the timeout, the
  -- polling is over after at most `fuel` + 1 calls. It resolves only with what the last call returned and the
  -- predicate accepted; it rejects only when the timeout has passed, with what the last call failed with, which is a
  -- `PredicateError` that carries the result where the predicate refused one; and it stays unsettled only on a call
  -- that never settles. Each call before the last one had failed or had been refused.
  pub polling_operation-EndsBetween :
      (fuel : ℕ)
      → timeout_of o ≤ fuel * interval_of o
      → EndsBetween 0 fuel (polling_operation s o (suc fuel))
  unfolding polling_operation
  polling_operation-EndsBetween fuel enough =
      poll-EndsBetween fuel 0 0 fuel (ground arith) (ground arith)
