-- ===== src/Sdk/Cached/Readiness.antt =====
-- When the cached client is ready, which promises it has resolved, and which streams are open.
use flag_it.Common.{
  ℕ, ◌≡◌, refl, Bool, true, false, Option, none, some, String, List, [], ◌∷◌, arith, All,
  Bool-cases, inl, inr,
}
use flag_it.Sdk.Json.{lookup}
use flag_it.Sdk.Context.{EvalContext}
use flag_it.Sdk.Cached.{
  Evaluation, Store, Connection, Client, Event, evaluating, updating, flushing, waiting, switching,
  closing, step, run, count_read, record_use, flush, close, close_handle, on_update,
  wait_for_initialization, switch_context, create, close_head,
}

module _ {N : Type 0} where
  abbrev older : List (Connection N) → List (Connection N)
  older [] = []
  older (k ∷ ks) = ks

  abbrev ServesContext : List (Connection N) → EvalContext N → Type 0
  ServesContext [] ctx = ⊥
  ServesContext (k ∷ ks) ctx = k.context ≡ ctx

  -- A client that is ready holds no promise back; its newest stream is of the current context, and
  -- the handles of the older ones are closed.
  pub record IsSettled (c : Client N) : Type 0 where
    pub settled : c.ready ≡ true → c.ready_resolvers ≡ []
    pub current : ServesContext c.connections c.current_context
    pub superseded : All (λ k. k.closed ≡ true) (older c.connections)

module _ {N : Type 0} where
  -- The fields that the invariant speaks of are the same.
  record Agrees (c d : Client N) : Type 0 where
    ready : d.ready ≡ c.ready
    resolvers : d.ready_resolvers ≡ c.ready_resolvers
    connections : d.connections ≡ c.connections
    context : d.current_context ≡ c.current_context

  Agrees-IsSettled : (c d : Client N) → Agrees c d → IsSettled c → IsSettled d
  Agrees-IsSettled c d same h = record {
    settled = rw (same.ready, same.resolvers) h.settled;
    current = rw (same.connections, same.context) h.current;
    superseded = rw same.connections h.superseded;
  }

  count_read-IsSettled :
      (track_events : Bool) (k : String) (o : Option (Evaluation N)) (c : Client N)
      → IsSettled c
      → IsSettled (count_read track_events k o c)
  unfolding record_use
  count_read-IsSettled track_events k none c h = h
  count_read-IsSettled true k (some ev) c h = record {
    settled = h.settled;
    current = h.current;
    superseded = h.superseded;
  }
  count_read-IsSettled false k (some ev) c h = h

  flush-IsSettled : (c : Client N) → IsSettled c → IsSettled (flush c).0
  unfolding flush
  flush-IsSettled c h =
      Agrees-IsSettled c (flush c).0
        (record {
          ready = ground arith;
          resolvers = ground arith;
          connections = ground arith;
          context = ground arith;
        })
        h

  on_update-IsSettled :
      (flags : Store N) (c : Client N) → IsSettled c → IsSettled (on_update flags c).0
  unfolding on_update
  on_update-IsSettled flags c h = record {
    settled = λ _. ground (arith, h.settled);
    current = h.current;
    superseded = h.superseded;
  }

  close_head-current :
      (ks : List (Connection N)) (ctx : EvalContext N)
      → ServesContext ks ctx
      → ServesContext (close_head ks) ctx
  close_head-current [] ctx h = h
  close_head-current (k ∷ ks) ctx h = h

  close_head-older :
      (ks : List (Connection N))
      → All (λ k. k.closed ≡ true) (older ks)
      → All (λ k. k.closed ≡ true) (older (close_head ks))
  close_head-older [] h = h
  close_head-older (k ∷ ks) h = h

  close_head-closed :
      (ks : List (Connection N))
      → All (λ k. k.closed ≡ true) (older ks)
      → All (λ k. k.closed ≡ true) (close_head ks)
  close_head-closed [] h = h
  close_head-closed (k ∷ ks) h = (refl, h)

  switch_context-IsSettled :
      (context : EvalContext N) (id : ℕ) (c : Client N)
      → IsSettled c
      → IsSettled (switch_context context id c)
  unfolding switch_context
  switch_context-IsSettled context id c h = record {
    settled = λ e. cc;
    current = refl;
    superseded = close_head-closed c.connections h.superseded;
  }

  close-IsSettled : (c : Client N) → IsSettled c → IsSettled (close c).0
  unfolding close
  close-IsSettled c h =
      flush-IsSettled (record (close_handle c) { timer = false })
        (record {
          settled = h.settled;
          current = close_head-current c.connections c.current_context h.current;
          superseded = close_head-older c.connections h.superseded;
        })

  wait-IsSettled :
      (id : ℕ) (c : Client N) → IsSettled c → IsSettled (wait_for_initialization id c).0
  unfolding wait_for_initialization
  wait-IsSettled id c h = elim (Bool-cases c.ready) [
    | inl ready ↦ simp ready h
    | inr early ↦
        simp early (record { settled = λ e. cc; current = h.current; superseded = h.superseded })
  ]

  IsSettled-create :
      (track_events : Bool) (interval : ℕ) (context : EvalContext N)
      → IsSettled (create track_events interval context)
  unfolding create
  IsSettled-create track_events interval context = record {
    settled = λ e. cc;
    current = refl;
    superseded = tt;
  }

module _ {N : Type 0} (track_events : Bool) where
  step-IsSettled : (e : Event N) (c : Client N) → IsSettled c → IsSettled (step track_events e c).0
  unfolding step
  step-IsSettled (evaluating k) c h = count_read-IsSettled track_events k (lookup k c.store) c h
  step-IsSettled (updating flags) c h = on_update-IsSettled flags c h
  step-IsSettled flushing c h = flush-IsSettled c h
  step-IsSettled (waiting id) c h = wait-IsSettled id c h
  step-IsSettled (switching context id) c h = switch_context-IsSettled context id c h
  step-IsSettled closing c h = close-IsSettled c h
  step-IsSettled _ c h = record {
    settled = h.settled;
    current = h.current;
    superseded = h.superseded;
  }

  run-IsSettled :
      (events : List (Event N)) (c : Client N)
      → IsSettled c
      → IsSettled (run track_events events c).0
  unfolding run
  run-IsSettled [] c h = h
  run-IsSettled (e ∷ events) c h =
      run-IsSettled events (step track_events e c).0 (step-IsSettled e c h)

  -- Whatever has happened to a client since it was created, it is settled: if it is ready it holds
  -- back no promise, its newest stream is of its current context, and all the older ones are closed.
  pub run-create-IsSettled :
      (interval : ℕ) (context : EvalContext N) (events : List (Event N))
      → IsSettled (run track_events events (create track_events interval context)).0
  run-create-IsSettled interval context events =
      run-IsSettled events _ (IsSettled-create track_events interval context)
