-- ===== src/RequestManager/Rounds.antt =====
-- A time through the loop keeps the invariant.
use gravity.Prelude.{
  ℕ, ◌+◌, ◌≡◌, refl, ap, ◌∙◌, String, Bool, true, false, Bool-cases, inl, inr, Option, none, some,
  arith, if_true, if_false,
}
use gravity.Prelude.Key.{string_key}
use gravity.Prelude.Maps.{lookup}
use gravity.DataProduct.{Product}
use gravity.Ports.{Url, tcp_url, bind_first_available_port}
use gravity.RequestManager.State.{
  Manager, Output, Details, success, interrupted, request_timeout, emit, code_reply, url_reply,
  future_answer,
}
use gravity.RequestManager.Timeouts.{Pass, expire_pass}
use gravity.RequestManager.Futures.{
  send_future, Poll, readable, failed, nothing_yet, other_event, add_future, create_future_response,
  send_future_response,
}
use gravity.RequestManager.Loop.{
  Command, request, kill, set_service_dir_url, unknown_command, ResponseCommand, create_future,
  send_answer, unknown_response_command, PollResult, polled, interrupted_poll, failed_poll, Round,
  Running, run_command, run_response_command, polled_messages, go_on, after_command, after_poll,
  after_pass, round,
}
use gravity.RequestManager.Invariant.{asks, settles, Inv, emit-IsConserved, process_request-Inv}
use gravity.RequestManager.Expiry.{expire_pass-Inv}
use gravity.RequestManager.Receiving.{receive_answers_total}

run_command-Inv : (c : Option Command) (s : Manager) → Inv s → Inv (run_command c s).manager
unfolding run_command
run_command-Inv none s h = h
run_command-Inv (some (request now q)) s h = process_request-Inv now q s h
run_command-Inv (some kill) s h = h
run_command-Inv (some (set_service_dir_url url)) s h = h
run_command-Inv (some unknown_command) s h = h

emit-Inv :
    (o : Output) (s : Manager)
    → ((p : Details → Bool) → (asks p o ≡ false) × (settles p o ≡ false))
    → Inv s
    → Inv (emit o s)
unfolding emit
emit-Inv o s other (h, polls) = (
  record {
    fresh = h.fresh;
    unique = h.unique;
    conserved = emit-IsConserved s.request_map s.outputs o other h.conserved;
  },
  polls,
)

send_future-Inv :
    (o : Option ℕ) (p : Poll) (url : String) (response : Product) (s : Manager)
    → Inv s
    → Inv (send_future o p url response s)
send_future-Inv none p url response s h = h
send_future-Inv (some socket) readable url response s h =
    emit-Inv (code_reply success) _ (λ p. (refl, refl))
      (emit-Inv (future_answer socket response) s (λ p. (refl, refl)) h)
send_future-Inv (some socket) failed url response s h =
    emit-Inv (code_reply interrupted) s (λ p. (refl, refl)) h
send_future-Inv (some socket) nothing_yet url response s h =
    emit-Inv (code_reply request_timeout) s (λ p. (refl, refl)) h
send_future-Inv (some socket) other_event url response s h =
    emit-Inv (code_reply success) s (λ p. (refl, refl)) h

-- A socket that is none of the requests'.
new_socket-Inv : (s : Manager) → Inv s → Inv (record s { next_socket = s.next_socket + 1 })
new_socket-Inv s (h, polls) = (
  record {
    fresh = λ k n. h.fresh k (omega (arith, n));
    unique = h.unique;
    conserved = h.conserved;
  },
  polls,
)

add_future-Inv :
    (text_of : Url → String) (can_bind : Url → Bool) (ip : String) (o : Option ℕ) (s : Manager)
    → Inv s
    → Inv (add_future text_of can_bind ip o s)
unfolding emit
add_future-Inv text_of can_bind ip none s h = emit-Inv (url_reply "") s (λ p. (refl, refl)) h
add_future-Inv text_of can_bind ip (some port) s h =
    emit-Inv (url_reply (text_of (tcp_url ip port))) s (λ p. (refl, refl)) h

module _ (text_of : Url → String) where
  run_response_command-Inv :
      (c : Option ResponseCommand) (s : Manager) → Inv s → Inv (run_response_command text_of c s)
  unfolding run_response_command create_future_response send_future_response
  run_response_command-Inv none s h = h
  run_response_command-Inv (some (create_future can_bind ip min_port max_port)) s h =
      new_socket-Inv
        (add_future text_of can_bind ip (bind_first_available_port can_bind ip min_port max_port) s)
        (add_future-Inv text_of can_bind ip
          (bind_first_available_port can_bind ip min_port max_port) s h)
  run_response_command-Inv (some (send_answer p url response)) s h =
      send_future-Inv (lookup url s.future_response_url_to_socket_map) p url response s h
  run_response_command-Inv (some unknown_response_command) s h = h

  after_command_total :
      (r : Round) (s : Manager) (n : Running)
      → Inv n.manager
      → (m : Running) × (after_command text_of r s n ≡ some m) × Inv m.manager
  after_command_total r s n h = elim (Bool-cases n.goes_on) [
    | inl on ↦
        let (t, done, inv) =
          receive_answers_total (polled_messages s r.messages)
            (run_response_command text_of r.response_command n.manager)
            (run_response_command-Inv r.response_command n.manager h) in
        (record { goes_on = true; manager = t }, if_true _ _ _ on ∙ ap (go_on) done, inv)
    | inr off ↦ (n, if_false _ _ _ off, h)
  ]

  after_poll_total :
      (poll : PollResult) (r : Round) (s : Manager)
      → Inv s
      → (m : Running) × (after_poll text_of poll r s ≡ some m) × Inv m.manager
  after_poll_total interrupted_poll r s h = (_, refl, h)
  after_poll_total failed_poll r s h = (_, refl, h)
  after_poll_total polled r s h =
      after_command_total r s (run_command r.command s) (run_command-Inv r.command s h)

  -- A time through the loop of start is done whenever its pass over the timeouts ends: no answer
  -- meets a missing request. It keeps this: every waiting request has its socket polled once and
  -- no other socket is polled, and of any kind of request, as many were sent as were filled, timed
  -- out, refused or still wait, so that none is lost or settled twice.
  pub round-Inv :
      (r : Round) (s : Manager) (p : Pass)
      → Inv s
      → expire_pass r.clock s ≡ some p
      → (n : Running) × (round text_of r s ≡ some n) × Inv n.manager
  unfolding round
  round-Inv r s p h ends =
      let (n, done, inv) =
        after_poll_total r.poll r p.manager (expire_pass-Inv r.clock s p h ends) in
      (n, ap (after_pass text_of r) ends ∙ done, inv)
