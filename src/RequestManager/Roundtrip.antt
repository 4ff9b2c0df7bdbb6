-- ===== src/RequestManager/Roundtrip.antt =====
-- A future response, from its url to its answer.
use gravity.Prelude.{
  ℕ, ◌+◌, ◌≡◌, refl, sym, ap, ◌∙◌, String, Bool, List, [], ◌∷◌, ◌++◌, none, some, if_true, subst,
}
use gravity.Prelude.Key.{string_key, beq_refl}
use gravity.Prelude.Maps.{lookup, lookup-insert_key, lookup-erase}
use gravity.DataProduct.{Product}
use gravity.Ports.{Url, tcp_url, bind_first_available_port}
use gravity.RequestManager.State.{
  Manager, Output, success, request_timeout, interrupted, url_reply, code_reply, future_answer,
  emit,
}
use gravity.RequestManager.Futures.{
  Poll, failed, nothing_yet, readable, other_event, send_future, add_future, create_future_response,
  send_future_response,
}

append_two : (xs : List Output) (a b : Output) → (xs ++ a ∷ []) ++ b ∷ [] ≡ xs ++ a ∷ b ∷ []
append_two [] a b = refl
append_two (x ∷ xs) a b = ap (◌∷◌ x) (append_two xs a b)

append_three :
    (xs : List Output) (a b c : Output)
    → ((xs ++ a ∷ []) ++ b ∷ []) ++ c ∷ [] ≡ xs ++ a ∷ b ∷ c ∷ []
append_three [] a b c = refl
append_three (x ∷ xs) a b c = ap (◌∷◌ x) (append_three xs a b c)

add_then-create :
    (text_of : Url → String) (can_bind : Url → Bool) (ip : String) (min_port max_port port : ℕ)
    (s : Manager)
    → bind_first_available_port can_bind ip min_port max_port ≡ some port
    → create_future_response text_of can_bind ip min_port max_port s
      ≡ record (add_future text_of can_bind ip (some port) s) { next_socket = s.next_socket + 1 }
unfolding create_future_response emit
add_then-create text_of can_bind ip min_port max_port port s binds =
    ap
      (λ o.
        let t = add_future text_of can_bind ip o s in record t { next_socket = t.next_socket + 1 })
      binds

module _ (url : String) (s : Manager) (socket : ℕ)
    (there : lookup url s.future_response_url_to_socket_map ≡ some socket) where
  sent_to :
      (p : Poll) (response : Product)
      → send_future_response p url response s ≡ send_future (some socket) p url response s
  unfolding send_future_response
  sent_to p response = ap (λ o. send_future o p url response s) there

  -- What was answered has no socket any more.
  gone_after :
      (p : Poll) (response : Product)
      → lookup url (send_future (some socket) p url response s).future_response_url_to_socket_map
        ≡ none
  gone_after p response = lookup-erase url url _ ∙ if_true _ _ _ (beq_refl url)

unknown_send :
    (p : Poll) (url : String) (response : Product) (s : Manager)
    → lookup url s.future_response_url_to_socket_map ≡ none
    → send_future_response p url response s ≡ s
unfolding send_future_response
unknown_send p url response s missing = ap (λ o. send_future o p url response s) missing

-- What the sender of a response is told, by the poll of the future's socket; and the response,
-- which goes out only when the request is there to be read.
abbrev pub sent_for : Poll → ℕ → Product → List Output
sent_for failed socket response = code_reply interrupted ∷ []
sent_for nothing_yet socket response = code_reply request_timeout ∷ []
sent_for readable socket response = future_answer socket response ∷ code_reply success ∷ []
sent_for other_event socket response = code_reply success ∷ []

outputs-sent_for :
    (p : Poll) (url : String) (response : Product) (socket : ℕ) (before : List Output)
    (reply : Output) (s : Manager)
    → s.outputs ≡ before ++ reply ∷ []
    → (send_future (some socket) p url response s).outputs
      ≡ before ++ reply ∷ sent_for p socket response
unfolding emit
outputs-sent_for failed url response socket before reply s e =
    ap (λ l. l ++ code_reply interrupted ∷ []) e ∙ append_two before reply (code_reply interrupted)
outputs-sent_for nothing_yet url response socket before reply s e =
    ap (λ l. l ++ code_reply request_timeout ∷ []) e
    ∙ append_two before reply (code_reply request_timeout)
outputs-sent_for readable url response socket before reply s e =
    ap (λ l. (l ++ future_answer socket response ∷ []) ++ code_reply success ∷ []) e
    ∙ append_three before reply (future_answer socket response) (code_reply success)
outputs-sent_for other_event url response socket before reply s e =
    ap (λ l. l ++ code_reply success ∷ []) e ∙ append_two before reply (code_reply success)

-- When a port can be bound, createFutureResponse answers with its url. The first response that is
-- sent to that url goes out on the new socket when the poll finds the request there to be read, and
-- only then; its sender is told of the success, of a time-out when nothing came, of an interruption
-- when the poll failed, and of success, too, at any other event of the socket. Whatever the poll
-- found, a second response to the url is not sent, and its sender is told nothing.
pub create-send_future_response :
    (text_of : Url → String) (can_bind : Url → Bool) (ip : String) (min_port max_port port : ℕ)
    (s : Manager) (response second : Product) (first p : Poll)
    → bind_first_available_port can_bind ip min_port max_port ≡ some port
    → let url = text_of (tcp_url ip port) in
      let u =
        send_future_response first url response
          (create_future_response text_of can_bind ip min_port max_port s) in
      (u.outputs ≡ s.outputs ++ url_reply url ∷ sent_for first s.next_socket response)
      × (send_future_response p url second u ≡ u)
unfolding emit
create-send_future_response text_of can_bind ip min_port max_port port s response second first p
      binds =
    let url : String = text_of (tcp_url ip port) in
    let t : Manager = record (add_future text_of can_bind ip (some port) s) {
      next_socket = s.next_socket + 1;
    } in
    let there : lookup url t.future_response_url_to_socket_map ≡ some s.next_socket =
      lookup-insert_key url url s.next_socket s.future_response_url_to_socket_map (beq_refl url) in
    let u_is =
      ap (send_future_response first url response)
        (add_then-create text_of can_bind ip min_port max_port port s binds)
      ∙ sent_to url t s.next_socket there first response in
    subst
      (λ u.
        (u.outputs ≡ s.outputs ++ url_reply url ∷ sent_for first s.next_socket response)
        × (send_future_response p url second u ≡ u))
      (sym u_is)
      (
        outputs-sent_for first url response s.next_socket s.outputs (url_reply url) t refl,
        unknown_send p url second (send_future (some s.next_socket) first url response t)
            (gone_after url t s.next_socket there first response),
      )
