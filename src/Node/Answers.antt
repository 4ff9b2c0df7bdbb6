-- ===== src/Node/Answers.antt =====
-- What a request to the directory ends with, after its retries.
use gravity.Prelude.{ℕ, zero, suc, if_cases, ◌≡◌, refl, false}
use gravity.Prelude.Key.{string_key}
use gravity.Directory.Requests.{Request}
use gravity.Node.State.{is_success, not_initialized, NetworkNode, Node}
use gravity.Node.World.{
  Attempt, answered, timed_out, poll_interrupted, poll_failed, no_input, signalled, answer_of,
  is_final, Answer, got, failed, World, ask_directory, retry, network_retries,
}

-- An answer that is no response has a code of an error.
abbrev pub IsHonest : {R : Type 0} → Answer R → Type 0
IsHonest (got r) = Unit
IsHonest (failed c) = is_success c ≡ false

answer_of-IsHonest : {R : Type 0} (t : Attempt R) → IsHonest (answer_of t)
answer_of-IsHonest (answered r) = tt
answer_of-IsHonest timed_out = refl
answer_of-IsHonest poll_interrupted = refl
answer_of-IsHonest poll_failed = refl
answer_of-IsHonest no_input = refl
answer_of-IsHonest signalled = refl

module _ {W R : Type 0} (world : World W R) where
  retry-IsHonest :
      (k : ℕ) (node : NetworkNode) (q : Request) (a : Answer R) (w : W)
      → IsHonest a
      → IsHonest (retry world k node q a w).0
  unfolding retry
  retry-IsHonest zero node q a w h = h
  retry-IsHonest (suc k) node q a w h =
      let t = world.directory node q w in
      if_cases (λ (r : Answer R × W). IsHonest r.0) (is_final a) (a, w)
        (retry world k node q (answer_of t.0) t.1) (λ e. h)
        (λ e. retry-IsHonest k node q (answer_of t.0) t.1 (answer_of-IsHonest t.0))

  pub ask_directory-IsHonest :
      (n : Node) (q : Request) (w : W) → IsHonest (ask_directory world n q w).0
  unfolding ask_directory
  ask_directory-IsHonest n q w =
      retry-IsHonest network_retries n.service_directory_node q (failed not_initialized) w refl
