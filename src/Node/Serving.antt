-- ===== src/Node/Serving.antt =====
-- A directory that answers the lookups of a node and knows what the node looks for.
use gravity.Prelude.{ℕ, zero, suc, ◌≡◌, sym, ap, subst, String, true, List, [], ◌∷◌, if_cases}
use gravity.Prelude.Key.{string_key}
use gravity.Prelude.Maps.{Map, get_or, touch}
use gravity.Directory.Messages.{Publisher, Registration}
use gravity.Directory.Requests.{registration_request, lookup_request}
use gravity.Node.State.{GravityReturnCode, not_initialized, NetworkNode, Node}
use gravity.Node.World.{
  answered, Answer, got, failed, answer_of, is_final, World, ask_directory, retry, network_retries,
}
use gravity.Node.Subscriptions.{product_lookup}
use gravity.Node.Reregister.{worst, is_got, ask_again, num_tries, reannounce}

-- While the world is Good, a lookup of a product and a domain that are Wanted is answered with a
-- list whose first publisher has a url; and it stays Good under these lookups, and under the
-- node's Own registrations, answered or not.
pub record Serves {W R : Type 0} (world : World W R) (Good : W → Type 0)
    (Wanted : String → String → Type 0) (Own : Registration → Type 0) : Type 0 where
  pub found :
      (node : NetworkNode) (id domain : String) (w : W)
      → Good w
      → Wanted id domain
      → let t = world.directory node (lookup_request (product_lookup id domain)) w in
        (r : R) × (p : Publisher) × (ps : List Publisher) × (t.0 ≡ answered r)
        × (world.publishers r ≡ p ∷ ps)
        × (world.has_url p ≡ true)
        × Good t.1
  pub kept :
      (node : NetworkNode) (r : Registration) (w : W)
      → Good w
      → Own r
      → Good (world.directory node (registration_request r) w).1

-- The registrations that a map of urls gives, at any time, are the node's own.
abbrev pub AllOwn :
    (Registration → Type 0) → (String → String → ℕ → Registration) → Map String String → Type 0
AllOwn Own f [] = Unit {0}
AllOwn Own f ((id, url) ∷ m) = ((t : ℕ) → Own (f id url t)) × AllOwn Own f m

module _ {W R : Type 0} (world : World W R) (Good : W → Type 0) (Wanted : String → String → Type 0)
    (Own : Registration → Type 0) (up : Serves world Good Wanted Own) where
  retry-Good :
      (k : ℕ) (node : NetworkNode) (r : Registration) (a : Answer R) (w : W)
      → Own r
      → Good w
      → Good (retry world k node (registration_request r) a w).1
  unfolding retry
  retry-Good zero node r a w own h = h
  retry-Good (suc k) node r a w own h =
      let t = world.directory node (registration_request r) w in
      if_cases (λ (x : Answer R × W). Good x.1) (is_final a) (a, w)
        (retry world k node (registration_request r) (answer_of t.0) t.1) (λ e. h)
        (λ e. retry-Good k node r (answer_of t.0) t.1 own (up.kept node r w h own))

  ask-Good :
      (n : Node) (r : Registration) (w : W)
      → Own r
      → Good w
      → Good (ask_directory world n (registration_request r) w).1
  unfolding ask_directory
  ask-Good n r w own h =
      retry-Good network_retries n.service_directory_node r (failed not_initialized) w own h

  ask_again-Good :
      (k : ℕ) (n : Node) (r : Registration) (a : Answer R × W)
      → Own r
      → Good a.1
      → Good (ask_again world k n (registration_request r) a).1
  unfolding ask_again
  ask_again-Good zero n r a own h = h
  ask_again-Good (suc k) n r a own h =
      if_cases (λ (x : Answer R × W). Good x.1) (is_got a.0) a
        (ask_again world k n (registration_request r)
          (ask_directory world n (registration_request r) a.1))
        (λ e. h) (λ e. ask_again-Good k n r _ own (ask-Good n r a.1 own h))

  pub reannounce-Good :
      (f : String → String → ℕ → Registration) (m : Map String String) (c : GravityReturnCode)
      (n : Node) (w : W)
      → AllOwn Own f m
      → Good w
      → Good (reannounce world f m c n w).2
  unfolding reannounce
  reannounce-Good f [] c n w own h = h
  reannounce-Good f ((id, url) ∷ m) c n w own h =
      let time = get_or 0 url n.url_instance_map in
      let r = f id url time in
      let t = record n { url_instance_map = touch 0 url n.url_instance_map } in
      let first = ask_directory world t (registration_request r) w in
      let a = ask_again world num_tries t (registration_request r) first in
      reannounce-Good f m (worst c a.0) t a.1 own.1
        (ask_again-Good num_tries t r first (own.0 time) (ask-Good t r w (own.0 time) h))

  -- A lookup is answered at once.
  pub lookup-Good :
      (n : Node) (id domain : String) (w : W)
      → Good w
      → Wanted id domain
      → let a = ask_directory world n (lookup_request (product_lookup id domain)) w in
        (r : R) × (p : Publisher) × (ps : List Publisher) × (a.0 ≡ got r)
        × (world.publishers r ≡ p ∷ ps)
        × (world.has_url p ≡ true)
        × Good a.1
  unfolding ask_directory retry
  lookup-Good n id domain w h wanted =
      let q = lookup_request (product_lookup id domain) in
      let t = world.directory n.service_directory_node q w in
      let (r, p, ps, e, l, u, g) = up.found n.service_directory_node id domain w h wanted in
      let once : retry world 2 n.service_directory_node q (answer_of t.0) t.1 ≡ (got r, t.1) =
        ap (λ a. retry world 2 n.service_directory_node q (answer_of a) t.1) e in
      (r, p, ps, ap (λ a. a.0) once, l, u, subst Good (sym (ap (λ a. a.1) once)) g)
