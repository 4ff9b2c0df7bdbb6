-- ===== src/Directory/Takeover.antt =====
-- A service whose provider was replaced: handleUnregister does not look at the url that it removes.
use gravity.Prelude.{
  ℕ, ◌<◌, ◌≡◌, ◌∙◌, ◌≢◌, String, true, none, some, nat_eq_iff, arith, ◌⊎◌, inl, inr,
}
use gravity.Prelude.Key.{string_key, beq_refl}
use gravity.Prelude.Maps.{lookup}
use gravity.Directory.Messages.{Registration, Unregistration, service, directory_response, success}
use gravity.Directory.State.{Directory, service_of, instance_of, seconds}
use gravity.Directory.Register.{accepted, handle_register, domain_or}
use gravity.Directory.Unregister.{handle_unregister, is_service_registered}
use gravity.Directory.Unregistered.{service_of-handle_unregister, handle_unregister_answer}

module _ (u : Unregistration) (s : Directory) (new_url : String) (time : ℕ)
    (kind : u.kind ≡ service) (current : service_of s (domain_or s u.domain) u.id ≡ some new_url)
    (known : lookup u.url s.registration_instance_map ≡ some time)
    (matches : u.registration_time ≡ seconds time) where
  registered : is_service_registered u (domain_or s u.domain) s ≡ true
  registered = ground (arith, current, known, nat_eq_iff (seconds time) u.registration_time)

  -- A request that names a service and any url registered at the time that it gives removes the
  -- service's current provider, also where the two urls differ, and answers SUCCESS.
  pub unregister_other_provider :
      u.url ≢ new_url
      → ((handle_unregister u s).0 ≡ directory_response u.id success)
        × (service_of (handle_unregister u s).1 (domain_or s u.domain) u.id ≡ none)
  unregister_other_provider differ = (
    handle_unregister_answer u s ∙ ground (arith, registered, kind),
    service_of-handle_unregister u s (domain_or s u.domain) u.id
        ∙ ground (arith, registered, kind, beq_refl (domain_or s u.domain), beq_refl u.id),
  )

-- A registration with no timestamp, or with one below the url's known time, changes nothing, and
-- is answered with SUCCESS like any other.
pub handle_register_ignored :
    (r : Registration) (s : Directory)
    → (r.timestamp ≡ none) ⊎ ((time : ℕ) × (r.timestamp ≡ some time) × (time < instance_of s r.url))
    → handle_register r s ≡ (directory_response r.id success, s)
unfolding handle_register accepted
handle_register_ignored r s (inl e) = ground arith
handle_register_ignored r s (inr (time, e, old)) = ground arith
