-- ===== src/Directory/OtherUrls.antt =====
-- What a registration leaves of the publishers at other urls than its own.
use gravity.Prelude.{
  ℕ, ◌≡◌, refl, ap, ◌∙◌, String, Bool, true, false, not, ◌&&◌, List, [], ◌∷◌, ◌++◌, Option, none,
  some, if◌then◌else◌, arith,
}
use gravity.Prelude.Key.{◌==◌, string_key}
use gravity.Directory.Messages.{Publisher, Registration, RegistrationType, data_product, service}
use gravity.Directory.State.{Directory, publishers_of, seconds}
use gravity.Directory.Publishers.{find_url, erase_url}
use gravity.Directory.Register.{
  update_url, new_publisher, put_publisher, is_duplicate, handle_register, accepted, domain_or,
}
use gravity.Directory.Purged.{WellFormed}
use gravity.Directory.Registered.{
  stored, service_registered, registered_as, publishers_of-handle_register,
}

module _ (v : String) (r : Registration) (other : (r.url == v) ≡ false) where
  find_url-erase_other : (ps : List Publisher) → find_url v (erase_url r.url ps) ≡ find_url v ps
  unfolding find_url erase_url
  find_url-erase_other [] = refl
  find_url-erase_other (p ∷ ps) = ground (
    arith,
    other,
    find_url-erase_other ps,
    string_key.beq_iff p.url r.url,
    string_key.beq_iff p.url v,
    string_key.beq_iff r.url v,
  )

  find_url-update_other :
      (time : ℕ) (ps : List Publisher) → find_url v (update_url r time ps) ≡ find_url v ps
  unfolding find_url update_url
  find_url-update_other time [] = refl
  find_url-update_other time (p ∷ ps) = ground (
    arith,
    other,
    find_url-update_other time ps,
    string_key.beq_iff p.url r.url,
    string_key.beq_iff p.url v,
    string_key.beq_iff r.url v,
  )

  find_url-append_other :
      (time : ℕ) (ps : List Publisher)
      → find_url v (ps ++ new_publisher r time ∷ []) ≡ find_url v ps
  unfolding find_url
  find_url-append_other time [] = ground (arith, other)
  find_url-append_other time (p ∷ ps) = ground (arith, find_url-append_other time ps)

  find_url-put_other :
      (time : ℕ) (ps : List Publisher) → find_url v (put_publisher r time ps) ≡ find_url v ps
  find_url-put_other time ps =
      ground (arith, find_url-update_other time ps, find_url-append_other time ps)

  module _ (s : Directory) (d i : String) where
    moved-other : find_url v (service_registered r s d i) ≡ find_url v (publishers_of s d i)
    moved-other = go ((s.domain == d) && not (i == r.id))
      where
        go :
            (b : Bool)
            → find_url v (if b then erase_url r.url (publishers_of s d i) else publishers_of s d i)
              ≡ find_url v (publishers_of s d i)
        go true = find_url-erase_other (publishers_of s d i)
        go false = refl

    stored-other :
        (domain : String) (t : ℕ)
        → find_url v (stored r domain t s d i) ≡ find_url v (publishers_of s d i)
    stored-other domain t =
        go ((domain == d) && (r.id == i))
          (λ h. ground (arith, h, string_key.beq_iff domain d, string_key.beq_iff r.id i))
      where
        go :
            (b : Bool)
            → (b ≡ true → publishers_of s domain r.id ≡ publishers_of s d i)
            → find_url v (
                if b
                then put_publisher r (seconds t) (publishers_of s domain r.id)
                else service_registered r s d i)
              ≡ find_url v (publishers_of s d i)
        go true same =
            find_url-put_other (seconds t) (publishers_of s domain r.id)
            ∙ ap (find_url v) (same refl)
        go false same = moved-other

    registered-other :
        (a : Option ℕ) (k : RegistrationType)
        → find_url v (registered_as a k r s d i) ≡ find_url v (publishers_of s d i)
    registered-other none k = refl
    registered-other (some t) service = moved-other
    registered-other (some t) data_product =
        go (is_duplicate r (seconds t) (publishers_of s (domain_or s r.domain) r.id))
      where
        go :
            (b : Bool)
            → find_url v
                (if b then publishers_of s d i else stored r (domain_or s r.domain) t s d i)
              ≡ find_url v (publishers_of s d i)
        go true = refl
        go false = stored-other (domain_or s r.domain) t

    -- A registration leaves the publisher at any other url as it was, in every list.
    pub find_url-handle_register :
        WellFormed s
        → find_url v (publishers_of (handle_register r s).1 d i) ≡ find_url v (publishers_of s d i)
    find_url-handle_register w =
        ap (find_url v) (publishers_of-handle_register r s w d i)
        ∙ registered-other (accepted r s) r.kind
