-- ===== src/Node/Urls.antt =====
-- The parts of the urls that parse_url reads.
use gravity.Prelude.{◌≡◌, refl, ap, ◌∙◌, Bool, true, false, none, some, if_true, if_false}
use Prim.Native.Char.{Char}
use Prim.Native.String.{String, ◌++◌}
use Prim.Native.String.append.{nil, cons}
use gravity.Node.Address.{
  is_colon, is_colon_or_slash, before, behind, behind_two, address_behind, address, parse_url,
}

-- No character passes a test.
abbrev pub Lacks : (Char → Bool) → String → Type 0
Lacks p String.[] = Unit
Lacks p (String.◌∷◌ c s) = (p c ≡ false) × Lacks p s

before-append :
    (p : Char → Bool) (s t : String) (c : Char)
    → Lacks p s
    → p c ≡ true
    → before p (s ++ String.◌∷◌ c t) ≡ s
unfolding before
before-append p String.[] t c l h = ap (before p) (nil (String.◌∷◌ c t)) ∙ if_true (p c) _ _ h
before-append p (String.◌∷◌ d s) t c (n, l) h =
    ap (before p) (cons d s (String.◌∷◌ c t))
    ∙ if_false (p d) _ _ n
    ∙ ap (String.◌∷◌ d) (before-append p s t c l h)

behind-append :
    (p : Char → Bool) (s t : String) (c : Char)
    → Lacks p s
    → p c ≡ true
    → behind p (s ++ String.◌∷◌ c t) ≡ some t
unfolding behind
behind-append p String.[] t c l h = ap (behind p) (nil (String.◌∷◌ c t)) ∙ if_true (p c) _ _ h
behind-append p (String.◌∷◌ d s) t c (n, l) h =
    ap (behind p) (cons d s (String.◌∷◌ c t)) ∙ if_false (p d) _ _ n ∙ behind-append p s t c l h

-- ":" and the rest
abbrev pub colon_then : String → String
colon_then s = String.◌∷◌ ":" s

address-append :
    (url transport host port : String)
    → Lacks is_colon host
    → address url transport (host ++ colon_then port)
      ≡ record { transport = transport; host = host; port = port }
address-append url transport host port l = λ i. record {
  transport = transport;
  host = before-append is_colon host port ":" l refl i;
  port = elim (behind-append is_colon host port ":" l refl i) [ none ↦ url | some p ↦ p ];
}

-- A url "transport://host:port" is read as its three parts.
pub parse_url-parts :
    (transport host port : String)
    → Lacks is_colon_or_slash transport
    → Lacks is_colon host
    → parse_url
        (transport ++ colon_then (String.◌∷◌ "/" (String.◌∷◌ "/" (host ++ colon_then port))))
      ≡ some (record { transport = transport; host = host; port = port })
unfolding parse_url
parse_url-parts transport host port l m =
    let rest = host ++ colon_then port in
    let tail = String.◌∷◌ "/" (String.◌∷◌ "/" rest) in
    let url = transport ++ colon_then tail in
    ap
      (λ o. elim o [
        | none ↦ some (address url "tcp" url)
        | some r ↦ address_behind url (before is_colon_or_slash url) (behind_two r)
      ])
      (behind-append is_colon_or_slash transport tail ":" l refl)
    ∙ ap (λ t. some (address url t rest))
        (before-append is_colon_or_slash transport tail ":" l refl)
    ∙ ap some (address-append url transport host port m)

-- A url "host:port" with two characters or more for the port, whose host has no slash: the host is
-- read as the transport, and the port without its first two characters as the host; the port is
-- read from the whole url, if these have no colon.
pub parse_url-no_transport :
    (host port : String) (c d : Char)
    → Lacks is_colon_or_slash host
    → Lacks is_colon port
    → let url = host ++ colon_then (String.◌∷◌ c (String.◌∷◌ d port)) in
      parse_url url ≡ some (record { transport = host; host = port; port = url })
unfolding parse_url
parse_url-no_transport host port c d l m =
    let tail = String.◌∷◌ c (String.◌∷◌ d port) in
    let url = host ++ colon_then tail in
    ap
      (λ o. elim o [
        | none ↦ some (address url "tcp" url)
        | some r ↦ address_behind url (before is_colon_or_slash url) (behind_two r)
      ])
      (behind-append is_colon_or_slash host tail ":" l refl)
    ∙ ap (λ t. some (address url t port)) (before-append is_colon_or_slash host tail ":" l refl)
    ∙ (λ i. some (record {
      transport = host;
      host = before_all port m i;
      port = elim (behind_none port m i) [ none ↦ url | some p ↦ p ];
    }))
  where
    before_all : (s : String) → Lacks is_colon s → before is_colon s ≡ s
    before_all String.[] l = refl
    before_all (String.◌∷◌ c s) (n, l) =
        if_false (is_colon c) _ _ n ∙ ap (String.◌∷◌ c) (before_all s l)

    behind_none : (s : String) → Lacks is_colon s → behind is_colon s ≡ none
    behind_none String.[] l = refl
    behind_none (String.◌∷◌ c s) (n, l) = if_false (is_colon c) _ _ n ∙ behind_none s l
