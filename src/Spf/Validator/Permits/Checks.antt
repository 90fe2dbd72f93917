-- ===== src/Spf/Validator/Permits/Checks.antt =====
-- Each check of a record lets an address send for one of the reasons of `Permits`.
use fsmtp_v.Base.{
  ℕ, true, false, List, [], ◌∷◌, Option, none, some, Option-cases, Bool-cases, ◌≡◌, inl, inr, refl,
  Bool, ltb, length, arith, ◌⊎◌, if◌then◌else◌,
}
use fsmtp_v.Base.Text.{Bytes}
use fsmtp_v.Networking.{answer}
use fsmtp_v.Networking.Ipv4
use fsmtp_v.Networking.Ipv6
use fsmtp_v.Spf.Record.{Record, mx_records_allowed, a_records_allowed}
use fsmtp_v.Spf.Validator.{
  Env, Address, ipv4, ipv6, Verdict, allowed, denied, or_else, any_of, validate_ipv4, validate_ipv6,
  validate_ranges, compare, mx_verdict, validate_mx_data, validate_mx, validate_addresses,
  validate_a, has_extension, validate_names, validate_ptr, validate_record,
}
use fsmtp_v.Spf.Validator.Permits.{
  Matches, IsHost, as_ipv4, as_ipv6, resolved, SomeOf, later, HasMx, HasAddress, EndsIn, ranges_of,
  Permits, by_range, by_mx, by_named_mx, by_a, by_named_a, by_ptr, or_else-allowed, any_of-allowed,
  if_same-allowed, in_range, has_extension-EndsIn,
}

module _ (env : Env) where
  validate_ipv4-allowed :
      (query : Bytes) (a : ℕ) (ranges : List Bytes) (details : Bytes)
      → validate_ipv4 env query a ranges ≡ allowed details
      → SomeOf ranges (Matches env (ipv4 a))
  unfolding validate_ipv4
  validate_ipv4-allowed query a [] details h = absurd cc
  validate_ipv4-allowed query a (range ∷ ranges) details h =
      elim (in_range (Ipv4.compare_text env.pton4 a range) _ details
        (validate_ipv4 env query a ranges) h) [
          | inl same ↦ (0, range, refl, same)
          | inr e ↦ later range ranges _ (validate_ipv4-allowed query a ranges details e)
        ]

  validate_ipv6-allowed :
      (query a : Bytes) (ranges : List Bytes) (details : Bytes)
      → validate_ipv6 env query a ranges ≡ allowed details
      → SomeOf ranges (Matches env (ipv6 a))
  unfolding validate_ipv6
  validate_ipv6-allowed query a [] details h = absurd cc
  validate_ipv6-allowed query a (range ∷ ranges) details h =
      elim (in_range (Ipv6.compare_text env.odd_shift env.pton6 a range) _ details
        (validate_ipv6 env query a ranges) h) [
          | inl same ↦ (0, range, refl, same)
          | inr e ↦ later range ranges _ (validate_ipv6-allowed query a ranges details e)
        ]

  validate_ranges-allowed :
      (query : Bytes) (a : Address) (r : Record) (details : Bytes)
      → validate_ranges env query a r ≡ allowed details
      → SomeOf (ranges_of a r) (Matches env a)
  unfolding validate_ranges
  validate_ranges-allowed query (ipv4 a) r details h =
      validate_ipv4-allowed query a r.ipv4s details h
  validate_ranges-allowed query (ipv6 a) r details h =
      validate_ipv6-allowed query a r.ipv6s details h

  compare-Matches :
      (a : Address) (text : Bytes) → compare env a text ≡ answer true → Matches env a text
  unfolding compare
  compare-Matches (ipv4 a) text h = h
  compare-Matches (ipv6 a) text h = h

  mx_verdict-named :
      (a : Address) (domain text : Bytes) (next : Verdict) (details : Bytes)
      → env.pton4 text ≡ none
      → env.pton6 text ≡ none
      → mx_verdict env a domain text none none next ≡ allowed details
      → IsHost env a text ⊎ (next ≡ allowed details)
  unfolding mx_verdict
  mx_verdict-named a domain text next details no4 no6 h =
      elim (Option-cases (env.resolve_hostname text)) [
        | inl e ↦ absurd (ground (arith, e, h))
        | inr (host, e) ↦
            elim (if_same-allowed (compare env a host) _ details next (rw (e, mx_verdict) at h)) [
              | inl same ↦ inl (resolved no4 no6 e (compare-Matches a host same))
              | inr more ↦ inr more
            ]
      ]

  mx_verdict-allowed :
      (a : Address) (domain text : Bytes) (x : Option ℕ) (y : Option Bytes) (next : Verdict)
      (details : Bytes)
      → env.pton4 text ≡ x
      → env.pton6 text ≡ y
      → mx_verdict env a domain text x y next ≡ allowed details
      → IsHost env a text ⊎ (next ≡ allowed details)
  unfolding mx_verdict
  mx_verdict-allowed (ipv4 a) domain text (some x) y next details p4 p6 h =
      elim (if_same-allowed _ _ details next h) [
        | inl same ↦ inl (as_ipv4 p4 same)
        | inr more ↦ inr more
      ]
  mx_verdict-allowed (ipv6 a) domain text (some x) y next details p4 p6 h = inr h
  mx_verdict-allowed (ipv4 a) domain text none (some y) next details p4 p6 h = inr h
  mx_verdict-allowed (ipv6 a) domain text none (some y) next details p4 p6 h =
      elim (if_same-allowed _ _ details next h) [
        | inl same ↦ inl (as_ipv6 p6 same)
        | inr more ↦ inr more
      ]
  mx_verdict-allowed (ipv4 a) domain text none none next details p4 p6 h =
      mx_verdict-named (ipv4 a) domain text next details p4 p6 h
  mx_verdict-allowed (ipv6 a) domain text none none next details p4 p6 h =
      mx_verdict-named (ipv6 a) domain text next details p4 p6 h

  validate_mx_data-allowed :
      (a : Address) (domain : Bytes) (texts : List Bytes) (details : Bytes)
      → validate_mx_data env a domain texts ≡ allowed details
      → SomeOf texts (IsHost env a)
  unfolding validate_mx_data
  validate_mx_data-allowed a domain [] details h = absurd cc
  validate_mx_data-allowed a domain (text ∷ texts) details h =
      elim (mx_verdict-allowed a domain text _ _ _ details refl refl h) [
        | inl host ↦ (0, text, refl, host)
        | inr e ↦ later text texts _ (validate_mx_data-allowed a domain texts details e)
      ]

  validate_mx-allowed :
      (a : Address) (domain details : Bytes)
      → validate_mx env a domain ≡ allowed details
      → HasMx env a domain
  unfolding validate_mx
  validate_mx-allowed a domain details h = elim (Option-cases (env.mx_data domain)) [
    | inl e ↦ absurd (ground (arith, e, h))
    | inr (texts, e) ↦
        (texts, e, validate_mx_data-allowed a domain texts details (rw (e, validate_mx) at h))
  ]

  validate_addresses-allowed :
      (a : Address) (query : Bytes) (addrs : List Bytes) (details : Bytes)
      → validate_addresses env a query addrs ≡ allowed details
      → SomeOf addrs (Matches env a)
  unfolding validate_addresses
  validate_addresses-allowed a query [] details h = absurd cc
  validate_addresses-allowed a query (addr ∷ addrs) details h =
      elim (if_same-allowed _ _ details _ h) [
        | inl same ↦ (0, addr, refl, compare-Matches a addr same)
        | inr e ↦ later addr addrs _ (validate_addresses-allowed a query addrs details e)
      ]

  validate_a-allowed :
      (a : Address) (domain details : Bytes)
      → validate_a env a domain ≡ allowed details
      → HasAddress env a domain
  unfolding validate_a
  validate_a-allowed a domain details h = elim (Option-cases (env.resolve_all a domain)) [
    | inl e ↦ absurd (ground (arith, e, h))
    | inr (addrs, e) ↦
        (addrs, e, validate_addresses-allowed a domain addrs details (rw (e, validate_a) at h))
  ]

  validate_names-allowed :
      (reverse : Bytes) (names : List Bytes) (details : Bytes)
      → validate_names reverse names ≡ allowed details
      → SomeOf names (EndsIn reverse)
  unfolding validate_names
  validate_names-allowed reverse [] details h = absurd cc
  validate_names-allowed reverse (name ∷ names) details h =
      elim (Bool-cases (has_extension name reverse)) [
        | inl e ↦ (0, name, refl, has_extension-EndsIn name reverse e)
        | inr e ↦
            later name names _
              (validate_names-allowed reverse names details (rw (e, validate_names) at h))
      ]

  ptr-Permits :
      (query : Bytes) (a : Address) (r : Record) (details : Bytes)
      → validate_ptr env a r.ptrs ≡ allowed details
      → Permits env query a r
  unfolding validate_ptr
  ptr-Permits query a r details h = elim (Option-cases (env.reverse a)) [
    | inl e ↦ absurd (ground (arith, e, h))
    | inr (reverse, e) ↦
        by_ptr reverse e (validate_names-allowed reverse r.ptrs details (rw (e, validate_ptr) at h))
  ]

  -- The verdicts of the checks of a record, in their order.
  guarded :
      (b : Bool) (v : Verdict) (details : Bytes)
      → (if b then v else denied) ≡ allowed details
      → (b ≡ true) × (v ≡ allowed details)
  guarded true v details h = (refl, h)
  guarded false v details h = absurd cc

  named_mx-Permits :
      (query : Bytes) (a : Address) (r : Record) (details : Bytes) (mxs : List Bytes)
      → r.mxs ≡ mxs
      → any_of (λ domain. validate_mx env a query) mxs ≡ allowed details
      → Permits env query a r
  unfolding any_of
  named_mx-Permits query a r details [] e h = absurd cc
  named_mx-Permits query a r details (mx ∷ mxs) e h =
      let (k, domain, at, (d, v)) =
        any_of-allowed (λ domain. validate_mx env a query) (mx ∷ mxs) details h in
      by_named_mx (ground (arith, e)) (validate_mx-allowed a query d v)

  named_a-Permits :
      (query : Bytes) (a : Address) (r : Record) (details : Bytes)
      → any_of (validate_a env a) r.a_domains ≡ allowed details
      → Permits env query a r
  named_a-Permits query a r details h =
      let (k, domain, at, (d, v)) = any_of-allowed (validate_a env a) r.a_domains details h in
      by_named_a (k, domain, at, validate_a-allowed a domain d v)

  pub validate_record-Permits :
      (query : Bytes) (a : Address) (r : Record) (details : Bytes)
      → validate_record env query a r ≡ allowed details
      → Permits env query a r
  unfolding validate_record
  validate_record-Permits query a r details h =
      let ranges = validate_ranges env query a r in
      let mx = if mx_records_allowed r then validate_mx env a query else denied in
      let own = if a_records_allowed r then validate_a env a query else denied in
      let mxs = any_of (λ domain. validate_mx env a query) r.mxs in
      let a_domains = any_of (validate_a env a) r.a_domains in
      let ptr = if ltb 0 (length r.ptrs) then validate_ptr env a r.ptrs else denied in
      let from_mxs = or_else mxs (or_else a_domains ptr) in
      elim (or_else-allowed ranges (or_else mx (or_else own from_mxs)) details h) [
        | inl (d, e) ↦ by_range (validate_ranges-allowed query a r d e)
        | inr h1 ↦ elim (or_else-allowed mx (or_else own from_mxs) details h1) [
          | inl (d, e) ↦
              let (allows, v) = guarded (mx_records_allowed r) (validate_mx env a query) d e in
              by_mx allows (validate_mx-allowed a query d v)
          | inr h2 ↦ elim (or_else-allowed own from_mxs details h2) [
            | inl (d, e) ↦
                let (allows, v) = guarded (a_records_allowed r) (validate_a env a query) d e in
                by_a allows (validate_a-allowed a query d v)
            | inr h3 ↦ elim (or_else-allowed mxs (or_else a_domains ptr) details h3) [
              | inl (d, e) ↦ named_mx-Permits query a r d r.mxs refl e
              | inr h4 ↦ elim (or_else-allowed a_domains ptr details h4) [
                | inl (d, e) ↦ named_a-Permits query a r d e
                | inr h5 ↦
                    let (some_ptr, v) =
                      guarded (ltb 0 (length r.ptrs)) (validate_ptr env a r.ptrs) details h5 in
                    ptr-Permits query a r details v
              ]
            ]
          ]
        ]
      ]
