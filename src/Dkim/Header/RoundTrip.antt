-- ===== src/Dkim/Header/RoundTrip.antt =====
-- lib/dkim/DKIMHeader.src.cc: a DKIM-Signature header that is written is read back.
use fsmtp_v.Base.{
  ℕ, List, [], ◌∷◌, ◌++◌, some, ◌≡◌, ◌≢◌, refl, sym, ap, ◌∙◌, arith, All, All-append, All-map, map,
  nil-or-cons, inl, inr, ◌⊎◌, ◌<◌, ◌^◌, ◌==◌, false, drop,
}
use fsmtp_v.Base.Numbers.{to_string_signed}
use fsmtp_v.Base.Numbers.Decimal.{stol-to_string_signed, to_string_signed-All}
use fsmtp_v.Base.Text.{Bytes, codes, Avoids, find_first_of, pop_back, beq, tolower}
use fsmtp_v.Base.Segments.{segments, join, segments-pieces, trim_one}
use fsmtp_v.Dkim.Canonicalization.{strip_space}
use fsmtp_v.Dkim.Header.{
  Header, CanonAlgPair, relaxed_relaxed, relaxed_simple, simple_relaxed, simple_simple, Algorithm,
  rsa_sha256, rsa_sha1, done, new_header, canon_alg_pair_to_string, alg_to_string,
  parse_canon_alg_pair, parse_algorithm, store, parse_pair, parse_segment, and_then, parse_segments,
  parse, date_of, dates, colons, header_string, segments_text, build_header_from_segments, pairs_of,
  build,
}
use fsmtp_v.Dkim.Header.Tags.{
  tag, store_all, parse_segments-tags, segments_text-join, join-colons, join-All, lower-join, IsTag,
  tag-IsTag, tags-Avoids, IsValue, IsName,
}

canon_lem : (p : CanonAlgPair) → parse_canon_alg_pair (map tolower (canon_alg_pair_to_string p)) ≡ p
unfolding parse_canon_alg_pair canon_alg_pair_to_string tolower beq
canon_lem relaxed_relaxed = refl
canon_lem relaxed_simple = refl
canon_lem simple_relaxed = refl
canon_lem simple_simple = refl

alg_lem : (a : Algorithm) → parse_algorithm (map tolower (alg_to_string a)) ≡ a
unfolding parse_algorithm alg_to_string tolower beq
alg_lem rsa_sha256 = refl
alg_lem rsa_sha1 = refl

canon-IsValue : (p : CanonAlgPair) → IsValue (canon_alg_pair_to_string p)
unfolding canon_alg_pair_to_string
canon-IsValue relaxed_relaxed = ground arith
canon-IsValue relaxed_simple = ground arith
canon-IsValue simple_relaxed = ground arith
canon-IsValue simple_simple = ground arith

alg-IsValue : (a : Algorithm) → IsValue (alg_to_string a)
unfolding alg_to_string
alg-IsValue rsa_sha256 = ground arith
alg-IsValue rsa_sha1 = ground arith

-- Both dates or none: `build` writes no date alone.
abbrev pub Dated : Header → Type 0
Dated h =
    ((h.expire_date ≡ 0) × (h.sign_date ≡ 0))
    ⊎ ((0 < h.expire_date) × (0 < h.sign_date) × (h.expire_date < 2 ^ 64) × (h.sign_date < 2 ^ 64))

-- What `build` can write and the parser reads: values without spaces and semicolons.
pub record IsPlain (h : Header) : Type 0 where
  pub selector : IsValue h.key_selector
  pub domain : IsValue h.domain
  pub body_hash : IsValue h.body_hash
  pub signature : IsValue h.signature
  pub names : All IsName h.headers
  pub dated : Dated h

names-IsValue : (hs : List Bytes) → All IsName hs → IsValue (join b':' hs)
names-IsValue hs h = (
  join-All (λ x. x ≢ b';') b':' hs (omega arith) (All-map {P = IsName} (λ x n. n.0.0) hs h),
  join-All (λ x. x ≢ b' ') b':' hs (omega arith) (All-map {P = IsName} (λ x n. n.0.1) hs h),
)

dates-none : (h : Header) → h.expire_date ≡ 0 → dates h ≡ []
dates-none h e = rw e refl

dates-both :
    (h : Header)
    → 0 < h.expire_date
    → 0 < h.sign_date
    → dates h
      ≡ (codes "t", to_string_signed h.sign_date) ∷ (codes "x", to_string_signed h.expire_date) ∷ []
dates-both h some_expiry some_date =
    let expires : (h.expire_date == 0) ≡ false = ground arith in
    let signs : (h.sign_date == 0) ≡ false = ground arith in rw (expires, signs) refl

date-IsValue : (v : ℕ) → IsValue (to_string_signed v)
date-IsValue v = (
  to_string_signed-All (λ c. c ≢ b';') v (omega arith) (λ c digit. omega (arith, digit.0, digit.1)),
  to_string_signed-All (λ c. c ≢ b' ') v (omega arith) (λ c digit. omega (arith, digit.0, digit.1)),
)

dates-IsTag : (h : Header) → Dated h → All IsTag (dates h)
unfolding parse_segment trim_one tolower find_first_of
dates-IsTag h (inl (e, _)) = rw (dates-none h e) tt
dates-IsTag h (inr (x, t, _, _)) = rw (dates-both h x t) (
  tag-IsTag (codes "t") _ (λ r. refl) (omega arith, tt) (date-IsValue h.sign_date),
  (tag-IsTag (codes "x") _ (λ r. refl) (omega arith, tt) (date-IsValue h.expire_date), tt),
)

module _ (h : Header) (plain : IsPlain h) (names : Bytes) (listed : IsValue names) where
  abbrev plain_pairs : List (Bytes × Bytes) → List (Bytes × Bytes)
  plain_pairs written =
      (codes "s", h.key_selector)
      ∷ (codes "h", names)
      ∷ (codes "d", h.domain)
      ∷ (codes "c", canon_alg_pair_to_string h.canon_alg_pair)
      ∷ (codes "a", alg_to_string h.header_algorithm)
      ∷ (written ++ (codes "bh", h.body_hash) ∷ (codes "b", h.signature) ∷ [])

  pairs_of-plain : pairs_of h names ≡ (codes "v", codes "1") ∷ plain_pairs (dates h)
  unfolding pairs_of
  pairs_of-plain = refl

  plain-IsTag : All IsTag (plain_pairs (dates h))
  unfolding parse_segment trim_one tolower find_first_of
  plain-IsTag = (
    tag-IsTag (codes "s") _ (λ r. refl) (omega arith, tt) plain.selector,
    (
      tag-IsTag (codes "h") _ (λ r. refl) (omega arith, tt) listed,
      (
        tag-IsTag (codes "d") _ (λ r. refl) (omega arith, tt) plain.domain,
        (
          tag-IsTag (codes "c") _ (λ r. refl) (omega arith, tt) (canon-IsValue h.canon_alg_pair),
          (
            tag-IsTag (codes "a") _ (λ r. refl) (omega arith, tt) (alg-IsValue h.header_algorithm),
            All-append IsTag (dates h) _ (dates-IsTag h plain.dated) (
              tag-IsTag (codes "bh") _ (λ r. refl) (omega arith, (omega arith, tt)) plain.body_hash,
              (tag-IsTag (codes "b") _ (λ r. refl) (omega arith, tt) plain.signature, tt),
            ),
          ),
        ),
      ),
    ),
  )

  dateless : h.expire_date ≡ 0 → h.sign_date ≡ 0 → record h { expire_date = 0; sign_date = 0 } ≡ h
  dateless expires signs = λ i. record h { expire_date = sym expires i; sign_date = sym signs i }

  stored :
      Dated h
      → segments b':' (map tolower names) ≡ h.headers
      → store_all (plain_pairs (dates h)) new_header ≡ h
  unfolding store beq date_of
  stored (inl (expires, signs)) e =
      rw (dates-none h expires, canon_lem h.canon_alg_pair, alg_lem h.header_algorithm, e)
        (dateless expires signs)
  stored (inr (x, t, x_bound, t_bound)) e =
      rw
        (
          dates-both h x t,
          canon_lem h.canon_alg_pair,
          alg_lem h.header_algorithm,
          e,
          stol-to_string_signed h.sign_date t_bound,
          stol-to_string_signed h.expire_date x_bound,
        )
        refl

  parse-pairs :
      segments b':' (map tolower names) ≡ h.headers
      → parse (segments_text (pairs_of h names)) new_header ≡ done h
  unfolding parse parse_segments parse_segment and_then parse_pair find_first_of store beq
      strip_space tolower trim_one
  parse-pairs e =
      let clear : All (Avoids b';') (codes "v=1" ∷ map tag (plain_pairs (dates h))) = (
        (omega arith, (omega arith, (omega arith, tt))),
        tags-Avoids (plain_pairs (dates h)) plain-IsTag,
      ) in
      let tags : parse_segments (map tag (plain_pairs (dates h))) new_header ≡ done h =
        parse_segments-tags (plain_pairs (dates h)) new_header
          (All-map {P = IsTag} (λ p read. read.0) (plain_pairs (dates h)) plain-IsTag)
        ∙ ap done (stored plain.dated e) in
      rw
        (
          pairs_of-plain,
          segments_text-join (codes "v") (codes "1") (plain_pairs (dates h)),
          segments-pieces b';' (codes "v=1") (map tag (plain_pairs (dates h))) clear,
        )
        tags

build-headers :
    (h : Header) (text n : Bytes) (ns : List Bytes)
    → h.headers ≡ n ∷ ns
    → build h ≡ some text
    → drop 16 text ≡ segments_text (pairs_of h (join b':' (n ∷ ns)))
unfolding build header_string build_header_from_segments
build-headers h text n ns e built =
    let built_as : build h
        ≡ some
            (codes "DKIM-Signature: " ++ segments_text (pairs_of h (pop_back (colons (n ∷ ns))))) =
      rw (build, e, header_string) refl in
    let same : text
        ≡ codes "DKIM-Signature: " ++ segments_text (pairs_of h (pop_back (colons (n ∷ ns)))) =
      cc in
    ap (drop 16) same ∙ ap (λ t. segments_text (pairs_of h t)) (join-colons n ns)

segments-names :
    (n : Bytes) (ns : List Bytes)
    → All IsName (n ∷ ns)
    → segments b':' (map tolower (join b':' (n ∷ ns))) ≡ n ∷ ns
segments-names n ns names =
    rw
      (lower-join b':' (n ∷ ns) (unfold tolower in refl)
        (All-map {P = IsName} (λ x h. h.2) (n ∷ ns) names))
      (segments-pieces b':' n ns (All-map {P = IsName} (λ x h. h.1) (n ∷ ns) names))

-- What `build` writes behind the name of the header is read back, if no value has a space or a
-- semicolon, each header is named in lower case without a colon, and both dates are set or none.
pub parse-build :
    (h : Header) (text : Bytes)
    → IsPlain h
    → build h ≡ some text
    → parse (drop 16 text) new_header ≡ done h
unfolding build header_string build_header_from_segments
parse-build h text plain e = elim (nil-or-cons h.headers) [
  | inl e1 ↦ absurd (ground (arith, e1))
  | inr (n, ns, e2) ↦
      let names = rw e2 at plain.names in
      rw (build-headers h text n ns e2 e) (
        parse-pairs h plain (join b':' (n ∷ ns)) (names-IsValue (n ∷ ns) names)
          (segments-names n ns names ∙ sym e2))
]
