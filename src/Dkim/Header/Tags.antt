-- ===== src/Dkim/Header/Tags.antt =====
-- lib/dkim/DKIMHeader.src.cc: the tags of a DKIM-Signature header, as they are written and read.
use mathlib.Core.List.{append-nil, append_assoc, map-append}
use fsmtp_v.Base.{
  ℕ, suc, List, [], ◌∷◌, ◌++◌, ◌≡◌, ◌≢◌, refl, sym, ap, ◌∙◌, arith, All, All-append, map,
}
use fsmtp_v.Base.Text.{Bytes, codes, Avoids, front, back, pop_back, tolower}
use fsmtp_v.Base.Segments.{join}
use fsmtp_v.Dkim.Canonicalization.{strip_space}
use fsmtp_v.Dkim.Header.{
  Header, done, store, parse_pair, parse_segment, and_then, parse_segments, colons, segments_text,
}

-- A text that can be the value of a tag as it is.
abbrev pub IsValue : Bytes → Type 0
IsValue s = Avoids b';' s × Avoids b' ' s

-- A name of a header, as a signature lists it.
abbrev pub IsName : Bytes → Type 0
IsName s = IsValue s × Avoids b':' s × (map tolower s ≡ s)

front-Avoids : (c : ℕ) (s : Bytes) → Avoids (suc c) s → front s ≢ suc c
front-Avoids c [] h = omega arith
front-Avoids c (x ∷ s) h = h.0

back-Avoids : (c : ℕ) (s : Bytes) → Avoids (suc c) s → back s ≢ suc c
back-Avoids c [] h = omega arith
back-Avoids c (x ∷ []) h = h.0
back-Avoids c (x ∷ y ∷ s) h = back-Avoids c (y ∷ s) h.1

parse_pair-value :
    (key val : Bytes) (h : Header) → Avoids b' ' val → parse_pair key val h ≡ done (store key val h)
unfolding parse_pair strip_space
parse_pair-value key val h free = ground (arith, front-Avoids 31 val free, back-Avoids 31 val free)

-- The tag that `key` and `val` give, behind another one.
abbrev pub tag : Bytes × Bytes → Bytes
tag (key, val) = b' ' ∷ key ++ b'=' ∷ val

-- A tag is read as what it says.
abbrev IsRead : Bytes × Bytes → Type 0
IsRead pair = (h : Header) → parse_segment (tag pair) h ≡ done (store (pair.0) (pair.1) h)

abbrev pub store_all : List (Bytes × Bytes) → Header → Header
store_all [] h = h
store_all (pair ∷ pairs) h = store_all pairs (store (pair.0) (pair.1) h)

pub parse_segments-tags :
    (pairs : List (Bytes × Bytes)) (h : Header)
    → All IsRead pairs
    → parse_segments (map tag pairs) h ≡ done (store_all pairs h)
unfolding parse_segments and_then
parse_segments-tags [] h reads = refl
parse_segments-tags (pair ∷ pairs) h (here, there) =
    rw (here h, parse_segments) (parse_segments-tags pairs (store (pair.0) (pair.1) h) there)

join-cons-head :
    (sep c : ℕ) (x : Bytes) (xs : List Bytes) → join sep ((c ∷ x) ∷ xs) ≡ c ∷ join sep (x ∷ xs)
unfolding join
join-cons-head sep c x [] = refl
join-cons-head sep c x (y ∷ xs) = refl

pub segments_text-join :
    (k v : Bytes) (pairs : List (Bytes × Bytes))
    → segments_text ((k, v) ∷ pairs) ≡ join b';' ((k ++ b'=' ∷ v) ∷ map tag pairs)
unfolding segments_text join
segments_text-join k v [] = refl
segments_text-join k v ((k2, v2) ∷ pairs) =
    append_assoc (k ++ b'=' ∷ v) (codes "; ") (segments_text ((k2, v2) ∷ pairs))
    ∙ ap (λ t. (k ++ b'=' ∷ v) ++ b';' ∷ b' ' ∷ t) (segments_text-join k2 v2 pairs)
    ∙ ap (λ t. (k ++ b'=' ∷ v) ++ b';' ∷ t) (sym (join-cons-head b';' b' ' _ (map tag pairs)))

pop_back-append : (s : Bytes) (c : ℕ) (t : Bytes) → pop_back (s ++ c ∷ t) ≡ s ++ pop_back (c ∷ t)
pop_back-append [] c t = refl
pop_back-append (x ∷ []) c t = refl
pop_back-append (x ∷ y ∷ s) c t = ap (◌∷◌ x) (pop_back-append (y ∷ s) c t)

pub join-colons : (h : Bytes) (hs : List Bytes) → pop_back (colons (h ∷ hs)) ≡ join b':' (h ∷ hs)
unfolding colons join
join-colons h [] = pop_back-append h b':' [] ∙ append-nil h
join-colons h (h2 ∷ hs) =
    pop_back-append h b':' (colons (h2 ∷ hs))
    ∙ ap (◌++◌ h) (
        pop_back-append (b':' ∷ h2) b':' (colons hs)
        ∙ ap (◌∷◌ b':') (sym (pop_back-append h2 b':' (colons hs)) ∙ join-colons h2 hs))

pub join-All :
    (P : ℕ → Type 0) (sep : ℕ) (xs : List Bytes) → P sep → All (All P) xs → All P (join sep xs)
unfolding join
join-All P sep [] p h = tt
join-All P sep (x ∷ []) p h = h.0
join-All P sep (x ∷ y ∷ xs) p h = All-append P x _ h.0 (p, join-All P sep (y ∷ xs) p h.1)

pub lower-join :
    (sep : ℕ) (xs : List Bytes)
    → tolower sep ≡ sep
    → All (λ x. map tolower x ≡ x) xs
    → map tolower (join sep xs) ≡ join sep xs
unfolding join
lower-join sep [] e h = refl
lower-join sep (x ∷ []) e h = h.0
lower-join sep (x ∷ y ∷ xs) e h =
    map-append tolower x (sep ∷ join sep (y ∷ xs)) ∙ rw (h.0, e, lower-join sep (y ∷ xs) e h.1) refl

-- A tag whose key is one of the parser's, and whose value stands as it is.
abbrev pub IsTag : Bytes × Bytes → Type 0
IsTag pair = IsRead pair × Avoids b';' (tag pair)

pub tag-IsTag :
    (key val : Bytes)
    → ((h : Header) → parse_segment (tag (key, val)) h ≡ parse_pair key val h)
    → Avoids b';' key
    → IsValue val
    → IsTag (key, val)
tag-IsTag key val split clear (whole, free) = (
  λ h. split h ∙ parse_pair-value key val h free,
  (omega arith, All-append (λ x. x ≢ b';') key (b'=' ∷ val) clear (omega arith, whole)),
)

pub tags-Avoids :
    (pairs : List (Bytes × Bytes)) → All IsTag pairs → All (Avoids b';') (map tag pairs)
tags-Avoids [] h = tt
tags-Avoids (pair ∷ pairs) h = (h.0.1, tags-Avoids pairs h.1)
