-- ===== src/Http/RoundTrip.antt =====
-- lib/http/HTTP.src.cc: what is written as the first line of a request is read back.
use fsmtp_v.Base.{ℕ, suc, ◌∷◌, ◌++◌, none, some, ◌≡◌, refl, ap, ◌∙◌, arith}
use fsmtp_v.Base.Text.{
  Bytes, beq, tolower, Avoids, find_first_of-append, find_first_of-none, take-length,
  drop-suc-length,
}
use fsmtp_v.Models.EmailAddress.{ok}
use fsmtp_v.Http.{
  Method, get, post, put, head, delete, patch, options, Version, http09, http10, http11, http2,
  http3, Head, method_to_string, method_from_string, method_of_lower, version_to_string,
  version_from_string, version_of_lower, head_loop, head_segment, head_then, set_method,
  set_version, parse_head, unset,
}

method_from_string-method_to_string : (m : Method) → method_from_string (method_to_string m) ≡ ok m
unfolding method_from_string method_of_lower method_to_string beq tolower
method_from_string-method_to_string get = refl
method_from_string-method_to_string post = refl
method_from_string-method_to_string put = refl
method_from_string-method_to_string head = refl
method_from_string-method_to_string delete = refl
method_from_string-method_to_string patch = refl
method_from_string-method_to_string options = refl

version_from_string-version_to_string :
    (v : Version) → version_from_string (version_to_string v) ≡ ok v
unfolding version_from_string version_of_lower version_to_string beq tolower
version_from_string-version_to_string http09 = refl
version_from_string-version_to_string http10 = refl
version_from_string-version_to_string http11 = refl
version_from_string-version_to_string http2 = refl
version_from_string-version_to_string http3 = refl

method_to_string-Avoids : (m : Method) → Avoids b' ' (method_to_string m)
unfolding method_to_string
method_to_string-Avoids get = ground arith
method_to_string-Avoids post = ground arith
method_to_string-Avoids put = ground arith
method_to_string-Avoids head = ground arith
method_to_string-Avoids delete = ground arith
method_to_string-Avoids patch = ground arith
method_to_string-Avoids options = ground arith

version_to_string-Avoids : (v : Version) → Avoids b' ' (version_to_string v)
unfolding version_to_string
version_to_string-Avoids http09 = ground arith
version_to_string-Avoids http10 = ground arith
version_to_string-Avoids http11 = ground arith
version_to_string-Avoids http2 = ground arith
version_to_string-Avoids http3 = ground arith

head_loop-space :
    (left i : ℕ) (seg rest : Bytes) (h : Head)
    → Avoids b' ' seg
    → head_loop (suc left) i (seg ++ b' ' ∷ rest) h
      ≡ head_then (head_segment i seg h) (head_loop left (suc i) rest)
unfolding head_loop
head_loop-space left i seg rest h free =
    rw
      (
        head_loop,
        find_first_of-append b' ' seg rest free,
        take-length seg (b' ' ∷ rest),
        drop-suc-length seg b' ' rest,
      )
      refl

head_loop_last :
    (left i : ℕ) (seg : Bytes) (h : Head)
    → Avoids b' ' seg
    → head_loop (suc left) i seg h ≡ head_segment i seg h
unfolding head_loop
head_loop_last left i seg h free = rw (head_loop, find_first_of-none b' ' seg free) refl

-- The first line of a request.
unfoldable pub head_text : Method → Bytes → Version → Bytes
head_text m uri v = method_to_string m ++ b' ' ∷ (uri ++ b' ' ∷ version_to_string v)

-- A method, a text without a space and a version, with a space between each two, are the first line
-- of a request that is read as the three.
pub parse_head-head_text :
    (m : Method) (uri : Bytes) (v : Version)
    → Avoids b' ' uri
    → parse_head (head_text m uri v) ≡ ok (record { method = some m; version = some v; uri = uri })
unfolding parse_head head_text head_then head_segment set_method set_version
parse_head-head_text m uri v free =
    let tail = uri ++ b' ' ∷ version_to_string v in
    let with_uri : Head = record { method = some m; version = none; uri = uri } in
    head_loop-space 2 0 (method_to_string m) tail unset (method_to_string-Avoids m)
    ∙ ap (λ a. head_then (set_method unset a) (head_loop 2 1 tail))
        (method_from_string-method_to_string m)
    ∙ head_loop-space 1 1 uri (version_to_string v) (record unset { method = some m }) free
    ∙ head_loop_last 0 2 (version_to_string v) with_uri (version_to_string-Avoids v)
    ∙ ap (set_version with_uri) (version_from_string-version_to_string v)
