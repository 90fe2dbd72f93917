-- ===== src/Smtp/Response/ReadBack.antt =====
-- What the server writes, the client reads as the code that was meant.
use mathlib.Core.List.{append_assoc}
use mathlib.Core.Path.{subst}
use fsmtp_v.Base.{
  ◌≤◌, List, [], ◌∷◌, ◌++◌, Option, none, some, ◌≡◌, refl, ap, ◌∙◌, sym, arith, length, All,
}
use fsmtp_v.Base.Text.{Bytes, codes, Avoids-find_first_of, find_first_of}
use fsmtp_v.Base.Numbers.{to_string}
use fsmtp_v.Models.EmailAddress.{Attempt, ok, throws}
use fsmtp_v.Smtp.Reply.{ResponseType}
use fsmtp_v.Smtp.Response.{
  Service, build_services, crlf, get_code, get_enhanced_code, get_message, build_with, build,
  Config, ServerResponse,
}
use fsmtp_v.Smtp.Response.Lines.{
  receive-single, received-code, read_reply-several, service_lines, wire, build_services-wire,
  read_services,
}
use fsmtp_v.Smtp.Client.{reply, receive}
use fsmtp_v.Smtp.Response.NoFeed.{
  NoFeed, NoFeed-append, get_code-Spelled, enhanced-NoFeed, ServiceNoFeed, service_lines-NoFeed,
}

-- At most as many services as a reply can have lines behind its first, and no list without any; none
-- of their texts has a line feed.
abbrev pub Fits : Option (List Service) → Type 0
Fits none = Unit
Fits (some []) = ⊥
Fits (some (s ∷ ss)) = (length (s ∷ ss) ≤ 399) × All ServiceNoFeed (s ∷ ss)

-- A text is lines, each up to its line feed, and the client reads the code from them.
abbrev pub ReadsBack : ResponseType → Bytes → Type 0
ReadsBack t text =
    (lines : List Bytes) × (text ≡ wire lines)
    × All NoFeed lines
    × ((rest : List Bytes)
        → (args : Bytes) × (receive (lines ++ rest) ≡ reply (get_code t) args rest))

abbrev AttemptReadsBack : ResponseType → Attempt Bytes → Type 0
AttemptReadsBack t (ok text) = ReadsBack t text
AttemptReadsBack t (throws what) = Unit

single-ReadsBack :
    (t : ResponseType) (message : Bytes)
    → NoFeed message
    → AttemptReadsBack t (build_with t none (ok message))
unfolding build_with wire find_first_of
single-ReadsBack t message quiet =
    let end_feed : NoFeed (codes " - fsmtp") = Avoids-find_first_of 10 (codes " - fsmtp") refl in
    let c = get_code-Spelled t in
    let enhanced = get_enhanced_code t in
    let said = message ++ codes " - fsmtp" in
    let line : Bytes = c.x ∷ c.y ∷ c.z ∷ b' ' ∷ (enhanced ++ said) in
    let said_feed = NoFeed-append message (codes " - fsmtp") quiet end_feed in
    let text_feed = NoFeed-append enhanced said (enhanced-NoFeed t) said_feed in
    let digits : NoFeed line =
      NoFeed-append (c.x ∷ c.y ∷ c.z ∷ []) (b' ' ∷ (enhanced ++ said)) c.no_feed
        (omega arith, text_feed) in
    let ends : (enhanced ++ said) ++ crlf ≡ enhanced ++ (message ++ codes " - fsmtp\r\n") =
      append_assoc enhanced said crlf
      ∙ ap (◌++◌ enhanced) (append_assoc message (codes " - fsmtp") crlf) in
    (
      line ∷ [],
      ap (λ (d : Bytes). d ++ b' ' ∷ (enhanced ++ (message ++ codes " - fsmtp\r\n"))) c.spelled
          ∙ ap (λ (b : Bytes). c.x ∷ c.y ∷ c.z ∷ b' ' ∷ b) (sym ends),
      (digits, tt),
      λ rest. receive-single c.x c.y c.z (get_code t) c.is (enhanced ++ said) rest,
    )

several-ReadsBack :
    (t : ResponseType) (message : Bytes) (s : Service) (ss : List Service)
    → NoFeed message
    → length (s ∷ ss) ≤ 399
    → All ServiceNoFeed (s ∷ ss)
    → AttemptReadsBack t (build_with t (some (s ∷ ss)) (ok message))
unfolding build_with wire
several-ReadsBack t message s ss quiet fits services_feed =
    let c = get_code-Spelled t in
    let code = get_code t in
    let line : Bytes = c.x ∷ c.y ∷ c.z ∷ b'-' ∷ message in
    let code_feed : NoFeed (to_string code) = rw (c.spelled) c.no_feed in
    let line_feed : NoFeed line =
      NoFeed-append (c.x ∷ c.y ∷ c.z ∷ []) (b'-' ∷ message) c.no_feed (omega arith, quiet) in
    (
      line ∷ service_lines code (s ∷ ss),
      ap (λ (d : Bytes). d ++ b'-' ∷ (message ++ (crlf ++ build_services code (s ∷ ss)))) c.spelled
          ∙ ap (λ (b : Bytes). line ++ (crlf ++ b)) (build_services-wire code (s ∷ ss)),
      (line_feed, service_lines-NoFeed code (s ∷ ss) code_feed services_feed),
      λ rest.
          let later = service_lines code (s ∷ ss) ++ rest in
          let raw : Bytes = c.x ∷ c.y ∷ c.z ∷ b' ' ∷ message in
          let (more, reads) =
            read_services c.x c.y c.z code c.is 399 raw s ss rest c.spelled fits in
          received-code c.x c.y c.z code c.is (message ++ more) (line ∷ later) rest
            (read_reply-several c.x c.y c.z code c.is message later ∙ reads),
    )

build_with-ReadsBack :
    (t : ResponseType) (services : Option (List Service)) (message : Bytes)
    → NoFeed message
    → Fits services
    → AttemptReadsBack t (build_with t services (ok message))
build_with-ReadsBack t none message quiet fits = single-ReadsBack t message quiet
build_with-ReadsBack t (some []) message quiet fits = absurd fits
build_with-ReadsBack t (some (s ∷ ss)) message quiet fits =
    several-ReadsBack t message s ss quiet (fits.0) (fits.1)

-- Each text that the server builds for a response is lines without a line feed, with an end behind
-- each, from which the client reads the code of the response's type, whatever lines follow; if the
-- message of the response and the texts of its services have no line feed, and its list of services,
-- if it has one, is not empty and has at most 399.
pub build-ReadsBack :
    (conf : Config) (r : ServerResponse) (message text : Bytes)
    → get_message conf r ≡ ok message
    → NoFeed message
    → Fits r.services
    → build conf r ≡ ok text
    → ReadsBack r.response text
unfolding build
build-ReadsBack conf r message text said quiet fits e =
    let built : build_with r.response r.services (ok message) ≡ ok text = rw (said) at e in
    subst (AttemptReadsBack r.response) built
      (build_with-ReadsBack r.response r.services message quiet fits)
