-- ===== src/Imap/Parser/Terminates.antt =====
-- Every loop of the parser ends: the fuel that `parse` gives is enough for any tokens.
use fsmtp_v.Base.{
  ℕ, zero, suc, ◌+◌, ◌-◌, ◌*◌, ◌≤◌, ◌<◌, List, [], ◌∷◌, ◌++◌, none, some, Option, length, get_elem?,
  get_elem?_bound, ◌≡◌, ◌≢◌, refl, arith,
}
use fsmtp_v.Base.Text.{Bytes}
use fsmtp_v.Imap.Lexer.{Token, rparen, quote, rbracket, wsp, colon, other, number}
use fsmtp_v.Imap.Parser.{
  Arguments, empty, push_back, string, section, list, Parsed, ok, syntax, not_implemented,
  undefined, out_of_fuel, bind, range_end, range_start, parse_range, parse_string, string_token,
  content_of, Loop, list_loop, section_loop, Action, close, skip, child, action, analyze,
  analyze_token, children, child_token, child_action, analyze_head, scan_head, parse, State,
}

-- The call ends, at an index `j` with `i ≤ j < n` if it has a result.
abbrev Ends {ℓ} : {A : Type ℓ} → ℕ → ℕ → Parsed (ℕ × A) → Type 0
Ends n i (ok (j, a)) = (i ≤ j) × (j < n)
Ends n i out_of_fuel = 1 ≤ 0
Ends n i _ = Unit

Ends-bind {ℓ κ} :
    {A : Type ℓ} {B : Type κ} (n i i' : ℕ) (p : Parsed (ℕ × A)) (f : ℕ × A → Parsed (ℕ × B))
    → Ends n i p
    → ((j : ℕ) (a : A) → i ≤ j → j < n → Ends n i' (f (j, a)))
    → Ends n i' (bind p f)
Ends-bind n i i' (ok (j, a)) f h k = k j a h.0 h.1
Ends-bind n i i' (syntax e m) f h k = tt
Ends-bind n i i' not_implemented f h k = tt
Ends-bind n i i' undefined f h k = tt
Ends-bind n i i' out_of_fuel f h k = absurd (omega (arith, h))

Ends-weaken {ℓ} : {A : Type ℓ} (n i i' : ℕ) (p : Parsed (ℕ × A)) → i ≤ i' → Ends n i' p → Ends n i p
Ends-weaken n i i' (ok (j, a)) le h = (omega (arith, le, h.0), h.1)
Ends-weaken n i i' (syntax e m) le h = tt
Ends-weaken n i i' not_implemented le h = tt
Ends-weaken n i i' undefined le h = tt
Ends-weaken n i i' out_of_fuel le h = h

Ends-result {ℓ κ} :
    {A : Type ℓ} {B : Type κ} (n i : ℕ) (p : Parsed (ℕ × A)) (f : A → B)
    → Ends n i p
    → Ends n i (bind p λ (j, a). ok (j, f a))
Ends-result n i (ok (j, a)) f h = h
Ends-result n i (syntax e m) f h = tt
Ends-result n i not_implemented f h = tt
Ends-result n i undefined f h = tt
Ends-result n i out_of_fuel f h = h

range_end-Ends :
    (ts : List Token) (i from : ℕ) (target : Arguments) (o : Option Token)
    → i < length ts
    → get_elem? ts (suc i) ≡ o
    → Ends (length ts) i (range_end i from o target)
unfolding range_end
range_end-Ends ts i from target none h e = tt
range_end-Ends ts i from target (some (other s)) h e =
    (omega arith, get_elem?_bound ts (suc i) (other s) e)
range_end-Ends ts i from target (some (number to)) h e =
    (omega arith, get_elem?_bound ts (suc i) (number to) e)
range_end-Ends ts i from target (some _) h e = tt

range_start-Ends :
    (ts : List Token) (i : ℕ) (target : Arguments) (o : Option Token)
    → i < length ts
    → Ends (length ts) i (range_start ts i target o)
unfolding range_start
range_start-Ends ts i target (some (number from)) h =
    range_end-Ends ts i from target (get_elem? ts (suc i)) h refl
range_start-Ends ts i target _ h = tt

parse_range-Ends :
    (ts : List Token) (i : ℕ) (target : Arguments)
    → i < length ts
    → Ends (length ts) i (parse_range ts i target)
unfolding parse_range
parse_range-Ends ts i empty h = tt
parse_range-Ends ts i (push_back args a) h =
    range_start-Ends ts i (push_back args a) (get_elem? ts (i - 1)) h

string_token-Ends :
    (ts : List Token) (i : ℕ) (again : Bytes → Parsed (ℕ × Bytes)) (content : Bytes)
    (o : Option Token)
    → get_elem? ts (suc i) ≡ o
    → ((more : Bytes) → suc i < length ts → Ends (length ts) (suc i) (again more))
    → Ends (length ts) i (string_token again (suc i) content o)
unfolding string_token
string_token-Ends ts i again content none e rest = tt
string_token-Ends ts i again content (some quote) e rest =
    (omega arith, get_elem?_bound ts (suc i) quote e)
string_token-Ends ts i again content (some t) e rest =
    let more = content ++ content_of t in
    Ends-weaken (length ts) i (suc i) (again more) (omega arith)
      (rest more (get_elem?_bound ts (suc i) t e))

parse_string-Ends :
    (fuel : ℕ) (ts : List Token) (i : ℕ) (content : Bytes)
    → i < length ts
    → length ts ≤ fuel + i
    → Ends (length ts) i (parse_string fuel ts i content)
unfolding parse_string
parse_string-Ends zero ts i content h enough = omega (arith, h, enough)
parse_string-Ends (suc fuel) ts i content h enough =
    string_token-Ends ts i (parse_string fuel ts (suc i)) content (get_elem? ts (suc i)) refl
      λ more below. parse_string-Ends fuel ts (suc i) more below (omega (arith, enough))

analyze_token-Ends :
    (loops : Loop → Arguments → Parsed State) (ts : List Token) (i : ℕ) (target : Arguments)
    (o : Option Token)
    → i < length ts
    → ((loop : Loop) → Ends (length ts) i (loops loop empty))
    → Ends (length ts) i (analyze_token loops ts i target o)
unfolding analyze_token
analyze_token-Ends loops ts i target none h deeper = tt
analyze_token-Ends loops ts i target (some rparen) h deeper =
    Ends-result (length ts) i (loops list_loop empty) (λ kids. push_back target (list kids))
      (deeper list_loop)
analyze_token-Ends loops ts i target (some rbracket) h deeper =
    Ends-result (length ts) i (loops section_loop empty) (λ kids. push_back target (section kids))
      (deeper section_loop)
analyze_token-Ends loops ts i target (some quote) h deeper =
    Ends-result (length ts) i (parse_string (suc (length ts)) ts i [])
      (λ content. push_back target (string content))
      (parse_string-Ends (suc (length ts)) ts i [] h (omega arith))
analyze_token-Ends loops ts i target (some (number n)) h deeper = (omega arith, h)
analyze_token-Ends loops ts i target (some wsp) h deeper = (omega arith, h)
analyze_token-Ends loops ts i target (some (other s)) h deeper = (omega arith, h)
analyze_token-Ends loops ts i target (some colon) h deeper = parse_range-Ends ts i target h
analyze_token-Ends loops ts i target (some _) h deeper = tt

module _ (ts : List Token) (i : ℕ) (item : Arguments → Parsed State)
    (again : ℕ → Arguments → Parsed State) where
  child_action-Ends :
      (target : Arguments) (a : Action)
      → suc i < length ts
      → Ends (length ts) (suc i) (item target)
      → ((j : ℕ) (more : Arguments) → suc i ≤ j → j < length ts → Ends (length ts) j (again j more))
      → Ends (length ts) i (child_action item again (suc i) target a)
  unfolding child_action
  child_action-Ends target close below one rest = (omega arith, below)
  child_action-Ends target skip below one rest =
      Ends-weaken (length ts) i (suc i) (again (suc i) target) (omega arith)
        (rest (suc i) target (omega arith) below)
  child_action-Ends target child below one rest =
      Ends-bind (length ts) (suc i) i (item target) (λ (j, more). again j more) one
        λ j more le bound.
          Ends-weaken (length ts) i j (again j more) (omega (arith, le)) (rest j more le bound)

  child_token-Ends :
      (loop : Loop) (target : Arguments) (o : Option Token)
      → get_elem? ts (suc i) ≡ o
      → (suc i < length ts → Ends (length ts) (suc i) (item target))
      → ((j : ℕ) (more : Arguments) → suc i ≤ j → j < length ts → Ends (length ts) j (again j more))
      → Ends (length ts) i (child_token item again loop (suc i) target o)
  unfolding child_token
  child_token-Ends loop target none e one rest = tt
  child_token-Ends loop target (some t) e one rest =
      let below : suc i < length ts = get_elem?_bound ts (suc i) t e in
      child_action-Ends target (action loop t) below (one below) rest

mutual
  unfolding analyze

  pub analyze-Ends :
      (fuel : ℕ) (ts : List Token) (i : ℕ) (target : Arguments)
      → i < length ts
      → 2 * length ts + 2 ≤ fuel + 2 * i
      → Ends (length ts) i (analyze fuel ts i target)
  analyze-Ends zero ts i target h enough = omega (arith, h, enough)
  analyze-Ends (suc fuel) ts i target h enough =
      analyze_token-Ends (λ loop. children fuel loop ts i) ts i target (get_elem? ts i) h
        λ loop. children-Ends fuel loop ts i empty h (omega (arith, enough))

  children-Ends :
      (fuel : ℕ) (loop : Loop) (ts : List Token) (i : ℕ) (target : Arguments)
      → i < length ts
      → 2 * length ts + 1 ≤ fuel + 2 * i
      → Ends (length ts) i (children fuel loop ts i target)
  children-Ends zero loop ts i target h enough = omega (arith, h, enough)
  children-Ends (suc fuel) loop ts i target h enough =
      child_token-Ends ts i (analyze fuel ts (suc i)) (children fuel loop ts) loop target
        (get_elem? ts (suc i)) refl
        (λ below. analyze-Ends fuel ts (suc i) target below (omega (arith, enough)))
        λ j more le bound. children-Ends fuel loop ts j more bound (omega (arith, le, enough))

-- Nothing but fuel that has run out.
abbrev Halts {ℓ} : {A : Type ℓ} → Parsed A → Type 0
Halts out_of_fuel = 1 ≤ 0
Halts _ = Unit

Halts-bind {ℓ κ} :
    {A : Type ℓ} {B : Type κ} (n i : ℕ) (p : Parsed (ℕ × A)) (f : ℕ × A → Parsed B)
    → Ends n i p
    → ((j : ℕ) (a : A) → i ≤ j → j < n → Halts (f (j, a)))
    → Halts (bind p f)
Halts-bind n i (ok (j, a)) f h k = k j a h.0 h.1
Halts-bind n i (syntax e m) f h k = tt
Halts-bind n i not_implemented f h k = tt
Halts-bind n i undefined f h k = tt
Halts-bind n i out_of_fuel f h k = h

scan_head-Halts :
    (again : Arguments → Parsed Arguments) (ts : List Token) (j : ℕ) (target : Arguments)
    (o : Option Token)
    → get_elem? ts j ≡ o
    → (j < length ts → Halts (again target))
    → Halts (scan_head again target o)
unfolding scan_head
scan_head-Halts again ts j target none e rest = tt
scan_head-Halts again ts j target (some t) e rest = rest (get_elem?_bound ts j t e)

analyze_head-Halts :
    (fuel : ℕ) (ts : List Token) (i : ℕ) (target : Arguments)
    → i < length ts
    → length ts ≤ fuel + i
    → Halts (analyze_head fuel ts i target)
unfolding analyze_head
analyze_head-Halts zero ts i target h enough = omega (arith, h, enough)
analyze_head-Halts (suc fuel) ts i target h enough =
    Halts-bind (length ts) i (analyze (2 * length ts + 2) ts i target)
      (λ (j, more). scan_head (analyze_head fuel ts (suc j)) more (get_elem? ts (suc j)))
      (analyze-Ends (2 * length ts + 2) ts i target h (omega arith))
      λ j more le bound.
        scan_head-Halts (analyze_head fuel ts (suc j)) ts (suc j) more (get_elem? ts (suc j)) refl
          λ below. analyze_head-Halts fuel ts (suc j) more below (omega (arith, le, enough))

ne-Halts {ℓ} : {A : Type ℓ} (p : Parsed A) → Halts p → p ≢ out_of_fuel
ne-Halts (ok a) h e = cc
ne-Halts (syntax i m) h e = cc
ne-Halts not_implemented h e = cc
ne-Halts undefined h e = cc
ne-Halts out_of_fuel h e = omega (arith, h)

-- The parser ends on every sequence of tokens: it has a result, throws, or reads where no token is.
pub parse-ne-out_of_fuel : (ts : List Token) → parse ts ≢ out_of_fuel
unfolding parse
parse-ne-out_of_fuel [] = ne-Halts (parse []) tt
parse-ne-out_of_fuel (t ∷ ts) =
    ne-Halts (parse (t ∷ ts))
      (analyze_head-Halts (2 * length (t ∷ ts) + 2) (t ∷ ts) 0 empty (omega arith) (omega arith))
