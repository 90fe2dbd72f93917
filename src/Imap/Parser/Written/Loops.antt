-- ===== src/Imap/Parser/Written/Loops.antt =====
-- The loops of the parser over arguments, at the head and in a list, by their steps.
use fsmtp_v.Base.{
  ℕ, Bool, true, false, zero, suc, ◌+◌, ◌*◌, ◌≤◌, ◌<◌, List, [], ◌∷◌, ◌++◌, none, some, length,
  get_elem?, get_elem?_bound, get_elem?-none, ◌≡◌, refl, ap, ◌∙◌, arith,
}
use fsmtp_v.Imap.Lexer.{Token, wsp}
use fsmtp_v.Imap.Parser.{
  Arguments, empty, Parsed, ok, Loop, list_loop, section_loop, close, skip, child, action, State,
  analyze, analyze_token, children, child_token, child_action, analyze_head, scan_head, parse,
}
use fsmtp_v.Imap.Parser.Written.{At, At-append, joined, empty-joined}

-- The result of the loop at the head, or of one in a list.
abbrev pub Result : Bool → Type 0
Result true = Parsed Arguments
Result false = Parsed State

-- A loop over arguments, by its index in front of a token, with what its fuel leaves to `analyze`.
pub record Scan (ts : List Token) (head : Bool) : Type 0 where
  pub at_index : ℕ → ℕ → Arguments → Result head
  skips :
      (f k : ℕ) (target : Arguments)
      → get_elem? ts k ≡ some wsp
      → at_index (suc f) k target ≡ at_index f (suc k) target
  takes :
      (f k j : ℕ) (target more : Arguments) (t : Token)
      → get_elem? ts k ≡ some t
      → ((loop : Loop) → action loop t ≡ child)
      → 2 * length ts + 2 ≤ suc f + 2 * k
      → ((F : ℕ) → 2 * length ts + 2 ≤ F + 2 * k → analyze F ts k target ≡ ok (j, more))
      → at_index (suc f) k target ≡ at_index f (suc j) more

action-wsp : (loop : Loop) → action loop wsp ≡ skip
action-wsp list_loop = refl
action-wsp section_loop = refl

module _ (loop : Loop) (ts : List Token) where
  pub children_at : ℕ → ℕ → Arguments → Parsed State
  children_at f k target =
      child_token (analyze f ts k) (children f loop ts) loop k target (get_elem? ts k)

  children_at-skip :
      (f k : ℕ) (target : Arguments)
      → get_elem? ts k ≡ some wsp
      → children_at (suc f) k target ≡ children_at f (suc k) target
  unfolding children_at child_token child_action children
  children_at-skip f k target e = rw (e, child_token, action-wsp loop, child_action) refl

  children_at-child :
      (f k j : ℕ) (target more : Arguments) (t : Token)
      → get_elem? ts k ≡ some t
      → ((loop : Loop) → action loop t ≡ child)
      → 2 * length ts + 2 ≤ suc f + 2 * k
      → ((F : ℕ) → 2 * length ts + 2 ≤ F + 2 * k → analyze F ts k target ≡ ok (j, more))
      → children_at (suc f) k target ≡ children_at f (suc j) more
  unfolding children_at child_token child_action children
  children_at-child f k j target more t e opens enough one =
      rw (e, child_token, opens loop, child_action, one (suc f) enough) refl

analyze-wsp :
    (F : ℕ) (ts : List Token) (k : ℕ) (target : Arguments)
    → 0 < F
    → get_elem? ts k ≡ some wsp
    → analyze F ts k target ≡ ok (k, target)
unfolding analyze analyze_token
analyze-wsp (suc F) ts k target h e = rw (e) refl
analyze-wsp zero ts k target h e = absurd (omega (arith, h))

module _ (ts : List Token) where
  pub head_at : ℕ → ℕ → Arguments → Parsed Arguments
  head_at f k target = scan_head (analyze_head f ts k) target (get_elem? ts k)

  head_at-skip :
      (f k : ℕ) (target : Arguments)
      → get_elem? ts k ≡ some wsp
      → head_at (suc f) k target ≡ head_at f (suc k) target
  unfolding head_at scan_head analyze_head analyze analyze_token
  head_at-skip f k target e =
      rw (e, scan_head, analyze_head, analyze-wsp (2 * length ts + 2) ts k target (omega arith) e)
        refl

  head_at-child :
      (f k j : ℕ) (target more : Arguments) (t : Token)
      → get_elem? ts k ≡ some t
      → ((loop : Loop) → action loop t ≡ child)
      → 2 * length ts + 2 ≤ suc f + 2 * k
      → ((F : ℕ) → 2 * length ts + 2 ≤ F + 2 * k → analyze F ts k target ≡ ok (j, more))
      → head_at (suc f) k target ≡ head_at f (suc j) more
  unfolding head_at scan_head analyze_head
  head_at-child f k j target more t e opens enough one =
      rw (e, scan_head, analyze_head, one (2 * length ts + 2) (omega arith)) refl

head_at-end :
    (ts : List Token) (f k : ℕ) (target : Arguments)
    → get_elem? ts k ≡ none
    → head_at ts f k target ≡ ok target
unfolding head_at scan_head
head_at-end ts f k target e = rw (e, scan_head) refl

pub children_scan : (loop : Loop) (ts : List Token) → Scan ts false
children_scan loop ts = record {
  at_index = children_at loop ts;
  skips = children_at-skip loop ts;
  takes = children_at-child loop ts;
}

pub head_scan : (ts : List Token) → Scan ts true
head_scan ts = record { at_index = head_at ts; skips = head_at-skip ts; takes = head_at-child ts }

-- What is left of the fuel, with the result behind the tokens.
abbrev pub After :
    {head : Bool} (ts : List Token) → Scan ts head → ℕ → ℕ → Arguments → ℕ → Arguments → Type 0
After ts scan f k target k' more =
    (f' : ℕ) × (scan.at_index f k target ≡ scan.at_index f' k' more)
    × (2 * length ts + 2 ≤ f' + 2 * k')

-- One more space.
pub skip_space :
    {head : Bool} (ts : List Token) (scan : Scan ts head) (f k : ℕ) (target : Arguments)
    → get_elem? ts k ≡ some wsp
    → 2 * length ts + 2 ≤ f + 2 * k
    → After ts scan f k target (suc k) target
skip_space ts scan zero k target e enough =
    absurd (omega (arith, enough, get_elem?_bound ts k wsp e))
skip_space ts scan (suc f) k target e enough = (f, scan.skips f k target e, omega (arith, enough))

pub take_item :
    {head : Bool} (ts : List Token) (scan : Scan ts head) (f k j : ℕ) (target more : Arguments)
    (t : Token)
    → get_elem? ts k ≡ some t
    → ((loop : Loop) → action loop t ≡ child)
    → k ≤ j
    → ((F : ℕ) → 2 * length ts + 2 ≤ F + 2 * k → analyze F ts k target ≡ ok (j, more))
    → 2 * length ts + 2 ≤ f + 2 * k
    → After ts scan f k target (suc j) more
take_item ts scan zero k j target more t e opens le one enough =
    absurd (omega (arith, enough, get_elem?_bound ts k t e))
take_item ts scan (suc f) k j target more t e opens le one enough =
    (f, scan.takes f k j target more t e opens enough one, omega (arith, enough, le))

-- One run of tokens behind another.
pub After-then :
    {head : Bool} (ts : List Token) (scan : Scan ts head) (f k k' k'' : ℕ) (a b c : Arguments)
    → (first : After ts scan f k a k' b) → After ts scan (first.0) k' b k'' c
    → After ts scan f k a k'' c
After-then ts scan f k k' k'' a b c first second = (second.0, first.1 ∙ second.1, second.2)

children_at-close :
    (loop : Loop) (ts : List Token) (f k : ℕ) (target : Arguments) (t : Token)
    → get_elem? ts k ≡ some t
    → action loop t ≡ close
    → children_at loop ts f k target ≡ ok (k, target)
unfolding children_at child_token child_action
children_at-close loop ts f k target t e closes = rw (e, child_token, closes, child_action) refl

children-After :
    (ts : List Token) (loop : Loop) (t : Token) (args : Arguments) (F k m j : ℕ)
    → (inside : After ts (children_scan loop ts) F (suc k) empty m (joined empty args))
    → get_elem? ts m ≡ some t
    → action loop t ≡ close
    → m ≡ j
    → children (suc F) loop ts k empty ≡ ok (j, args)
unfolding children children_at children_scan
children-After ts loop t args F k m j inside e closes same =
    inside.1
    ∙ children_at-close loop ts (inside.0) m (joined empty args) t e closes
    ∙ ap (λ n. ok (n, joined empty args)) same
    ∙ ap (λ x. ok (j, x)) (empty-joined args)

pub children-Written :
    (ts : List Token) (loop : Loop) (t : Token) (args : Arguments) (us : List Token)
    → ((f k m : ℕ)
        → At ts k us
        → 2 * length ts + 2 ≤ f + 2 * k
        → m ≡ k + length us
        → After ts (children_scan loop ts) f k empty m (joined empty args))
    → action loop t ≡ close
    → (F k j : ℕ) → At ts (suc k) (us ++ t ∷ [])
    → 2 * length ts + 1 ≤ F + 2 * k
    → j ≡ k + suc (length us)
    → children F loop ts k empty ≡ ok (j, args)
children-Written ts loop t args us scans closes zero k j at enough e =
    let parts = At-append ts (suc k) us (t ∷ []) at in
    absurd (omega (arith, enough, get_elem?_bound ts (suc k + length us) t (parts.1.0)))
children-Written ts loop t args us scans closes (suc F) k j at enough e =
    let m = suc k + length us in
    let parts = At-append ts (suc k) us (t ∷ []) at in
    let inside = scans F (suc k) m (parts.0) (omega (arith, enough)) refl in
    children-After ts loop t args F k m j inside (parts.1.0) closes (omega (arith, e))

pub parse-After :
    (args : Arguments) (t : Token) (ts : List Token)
    → (all : After
        (t ∷ ts)
        (head_scan (t ∷ ts))
        (2 * length (t ∷ ts) + 2)
        0
        empty
        (length (t ∷ ts))
        (joined empty args))
    → parse (t ∷ ts) ≡ ok args
unfolding parse head_at head_scan
parse-After args t ts all =
    let us = t ∷ ts in
    all.1
    ∙ head_at-end us (all.0) (length us) (joined empty args)
        (get_elem?-none us (length us) (omega arith))
    ∙ ap ok (empty-joined args)
