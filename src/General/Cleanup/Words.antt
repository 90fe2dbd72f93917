-- ===== src/General/Cleanup/Words.antt =====
-- Words joined by single spaces go through `reduce_whitespace` unchanged, and `getline` gives the
-- words back: what the command parsers rely on.
use mathlib.Core.List.{append-nil}
use fsmtp_v.Base.{ℕ, Bool, true, false, List, [], ◌∷◌, ◌++◌, ◌≡◌, ◌≢◌, refl, ap, ◌∙◌, arith, All}
use fsmtp_v.Base.Text.{Bytes, back, erase_front, Avoids, getlines, getlines-append, getlines_last}
use fsmtp_v.General.Cleanup.{reduce_loop, reduce_whitespace, remove_first_and_last_white}

-- A word of a command line: not empty, and without a space.
abbrev pub IsWord : Bytes → Type 0
IsWord [] = ⊥
IsWord (c ∷ w) = Avoids b' ' (c ∷ w)

-- What `build` writes behind a command: a space before each word.
unfoldable pub spaced : List Bytes → Bytes
spaced [] = []
spaced (w ∷ ws) = b' ' ∷ (w ++ spaced ws)

reduce_loop-word :
    (w : Bytes) (lww : Bool) (rest : Bytes)
    → IsWord w
    → reduce_loop lww (w ++ rest) ≡ w ++ reduce_loop false rest
unfolding reduce_loop
reduce_loop-word [] lww rest h = absurd h
reduce_loop-word (c ∷ []) lww rest h = ground arith
reduce_loop-word (c ∷ d ∷ w) lww rest h = ground (arith, reduce_loop-word (d ∷ w) false rest h.1)

reduce_loop_space : (rest : Bytes) → reduce_loop false (b' ' ∷ rest) ≡ b' ' ∷ reduce_loop true rest
unfolding reduce_loop
reduce_loop_space rest = refl

reduce_loop-spaced : (ws : List Bytes) → All IsWord ws → reduce_loop false (spaced ws) ≡ spaced ws
unfolding spaced
reduce_loop-spaced [] h = unfold reduce_loop in refl
reduce_loop-spaced (w ∷ ws) h =
    reduce_loop_space (w ++ spaced ws)
    ∙ ap (◌∷◌ b' ')
        (reduce_loop-word w true (spaced ws) h.0 ∙ ap (◌++◌ w) (reduce_loop-spaced ws h.1))

-- The words without the space in front of the first.
unfoldable pub joined : List Bytes → Bytes
unfolding spaced
joined ws = erase_front (spaced ws)

reduce_loop-joined : (ws : List Bytes) → All IsWord ws → reduce_loop false (joined ws) ≡ joined ws
unfolding joined
reduce_loop-joined [] h = unfold reduce_loop in refl
reduce_loop-joined (w ∷ ws) h =
    reduce_loop-word w false (spaced ws) h.0 ∙ ap (◌++◌ w) (reduce_loop-spaced ws h.1)

back-append : (s : Bytes) (c : ℕ) (t : Bytes) → back (s ++ c ∷ t) ≡ back (c ∷ t)
back-append [] c t = refl
back-append (x ∷ []) c t = refl
back-append (x ∷ y ∷ s) c t = back-append (y ∷ s) c t

back-word : (w : Bytes) → IsWord w → back w ≢ b' '
back-word [] h = absurd h
back-word (c ∷ []) h = h.0
back-word (c ∷ d ∷ w) h = back-word (d ∷ w) h.1

back-words : (w : Bytes) (ws : List Bytes) → IsWord w → All IsWord ws → back (w ++ spaced ws) ≢ b' '
unfolding spaced
back-words w [] h k = rw append-nil (back-word w h)
back-words w ([] ∷ ws) h k = absurd k.0
back-words w ((c ∷ v) ∷ ws) h k =
    rw (back-append w b' ' ((c ∷ v) ++ spaced ws)) (back-words (c ∷ v) ws k.0 k.1)

remove-joined :
    (w : Bytes) (ws : List Bytes)
    → IsWord w
    → All IsWord ws
    → remove_first_and_last_white (w ++ spaced ws) ≡ w ++ spaced ws
unfolding remove_first_and_last_white
remove-joined [] ws h k = absurd h
remove-joined (c ∷ w) ws h k = ground (arith, h.0, back-words (c ∷ w) ws h k)

remove-spaced :
    (w : Bytes) (ws : List Bytes)
    → IsWord w
    → All IsWord ws
    → remove_first_and_last_white (b' ' ∷ (w ++ spaced ws)) ≡ w ++ spaced ws
unfolding remove_first_and_last_white
remove-spaced [] ws h k = absurd h
remove-spaced (c ∷ w) ws h k = ground (arith, back-words (c ∷ w) ws h k)

pub reduce_whitespace-spaced :
    (ws : List Bytes) → All IsWord ws → reduce_whitespace (spaced ws) ≡ joined ws
unfolding reduce_whitespace
reduce_whitespace-spaced [] h = unfold spaced joined reduce_loop remove_first_and_last_white in refl
reduce_whitespace-spaced (w ∷ ws) h =
    rw (reduce_loop-spaced (w ∷ ws) h) (unfold joined in remove-spaced w ws h.0 h.1)

pub reduce_whitespace-joined :
    (ws : List Bytes) → All IsWord ws → reduce_whitespace (joined ws) ≡ joined ws
unfolding reduce_whitespace
reduce_whitespace-joined [] h = unfold joined reduce_loop remove_first_and_last_white in refl
reduce_whitespace-joined (w ∷ ws) h =
    rw (reduce_loop-joined (w ∷ ws) h) (unfold joined in remove-joined w ws h.0 h.1)

-- A cleaned text goes through unchanged a second time.
pub remove_first_and_last_white-joined :
    (ws : List Bytes) → All IsWord ws → remove_first_and_last_white (joined ws) ≡ joined ws
remove_first_and_last_white-joined [] h = unfold joined remove_first_and_last_white in refl
remove_first_and_last_white-joined (w ∷ ws) h = unfold joined in remove-joined w ws h.0 h.1

-- `getline` on spaces gives the words back.
pub getlines-joined : (ws : List Bytes) → All IsWord ws → getlines b' ' (joined ws) ≡ ws
unfolding joined
getlines-joined [] h = unfold getlines in refl
getlines-joined ([] ∷ ws) h = absurd h.0
getlines-joined ((c ∷ w) ∷ []) h = rw append-nil (getlines_last b' ' c w h.0)
getlines-joined ((c ∷ w) ∷ v ∷ ws) h =
    getlines-append b' ' (c ∷ w) (v ++ spaced ws) h.0
    ∙ ap (◌∷◌ (c ∷ w)) (getlines-joined (v ∷ ws) h.1)
