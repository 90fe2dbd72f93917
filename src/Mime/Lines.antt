-- ===== src/Mime/Lines.antt =====
-- Lines that are joined and split again.
use fsmtp_v.Base.{
  ℕ, List, [], ◌∷◌, ◌++◌, map, ◌≡◌, ◌≢◌, refl, ap, ◌∙◌, arith, ◌==◌, All, All-append, Bool-cases,
  nil-or-cons, inl, inr,
}
use fsmtp_v.Base.Text.{Bytes, Avoids, back, pop_back, getlines, getlines-append}
use fsmtp_v.Mime.{strip_return, get_mime_lines, line_end, get_string_from_lines}

back_last : (s : Bytes) (c : ℕ) → back (s ++ c ∷ []) ≡ c
back_last [] c = refl
back_last (x ∷ []) c = refl
back_last (x ∷ y ∷ s) c = back_last (y ∷ s) c

pop_back_last : (s : Bytes) (c : ℕ) → pop_back (s ++ c ∷ []) ≡ s
pop_back_last [] c = refl
pop_back_last (x ∷ []) c = refl
pop_back_last (x ∷ y ∷ s) c = ap (◌∷◌ x) (pop_back_last (y ∷ s) c)

strip_return-append : (s : Bytes) → strip_return (s ++ 13 ∷ []) ≡ s
unfolding strip_return
strip_return-append s = rw (back_last s 13) (pop_back_last s 13)

append_line : (s t : Bytes) → s ++ line_end ++ t ≡ (s ++ 13 ∷ []) ++ 10 ∷ t
append_line [] t = refl
append_line (x ∷ s) t = ap (◌∷◌ x) (append_line s t)

-- Lines without a line feed are read back from the text that joins them.
pub get_mime_lines-get_string_from_lines :
    (lines : List Bytes)
    → All (Avoids 10) lines
    → get_mime_lines (get_string_from_lines lines) ≡ lines
unfolding get_mime_lines get_string_from_lines
get_mime_lines-get_string_from_lines [] h = unfold getlines in refl
get_mime_lines-get_string_from_lines (line ∷ lines) h =
    let rest = get_string_from_lines lines in
    let free : Avoids 10 (line ++ 13 ∷ []) =
      All-append (λ x. x ≢ 10) line (13 ∷ []) h.0 (omega arith, tt) in
    ap (λ t. map strip_return (getlines 10 t)) (append_line line rest)
    ∙ ap (map strip_return) (getlines-append 10 (line ++ 13 ∷ []) rest free)
    ∙ ap (λ (l : Bytes). l ∷ map strip_return (getlines 10 rest)) (strip_return-append line)
    ∙ ap (◌∷◌ line) (get_mime_lines-get_string_from_lines lines h.1)

-- No line that `getline` reads holds a line feed.
getlines-Avoids : (s : Bytes) → All (Avoids 10) (getlines 10 s)
unfolding getlines
getlines-Avoids [] = tt
getlines-Avoids (x ∷ s) =
    let read = getlines-Avoids s in
    elim (Bool-cases (x == 10)) [
      | inl e ↦ rw (e, getlines) (tt, read)
      | inr e ↦
          let other : x ≢ 10 = ground (arith, e) in
          elim (nil-or-cons (getlines 10 s)) [
            | inl none ↦ rw (e, none, getlines) ((other, tt), tt)
            | inr (line, lines, some) ↦
                let free = rw some at read in rw (e, some, getlines) ((other, free.0), free.1)
          ]
    ]

pub pop_back-All : (P : ℕ → Type 0) (s : Bytes) → All P s → All P (pop_back s)
pop_back-All P [] h = tt
pop_back-All P (x ∷ []) h = tt
pop_back-All P (x ∷ y ∷ s) h = (h.0, pop_back-All P (y ∷ s) h.1)

strip_return-Avoids : (s : Bytes) → Avoids 10 s → Avoids 10 (strip_return s)
unfolding strip_return
strip_return-Avoids s h = elim (Bool-cases (back s == 13)) [
  | inl e ↦ rw (e, strip_return) (pop_back-All (λ x. x ≢ 10) s h)
  | inr e ↦ rw (e, strip_return) h
]

strip_returns-Avoids :
    (lines : List Bytes) → All (Avoids 10) lines → All (Avoids 10) (map strip_return lines)
strip_returns-Avoids [] h = tt
strip_returns-Avoids (line ∷ lines) h =
    (strip_return-Avoids line h.0, strip_returns-Avoids lines h.1)

-- No line of a message holds a line feed.
pub get_mime_lines-Avoids : (raw : Bytes) → All (Avoids 10) (get_mime_lines raw)
unfolding get_mime_lines
get_mime_lines-Avoids raw = strip_returns-Avoids (getlines 10 raw) (getlines-Avoids raw)
