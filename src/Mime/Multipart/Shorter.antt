-- ===== src/Mime/Multipart/Shorter.antt =====
-- The parts of a multipart body are shorter than the body.
use fsmtp_v.Base.{
  ℕ, suc, ◌+◌, ◌≤◌, ◌<◌, List, [], ◌∷◌, Option, none, some, length, length-append, All, All-append,
  All-map, arith,
}
use fsmtp_v.Base.Text.{Bytes}
use fsmtp_v.Mime.Multipart.{
  Hit, no_hit, start_hit, end_hit, boundary_hit, close_section, extend_section, split_step,
  split_sections, split_multipart_message,
}

-- The length of the section that is open.
abbrev open_length : Option (List Bytes) → ℕ
open_length none = 0
open_length (some section) = length section

abbrev pub Shorter : ℕ → List (List Bytes) → Type 0
Shorter n = All λ section. length section < n

Shorter-le : (n n' : ℕ) (parts : List (List Bytes)) → n ≤ n' → Shorter n parts → Shorter n' parts
Shorter-le n n' parts le h = All-map (λ section below. omega (arith, le, below)) parts h

close_section-Shorter :
    (section : Option (List Bytes)) (n : ℕ)
    → open_length section < n
    → Shorter n (close_section section)
unfolding close_section
close_section-Shorter none n h = tt
close_section-Shorter (some section) n h = (h, tt)

extend_section-length :
    (section : Option (List Bytes)) (line : Bytes)
    → open_length (extend_section section line) ≤ suc (open_length section)
unfolding extend_section
extend_section-length none line = omega arith
extend_section-length (some section) line = omega (arith, length-append section (line ∷ []))

split_step-Shorter :
    (again : Option (List Bytes) → List (List Bytes)) (section : Option (List Bytes)) (line : Bytes)
    (hit : Hit) (n : ℕ)
    → ((s : Option (List Bytes)) → Shorter (open_length s + n) (again s))
    → Shorter (open_length section + suc n) (split_step again section line hit)
unfolding split_step
split_step-Shorter again section line no_hit n h =
    let longer = extend_section section line in
    Shorter-le (open_length longer + n) (open_length section + suc n) (again longer)
      (omega (arith, extend_section-length section line)) (h longer)
split_step-Shorter again section line start_hit n h =
    All-append (λ s. length s < open_length section + suc n) (close_section section)
      (again (some [])) (close_section-Shorter section (open_length section + suc n) (omega arith))
      (Shorter-le (0 + n) (open_length section + suc n) (again (some [])) (omega arith)
        (h (some [])))
split_step-Shorter again section line end_hit n h =
    close_section-Shorter section (open_length section + suc n) (omega arith)

split_sections-Shorter :
    (boundary : Bytes) (lines : List Bytes) (section : Option (List Bytes))
    → Shorter (open_length section + length lines) (split_sections boundary lines section)
unfolding split_sections
split_sections-Shorter boundary [] section = tt
split_sections-Shorter boundary (line ∷ lines) section =
    split_step-Shorter (split_sections boundary lines) section line (boundary_hit boundary line)
      (length lines) (split_sections-Shorter boundary lines)

pub split_multipart_message-Shorter :
    (boundary : Bytes) (lines : List Bytes)
    → Shorter (length lines) (split_multipart_message boundary lines)
unfolding split_multipart_message
split_multipart_message-Shorter boundary lines =
    Shorter-le (0 + length lines) (length lines) _ (omega arith)
      (split_sections-Shorter boundary lines none)
