-- ===== src/Mime/Multipart/RoundTrip.antt =====
-- The parts of a multipart body, written between boundaries and read back, and how long they are.
use mathlib.Core.List.{append-nil, append_assoc}
use fsmtp_v.Base.{
  false, List, [], ◌∷◌, ◌++◌, Option, none, some, length, length-append, All, ◌≡◌, refl, ap, ◌∙◌,
  arith, sym, Bool-cases, inl, inr,
}
use fsmtp_v.Base.Text.{Bytes, codes, beq, beq_iff}
use fsmtp_v.Mime.Multipart.{
  section_start, section_end, no_hit, start_hit, end_hit, boundary_hit, close_section,
  extend_section, split_step, split_sections, split_multipart_message,
}

-- The parts, each behind the line that starts it, and the line that ends them, before `epilogue`.
abbrev pub join_sections : Bytes → List (List Bytes) → List Bytes → List Bytes
join_sections boundary [] epilogue = section_end boundary ∷ epilogue
join_sections boundary (part ∷ parts) epilogue =
    section_start boundary ∷ part ++ join_sections boundary parts epilogue

-- No line is a boundary.
abbrev pub NoBoundary : Bytes → List Bytes → Type 0
NoBoundary boundary = All λ line. boundary_hit boundary line ≡ no_hit

boundary_hit-section_start :
    (boundary : Bytes) → boundary_hit boundary (section_start boundary) ≡ start_hit
unfolding boundary_hit
boundary_hit-section_start boundary =
    rw ((beq_iff (section_start boundary) (section_start boundary)).1 refl) refl

-- The end is longer than the start, so it is no start.
end_not_start : (boundary : Bytes) → beq (section_end boundary) (section_start boundary) ≡ false
end_not_start boundary = elim (Bool-cases (beq (section_end boundary) (section_start boundary))) [
  | inr e ↦ e
  | inl e ↦
      let same = ap length ((beq_iff (section_end boundary) (section_start boundary)).0 e) in
      absurd (omega (arith, same, length-append (section_start boundary) (codes "--")))
]

boundary_hit-section_end :
    (boundary : Bytes) → boundary_hit boundary (section_end boundary) ≡ end_hit
unfolding boundary_hit
boundary_hit-section_end boundary =
    rw (end_not_start boundary, (beq_iff (section_end boundary) (section_end boundary)).1 refl) refl

module _ (boundary : Bytes) where
  split_sections-part :
      (part rest before : List Bytes)
      → NoBoundary boundary part
      → split_sections boundary (part ++ rest) (some before)
        ≡ split_sections boundary rest (some (before ++ part))
  unfolding split_sections split_step extend_section
  split_sections-part [] rest before h =
      ap (λ section. split_sections boundary rest (some section)) (sym (append-nil before))
  split_sections-part (line ∷ part) rest before h =
      rw (h.0, split_step, extend_section)
        (split_sections-part part rest (before ++ line ∷ []) (h.1)
          ∙ ap (λ section. split_sections boundary rest (some section))
              (append_assoc before (line ∷ []) part))

  split_sections-preamble :
      (preamble rest : List Bytes)
      → NoBoundary boundary preamble
      → split_sections boundary (preamble ++ rest) none ≡ split_sections boundary rest none
  unfolding split_sections split_step extend_section
  split_sections-preamble [] rest h = refl
  split_sections-preamble (line ∷ preamble) rest h =
      rw (h.0, split_step, extend_section) (split_sections-preamble preamble rest (h.1))

  -- What is left to read adds its parts behind the one that is open.
  split_sections-join :
      (parts : List (List Bytes)) (epilogue : List Bytes) (section : Option (List Bytes))
      → All (NoBoundary boundary) parts
      → split_sections boundary (join_sections boundary parts epilogue) section
        ≡ close_section section ++ parts
  unfolding split_sections split_step close_section
  split_sections-join [] epilogue section h =
      rw (boundary_hit-section_end boundary, split_step) (sym (append-nil (close_section section)))
  split_sections-join (part ∷ parts) epilogue section h =
      let rest = join_sections boundary parts epilogue in
      rw (boundary_hit-section_start boundary, split_step)
        (ap (◌++◌ (close_section section)) (
          split_sections-part part rest [] (h.0)
          ∙ split_sections-join parts epilogue (some part) (h.1)))

-- A multipart body is split into the parts that it was written from, if no line in front of the first
-- boundary and none of a part is a boundary; what stands behind the last boundary is not read.
pub split_multipart_message-join_sections :
    (boundary : Bytes) (preamble : List Bytes) (parts : List (List Bytes)) (epilogue : List Bytes)
    → NoBoundary boundary preamble
    → All (NoBoundary boundary) parts
    → split_multipart_message boundary (preamble ++ join_sections boundary parts epilogue) ≡ parts
unfolding split_multipart_message close_section
split_multipart_message-join_sections boundary preamble parts epilogue h k =
    split_sections-preamble boundary preamble (join_sections boundary parts epilogue) h
    ∙ split_sections-join boundary parts epilogue none k
