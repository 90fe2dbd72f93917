-- ===== src/Mime/Multipart.antt =====
-- lib/mime/mimev2.src.cc, `splitMultipartMessage`: the parts of a body between its boundaries.
pub mod RoundTrip
pub mod Shorter
use fsmtp_v.Base.{
  ℕ, Bool, true, false, ◌&&◌, List, [], ◌∷◌, ◌++◌, Option, none, some, ◌==◌, if◌then◌else◌,
}
use fsmtp_v.Base.Text.{Bytes, codes, beq, front, erase_front}

abbrev pub section_start : Bytes → Bytes
section_start boundary = codes "--" ++ boundary

abbrev pub section_end : Bytes → Bytes
section_end boundary = codes "--" ++ boundary ++ codes "--"

-- `boundaryHit`.
pub data Hit : Type 0 where
  no_hit start_hit end_hit : Hit

unfoldable pub boundary_hit : Bytes → Bytes → Hit
boundary_hit boundary line =
    if front line == b'-' && front (erase_front line) == b'-'
    then if beq line (section_start boundary)
      then start_hit
      else if beq line (section_end boundary)
      then end_hit
      else no_hit
    else no_hit

-- The section that is open, if a boundary has been hit before, as the result it adds.
unfoldable pub close_section : Option (List Bytes) → List (List Bytes)
close_section none = []
close_section (some section) = section ∷ []

unfoldable pub extend_section : Option (List Bytes) → Bytes → Option (List Bytes)
extend_section none line = none
extend_section (some section) line = some (section ++ line ∷ [])

-- What a line does, over the loop on the lines behind it.
unfoldable pub split_step :
    (Option (List Bytes) → List (List Bytes))
    → Option (List Bytes)
    → Bytes
    → Hit
    → List (List Bytes)
unfolding close_section extend_section
split_step again section line no_hit = again (extend_section section line)
split_step again section line start_hit = close_section section ++ again (some [])
split_step again section line end_hit = close_section section

-- The loop, with the lines of the section that is open.
unfoldable pub split_sections : Bytes → List Bytes → Option (List Bytes) → List (List Bytes)
unfolding split_step boundary_hit
split_sections boundary [] section = []
split_sections boundary (line ∷ lines) section =
    split_step (split_sections boundary lines) section line (boundary_hit boundary line)

unfoldable pub split_multipart_message : Bytes → List Bytes → List (List Bytes)
unfolding split_sections
split_multipart_message boundary lines = split_sections boundary lines none
