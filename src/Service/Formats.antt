-- ===== src/Service/Formats.antt =====
-- src/domain/output_formats.py: the formats that a job's outputs are written in. `lower` is Python's
-- `str.lower`. A value that is no text cannot be written here, so its branch is left out.
pub mod Normal
use ss.Prelude.{
  String, Bool, List, [], ◌∷◌, ◌++◌, Option, none, some, str_append, contains, ◌==◌, if◌then◌else◌,
}
use ss.Prelude.Text.{strip}
use ss.Exec.{Outcome, ok, err, and_then, output_formats_invalid}

unfoldable pub supported_output_formats : List String
supported_output_formats = "csv" ∷ "xlsx" ∷ "dta" ∷ "docx" ∷ "pdf" ∷ "log" ∷ "do" ∷ []

abbrev pub default_output_formats : List String
default_output_formats = "csv" ∷ "log" ∷ "do" ∷ []

-- The test after the loop.
abbrev pub some_formats : List String → Outcome (List String)
some_formats [] = err (output_formats_invalid "output_formats_empty")
some_formats (f ∷ fs) = ok (f ∷ fs)

module _ (lower : String → String) where
  -- The body of the loop, on one entry.
  unfoldable pub add_format : List String → String → Outcome (List String)
  add_format normalized raw =
      let fmt = lower (strip raw) in
      if fmt == ""
      then err (output_formats_invalid "output_formats_contains_empty_string")
      else if contains fmt supported_output_formats
      then ok (if contains fmt normalized then normalized else normalized ++ fmt ∷ [])
      else err (output_formats_invalid (str_append "unsupported_output_format:" fmt))

  unfoldable pub add_formats : List String → List String → Outcome (List String)
  add_formats normalized [] = ok normalized
  add_formats normalized (raw ∷ raws) =
      and_then (add_format normalized raw) (λ more. add_formats more raws)

  unfoldable pub normalize_output_formats : Option (List String) → Outcome (List String)
  unfolding add_format add_formats
  normalize_output_formats none = ok default_output_formats
  normalize_output_formats (some value) = and_then (add_formats [] value) some_formats
