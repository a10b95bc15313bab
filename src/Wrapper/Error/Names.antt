-- ===== src/Wrapper/Error/Names.antt =====
-- lib/error.go: the text of an error.
use Prim.Native.String.{String}
use text.Mathlib.Text.{◌==◌ as same_text}
use text.Mathlib.TextEquality.{eq_iff}
use goxz.Base.{
  ℕ, ◌≡◌, ◌≢◌, refl, arith, Bool, true, not, ◌&&◌, Bool-cases, sym, List, [], ◌∷◌, ◌==◌,
  if◌then◌else◌, inl, inr,
}
use goxz.Liblzma.Consts.{Constants}

abbrev pub unknown : String
unknown = "[UNKNOWN] Unknown error"

-- The cases of the switch, the first that fits.
unfoldable pub switch : List (ℕ × String) → ℕ → String
switch [] ze = unknown
switch ((code, name) ∷ cases) ze = if ze == code then name else switch cases ze

abbrev pub names : Constants → List (ℕ × String)
names c =
    (c.lzma_stream_end, "[STREAM_END] End of stream was reached")
    ∷ (c.lzma_no_check, "[NO_CHECK] Input stream has no integrity check")
    ∷ (c.lzma_unsupported_check, "[UNSUPPORTED_CHECK] Cannot calculate the integrity check")
    ∷ (c.lzma_get_check, "[GET_CHECK] Integrity check type is now available")
    ∷ (c.lzma_mem_error, "[MEM_ERROR] Cannot allocate memory")
    ∷ (c.lzma_memlimit_error, "[MEMLIMIT_ERROR] Memory usage limit was reached")
    ∷ (c.lzma_format_error, "[FORMAT_ERROR] File format not recognized")
    ∷ (c.lzma_options_error, "[OPTIONS_ERROR] Invalid or unsupported options")
    ∷ (c.lzma_data_error, "[DATA_ERROR] Data is corrupt")
    ∷ (c.lzma_buf_error, "[BUF_ERROR] No progress is possible")
    ∷ (c.lzma_prog_error, "[PROG_ERROR] Programming error")
    ∷ []

-- Error, the method.
unfoldable pub error_string : Constants → ℕ → String
error_string c ze = switch (names c) ze

-- A text that no case and not the default gives.
fresh : String → List (ℕ × String) → Bool
fresh s [] = not (same_text s unknown)
fresh s ((code, name) ∷ cases) = not (same_text s name) && fresh s cases

distinct : List (ℕ × String) → Bool
distinct [] = true
distinct ((code, name) ∷ cases) = fresh name cases && distinct cases

fresh-switch :
    (s : String) (cases : List (ℕ × String)) (ze : ℕ) → fresh s cases ≡ true → s ≢ switch cases ze
unfolding fresh switch
fresh-switch s [] ze h e = ground (arith, eq_iff s unknown)
fresh-switch s ((code, name) ∷ cases) ze h e = elim (Bool-cases (ze == code)) [
  | inl t ↦ ground (arith, eq_iff s name)
  | inr t ↦ fresh-switch s cases ze (ground arith) (simp t at e)
]

switch-inj :
    (cases : List (ℕ × String)) (a b : ℕ)
    → distinct cases ≡ true
    → switch cases a ≡ switch cases b
    → switch cases a ≢ unknown
    → a ≡ b
unfolding distinct switch
switch-inj [] a b d e n = absurd (n refl)
switch-inj ((code, name) ∷ cases) a b d e n = elim (Bool-cases (a == code)) [
  | inl t ↦ elim (Bool-cases (b == code)) [
    | inl u ↦ ground arith
    | inr u ↦ absurd (fresh-switch name cases b (ground arith) (simp (t, u) at e))
  ]
  | inr t ↦ elim (Bool-cases (b == code)) [
    | inl u ↦ absurd (fresh-switch name cases a (ground arith) (sym (simp (t, u) at e)))
    | inr u ↦ switch-inj cases a b (ground arith) (simp (t, u) at e) (simp t at n)
  ]
]

-- Two statuses whose errors have the same text are the same status, unless the text is that of an
-- unknown error.
pub error_string-inj :
    (c : Constants) (a b : ℕ)
    → error_string c a ≡ error_string c b
    → error_string c a ≢ unknown
    → a ≡ b
unfolding error_string distinct fresh
error_string-inj c a b e n = switch-inj (names c) a b refl e n
