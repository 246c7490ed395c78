-- ===== src/External/Boost.antt =====
-- Boost: `format`, `split` and `lexical_cast`, as src/ calls them.
use mathlib.Core.List.{append-nil}
use hvbench.Base.{
  ℕ, ◌^◌, ◌<◌, ◌≡◌, ap, ◌≢◌, List, [], ◌∷◌, ◌++◌, Option, some, arith, Text, codes, All,
}
use hvbench.Base.Int.{ℤ, pos}

-- No byte of the text is `c`.
abbrev pub Without : ℕ → Text → Type 0
Without c = All (λ x. x ≢ c)

pub record Boost : Type 0 where
  -- `str(format(s) % a % b …)`: a directive `%s` or `%d` takes the next argument, printed, and all
  -- else is copied.
  pub format : Text → List Text → Text
  pub format_end : format [] [] ≡ []
  pub format_copy :
      (c : ℕ) (s : Text) (args : List Text) → c ≢ b'%' → format (c ∷ s) args ≡ c ∷ format s args
  pub format_s :
      (a s : Text) (args : List Text) → format (b'%' ∷ b's' ∷ s) (a ∷ args) ≡ a ++ format s args
  pub format_d :
      (a s : Text) (args : List Text) → format (b'%' ∷ b'd' ∷ s) (a ∷ args) ≡ a ++ format s args
  -- `split(path, s, is_any_of("/"))`: the pieces between the slashes, empty ones included.
  pub split : Text → List Text
  pub split_last : (a : Text) → Without b'/' a → split a ≡ a ∷ []
  pub split_slash : (a s : Text) → Without b'/' a → split (a ++ b'/' ∷ s) ≡ a ∷ split s
  -- `lexical_cast<uint32_t>` and `<uint64_t>` of a text; `none` is `bad_lexical_cast`.
  pub cast_u32 : Text → Option ℕ
  pub cast_u64 : Text → Option ℕ
  pub cast_u32-lt : (s : Text) (n : ℕ) → cast_u32 s ≡ some n → n < 2 ^ 32
  -- A number printed, by `format` or by `lexical_cast<std::string>`.
  pub print : ℤ → Text
  pub cast_u32-print : (n : ℕ) → n < 2 ^ 32 → cast_u32 (print (pos n)) ≡ some n

module _ (b : Boost) where
  open b use {format, format_end, format_copy, format_s, format_d}

  -- A format with no directive left is copied.
  pub format_plain : (s : Text) → Without b'%' s → format s [] ≡ s
  format_plain [] h = format_end
  format_plain (c ∷ s) h = rw (format_copy c s [] h.0) (ap (◌∷◌ c) (format_plain s h.1))

  -- `"%s…" % a`, where the rest has no directive.
  pub format_prefix : (a s : Text) → Without b'%' s → format (b'%' ∷ b's' ∷ s) (a ∷ []) ≡ a ++ s
  format_prefix a s h = rw (format_s a s []) (ap (◌++◌ a) (format_plain s h))

  -- `"%s/%s" % a % c`.
  pub format_path : (a c : Text) → format (codes "%s/%s") (a ∷ c ∷ []) ≡ a ++ b'/' ∷ c
  format_path a c = rw (
    format_s a (codes "/%s") (c ∷ []),
    format_copy b'/' (codes "%s") (c ∷ []) (omega arith),
    format_s c [] [],
    format_end,
    append-nil,
  )
