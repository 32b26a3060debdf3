-- ===== src/Search/Tsquery.antt =====
-- apps/api/src/features/search/tsquery.ts. A text is the list of its UTF-16 code units; which units
-- `\s` and `trim` take for white space is an argument, and the unit of `' '` is one of them.
use hono_crosmos.Base.{ℕ, Bool, true, ◌&&◌, List, [], ◌∷◌, ◌++◌, length, take, leb, if◌then◌else◌}
use hono_crosmos.Base.Tables.{select_where}

abbrev pub max_tsquery_terms : ℕ
max_tsquery_terms = 96

abbrev pub max_tsquery_term_chars : ℕ
max_tsquery_term_chars = 64

abbrev pub space : ℕ
space = 32

abbrev pub Text : Type 0
Text = List ℕ

-- The runs of units that are no space; `word` is the run at hand.
abbrev pub closed : Text → List Text → List Text
closed [] terms = terms
closed (c ∷ word) terms = (c ∷ word) ∷ terms

-- `trim` and `split` give one empty term when the text is all white space.
abbrev pub or_empty : List Text → List Text
or_empty [] = [] ∷ []
or_empty (t ∷ terms) = t ∷ terms

module _ (is_space : ℕ → Bool) where
  unfoldable pub words_from : Text → Text → List Text
  words_from word [] = closed word []
  words_from word (c ∷ text) =
      if is_space c then closed word (words_from [] text) else words_from (word ++ c ∷ []) text

  -- `text.trim().split(/\s+/)`.
  unfoldable pub split_terms : Text → List Text
  split_terms text = or_empty (words_from [] text)

abbrev pub is_short : Text → Bool
is_short t = leb (length t) max_tsquery_term_chars

abbrev pub all_short : List Text → Bool
all_short [] = true
all_short (t ∷ terms) = is_short t && all_short terms

-- `join(' ')`.
unfoldable pub join : List Text → Text
join [] = []
join (t ∷ []) = t
join (t ∷ u ∷ terms) = t ++ space ∷ join (u ∷ terms)

unfoldable pub bound_tsquery_text : (ℕ → Bool) → Text → Text
bound_tsquery_text is_space text =
    let terms = split_terms is_space text in
    if leb (length text) max_tsquery_term_chars
    then text
    else if leb (length terms) max_tsquery_terms && all_short terms
    then text
    else join (take max_tsquery_terms (select_where is_short terms))

unfoldable pub bound_tsquery_tokens {ℓ} : {A : Type ℓ} → List A → List A
bound_tsquery_tokens tokens =
    if leb (length tokens) max_tsquery_terms then tokens else take max_tsquery_terms tokens
