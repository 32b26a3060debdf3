-- ===== src/Search/Tests.antt =====
-- Queries of concrete texts, with the unit of `' '` as the only white space.
use hono_crosmos.Base.{ℕ, ◌↔◌, ◌≡◌, refl, Bool, [], ◌∷◌, ◌++◌, ◌==◌, replicate}
use hono_crosmos.Base.Tables.{select_where}
use hono_crosmos.Search.Tsquery.{Text, split_terms, words_from, join, bound_tsquery_text}
use hono_crosmos.Search.Bounded.{IsBounded, bound_tsquery_text-IsBounded, bound_tsquery_text_idem}

abbrev is_blank : ℕ → Bool
is_blank c = c == 32

-- A term of 65 units, and one of two.
abbrev long_query : Text
long_query = replicate 65 97 ++ 32 ∷ 98 ∷ 99 ∷ []

long_term_dropped : bound_tsquery_text is_blank long_query ≡ 98 ∷ 99 ∷ []
unfolding bound_tsquery_text split_terms words_from join select_where
long_term_dropped = refl

bound_tsquery_text-IsBounded_example : IsBounded is_blank (bound_tsquery_text is_blank long_query)
bound_tsquery_text-IsBounded_example = bound_tsquery_text-IsBounded is_blank refl long_query

bound_tsquery_text_idem_example :
    ((bound_tsquery_text is_blank long_query ≡ long_query) ↔ IsBounded is_blank long_query)
    × (bound_tsquery_text is_blank (bound_tsquery_text is_blank long_query)
        ≡ bound_tsquery_text is_blank long_query)
bound_tsquery_text_idem_example = bound_tsquery_text_idem is_blank long_query refl
