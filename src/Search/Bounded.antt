-- ===== src/Search/Bounded.antt =====
-- A bounded query is within both bounds.
use hono_crosmos.Base.{
  ◌↔◌, ℕ, zero, suc, ◌+◌, ◌≡◌, ◌≤◌, refl, sym, ap, ◌∙◌, Bool, true, false, ◌&&◌, List, [], ◌∷◌,
  ◌++◌, append_assoc, append_nil, length, length-append, length-take, take, leb, leb→le, either,
  either_by, subst, arith, Bool-cases,
}
use hono_crosmos.Base.Tables.{All, append-All, select_where}
use hono_crosmos.Search.Tsquery.{
  Text, space, max_tsquery_terms, max_tsquery_term_chars, closed, words_from, or_empty, split_terms,
  is_short, all_short, join, bound_tsquery_text,
}

abbrev total : List Text → ℕ
total [] = 0
total (t ∷ terms) = length t + total terms

module _ (is_space : ℕ → Bool) where
  abbrev NoSpace : Text → Type 0
  NoSpace t = All (λ c. is_space c ≡ false) t

  -- A term is not empty and has no white space.
  abbrev IsTerm : Text → Type 0
  IsTerm [] = ⊥
  IsTerm (c ∷ word) = NoSpace (c ∷ word)

  closed-IsTerm :
      (word : Text) (terms : List Text)
      → NoSpace word
      → All IsTerm terms
      → All IsTerm (closed word terms)
  closed-IsTerm [] terms h k = k
  closed-IsTerm (c ∷ word) terms h k = (h, k)

  words_from-IsTerm : (word text : Text) → NoSpace word → All IsTerm (words_from is_space word text)
  unfolding words_from
  words_from-IsTerm word [] h = closed-IsTerm word [] h tt
  words_from-IsTerm word (c ∷ text) h =
      either_by (All IsTerm) (is_space c)
        (λ e. closed-IsTerm word (words_from is_space [] text) h (words_from-IsTerm [] text tt))
        (λ e.
          words_from-IsTerm (word ++ c ∷ []) text
            (append-All (λ x. is_space x ≡ false) word (c ∷ []) h (e, tt)))

  closed-total :
      (word : Text) (terms : List Text) → total (closed word terms) ≡ length word + total terms
  closed-total [] terms = omega arith
  closed-total (c ∷ word) terms = refl

  words_from-total :
      (word text : Text) → total (words_from is_space word text) ≤ length word + length text
  unfolding words_from
  words_from-total word [] = omega (arith, closed-total word [])
  words_from-total word (c ∷ text) =
      either_by (λ ts. total ts ≤ length word + suc (length text)) (is_space c)
        (λ e.
          omega (arith, closed-total word (words_from is_space [] text), words_from-total [] text))
        (λ e. omega (arith, words_from-total (word ++ c ∷ []) text, length-append word (c ∷ [])))

  length-le : (terms : List Text) → All IsTerm terms → length terms ≤ total terms
  length-le [] h = omega arith
  length-le ([] ∷ terms) (h, k) = absurd h
  length-le ((c ∷ word) ∷ terms) (h, k) = omega (arith, length-le terms k)

  -- A run without white space goes into the word at hand.
  words_from-append :
      (word run rest : Text)
      → NoSpace run
      → words_from is_space word (run ++ rest) ≡ words_from is_space (word ++ run) rest
  unfolding words_from
  words_from-append word [] rest h = ap (λ w. words_from is_space w rest) (sym (append_nil word))
  words_from-append word (c ∷ run) rest (e, h) = rw e (
      words_from-append (word ++ c ∷ []) run rest h
      ∙ ap (λ w. words_from is_space w rest) (append_assoc word (c ∷ []) run))

  module _ (separates : is_space space ≡ true) where
    words_from-join :
        (terms : List Text) → All IsTerm terms → words_from is_space [] (join terms) ≡ terms
    unfolding words_from join
    words_from-join [] h = refl
    words_from-join ([] ∷ terms) (h, k) = absurd h
    words_from-join ((c ∷ word) ∷ []) (h, k) =
        ap (words_from is_space []) (sym (append_nil (c ∷ word)))
        ∙ words_from-append [] (c ∷ word) [] h
    words_from-join ((c ∷ word) ∷ u ∷ terms) (h, k) =
        words_from-append [] (c ∷ word) (space ∷ join (u ∷ terms)) h
        ∙ rw separates (ap (λ (ts : List Text). (c ∷ word) ∷ ts) (words_from-join (u ∷ terms) k))

all_short-total : (terms : List Text) (n : ℕ) → total terms ≤ n → n ≤ 64 → all_short terms ≡ true
all_short-total [] n h k = refl
all_short-total (t ∷ terms) n h k =
    ground (arith, all_short-total terms n (omega (arith, h)) k, h, k)

select-short : (terms : List Text) → all_short (select_where is_short terms) ≡ true
unfolding select_where
select-short [] = refl
select-short (t ∷ terms) = ground (arith, select-short terms, Bool-cases (is_short t))

take-short : (n : ℕ) (terms : List Text) → all_short terms ≡ true → all_short (take n terms) ≡ true
take-short zero terms h = refl
take-short (suc n) [] h = refl
take-short (suc n) (t ∷ terms) h = ground (arith, take-short n terms, Bool-cases (is_short t), h)

module _ (P : Text → Type 0) where
  select_where-All :
      (p : Text → Bool) (terms : List Text) → All P terms → All P (select_where p terms)
  unfolding select_where
  select_where-All p [] h = tt
  select_where-All p (t ∷ terms) (h, k) =
      either (All P) (p t) (h, select_where-All p terms k) (select_where-All p terms k)

  take-All : (n : ℕ) (terms : List Text) → All P terms → All P (take n terms)
  take-All zero terms h = tt
  take-All (suc n) [] h = tt
  take-All (suc n) (t ∷ terms) (h, k) = (h, take-All n terms k)

-- At most 96 terms, none longer than 64 units.
abbrev pub IsBounded : (ℕ → Bool) → Text → Type 0
IsBounded is_space text =
    (length (split_terms is_space text) ≤ 96) × (all_short (split_terms is_space text) ≡ true)

abbrev Bound : List Text → Type 0
Bound terms = (length terms ≤ 96) × (all_short terms ≡ true)

or_empty-Bound : (terms : List Text) → Bound terms → Bound (or_empty terms)
or_empty-Bound [] b = (omega arith, refl)
or_empty-Bound (t ∷ terms) b = b

module _ (is_space : ℕ → Bool) (separates : is_space space ≡ true) where
  short_text : (text : Text) → length text ≤ 64 → IsBounded is_space text
  unfolding split_terms
  short_text text h =
      let terms = words_from is_space [] text in
      let sum = words_from-total is_space [] text in
      or_empty-Bound terms (
        omega (arith, sum, h, length-le is_space terms (words_from-IsTerm is_space [] text tt)),
        all_short-total terms (length text) (omega (arith, sum)) h,
      )

  -- Joined and split again, the kept terms are the same.
  joined :
      (words : List Text)
      → All (IsTerm is_space) words
      → IsBounded is_space (join (take 96 (select_where is_short (or_empty words))))
  unfolding split_terms select_where join words_from
  joined [] h = (omega arith, refl)
  joined (t ∷ words) h =
      let kept = take 96 (select_where is_short (t ∷ words)) in
      let same = words_from-join is_space separates kept (
        take-All (IsTerm is_space) 96 (select_where is_short (t ∷ words))
          (select_where-All (IsTerm is_space) is_short (t ∷ words) h)) in
      subst (λ ts. Bound (or_empty ts)) (sym same)
        (or_empty-Bound kept (
          omega (arith, length-take 96 (select_where is_short (t ∷ words))),
          take-short 96 (select_where is_short (t ∷ words)) (select-short (t ∷ words)),
        ))

  joined_text :
      (text : Text)
      → IsBounded is_space
          (join (take max_tsquery_terms (select_where is_short (split_terms is_space text))))
  unfolding split_terms
  joined_text text = joined (words_from is_space [] text) (words_from-IsTerm is_space [] text tt)

  -- Whatever the query, the text that is handed on has at most 96 terms, none of them longer than 64
  -- units, if the unit that joins terms counts as white space.
  pub bound_tsquery_text-IsBounded :
      (text : Text) → IsBounded is_space (bound_tsquery_text is_space text)
  unfolding bound_tsquery_text
  bound_tsquery_text-IsBounded text =
      either_by (IsBounded is_space) (leb (length text) max_tsquery_term_chars)
        (λ e. short_text text (leb→le (length text) 64 e))
        (λ long.
          either_by (IsBounded is_space)
            (leb (length (split_terms is_space text)) max_tsquery_terms
              && all_short (split_terms is_space text))
            (λ e. ground (arith, e)) (λ e. joined_text text))

within-unchanged :
    (is_space : ℕ → Bool) (text : Text)
    → IsBounded is_space text
    → bound_tsquery_text is_space text ≡ text
unfolding bound_tsquery_text
within-unchanged is_space text (few, short) = ground (arith, few, short)

-- If the unit that joins terms counts as white space, a query is handed on as it is exactly if it is
-- within both bounds, and what is handed on is not changed by being bounded again.
pub bound_tsquery_text_idem :
    (is_space : ℕ → Bool) (text : Text)
    → is_space space ≡ true
    → ((bound_tsquery_text is_space text ≡ text) ↔ IsBounded is_space text)
      × (bound_tsquery_text is_space (bound_tsquery_text is_space text)
          ≡ bound_tsquery_text is_space text)
bound_tsquery_text_idem is_space text separates =
    let bounded = bound_tsquery_text-IsBounded is_space separates text in
    (
      (λ same. subst (IsBounded is_space) same bounded, within-unchanged is_space text),
      within-unchanged is_space (bound_tsquery_text is_space text) bounded,
    )
