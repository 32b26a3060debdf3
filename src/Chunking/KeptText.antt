-- ===== src/Chunking/KeptText.antt =====
-- The atoms and the chunks of a text keep what is to be kept.
use hono_crosmos.Base.{
  ℕ, zero, suc, ◌+◌, ◌≡◌, ◌≤◌, ◌<◌, refl, sym, ap, ◌∙◌, true, false, List, [], ◌∷◌, ◌++◌, ltb, leb,
  ◌==◌, if◌then◌else◌, length, length-drop, take-append-drop, take, drop, arith, inl, inr,
  Bool-cases, Option-cases, append_nil, append_assoc, concat, concat-append,
}
use hono_crosmos.Base.Tables.{All, select_where}
use hono_crosmos.Chunking.Text.{
  Text, is_space, trim_start, trim_end, separators, parts_by, hard_split, over_parts,
  split_to_atoms, trim, merge, chunk_text,
}
use hono_crosmos.Chunking.Kept.{kept, kept-append, kept-nothing, IsSeparator, kept-parts_by}

concat-hard_split :
    (fuel most : ℕ) (text : Text)
    → 0 < most
    → length text ≤ fuel
    → concat (hard_split fuel most text) ≡ text
unfolding hard_split
concat-hard_split zero most [] positive enough = refl
concat-hard_split zero most (c ∷ text) positive enough = absurd (omega (arith, enough))
concat-hard_split (suc fuel) most [] positive enough = refl
concat-hard_split (suc fuel) most (c ∷ text) positive enough =
    ap (λ t. take most (c ∷ text) ++ t)
      (concat-hard_split fuel most (drop most (c ∷ text)) positive
        (omega (arith, positive, enough, length-drop most (c ∷ text))))
    ∙ take-append-drop most (c ∷ text)

kept-over_parts :
    (again : Text → List Text) (most : ℕ) (parts : List Text)
    → ((p : Text) → kept (concat (again p)) ≡ kept p)
    → kept (concat (over_parts again most parts)) ≡ kept (concat parts)
unfolding over_parts
kept-over_parts again most [] h = refl
kept-over_parts again most (p ∷ parts) h =
    let rest = over_parts again most parts in
    let later =
      ap (λ t. kept p ++ t) (kept-over_parts again most parts h)
      ∙ sym (kept-append p (concat parts)) in
    elim (Bool-cases (leb (length p) most)) [
      | inl fits ↦ rw fits (kept-append p (concat rest) ∙ later)
      | inr long ↦ rw long (
          ap kept (concat-append (again p) rest)
          ∙ kept-append (concat (again p)) (concat rest)
          ∙ ap (λ t. t ++ kept (concat rest)) (h p)
          ∙ later)
    ]

separators-IsSeparator : All IsSeparator separators
unfolding select_where is_space
separators-IsSeparator =
    ((omega arith, refl), ((omega arith, refl), ((omega arith, refl), ((omega arith, refl), tt))))

pub kept-split_to_atoms :
    (fuel most : ℕ) (text : Text)
    → 0 < most
    → kept (concat (split_to_atoms fuel most text)) ≡ kept text
unfolding split_to_atoms
kept-split_to_atoms zero most text positive = ap kept (append_nil text)
kept-split_to_atoms (suc fuel) most text positive = elim (Bool-cases (leb (length text) most)) [
  | inl fits ↦ rw fits (ap kept (append_nil text))
  | inr long ↦ elim (Option-cases (parts_by separators text)) [
    | inl none_helps ↦
        rw (long, none_helps, split_to_atoms)
          (ap kept (concat-hard_split (length text) most text positive (omega arith)))
    | inr (parts, e) ↦
        rw (long, e, split_to_atoms)
          (kept-over_parts (split_to_atoms fuel most) most parts
              (λ p. kept-split_to_atoms fuel most p positive)
            ∙ kept-parts_by separators text parts separators-IsSeparator e)
  ]
]

pub kept-newline : (text : Text) → kept (10 ∷ text) ≡ kept text
unfolding select_where is_space
kept-newline text = refl

pub kept-joined :
    (buf atom : Text) (atoms : List Text)
    → kept (buf ++ 10 ∷ atom) ++ kept (concat atoms) ≡ kept buf ++ kept (atom ++ concat atoms)
kept-joined buf atom atoms =
    ap (λ t. t ++ kept (concat atoms))
      (kept-append buf (10 ∷ atom) ∙ ap (λ t. kept buf ++ t) (kept-newline atom))
    ∙ append_assoc (kept buf) (kept atom) (kept (concat atoms))
    ∙ ap (λ t. kept buf ++ t) (sym (kept-append atom (concat atoms)))

kept-merge :
    (target : ℕ) (buf : Text) (atoms : List Text)
    → kept (concat (merge target buf atoms)) ≡ kept buf ++ kept (concat atoms)
unfolding merge
kept-merge target [] [] = sym (kept-nothing [])
kept-merge target (c ∷ buf) [] =
    let some_left : ltb 0 (suc (length buf)) ≡ true = ground arith in
    rw some_left (kept-append (c ∷ buf) [])
kept-merge target [] (atom ∷ atoms) =
    kept-merge target atom atoms
    ∙ sym (kept-append atom (concat atoms))
    ∙ sym (kept-nothing (concat (atom ∷ atoms)))
kept-merge target (c ∷ buf) (atom ∷ atoms) =
    let full : (suc (length buf) == 0) ≡ false = ground arith in
    elim (Bool-cases (leb (suc (length buf) + 1 + length atom) target)) [
      | inl room ↦
          rw (full, room, merge)
            (kept-merge target ((c ∷ buf) ++ 10 ∷ atom) atoms ∙ kept-joined (c ∷ buf) atom atoms)
      | inr over ↦
          rw (full, over, merge)
            (kept-append (c ∷ buf) (concat (merge target atom atoms))
              ∙ ap (λ t. kept (c ∷ buf) ++ t)
                  (kept-merge target atom atoms ∙ sym (kept-append atom (concat atoms))))
    ]

kept-trim_start : (text : Text) → kept (trim_start text) ≡ kept text
unfolding trim_start select_where
kept-trim_start [] = refl
kept-trim_start (c ∷ text) = ground (arith, kept-trim_start text)

kept-trim_end : (text : Text) → kept (trim_end text) ≡ kept text
unfolding trim_end select_where
kept-trim_end [] = refl
kept-trim_end (c ∷ text) = unspaced (trim_end text) ∙ ground (arith, kept-trim_end text)
  where
    unspaced :
        (t : Text)
        → kept (elim t [ [] ↦ if is_space c then [] else c ∷ [] | d ∷ rest ↦ c ∷ d ∷ rest ])
          ≡ kept (c ∷ t)
    unspaced [] = ground arith
    unspaced (d ∷ rest) = refl

-- Every character that is neither white space nor a full stop is in the chunks, once and in its
-- order, if the limit is positive.
pub kept-chunk_text :
    (content : Text) (target most : ℕ)
    → 0 < most
    → kept (concat (chunk_text content target most)) ≡ kept content
unfolding chunk_text
kept-chunk_text content target most positive = elim (Bool-cases (length (trim content) == 0)) [
  | inl empty ↦ rw (empty, chunk_text) (nothing_left empty ∙ kept_trim)
  | inr full ↦ elim (Bool-cases (leb (length (trim content)) target)) [
    | inl whole ↦ rw (full, whole, chunk_text) (ap kept (append_nil (trim content)) ∙ kept_trim)
    | inr long ↦
        rw (full, long, chunk_text)
          (kept-merge target [] _
            ∙ kept-nothing _
            ∙ kept-split_to_atoms (suc (length (trim content))) most (trim content) positive
            ∙ kept_trim)
  ]
]
  where
    kept_trim : kept (trim content) ≡ kept content
    kept_trim = kept-trim_end (trim_start content) ∙ kept-trim_start content

    is_empty : (t : Text) → (length t == 0) ≡ true → kept [] ≡ kept t
    is_empty [] e = refl
    is_empty (c ∷ t) e = absurd (ground (arith, e))

    nothing_left : (length (trim content) == 0) ≡ true → kept [] ≡ kept (trim content)
    nothing_left = is_empty (trim content)
