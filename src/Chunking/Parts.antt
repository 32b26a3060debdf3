-- ===== src/Chunking/Parts.antt =====
-- The parts that a separator cuts a text into.
use hono_crosmos.Base.{
  ℕ, zero, suc, ◌+◌, ◌-◌, ◌≡◌, ◌≤◌, ◌<◌, subst, Bool, true, not, ◌&&◌, some, List, [], ◌∷◌, ◌++◌,
  ltb, length, length-append, arith, inl, inr, Bool-cases,
}
use hono_crosmos.Base.Tables.{All, map-All, select_where}
use hono_crosmos.Chunking.Text.{Text, starts_with, includes, split_from, split, parts_by}

-- No part exceeds what was read, and if a cut is still to come each is shorter by a separator.
split_from-length :
    (sep : Text) (skip : ℕ) (part text : Text) (n : ℕ)
    → length part + length text ≤ n
    → All (λ p. length p ≤ n) (split_from sep skip part text)
unfolding split_from
split_from-length sep skip part [] n h = (omega arith, tt)
split_from-length sep (suc skip) part (c ∷ text) n h =
    split_from-length sep skip part text n (omega arith)
split_from-length sep zero part (c ∷ text) n h = elim (Bool-cases (starts_with sep (c ∷ text))) [
  | inl cut ↦ rw cut (omega arith, split_from-length sep (length sep - 1) [] text n (omega arith))
  | inr not_cut ↦ rw not_cut (
      split_from-length sep zero (part ++ c ∷ []) text n
        (omega (arith, length-append part (c ∷ []))))
]

split_from-shorter :
    (sep part text : Text) (n : ℕ)
    → includes sep text ≡ true
    → length part + length text ≤ suc n
    → All (λ p. length p ≤ n) (split_from sep 0 part text)
unfolding split_from includes
split_from-shorter sep part [] n found h = cc
split_from-shorter sep part (c ∷ text) n found h = elim (Bool-cases (starts_with sep (c ∷ text))) [
  | inl cut ↦ rw cut (omega arith, split_from-length sep (length sep - 1) [] text n (omega arith))
  | inr not_cut ↦ rw not_cut (
      split_from-shorter sep (part ++ c ∷ []) text n (ground (arith, found, not_cut))
        (omega (arith, length-append part (c ∷ []))))
]

-- Selected parts keep what all parts have, and have what selects them.
pub All-select_where :
    (P : Text → Type 0) (p : Text → Bool) (ts : List Text)
    → All P ts
    → All (λ t. P t × (p t ≡ true)) (select_where p ts)
unfolding select_where
All-select_where P p [] all = tt
All-select_where P p (t ∷ ts) (first, rest) = elim (Bool-cases (p t)) [
  | inl e ↦ rw e ((first, e), All-select_where P p ts rest)
  | inr e ↦ rw e (All-select_where P p ts rest)
]

split-shorter :
    (sep text : Text)
    → includes sep text ≡ true
    → All (λ p. length p < length text) (split sep text)
unfolding includes
split-shorter sep [] found = cc
split-shorter sep (c ∷ text) found =
    map-All (λ p. length p ≤ length text) _ (split sep (c ∷ text)) (λ p h. omega arith)
      (split_from-shorter sep [] (c ∷ text) (length text) found (omega arith))

abbrev pub IsPartOf : Text → Text → Type 0
IsPartOf text p = (length p < length text) × (0 < length p)

-- The parts of a text are not empty, and shorter than it.
pub parts_by-shorter :
    (seps : List Text) (text : Text) (parts : List Text)
    → parts_by seps text ≡ some parts
    → All (IsPartOf text) parts
unfolding parts_by
parts_by-shorter [] text parts e = cc
parts_by-shorter (sep ∷ seps) text parts e =
    elim (Bool-cases (includes sep text && not (ltb (length selected) 2))) [
      | inl chosen ↦
          subst (λ ps. All (IsPartOf text) ps) (ground (arith, e, chosen))
            (map-All _ (IsPartOf text) selected
              (λ p (short, some_left). ground (arith, short, some_left))
              (All-select_where (λ p. length p < length text) (λ p. ltb 0 (length p))
                (split sep text) (split-shorter sep text (ground (arith, chosen)))))
      | inr passed ↦ parts_by-shorter seps text parts (ground (arith, e, passed))
    ]
  where
    selected : List Text
    selected = select_where (λ p. ltb 0 (length p)) (split sep text)
