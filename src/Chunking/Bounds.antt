-- ===== src/Chunking/Bounds.antt =====
-- No chunk is empty, and none exceeds the limit.
use hono_crosmos.Base.{
  ℕ, zero, suc, ◌+◌, ◌≤◌, ◌<◌, List, [], ◌∷◌, ◌++◌, leb, ◌==◌, length, length-append, length-take,
  drop, arith, inl, inr, Bool-cases, Option-cases,
}
use hono_crosmos.Base.Tables.{All, append-All}
use hono_crosmos.Chunking.Text.{
  Text, separators, parts_by, hard_split, over_parts, split_to_atoms, trim, merge, chunk_text,
}
use hono_crosmos.Chunking.Parts.{parts_by-shorter}

abbrev pub Fits : ℕ → Text → Type 0
Fits most t = (length t ≤ most) × (0 < length t)

hard_split-Fits :
    (fuel most : ℕ) (text : Text) → 0 < most → All (Fits most) (hard_split fuel most text)
unfolding hard_split
hard_split-Fits zero most text h = tt
hard_split-Fits (suc fuel) most [] h = tt
hard_split-Fits (suc fuel) most (c ∷ text) h = (
  (omega (arith, length-take most (c ∷ text)), omega (arith, length-take most (c ∷ text), h)),
  hard_split-Fits fuel most (drop most (c ∷ text)) h,
)

over_parts-Fits :
    (again : Text → List Text) (most bound : ℕ) (parts : List Text)
    → ((p : Text) → length p < bound → 0 < length p → All (Fits most) (again p))
    → All (λ p. (length p < bound) × (0 < length p)) parts
    → All (Fits most) (over_parts again most parts)
unfolding over_parts
over_parts-Fits again most bound [] h all = tt
over_parts-Fits again most bound (p ∷ parts) h ((short, some_left), rest) =
    let later = over_parts-Fits again most bound parts h rest in
    elim (Bool-cases (leb (length p) most)) [
      | inl fits ↦ rw fits ((ground (arith, fits), some_left), later)
      | inr long ↦ rw long (append-All (Fits most) (again p) _ (h p short some_left) later)
    ]

-- The atoms of a text that is not empty are not empty and within the limit, if the limit is
-- positive and the fuel exceeds the text's length.
pub split_to_atoms-Fits :
    (fuel most : ℕ) (text : Text)
    → 0 < most
    → length text < fuel
    → 0 < length text
    → All (Fits most) (split_to_atoms fuel most text)
unfolding split_to_atoms
split_to_atoms-Fits zero most text positive enough some_left = absurd (omega (arith, enough))
split_to_atoms-Fits (suc fuel) most text positive enough some_left =
    elim (Bool-cases (leb (length text) most)) [
      | inl fits ↦ rw fits ((ground (arith, fits), some_left), tt)
      | inr long ↦ elim (Option-cases (parts_by separators text)) [
        | inl none_helps ↦
            rw (long, none_helps, split_to_atoms) (hard_split-Fits (length text) most text positive)
        | inr (parts, e) ↦
            rw (long, e, split_to_atoms)
              (over_parts-Fits (split_to_atoms fuel most) most (length text) parts
                (λ p short left.
                  split_to_atoms-Fits fuel most p positive (omega (arith, short, enough)) left)
                (parts_by-shorter separators text parts e))
      ]
    ]

merge-Fits :
    (target most : ℕ) (buf : Text) (atoms : List Text)
    → target ≤ most
    → length buf ≤ most
    → All (Fits most) atoms
    → All (Fits most) (merge target buf atoms)
unfolding merge
merge-Fits target most buf [] under short all = ground (arith, short)
merge-Fits target most buf (atom ∷ atoms) under short ((fits, some_left), rest) =
    let alone = merge-Fits target most atom atoms under fits rest in
    elim (Bool-cases (length buf == 0)) [
      | inl empty ↦ rw empty alone
      | inr full ↦ elim (Bool-cases (leb (length buf + 1 + length atom) target)) [
        | inl room ↦
            rw (full, room, merge)
              (merge-Fits target most (buf ++ 10 ∷ atom) atoms under
                (ground (arith, room, under, length-append buf (10 ∷ atom))) rest)
        | inr over ↦ rw (full, over, merge) ((short, ground (arith, full)), alone)
      ]
    ]

-- No chunk is empty or longer than the limit, if the limit is positive and at least the target.
pub chunk_text-Fits :
    (content : Text) (target most : ℕ)
    → 0 < most
    → target ≤ most
    → All (Fits most) (chunk_text content target most)
unfolding chunk_text
chunk_text-Fits content target most positive under =
    elim (Bool-cases (length (trim content) == 0)) [
      | inl empty ↦ rw (empty, chunk_text) tt
      | inr full ↦ elim (Bool-cases (leb (length (trim content)) target)) [
        | inl whole ↦
            rw (full, whole, chunk_text) ((ground (arith, whole, under), ground (arith, full)), tt)
        | inr long ↦
            rw (full, long, chunk_text)
              (merge-Fits target most [] _ under (omega arith) (
                split_to_atoms-Fits (suc (length (trim content))) most (trim content) positive
                  (omega arith) (ground (arith, full))))
      ]
    ]
