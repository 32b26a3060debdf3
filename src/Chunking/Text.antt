-- ===== src/Chunking/Text.antt =====
-- apps/ingestion/src/ingestion/chunking/text.ts. A text is the list of its UTF-16 code units.
use hono_crosmos.Base.{
  ℕ, zero, suc, ◌+◌, ◌-◌, Bool, true, false, not, ◌||◌, ◌&&◌, Option, none, some, List, [], ◌∷◌,
  ◌++◌, ltb, leb, ◌==◌, if◌then◌else◌, length, take, drop,
}
use hono_crosmos.Base.Tables.{select_where}

abbrev pub Text : Type 0
Text = List ℕ

unfoldable pub starts_with : Text → Text → Bool
starts_with [] text = true
starts_with (s ∷ sep) [] = false
starts_with (s ∷ sep) (c ∷ text) = s == c && starts_with sep text

-- `text.includes(sep)`, for a separator with something in it.
unfoldable pub includes : Text → Text → Bool
includes sep [] = false
includes sep (c ∷ text) = starts_with sep (c ∷ text) || includes sep text

-- `text.split(sep)`: the units of a separator still to pass over, the part so far, and the rest.
unfoldable pub split_from : Text → ℕ → Text → Text → List Text
split_from sep skip part [] = part ∷ []
split_from sep (suc skip) part (c ∷ text) = split_from sep skip part text
split_from sep zero part (c ∷ text) =
    let after = split_from sep (length sep - 1) [] text in
    let within = split_from sep zero (part ++ c ∷ []) text in
    if starts_with sep (c ∷ text) then part ∷ after else within

abbrev pub split : Text → Text → List Text
split sep text = split_from sep 0 [] text

-- '\n\n', '\n', '. ' and ' '.
abbrev pub separators : List Text
separators = (10 ∷ 10 ∷ []) ∷ (10 ∷ []) ∷ (46 ∷ 32 ∷ []) ∷ (32 ∷ []) ∷ []

-- The parts by the first separator that gives two or more which are not empty.
unfoldable pub parts_by : List Text → Text → Option (List Text)
parts_by [] text = none
parts_by (sep ∷ seps) text =
    let parts = select_where (λ p. ltb 0 (length p)) (split sep text) in
    let later = parts_by seps text in
    if not (includes sep text) then later else if ltb (length parts) 2 then later else some parts

-- The loop over character boundaries, on fuel; a step of 0 would not end.
unfoldable pub hard_split : ℕ → ℕ → Text → List Text
hard_split zero max text = []
hard_split (suc fuel) max [] = []
hard_split (suc fuel) max (c ∷ text) =
    take max (c ∷ text) ∷ hard_split fuel max (drop max (c ∷ text))

unfoldable pub over_parts : (Text → List Text) → ℕ → List Text → List Text
over_parts again max [] = []
over_parts again max (p ∷ parts) =
    let rest = over_parts again max parts in
    if leb (length p) max then p ∷ rest else again p ++ rest

-- On fuel: each call is on a part that is shorter.
unfoldable pub split_to_atoms : ℕ → ℕ → Text → List Text
split_to_atoms zero max text = text ∷ []
split_to_atoms (suc fuel) max text =
    if leb (length text) max then text ∷ [] else elim (parts_by separators text) [
      | some parts ↦ over_parts (split_to_atoms fuel max) max parts
      | none ↦ hard_split (length text) max text
    ]

-- What `trim` removes: white space and line terminators.
unfoldable pub is_space : ℕ → Bool
is_space c =
    (leb 9 c && leb c 13)
    || (c == 32
        || (c == 160
            || (c == 5760
                || ((leb 8192 c && leb c 8202)
                    || ((c == 8232 || c == 8233)
                        || ((c == 8239 || c == 8287) || (c == 12_288 || c == 65_279)))))))

unfoldable pub trim_start : Text → Text
trim_start [] = []
trim_start (c ∷ text) = if is_space c then trim_start text else c ∷ text

unfoldable pub trim_end : Text → Text
trim_end [] = []
trim_end (c ∷ text) = elim (trim_end text) [
  | [] ↦ if is_space c then [] else c ∷ []
  | d ∷ rest ↦ c ∷ d ∷ rest
]

abbrev pub trim : Text → Text
trim text = trim_end (trim_start text)

-- The loop over the atoms, from the buffer so far.
unfoldable pub merge : ℕ → Text → List Text → List Text
merge target buf [] = if ltb 0 (length buf) then buf ∷ [] else []
merge target buf (atom ∷ atoms) =
    let alone = merge target atom atoms in
    let joined = merge target (buf ++ 10 ∷ atom) atoms in
    if length buf == 0
    then alone
    else if leb (length buf + 1 + length atom) target
    then joined
    else buf ∷ alone

unfoldable pub chunk_text : Text → ℕ → ℕ → List Text
chunk_text content target max =
    let trimmed = trim content in
    if length trimmed == 0
    then []
    else if leb (length trimmed) target
    then trimmed ∷ []
    else merge target [] (split_to_atoms (suc (length trimmed)) max trimmed)
