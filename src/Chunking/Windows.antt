-- ===== src/Chunking/Windows.antt =====
-- The chunks of a conversation: their bounds and their numbers.
use hono_crosmos.Base.{
  ℕ, zero, suc, ◌+◌, ◌-◌, ◌≤◌, ◌<◌, ◌≡◌, refl, subst, ◌&&◌, List, [], ◌∷◌, ◌++◌, ltb, leb, ◌==◌,
  length, length-append, length-drop, take, drop, arith, ◌⊎◌, inl, inr, none, some, Option,
  Bool-cases,
}
use hono_crosmos.Base.Tables.{All, map-All, append-All}
use hono_crosmos.Chunking.Text.{Text, split_to_atoms}
use hono_crosmos.Chunking.Bounds.{Fits, split_to_atoms-Fits}
use hono_crosmos.Chunking.Conversation.{
  ConversationChunk, join_lines, flush, newline_before, pack, split_oversized_segment, numbered,
  pieces_of, lookback_of, chunk_turns, chunk_conversation,
}

length-join_lines :
    (ts : List Text) (t : Text)
    → length (join_lines (ts ++ t ∷ [])) ≡ length (join_lines ts) + (length t + newline_before ts)
unfolding join_lines
length-join_lines [] t = omega arith
length-join_lines (u ∷ []) t = omega (arith, length-append u (10 ∷ t))
length-join_lines (u ∷ v ∷ ts) t = omega (
  arith,
  length-append u (10 ∷ join_lines (v ∷ ts)),
  length-append u (10 ∷ join_lines (v ∷ (ts ++ t ∷ []))),
  length-join_lines (v ∷ ts) t,
)

abbrev IsWithin : ℕ → Text → Type 0
IsWithin most t = length t ≤ most

flush-IsWithin :
    (most : ℕ) (current : List Text)
    → length (join_lines current) ≤ most
    → All (IsWithin most) (flush current)
flush-IsWithin most [] h = tt
flush-IsWithin most (t ∷ ts) h = (h, tt)

newline_before-cases :
    (current : List Text) (len : ℕ)
    → len ≡ length (join_lines current)
    → ((newline_before current ≡ 0) × (len ≡ 0)) ⊎ (newline_before current ≡ 1)
unfolding join_lines
newline_before-cases [] len e = inl (refl, e)
newline_before-cases (t ∷ ts) len e = inr refl

pack-IsWithin :
    (most : ℕ) (current : List Text) (len : ℕ) (turns : List Text)
    → 0 < most
    → len ≡ length (join_lines current)
    → len ≤ most
    → All (IsWithin most) (pack most current len turns)
unfolding pack join_lines
pack-IsWithin most current len [] positive e h = flush-IsWithin most current (omega (arith, e))
pack-IsWithin most current len (turn ∷ turns) positive e h =
    let flushed = flush-IsWithin most current (omega (arith, e)) in
    elim (Bool-cases (ltb most (length turn))) [
      | inl huge ↦ rw huge (
          append-All (IsWithin most) (flush current) _ flushed (
            append-All (IsWithin most) (split_to_atoms (suc (length turn)) most turn) _
              (map-All (Fits most) (IsWithin most) _ (λ t f. f.0)
                (split_to_atoms-Fits (suc (length turn)) most turn positive (omega arith)
                  (ground (arith, huge))))
              (pack-IsWithin most [] 0 turns positive (omega arith) (omega arith))))
      | inr small ↦
          elim (Bool-cases (
            newline_before current == 1
            && ltb most (len + (length turn + newline_before current)))) [
              | inl full ↦
                  rw (small, full, pack)
                    (append-All (IsWithin most) (flush current) _ flushed (
                      pack-IsWithin most (turn ∷ []) (length turn) turns positive (omega arith)
                        (ground (arith, small))))
              | inr room ↦
                  rw (small, room, pack)
                    (pack-IsWithin most (current ++ turn ∷ [])
                      (len + (length turn + newline_before current)) turns positive
                      (omega (arith, e, length-join_lines current turn))
                      (ground (arith, small, room, newline_before-cases current len e)))
            ]
    ]

pieces_of-IsWithin :
    (most : ℕ) (turns : List Text) → 0 < most → All (IsWithin most) (pieces_of most turns)
unfolding pieces_of split_oversized_segment join_lines
pieces_of-IsWithin most turns positive = elim (Bool-cases (leb (length (join_lines turns)) most)) [
  | inl fits ↦ rw (fits, pieces_of) (ground (arith, fits), tt)
  | inr long ↦
      rw (long, pieces_of) (pack-IsWithin most [] 0 turns positive (omega arith) (omega arith))
]

lookback_of-IsWithin : (most : ℕ) (turns : List Text) → IsWithin most (lookback_of most turns)
unfolding lookback_of
lookback_of-IsWithin most turns = ground (
  arith,
  Bool-cases (leb (length (join_lines turns)) most),
  length-drop (length (join_lines turns) - most) (join_lines turns),
)

abbrev pub IsContextWithin : ℕ → Option Text → Type 0
IsContextWithin most none = Unit
IsContextWithin most (some context) = length context ≤ most

abbrev pub IsChunkWithin : ℕ → ConversationChunk → Type 0
IsChunkWithin most c = (length c.content ≤ most) × IsContextWithin most c.lookback_context

numbered-IsChunkWithin :
    (most n : ℕ) (prior : Option Text) (pieces : List Text)
    → IsContextWithin most prior
    → All (IsWithin most) pieces
    → All (IsChunkWithin most) (numbered n prior pieces)
numbered-IsChunkWithin most n prior [] context all = tt
numbered-IsChunkWithin most n prior (piece ∷ pieces) context (first, rest) =
    ((first, context), numbered-IsChunkWithin most (suc n) prior pieces context rest)

chunk_turns-IsChunkWithin :
    (fuel segment most n : ℕ) (prior : Option Text) (turns : List Text)
    → 0 < most
    → IsContextWithin most prior
    → All (IsChunkWithin most) (chunk_turns fuel segment most n prior turns)
unfolding chunk_turns
chunk_turns-IsChunkWithin zero segment most n prior turns positive context = tt
chunk_turns-IsChunkWithin (suc fuel) segment most n prior [] positive context = tt
chunk_turns-IsChunkWithin (suc fuel) segment most n prior (t ∷ turns) positive context =
    let ts = take segment (t ∷ turns) in
    append-All (IsChunkWithin most) (numbered n prior (pieces_of most ts)) _
      (numbered-IsChunkWithin most n prior (pieces_of most ts) context
        (pieces_of-IsWithin most ts positive))
      (chunk_turns-IsChunkWithin fuel segment most (n + length (pieces_of most ts))
        (some (lookback_of most ts)) (drop segment (t ∷ turns)) positive
        (lookback_of-IsWithin most ts))

-- The numbers from one on, one after the other.
abbrev pub IsConsecutive : ℕ → List ConversationChunk → Type 0
IsConsecutive n [] = Unit
IsConsecutive n (c ∷ cs) = (c.sequence ≡ n) × IsConsecutive (suc n) cs

append-IsConsecutive :
    (n : ℕ) (prior : Option Text) (pieces : List Text) (cs : List ConversationChunk)
    → IsConsecutive (n + length pieces) cs
    → IsConsecutive n (numbered n prior pieces ++ cs)
append-IsConsecutive n prior [] cs later =
    let same : n + 0 ≡ n = omega arith in subst (λ k. IsConsecutive k cs) same later
append-IsConsecutive n prior (piece ∷ pieces) cs later = (
  refl,
  append-IsConsecutive (suc n) prior pieces cs (
      let same : n + suc (length pieces) ≡ suc n + length pieces = omega arith in
      subst (λ k. IsConsecutive k cs) same later),
)

chunk_turns-IsConsecutive :
    (fuel segment most n : ℕ) (prior : Option Text) (turns : List Text)
    → IsConsecutive n (chunk_turns fuel segment most n prior turns)
unfolding chunk_turns
chunk_turns-IsConsecutive zero segment most n prior turns = tt
chunk_turns-IsConsecutive (suc fuel) segment most n prior [] = tt
chunk_turns-IsConsecutive (suc fuel) segment most n prior (t ∷ turns) =
    let ts = take segment (t ∷ turns) in
    append-IsConsecutive n prior (pieces_of most ts) _ (
      chunk_turns-IsConsecutive fuel segment most (n + length (pieces_of most ts))
        (some (lookback_of most ts)) (drop segment (t ∷ turns)))

-- If the limit is positive, no chunk of a conversation and no lookback that goes with one is longer
-- than it, and the chunks are numbered from 0, one after the other.
pub chunk_conversation-IsConsecutive :
    (turns : List Text) (segment most : ℕ)
    → 0 < most
    → All (IsChunkWithin most) (chunk_conversation turns segment most)
      × IsConsecutive 0 (chunk_conversation turns segment most)
unfolding chunk_conversation
chunk_conversation-IsConsecutive turns segment most positive = (
  chunk_turns-IsChunkWithin (length turns) segment most 0 none turns positive tt,
  chunk_turns-IsConsecutive (length turns) segment most 0 none turns,
)
