-- ===== src/Chunking/KeptTurns.antt =====
-- The chunks of a conversation keep what is to be kept of its turns.
use hono_crosmos.Base.{
  ℕ, zero, suc, ◌+◌, ◌≡◌, ◌≤◌, ◌<◌, refl, sym, ap, ap₂, ◌∙◌, ◌&&◌, Option, none, some, List, [],
  map, ◌∷◌, ◌++◌, ltb, leb, ◌==◌, length, length-drop, take-append-drop, take, drop, arith, inl,
  inr, Bool-cases, append_nil, append_assoc, concat, concat-append,
}
use hono_crosmos.Base.Tables.{select_where}
use hono_crosmos.Chunking.Text.{Text, split_to_atoms}
use hono_crosmos.Chunking.Kept.{kept, kept-append, kept-nothing}
use hono_crosmos.Chunking.KeptText.{kept-split_to_atoms, kept-newline}
use hono_crosmos.Chunking.Conversation.{
  ConversationChunk, join_lines, flush, newline_before, pack, split_oversized_segment, numbered,
  pieces_of, lookback_of, chunk_turns, chunk_conversation,
}

kept-join_lines : (ts : List Text) → kept (join_lines ts) ≡ kept (concat ts)
unfolding join_lines
kept-join_lines [] = refl
kept-join_lines (t ∷ []) = ap kept (sym (append_nil t))
kept-join_lines (t ∷ u ∷ ts) =
    kept-append t (10 ∷ join_lines (u ∷ ts))
    ∙ ap (λ k. kept t ++ k) (kept-newline (join_lines (u ∷ ts)) ∙ kept-join_lines (u ∷ ts))
    ∙ sym (kept-append t (concat (u ∷ ts)))

kept-flush : (current : List Text) → kept (concat (flush current)) ≡ kept (concat current)
kept-flush [] = refl
kept-flush (t ∷ ts) = ap kept (append_nil (join_lines (t ∷ ts))) ∙ kept-join_lines (t ∷ ts)

-- Of texts put one after the other, what is kept of the first and of the rest.
kept-concat : (xs ys : List Text) → kept (concat (xs ++ ys)) ≡ kept (concat xs) ++ kept (concat ys)
kept-concat xs ys = ap kept (concat-append xs ys) ∙ kept-append (concat xs) (concat ys)

kept-nil : kept [] ≡ []
unfolding select_where
kept-nil = refl

kept-pack :
    (most : ℕ) (current : List Text) (len : ℕ) (turns : List Text)
    → 0 < most
    → kept (concat (pack most current len turns)) ≡ kept (concat current) ++ kept (concat turns)
unfolding pack
kept-pack most current len [] positive =
    kept-flush current
    ∙ sym (ap (λ k. kept (concat current) ++ k) kept-nil ∙ append_nil (kept (concat current)))
kept-pack most current len (turn ∷ turns) positive = elim (Bool-cases (ltb most (length turn))) [
  | inl huge ↦ rw huge (
      kept-concat (flush current) _
      ∙ ap₂ (λ a b. a ++ b) (kept-flush current)
          (kept-concat (split_to_atoms (suc (length turn)) most turn) _
            ∙ ap₂ (λ a b. a ++ b) (kept-split_to_atoms (suc (length turn)) most turn positive)
                (kept-pack most [] 0 turns positive ∙ kept-nothing (concat turns))
            ∙ sym (kept-append turn (concat turns))))
  | inr small ↦
      elim (Bool-cases
        (newline_before current == 1 && ltb most (len + (length turn + newline_before current)))) [
          | inl full ↦
              rw (small, full, pack)
                (kept-concat (flush current) _
                  ∙ ap₂ (λ a b. a ++ b) (kept-flush current)
                      (kept-pack most (turn ∷ []) (length turn) turns positive ∙ one turn turns))
          | inr room ↦
              rw (small, room, pack)
                (kept-pack most (current ++ turn ∷ [])
                    (len + (length turn + newline_before current)) turns positive
                  ∙ ap (λ k. k ++ kept (concat turns)) (kept-concat current (turn ∷ []))
                  ∙ append_assoc (kept (concat current)) (kept (concat (turn ∷ [])))
                      (kept (concat turns))
                  ∙ ap (λ k. kept (concat current) ++ k) (one turn turns))
        ]
]
  where
    one :
        (t : Text) (ts : List Text)
        → kept (concat (t ∷ [])) ++ kept (concat ts) ≡ kept (concat (t ∷ ts))
    one t ts = sym (kept-concat (t ∷ []) ts)

abbrev pub contents : List ConversationChunk → List Text
contents chunks = map (λ c. c.content) chunks

contents-numbered :
    (n : ℕ) (prior : Option Text) (pieces : List Text) (cs : List ConversationChunk)
    → contents (numbered n prior pieces ++ cs) ≡ pieces ++ contents cs
contents-numbered n prior [] cs = refl
contents-numbered n prior (piece ∷ pieces) cs =
    ap (λ ps. piece ∷ ps) (contents-numbered (suc n) prior pieces cs)

kept-pieces_of :
    (most : ℕ) (turns : List Text)
    → 0 < most
    → kept (concat (pieces_of most turns)) ≡ kept (concat turns)
unfolding pieces_of split_oversized_segment
kept-pieces_of most turns positive = elim (Bool-cases (leb (length (join_lines turns)) most)) [
  | inl fits ↦
      rw (fits, pieces_of) (ap kept (append_nil (join_lines turns)) ∙ kept-join_lines turns)
  | inr long ↦
      rw (long, pieces_of) (kept-pack most [] 0 turns positive ∙ kept-nothing (concat turns))
]

kept-chunk_turns :
    (fuel segment most n : ℕ) (prior : Option Text) (turns : List Text)
    → 0 < most
    → 0 < segment
    → length turns ≤ fuel
    → kept (concat (contents (chunk_turns fuel segment most n prior turns))) ≡ kept (concat turns)
unfolding chunk_turns
kept-chunk_turns zero segment most n prior [] positive steps enough = refl
kept-chunk_turns zero segment most n prior (t ∷ turns) positive steps enough =
    absurd (omega (arith, enough))
kept-chunk_turns (suc fuel) segment most n prior [] positive steps enough = refl
kept-chunk_turns (suc fuel) segment most n prior (t ∷ turns) positive steps enough =
    let now = take segment (t ∷ turns) in
    let later = drop segment (t ∷ turns) in
    let pieces = pieces_of most now in
    ap (λ ts. kept (concat ts)) (contents-numbered n prior pieces _)
    ∙ kept-concat pieces _
    ∙ ap₂ (λ a b. a ++ b) (kept-pieces_of most now positive)
        (kept-chunk_turns fuel segment most (n + length pieces) (some (lookback_of most now)) later
          positive steps (omega (arith, enough, steps, length-drop segment (t ∷ turns))))
    ∙ sym (kept-concat now later)
    ∙ ap (λ ts. kept (concat ts)) (take-append-drop segment (t ∷ turns))

-- Every character of the turns that is neither white space nor a full stop is in the chunks, once
-- and in its order, if the limit and the number of turns in a segment are positive.
pub kept-chunk_conversation :
    (turns : List Text) (segment most : ℕ)
    → 0 < most
    → 0 < segment
    → kept (concat (contents (chunk_conversation turns segment most))) ≡ kept (concat turns)
unfolding chunk_conversation
kept-chunk_conversation turns segment most positive steps =
    kept-chunk_turns (length turns) segment most 0 none turns positive steps (omega arith)
