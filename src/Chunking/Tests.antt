-- ===== src/Chunking/Tests.antt =====
-- The chunkers at concrete texts.
use hono_crosmos.Base.{◌≡◌, refl, List, [], ◌∷◌, concat, arith}
use hono_crosmos.Base.Tables.{All, select_where}
use hono_crosmos.Chunking.Text.{
  Text, starts_with, includes, split_from, parts_by, over_parts, hard_split, split_to_atoms,
  is_space, trim_start, trim_end, merge, chunk_text,
}
use hono_crosmos.Chunking.Bounds.{Fits, chunk_text-Fits}
use hono_crosmos.Chunking.Kept.{kept}
use hono_crosmos.Chunking.KeptText.{kept-chunk_text}
use hono_crosmos.Chunking.KeptTurns.{contents, kept-chunk_conversation}
use hono_crosmos.Chunking.Conversation.{chunk_conversation}
use hono_crosmos.Chunking.Windows.{IsChunkWithin, IsConsecutive, chunk_conversation-IsConsecutive}

-- "aa bb\ncccc"
abbrev sample : Text
sample = 97 ∷ 97 ∷ 32 ∷ 98 ∷ 98 ∷ 10 ∷ 99 ∷ 99 ∷ 99 ∷ 99 ∷ []

chunk_text_example :
    chunk_text sample 3 3 ≡ (97 ∷ 97 ∷ []) ∷ (98 ∷ 98 ∷ []) ∷ (99 ∷ 99 ∷ 99 ∷ []) ∷ (99 ∷ []) ∷ []
unfolding chunk_text split_to_atoms parts_by select_where split_from starts_with includes over_parts
    hard_split trim_start trim_end is_space merge
chunk_text_example = refl

chunk_text-Fits_example : All (Fits 3) (chunk_text sample 3 3)
chunk_text-Fits_example = chunk_text-Fits sample 3 3 (omega arith) (omega arith)

kept-chunk_text_example : kept (concat (chunk_text sample 3 3)) ≡ kept sample
kept-chunk_text_example = kept-chunk_text sample 3 3 (omega arith)

abbrev turns : List Text
turns = (97 ∷ 58 ∷ 32 ∷ 98 ∷ []) ∷ (99 ∷ 58 ∷ []) ∷ (97 ∷ 58 ∷ 100 ∷ []) ∷ []

chunk_conversation-IsConsecutive_example :
    All (IsChunkWithin 3) (chunk_conversation turns 2 3)
    × IsConsecutive 0 (chunk_conversation turns 2 3)
chunk_conversation-IsConsecutive_example = chunk_conversation-IsConsecutive turns 2 3 (omega arith)

kept-chunk_conversation_example :
    kept (concat (contents (chunk_conversation turns 2 3))) ≡ kept (concat turns)
kept-chunk_conversation_example = kept-chunk_conversation turns 2 3 (omega arith) (omega arith)
