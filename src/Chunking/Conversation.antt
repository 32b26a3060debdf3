-- ===== src/Chunking/Conversation.antt =====
-- apps/ingestion/src/ingestion/chunking/conversation.ts, from the turns on: how the turns of a
-- conversation are put into chunks. Reading the turns off a text by role prefixes is left out, and so
-- are the two guards that throw on a segment size or a limit that is not positive.
use hono_crosmos.Base.{
  ℕ, zero, suc, ◌+◌, ◌-◌, ◌&&◌, Option, none, some, List, [], ◌∷◌, ◌++◌, ltb, leb, ◌==◌,
  if◌then◌else◌, length, take, drop,
}
use hono_crosmos.Chunking.Text.{Text, split_to_atoms}

pub record ConversationChunk : Type 0 where
  pub sequence : ℕ
  pub content : Text
  pub lookback_context : Option Text

-- `join('\n')`.
unfoldable pub join_lines : List Text → Text
join_lines [] = []
join_lines (t ∷ []) = t
join_lines (t ∷ u ∷ ts) = t ++ 10 ∷ join_lines (u ∷ ts)

abbrev pub flush : List Text → List Text
flush [] = []
flush (t ∷ ts) = join_lines (t ∷ ts) ∷ []

-- 1 for the newline before a turn that is not the first of its piece.
abbrev pub newline_before : List Text → ℕ
newline_before [] = 0
newline_before (t ∷ ts) = 1

-- The loop over the turns, with the turns of the current piece and their length.
unfoldable pub pack : ℕ → List Text → ℕ → List Text → List Text
pack max current current_len [] = flush current
pack max current current_len (turn ∷ turns) =
    let after_atoms = pack max [] 0 turns in
    let alone = pack max (turn ∷ []) (length turn) turns in
    let addition = length turn + newline_before current in
    let joined = pack max (current ++ turn ∷ []) (current_len + addition) turns in
    if ltb max (length turn)
    then flush current ++ (split_to_atoms (suc (length turn)) max turn ++ after_atoms)
    else if newline_before current == 1 && ltb max (current_len + addition)
    then flush current ++ alone
    else joined

unfoldable pub split_oversized_segment : List Text → ℕ → List Text
split_oversized_segment turns max = pack max [] 0 turns

abbrev pub numbered : ℕ → Option Text → List Text → List ConversationChunk
numbered n prior [] = []
numbered n prior (piece ∷ pieces) =
    record { sequence = n; content = piece; lookback_context = prior }
    ∷ numbered (suc n) prior pieces

-- `slice(-max)`, for a limit that is not 0.
abbrev pub last_units : ℕ → Text → Text
last_units max text = drop (length text - max) text

unfoldable pub pieces_of : ℕ → List Text → List Text
pieces_of max turns =
    if leb (length (join_lines turns)) max
    then join_lines turns ∷ []
    else split_oversized_segment turns max

unfoldable pub lookback_of : ℕ → List Text → Text
lookback_of max turns =
    if leb (length (join_lines turns)) max
    then join_lines turns
    else last_units max (join_lines turns)

-- The loop over the segments, on fuel; a segment of no turns would not end.
unfoldable pub chunk_turns : ℕ → ℕ → ℕ → ℕ → Option Text → List Text → List ConversationChunk
chunk_turns zero segment max sequence prior turns = []
chunk_turns (suc fuel) segment max sequence prior [] = []
chunk_turns (suc fuel) segment max sequence prior (t ∷ turns) =
    let segment_turns = take segment (t ∷ turns) in
    let pieces = pieces_of max segment_turns in
    numbered sequence prior pieces
    ++ chunk_turns fuel segment max (sequence + length pieces)
        (some (lookback_of max segment_turns)) (drop segment (t ∷ turns))

-- `chunkConversation` on the turns that were read: one round for each turn is enough.
unfoldable pub chunk_conversation : List Text → ℕ → ℕ → List ConversationChunk
chunk_conversation turns segment max = chunk_turns (length turns) segment max 0 none turns
