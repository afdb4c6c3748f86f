-- ===== src/AgentMemory.antt =====
-- app/services/agent/memory.py: the long-term store of run summaries, the recent turns of a
-- conversation, and the prompt section made of both.
pub mod History
pub mod Recall
use nexus_ai.Base.{
  ℕ, Bool, Option, none, some, List, [], ◌∷◌, ◌++◌, map, if◌then◌else◌, push_bounded, nat_eq,
  nat_beq, sorted_desc, take, take, ltb,
}
use nexus_ai.Base.Dict
use nexus_ai.Base.Dict.{Dict}
use nexus_ai.Base.Float.{FloatOps}
use nexus_ai.Base.Text.{Text, codes, join}
use nexus_ai.Similarity.{cosine}

-- `_Entry`
pub record Entry (F : Type 0) : Type 0 where
  pub vector : List F
  pub summary : Text

pub record AgentMemory (F : Type 0) : Type 0 where
  pub max_entries : ℕ
  pub by_workspace : Dict ℕ (List (Entry F))

abbrev pub fresh : {F : Type 0} → ℕ → AgentMemory F
fresh most = record { max_entries = most; by_workspace = [] }

unfoldable pub entries_of : {F : Type 0} → AgentMemory F → ℕ → List (Entry F)
entries_of memory workspace = Dict.get_or workspace memory.by_workspace []

module _ {F : Type 0} (fl : FloatOps F) where
  abbrev pub by_similarity : List F → Entry F → Entry F → Bool
  by_similarity query a b = fl.leq (cosine fl query a.vector) (cosine fl query b.vector)

  -- `recall`; with no entry or `top_k` at most 0 the result is the empty list here too
  unfoldable pub recall : AgentMemory F → ℕ → List F → ℕ → List Text
  unfolding entries_of
  recall memory workspace query top_k =
      map (λ e. e.summary)
        (take top_k (sorted_desc (by_similarity query) (entries_of memory workspace)))

unfoldable pub remember : {F : Type 0} → AgentMemory F → ℕ → List F → Text → AgentMemory F
unfolding entries_of
remember memory workspace query summary = record memory {
  by_workspace =
      Dict.insert workspace
        (push_bounded memory.max_entries (record { vector = query; summary = summary })
          (entries_of memory workspace))
        memory.by_workspace;
}

unfoldable pub clear : {F : Type 0} → AgentMemory F → AgentMemory F
clear memory = record memory { by_workspace = [] }

-- The line feed, which a literal cannot hold.
abbrev pub newline : Text
newline = 10 ∷ []

unfoldable pub recalled_part : List Text → List Text
unfolding join
recalled_part [] = []
recalled_part (s ∷ rest) =
    (codes "Relevant past conclusions:"
      ++ (newline ++ join newline (map (λ summary. codes "- " ++ summary) (s ∷ rest))))
    ∷ []

unfoldable pub recent_part : List (Text × Text) → List Text
unfolding join
recent_part [] = []
recent_part (t ∷ rest) =
    (codes "Recent conversation:"
      ++ (newline ++ join newline (map (λ turn. turn.0 ++ (codes ": " ++ turn.1)) (t ∷ rest))))
    ∷ []

abbrev memory_section : List Text → Text
memory_section [] = []
memory_section (p ∷ ps) =
    codes "Conversation memory (for context only, do not cite):"
    ++ (newline ++ (join (newline ++ newline) (p ∷ ps) ++ (newline ++ newline)))

unfoldable pub format_memory_block : List (Text × Text) → List Text → Text
unfolding recalled_part recent_part join
format_memory_block short_term long_term =
    memory_section (recalled_part long_term ++ recent_part short_term)
