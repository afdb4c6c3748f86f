-- ===== src/AgentMemory/History.antt =====
-- What the memory holds of all that it was told: the last `max_entries` summaries of each workspace.
use nexus_ai.Base.{
  ℕ, ◌≤◌, ◌≡◌, refl, ap, ◌∙◌, List, [], ◌∷◌, length, nat_eq, last_of, length-last_of-le, all_under,
  on_shelf, push_all, on_shelf-push_all,
}
use nexus_ai.AgentMemory.{AgentMemory, Entry, entries_of, remember, fresh}

-- What was remembered, oldest first: the workspace, and the entry.
abbrev pub History : Type 0 → Type 0
History F = List (ℕ × Entry F)

module _ {F : Type 0} where
  -- Remembering everything, one after the other.
  unfoldable pub remember_all : AgentMemory F → History F → AgentMemory F
  remember_all memory [] = memory
  remember_all memory ((w, entry) ∷ h) =
      remember_all (remember memory w entry.vector entry.summary) h

  remember_all-push_all :
      (memory : AgentMemory F) (h : History F)
      → (remember_all memory h).by_workspace ≡ push_all memory.max_entries memory.by_workspace h
  unfolding remember_all remember entries_of
  remember_all-push_all memory [] = refl
  remember_all-push_all memory ((w, entry) ∷ h) =
      remember_all-push_all (remember memory w entry.vector entry.summary) h

  -- After any sequence of calls of `remember` on a new memory, each workspace has exactly the last
  -- `max_entries` of the summaries it was given, oldest first, and so at most that many.
  pub entries_of-remember_all :
      (most : ℕ) (h : History F) (workspace : ℕ)
      → (entries_of (remember_all (fresh most) h) workspace ≡ last_of most (all_under workspace h))
        × (length (entries_of (remember_all (fresh most) h) workspace) ≤ most)
  unfolding entries_of
  entries_of-remember_all most h workspace =
      let e =
        ap (on_shelf workspace) (remember_all-push_all (fresh most) h)
        ∙ on_shelf-push_all most h workspace in
      (e, rw e (length-last_of-le most (all_under workspace h)))
