-- ===== src/SemanticCache/Eviction.antt =====
-- What the cache holds of all that was stored: the last `max_entries` answers of each workspace.
use nexus_ai.Base.{
  ℕ, ◌≤◌, ◌≡◌, refl, ap, ◌∙◌, List, [], ◌∷◌, if◌then◌else◌, length, nat_beq, nat_eq, push_bounded,
  last_of, length-last_of-le, all_under, on_shelf, push_all, on_shelf-push_at, on_shelf-push_all,
}
use nexus_ai.SemanticCache.{SemanticCache, Entry, entries_of, store, fresh}

-- What was stored, oldest first: the workspace, and the entry.
abbrev pub History : Type 0 → Type 0 → Type 0
History F V = List (ℕ × Entry F V)

module _ {F V : Type 0} where
  -- Storing everything, one after the other.
  unfoldable pub store_all : SemanticCache F V → History F V → SemanticCache F V
  store_all cache [] = cache
  store_all cache ((w, entry) ∷ h) = store_all (store cache w entry.vector entry.value) h

  pub entries_of-store :
      (cache : SemanticCache F V) (w workspace : ℕ) (entry : Entry F V)
      → entries_of (store cache w entry.vector entry.value) workspace ≡ (
          if nat_beq w workspace
          then push_bounded cache.max_entries entry (entries_of cache workspace)
          else entries_of cache workspace)
  unfolding store entries_of
  entries_of-store cache w workspace entry =
      on_shelf-push_at cache.max_entries w workspace entry cache.by_workspace

  store_all-push_all :
      (cache : SemanticCache F V) (h : History F V)
      → (store_all cache h).by_workspace ≡ push_all cache.max_entries cache.by_workspace h
  unfolding store_all store entries_of
  store_all-push_all cache [] = refl
  store_all-push_all cache ((w, entry) ∷ h) =
      store_all-push_all (store cache w entry.vector entry.value) h

  -- After any sequence of calls of `store` on a fresh cache, each workspace has exactly the last
  -- `max_entries` of the answers stored for it, oldest first, and so at most that many.
  pub entries_of-store_all :
      (most : ℕ) (h : History F V) (workspace : ℕ)
      → (entries_of (store_all (fresh most) h) workspace ≡ last_of most (all_under workspace h))
        × (length (entries_of (store_all (fresh most) h) workspace) ≤ most)
  unfolding entries_of
  entries_of-store_all most h workspace =
      let e =
        ap (on_shelf workspace) (store_all-push_all (fresh most) h)
        ∙ on_shelf-push_all most h workspace in
      (e, rw e (length-last_of-le most (all_under workspace h)))
