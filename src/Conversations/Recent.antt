-- ===== src/Conversations/Recent.antt =====
-- The messages of a conversation as they are listed, and the recent turns that the agent is told.
use mathlib.Core.List.Perm
use mathlib.Core.List.{reverse-reverse, perm_comm}
use nexus_ai.Base.{
  ℕ, ◌≡◌, refl, List, ◌++◌, map, reverse, take, drop, min, length, length-take, length-sorted_desc,
  take-append-drop, Perm, IsOrder, IsSortedDesc, sorted_desc, sorted_desc-perm,
  sorted_desc-IsSortedDesc, arith,
}
use nexus_ai.Database.{Db, Message}
use nexus_ai.Conversations.{
  not_before, not_newer, messages_of, list_messages, recent_turns, role_value,
}

module _ {F : Type 0} (db : Db F) where
  not_before-IsOrder : IsOrder (not_before db)
  not_before-IsOrder = record { total = λ a b h. ground arith; trans = λ a b c h k. ground arith }

  not_newer-IsOrder : IsOrder (not_newer db)
  not_newer-IsOrder = record { total = λ a b h. ground arith; trans = λ a b c h k. ground arith }

  -- The messages of a conversation are listed all, by their times, the oldest first. Its recent
  -- turns are the roles and the texts of `limit` of them, or of all if there are fewer, the newest
  -- ones by time and, of one time, by id: turned round, and followed by the messages left out, they
  -- are all of them in the order of time and id, the newest first.
  pub recent_turns-newest :
      (conversation limit : ℕ)
      → Perm (list_messages db conversation) (messages_of db conversation)
        × IsSortedDesc (not_before db) (list_messages db conversation)
        × (turns : List (Message F)) × (older : List (Message F)) × (recent_turns db conversation
              limit
            ≡ map (λ m. (role_value m.role, m.content)) turns)
        × (length (reverse turns) ≡ min limit (length (list_messages db conversation)))
        × Perm (reverse turns ++ older) (list_messages db conversation)
        × IsSortedDesc (not_newer db) (reverse turns ++ older)
  unfolding list_messages recent_turns
  recent_turns-newest conversation limit =
      let found = messages_of db conversation in
      let ranked = sorted_desc (not_newer db) found in
      let listed = sorted_desc-perm (not_before db) found in
      (
        listed,
        sorted_desc-IsSortedDesc (not_before db) not_before-IsOrder found,
        reverse (take limit ranked),
        drop limit ranked,
        refl,
        rw
            (
              reverse-reverse (take limit ranked),
              length-take,
              length-sorted_desc,
              length-sorted_desc,
            )
            refl,
        rw (reverse-reverse (take limit ranked), take-append-drop)
            (Perm.trans (sorted_desc-perm (not_newer db) found) (perm_comm.0 listed)),
        rw (reverse-reverse (take limit ranked), take-append-drop)
            (sorted_desc-IsSortedDesc (not_newer db) not_newer-IsOrder found),
      )
