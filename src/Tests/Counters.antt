-- ===== src/Tests/Counters.antt =====
-- A histogram of three buckets, and the conversations of a member.
use nexus_ai.Base.{
  ℕ, ◌≡◌, ◌↔◌, some, List, [], ◌∷◌, map, length, ok, none, ◌++◌, reverse, min, Perm, IsSortedDesc,
  sorted_desc, refl,
}
use nexus_ai.Base.Float.{whole, whole-IsOrder}
use nexus_ai.Base.Text.{codes, decimal}
use nexus_ai.Database.{Db, no_rows, Conversation, Message, Membership, member, user, assistant}
use nexus_ai.Workspaces.{get_membership}
use nexus_ai.Conversations.{
  get_conversation, get_for_user, list_messages, recent_turns, role_value, not_before, not_newer,
  messages_of,
}
use nexus_ai.Conversations.Recent.{recent_turns-newest}
use nexus_ai.Conversations.Ownership.{get_for_user-owned}
use nexus_ai.Metrics.{Histogram, new_histogram}
use nexus_ai.Metrics.Histograms.{observe_all, tally, IsCumulative, observe_all-IsCumulative}

abbrev values : List ℕ
values = 2 ∷ 30 ∷ 7 ∷ []

abbrev seconds : Histogram ℕ
seconds =
    observe_all whole decimal values
      (new_histogram whole decimal (codes "seconds") (codes "Duration.") (10 ∷ 1 ∷ 5 ∷ []))

observe_all-IsCumulative_example :
    (seconds.counts ≡ map (tally whole decimal values) seconds.buckets)
    × (seconds.observations ≡ length values)
    × IsCumulative seconds.observations seconds.counts
observe_all-IsCumulative_example =
    observe_all-IsCumulative whole decimal whole-IsOrder (codes "seconds") (codes "Duration.")
      (10 ∷ 1 ∷ 5 ∷ []) values

abbrev thread : Conversation
thread = record { id = 3; workspace_id = 1; user_id = 10; title = codes "plans" }

abbrev threads : Db ℕ
threads = record (no_rows {F = ℕ}) {
  memberships = record { user_id = 10; workspace_id = 1; role = member } ∷ [];
  conversations = thread ∷ [];
}

get_for_user-owned_example : get_for_user threads 1 3 10 ≡ ok thread ↔ (
    (m : Membership) × (get_membership threads 1 10 ≡ some m)
    × (get_conversation threads 3 ≡ some thread)
    × (thread.workspace_id ≡ 1)
    × (thread.user_id ≡ 10))
get_for_user-owned_example = get_for_user-owned threads 1 3 10 thread

abbrev talk : Db ℕ
talk = record threads {
  messages =
      record {
        id = 5;
        conversation_id = 3;
        role = user;
        content = codes "Hello?";
        tokens = 1;
        citations = none;
      }
      ∷ record {
        id = 2;
        conversation_id = 3;
        role = assistant;
        content = codes "Yes.";
        tokens = 1;
        citations = none;
      }
      ∷ [];
}

-- Both turns are of one time, and the first has the larger id.
abbrev swapped : Db ℕ
swapped = record talk { message_time = λ id. 7 }

recent_turns-newest_example :
    Perm (list_messages swapped 3) (messages_of swapped 3)
    × IsSortedDesc (not_before swapped) (list_messages swapped 3)
    × (turns : List (Message ℕ)) × (older : List (Message ℕ)) × (recent_turns swapped 3 1
        ≡ map (λ m. (role_value m.role, m.content)) turns)
    × (length (reverse turns) ≡ min 1 (length (list_messages swapped 3)))
    × Perm (reverse turns ++ older) (list_messages swapped 3)
    × IsSortedDesc (not_newer swapped) (reverse turns ++ older)
recent_turns-newest_example = recent_turns-newest swapped 3 1

-- The question that was written first is taken for the later turn.
turned :
    recent_turns swapped 3 2
    ≡ (codes "assistant", codes "Yes.") ∷ (codes "user", codes "Hello?") ∷ []
unfolding recent_turns sorted_desc
turned = refl
