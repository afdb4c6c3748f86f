-- ===== src/Tests/Strangers.antt =====
-- A user who is in no workspace asks for everything in the workspace 1.
use nexus_ai.Base.{refl, none, true}
use nexus_ai.Base.Float.{whole}
use nexus_ai.Base.Text.{codes, decimal}
use nexus_ai.Database.{User, admin}
use nexus_ai.VectorStore.Memory.{memory_store}
use nexus_ai.Workspaces.{get_membership}
use nexus_ai.Routes.Access.{
  AccountsRefused, ReadsRefused, FilesRefused, TalksRefused, outsider-refused,
}
use nexus_ai.Tests.Answers.{plain, embedder, model, config, process}
use nexus_ai.Tests.Lifecycle.{readers, network, draw}

abbrev visitor : User
visitor = record {
  id = 11;
  email = codes "v@example.org";
  hashed_password = codes "x";
  full_name = none;
  is_active = true;
  deleted_at = none;
}

outsider-refused_example :
    AccountsRefused 1 visitor process 11 admin
    × ReadsRefused 1 visitor process 7 3 6
    × FilesRefused 1 visitor process plain readers draw config embedder
        (memory_store whole)
        network
        8
        90
        7
        (codes "a.txt")
        (codes "text/plain")
        (codes "about.us")
        none
        (codes "hello")
    × TalksRefused 1 visitor process whole decimal plain
        (λ x. x)
        config
        embedder
        (memory_store whole)
        model
        4
        5
        6
        1
        2
        3
        (codes "sky")
unfolding get_membership
outsider-refused_example =
    outsider-refused 1 visitor process refl plain readers draw config embedder (memory_store whole)
      network whole decimal (λ x. x) model 8 90 7 3 6 4 5 6 1 2 11 admin (codes "a.txt")
      (codes "text/plain") (codes "about.us") (codes "sky") none (codes "hello") refl
