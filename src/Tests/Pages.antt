-- ===== src/Tests/Pages.antt =====
-- A page with a script inside a style.
use nexus_ai.Base.{◌≡◌, refl, List, [], ◌∷◌, ◌++◌}
use nexus_ai.Base.Text.{codes}
use nexus_ai.Extractors.{HtmlEvent, starttag, endtag, text_data, TextParser, is_skipped, feed}
use nexus_ai.Extractors.Html.{feed-skips}

abbrev inner : List HtmlEvent
inner = text_data (codes "let x = 1") ∷ starttag (codes "b") ∷ []

abbrev rest : List HtmlEvent
rest = text_data (codes "shown") ∷ []

abbrev outside : TextParser
outside = record { parts = codes "before" ∷ []; skip_depth = 0 }

feed-skips_example :
    feed (starttag (codes "script") ∷ (inner ++ endtag (codes "script") ∷ rest)) outside
    ≡ feed rest outside
unfolding is_skipped
feed-skips_example =
    feed-skips (codes "script") (codes "script") inner rest outside refl refl (tt, (refl, tt))
