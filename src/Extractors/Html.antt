-- ===== src/Extractors/Html.antt =====
-- Scripts and styles: what the text of a page leaves out.
use nexus_ai.Base.{
  ◌+◌, ◌-◌, ◌≤◌, ◌≡◌, refl, true, false, List, [], ◌∷◌, ◌++◌, ltb, nat_beq, All, arith, ◌∙◌, ap,
}
use nexus_ai.Base.Text.{Text}
use nexus_ai.Extractors.{
  HtmlEvent, starttag, endtag, text_data, TextParser, is_skipped, handle, feed,
}

-- The event neither opens nor closes a script or a style.
abbrev pub IsInner : HtmlEvent → Type 0
IsInner (starttag tag) = is_skipped tag ≡ false
IsInner (endtag tag) = is_skipped tag ≡ false
IsInner (text_data content) = Unit

handle-inner : (e : HtmlEvent) (p : TextParser) → IsInner e → 1 ≤ p.skip_depth → handle e p ≡ p
unfolding handle
handle-inner (starttag tag) p h d = rw h refl
handle-inner (endtag tag) p h d = rw h refl
handle-inner (text_data content) p h d =
    let e : nat_beq p.skip_depth 0 ≡ false = ground arith in rw e refl

feed-inner :
    (body rest : List HtmlEvent) (p : TextParser)
    → All IsInner body
    → 1 ≤ p.skip_depth
    → feed (body ++ rest) p ≡ feed rest p
unfolding feed
feed-inner [] rest p h d = refl
feed-inner (e ∷ body) rest p h d =
    ap (feed (body ++ rest)) (handle-inner e p h.0 d) ∙ feed-inner body rest p h.1 d

-- A script or style, from its start tag to its end tag, leaves no trace in the text: the parser
-- goes on after it in the state it was in before, also inside other such elements.
pub feed-skips :
    (open_tag close_tag : Text) (body rest : List HtmlEvent) (p : TextParser)
    → is_skipped open_tag ≡ true
    → is_skipped close_tag ≡ true
    → All IsInner body
    → feed (starttag open_tag ∷ (body ++ endtag close_tag ∷ rest)) p ≡ feed rest p
unfolding feed handle
feed-skips open_tag close_tag body rest p opens closes inner =
    let deeper : TextParser = record p { skip_depth = p.skip_depth + 1 } in
    let down : handle (starttag open_tag) p ≡ deeper = rw opens refl in
    let positive : ltb 0 (p.skip_depth + 1) ≡ true = ground arith in
    let back : p.skip_depth + 1 - 1 ≡ p.skip_depth = omega arith in
    let up : handle (endtag close_tag) deeper ≡ p = rw (closes, positive, back) refl in
    ap (feed (body ++ endtag close_tag ∷ rest)) down
    ∙ feed-inner body (endtag close_tag ∷ rest) deeper inner (omega arith)
    ∙ ap (feed rest) up
