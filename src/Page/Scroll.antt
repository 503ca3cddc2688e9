-- ===== src/Page/Scroll.antt =====
-- The scroll handler and the click handler of custom.js.
use Prim.Native.String.{String}
use tiny_http_server.Prelude.{
  ◌≡◌, true, false, List, [], ◌∷◌, some, none, inl, inr, refl, Bool-cases, All, ◌⊎◌, Option,
}
use tiny_http_server.Page.{
  Library, Outcome, returned, thrown, on_scroll, on_anchor_click, anchor_target,
  with_selection-some,
}

-- What jQuery documents of `addClass` and `removeClass`: the selected elements have the class
-- afterwards, and do not have it.
pub record ClassLaws (lib : Library) : Type 0 where
  pub added :
      (es : List lib.Element) (c : String) (d : lib.Document)
      → All (λ e. lib.has_class (lib.add_class es c d) e c ≡ true) es
  pub removed :
      (es : List lib.Element) (c : String) (d : lib.Document)
      → All (λ e. lib.has_class (lib.remove_class es c d) e c ≡ false) es

module _ (lib : Library) where
  open lib use {
    Document, Element, px, longer, minus, select, offset_top, has_class, stop, attr,
    animate_scroll_top,
  }

  -- After a scroll event, whatever the page was before, every element of `.navbar-fixed-top` has
  -- the class `top-nav-collapse` exactly if the first `.navbar` stands more than 50 pixels down.
  pub scroll_marks :
      ClassLaws lib
      → (d : Document) (bar : Element) (bars fixed : List Element)
      → select d ".navbar" ≡ some (bar ∷ bars)
      → select d ".navbar-fixed-top" ≡ some fixed
      → All
          (λ e.
            has_class (on_scroll lib d).page e "top-nav-collapse"
            ≡ longer (offset_top d bar) (px 50))
          fixed
  unfolding on_scroll
  scroll_marks laws d bar bars fixed found navs =
      rw (with_selection-some lib d _ _ _ found, with_selection-some lib d _ _ _ navs)
        (elim (Bool-cases (longer (offset_top d bar) (px 50))) [
          | inl far ↦ rw far (laws.added fixed "top-nav-collapse" d)
          | inr near ↦ rw near (laws.removed fixed "top-nav-collapse" d)
        ])

  -- A page without `.navbar` makes the handler throw, and is left as it was.
  pub scroll_throws :
      (d : Document)
      → select d ".navbar" ≡ some []
      → (on_scroll lib d).page ≡ d × (on_scroll lib d).ended ≡ thrown
  unfolding on_scroll
  scroll_throws d found = rw (with_selection-some lib d _ _ _ found) (refl, refl)

  -- what the click handler has done, with and without an element for the anchor
  pub record Scrolls (d : Document) (anchor : Element) (roots : List Element) (target : Element)
      (o : Outcome lib) : Type 0 where
    pub page : o.page ≡ animate_scroll_top roots (minus (offset_top d target) (px 49)) 1000 d
    pub prevented : o.prevented ≡ true
    pub ended : o.ended ≡ returned

  pub record Fails (d : Document) (o : Outcome lib) : Type 0 where
    pub page : o.page ≡ d
    pub prevented : o.prevented ≡ false
    pub ended : o.ended ≡ thrown

  -- the anchor's `href` is missing, is no selector, or selects nothing
  abbrev pub HasNoTarget : Document → Element → Type 0
  HasNoTarget d anchor =
      (attr d anchor "href" ≡ none)
      ⊎ ((href : String) × (attr d anchor "href" ≡ some href)
          × ((select d href ≡ none) ⊎ (select d href ≡ some [])))

  -- the anchor's `href` selects an element, and perhaps others behind it
  abbrev pub HasTarget : Document → Element → Element → Type 0
  HasTarget d anchor target =
      (href : String) × (others : List Element) × (attr d anchor "href" ≡ some href)
      × (select d href ≡ some (target ∷ others))

  -- The click handler prevents the own jump of the browser exactly if the `href` of the
  -- anchor selects an element, and then scrolls to 49 pixels above the first; otherwise, if the `href` is missing, is
  -- no selector or selects nothing, it throws with the page stopped.
  pub anchor_click_cases :
      (d : Document) (anchor : Element) (roots : List Element)
      → select d "html, body" ≡ some roots
      → let d' = stop roots d in
        let o = on_anchor_click lib d anchor in
        (HasNoTarget d' anchor × Fails d' o)
        ⊎ ((target : Element) × HasTarget d' anchor target × Scrolls d' anchor roots target o)
  unfolding on_anchor_click anchor_target
  anchor_click_cases d anchor roots found = by_attr (attr d' anchor "href") refl
    where
      d' : Document
      d' = stop roots d

      Claimed : Type 0
      Claimed =
          let o = on_anchor_click lib d anchor in
          (HasNoTarget d' anchor × Fails d' o)
          ⊎ ((target : Element) × HasTarget d' anchor target × Scrolls d' anchor roots target o)

      failed :
          (t : Option (List Element))
          → anchor_target lib d' anchor ≡ t
          → (t ≡ none) ⊎ (t ≡ some [])
          → Fails d' (on_anchor_click lib d anchor)
      failed none e missing =
          rw (with_selection-some lib d _ _ _ found, e, on_anchor_click)
            (record { page = refl; prevented = refl; ended = refl })
      failed (some []) e missing =
          rw (with_selection-some lib d _ _ _ found, e, on_anchor_click)
            (record { page = refl; prevented = refl; ended = refl })
      failed (some (target ∷ others)) e (inl p) = absurd cc
      failed (some (target ∷ others)) e (inr p) = absurd cc

      by_selection :
          (href : String) (t : Option (List Element))
          → attr d' anchor "href" ≡ some href
          → select d' href ≡ t
          → Claimed
      by_selection href none named e =
          inl (inr (href, named, inl e), failed none (rw (anchor_target, named, e)) (inl refl))
      by_selection href (some []) named e =
          inl (inr (href, named, inr e), failed (some []) (rw (anchor_target, named, e)) (inr refl))
      by_selection href (some (target ∷ others)) named e = inr (
        target,
        (href, others, named, e),
        let aimed : anchor_target lib d' anchor ≡ some (target ∷ others) =
              rw (anchor_target, named, e) in
            rw (with_selection-some lib d _ _ _ found, aimed, on_anchor_click)
              (record { page = refl; prevented = refl; ended = refl }),
      )

      by_attr : (a : Option String) → attr d' anchor "href" ≡ a → Claimed
      by_attr none e = inl (inl e, failed (some []) (rw (anchor_target, e)) (inr refl))
      by_attr (some href) e = by_selection href (select d' href) e refl
