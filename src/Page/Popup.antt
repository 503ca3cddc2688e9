-- ===== src/Page/Popup.antt =====
-- The popups of magnific-popup-options.js: what they are put on, and from what they are zoomed.
use Prim.Native.String.{String}
use tiny_http_server.Prelude.{
  ◌≡◌, true, inl, inr, refl, subst, sym, Bool-cases, All, All-map, ◌⊎◌, Option, some, List,
}
use tiny_http_server.Page.{
  Library, opener, magnif_popup, on_ready, popup_options, PopupOptions, with_selection-some,
}

-- What jQuery documents of `find`, the descendants that match the selector, and Magnific Popup of its
-- call: each element of the selection gets a popup with the options and the opener.
pub record PopupLaws (lib : Library) : Type 1 where
  pub below : lib.Tree → lib.Element → lib.Element → Type 0
  pub found :
      (t : lib.Tree) (e : lib.Element) (s : String)
      → All (λ x. (lib.is t x s ≡ true) × below t e x) (lib.find t e s)
  pub popup :
      lib.Document
      → lib.Element
      → Option (PopupOptions × (lib.Tree → lib.Element → List lib.Element))
  pub kept :
      (es : List lib.Element) (o : PopupOptions)
      → (f : lib.Tree → lib.Element → List lib.Element) → (d : lib.Document)
      → All (λ e. popup (lib.magnific_popup es o f d) e ≡ some (o, f)) es

-- Whatever element the popup was put on, it is zoomed from images only, and each of them is the
-- element itself or stands below it.
pub opener_images :
    (lib : Library) (laws : PopupLaws lib) (t : lib.Tree) (e : lib.Element)
    → All (λ x. (lib.is t x "img" ≡ true) × ((x ≡ e) ⊎ laws.below t e x)) (opener lib t e)
unfolding opener
opener_images lib laws t e = elim (Bool-cases (lib.is t e "img")) [
  | inl image ↦ rw image ((image, inl refl), tt)
  | inr other ↦ rw other (All-map _ (λ x h. (h.0, inr h.1)) (laws.found t e "img"))
]

-- When the document is ready, every element of .image-popup gets a popup of the script's options,
-- and whatever the elements of the page are at a click, that popup is zoomed from images only, each of them the element itself or
-- one below it.
pub ready_zooms :
    (lib : Library) (laws : PopupLaws lib) (d : lib.Document) (es : List lib.Element)
    → lib.select d ".image-popup" ≡ some es
    → All
        (λ e.
          (zoom : lib.Tree → lib.Element → List lib.Element) × (laws.popup (on_ready lib d).page e
            ≡ some (popup_options, zoom))
          × ((later : lib.Tree)
              → All
                  (λ x. (lib.is later x "img" ≡ true) × ((x ≡ e) ⊎ laws.below later e x))
                  (zoom later e)))
        es
unfolding on_ready magnif_popup
ready_zooms lib laws d es e =
    All-map _
      (λ x h. (
        opener lib,
        subst (λ o. laws.popup o.page x ≡ some (popup_options, opener lib))
            (sym (with_selection-some lib d _ _ es e)) h,
        λ later. opener_images lib laws later x,
      ))
      (laws.kept es popup_options (opener lib) d)
