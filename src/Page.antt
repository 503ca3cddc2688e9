-- ===== src/Page.antt =====
-- resources/js/custom.js and resources/js/magnific-popup-options.js: the handlers that the pages
-- install. jQuery, its plugins and the document are what the scripts call: a parameter here.
pub mod Scroll
pub mod Popup
mod Tests
use Prim.Native.String.{String}
use tiny_http_server.Prelude.{
  ℕ, ◌≡◌, refl, Bool, true, false, List, [], ◌∷◌, ◌++◌, Option, none, some, if◌then◌else◌,
}

-- `new WOW({ mobile: false }).init()`, and the options of `magnificPopup`.
pub record WowOptions : Type 0 where
  pub mobile : Bool

pub record PopupOptions : Type 0 where
  pub kind : String
  pub removal_delay : ℕ
  pub main_class : String
  pub gallery_enabled : Bool
  pub zoom_enabled : Bool
  pub zoom_duration : ℕ
  pub zoom_easing : String

-- What the scripts use of jQuery. A document is an abstract state, and a call that changes the page
-- gives the new one; `tree` is the tree of its elements, without what the plugins keep. `select` has no answer where jQuery throws on the selector's syntax.
pub record Library : Type 1 where
  pub Document : Type 0
  pub Tree : Type 0
  pub Element : Type 0
  pub Length : Type 0
  pub px : ℕ → Length
  pub longer : Length → Length → Bool
  pub minus : Length → Length → Length
  pub select : Document → String → Option (List Element)
  pub attr : Document → Element → String → Option String
  pub offset_top : Document → Element → Length
  pub has_class : Document → Element → String → Bool
  pub tree : Document → Tree
  pub is : Tree → Element → String → Bool
  pub find : Tree → Element → String → List Element
  pub add_class : List Element → String → Document → Document
  pub remove_class : List Element → String → Document → Document
  pub stop : List Element → Document → Document
  pub animate_scroll_top : List Element → Length → ℕ → Document → Document
  pub fade_out : List Element → ℕ → Document → Document
  pub collapse_hide : List Element → Document → Document
  pub magnific_popup :
      List Element → PopupOptions → (Tree → Element → List Element) → Document → Document

-- A handler changes the page, and it may stop by an exception halfway.
pub data Ended : Type 0 where
  returned thrown : Ended

pub data Trigger : Type 0 where
  window_load window_scroll : Trigger
  click : String → Trigger

pub data Handler : Type 0 where
  hide_preloader hide_menu mark_navbar scroll_to_anchor : Handler

-- The handlers in the order in which custom.js installs them; the last when the page is ready.
unfoldable pub bindings : List (Trigger × Handler)
bindings =
    (window_load, hide_preloader)
    ∷ (click ".navbar-collapse a", hide_menu)
    ∷ (window_scroll, mark_navbar)
    ∷ (click ".custom-navbar a, #home a", scroll_to_anchor)
    ∷ []

unfoldable pub wow_options : WowOptions
wow_options = record { mobile = false }

-- The options of `magnifPopup`, but for the `opener`.
unfoldable pub popup_options : PopupOptions
popup_options = record {
  kind = "image";
  removal_delay = 300;
  main_class = "mfp-with-zoom";
  gallery_enabled = true;
  zoom_enabled = true;
  zoom_duration = 300;
  zoom_easing = "ease-in-out";
}

module _ (lib : Library) where
  open lib use {
    Document, Tree, Element, Length, px, longer, minus, select, attr, offset_top, is, find,
    add_class, remove_class, stop, animate_scroll_top, fade_out, collapse_hide, magnific_popup,
  }

  -- What a handler leaves: the page, whether the event's default is prevented, and its end.
  pub record Outcome : Type 0 where
    pub page : Document
    pub prevented : Bool
    pub ended : Ended

  -- `$(selector)` followed by calls; a bad selector throws before any of them.
  pub with_selection : Document → String → (List Element → Outcome) → Outcome
  with_selection d selector f = elim (select d selector) [
    | none ↦ record { page = d; prevented = false; ended = thrown }
    | some es ↦ f es
  ]

  pub with_selection-some :
      (d : Document) (selector : String) (f : List Element → Outcome) (es : List Element)
      → select d selector ≡ some es
      → with_selection d selector f ≡ f es
  unfolding with_selection
  with_selection-some d selector f es e = rw (e, with_selection) refl

  unfoldable pub on_load : Document → Outcome
  unfolding with_selection
  on_load d =
      with_selection d ".preloader"
        λ es. record { page = fade_out es 1000 d; prevented = false; ended = returned }

  unfoldable pub on_menu_click : Document → Outcome
  unfolding with_selection
  on_menu_click d =
      with_selection d ".navbar-collapse"
        λ es. record { page = collapse_hide es d; prevented = false; ended = returned }

  -- The navigation bar is marked while it stands more than 50 pixels down the page. The offset of
  -- an empty selection is `undefined`, and reading its `top` throws.
  unfoldable pub on_scroll : Document → Outcome
  unfolding with_selection
  on_scroll d = with_selection d ".navbar" λ bars. elim bars [
    | [] ↦ record { page = d; prevented = false; ended = thrown }
    | bar ∷ _ ↦ with_selection d ".navbar-fixed-top" λ fixed. record {
      page =
          if longer (offset_top d bar) (px 50)
          then add_class fixed "top-nav-collapse" d
          else remove_class fixed "top-nav-collapse" d;
      prevented = false;
      ended = returned;
    }
  ]

  -- `$(anchor.attr('href'))`; `$(undefined)` is empty.
  unfoldable pub anchor_target : Document → Element → Option (List Element)
  anchor_target d anchor = elim (attr d anchor "href") [
    | none ↦ some []
    | some href ↦ select d href
  ]

  -- `stop` runs before the argument of `animate` is computed, and `preventDefault` after both.
  unfoldable pub on_anchor_click : Document → Element → Outcome
  unfolding with_selection anchor_target
  on_anchor_click d anchor = with_selection d "html, body" λ roots.
      let d' = stop roots d in
      let failure : Outcome = record { page = d'; prevented = false; ended = thrown } in
      elim (anchor_target d' anchor) [
        | none ↦ failure
        | some [] ↦ failure
        | some (target ∷ _) ↦ record {
          page = animate_scroll_top roots (minus (offset_top d' target) (px 49)) 1000 d';
          prevented = true;
          ended = returned;
        }
      ]

  -- What custom.js does on an event of a binding; `e` is the element that was clicked.
  unfoldable pub handle : Handler → Document → Element → Outcome
  unfolding on_load on_menu_click on_scroll on_anchor_click
  handle hide_preloader d e = on_load d
  handle hide_menu d e = on_menu_click d
  handle mark_navbar d e = on_scroll d
  handle scroll_to_anchor d e = on_anchor_click d e

  -- The `opener` option: the elements from which the popup is zoomed.
  unfoldable pub opener : Tree → Element → List Element
  opener t e = if is t e "img" then e ∷ [] else find t e "img"

  unfoldable pub magnif_popup : Document → Outcome
  unfolding with_selection
  magnif_popup d = with_selection d ".image-popup" λ es. record {
    page = magnific_popup es popup_options opener d;
    prevented = false;
    ended = returned;
  }

  -- What magnific-popup-options.js does when the document is ready.
  unfoldable pub on_ready : Document → Outcome
  unfolding magnif_popup
  on_ready d = magnif_popup d
