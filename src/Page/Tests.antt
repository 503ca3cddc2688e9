-- ===== src/Page/Tests.antt =====
-- A small document library, at which the handlers run.
use Prim.Native.String.{String}
use text.Mathlib.Text.{◌==◌ as str_eq}
use tiny_http_server.Prelude.{
  ℕ, ◌-◌, ◌≡◌, ◌⊎◌, refl, Bool, true, false, List, [], ◌∷◌, Option, none, some, ltb, if◌then◌else◌,
  All,
}
use tiny_http_server.Page.{Library, on_scroll, on_anchor_click, PopupOptions}
use tiny_http_server.Page.Scroll.{
  ClassLaws, scroll_marks, anchor_click_cases, HasNoTarget, HasTarget, Fails, Scrolls,
}

data TinyElement : Type 0 where
  bar link image root : TinyElement

-- A page of one navigation bar and one link: where the bar stands, whether it is marked, and how
-- far the page is scrolled.
record TinyPage : Type 0 where
  top : ℕ
  marked : Bool
  scrolled : ℕ
  popup : Option (PopupOptions × (Unit {0} → TinyElement → List TinyElement))

abbrev tiny_select : String → List TinyElement
tiny_select s =
    if str_eq s ".navbar"
    then bar ∷ []
    else if str_eq s ".navbar-fixed-top"
    then bar ∷ []
    else if str_eq s "html, body"
    then root ∷ []
    else if str_eq s ".image-popup"
    then link ∷ image ∷ []
    else if str_eq s "#home"
    then image ∷ []
    else []

abbrev is_image : TinyElement → Bool
is_image image = true
is_image _ = false

abbrev tiny : Library
tiny = record {
  Document = TinyPage;
  Tree = Unit {0};
  Element = TinyElement;
  Length = ℕ;
  px = λ n. n;
  longer = λ a b. ltb b a;
  minus = λ a b. a - b;
  select = λ d s. some (tiny_select s);
  attr = λ d e s. some "#home";
  offset_top = λ d e. d.top;
  has_class = λ d e s. d.marked;
  tree = λ d. tt;
  is = λ d e s. is_image e;
  find = λ d e s. image ∷ [];
  add_class = λ es c d. record d { marked = true };
  remove_class = λ es c d. record d { marked = false };
  stop = λ es d. d;
  animate_scroll_top = λ es n ms d. record d { scrolled = n };
  fade_out = λ es ms d. d;
  collapse_hide = λ es d. d;
  magnific_popup = λ es o f d. record d { popup = some (o, f) };
}

All-refl {ℓ κ} : {A : Type ℓ} {B : Type κ} (b : B) (es : List A) → All (λ e. b ≡ b) es
All-refl b [] = tt
All-refl b (e ∷ es) = (refl, All-refl b es)

abbrev tiny_classes : ClassLaws tiny
tiny_classes = record { added = λ es c d. All-refl true es; removed = λ es c d. All-refl false es }

abbrev scrolled_page : TinyPage
scrolled_page = record { top = 120; marked = false; scrolled = 0; popup = none }

scroll_marks_example :
    All
      (λ e. tiny.has_class (on_scroll tiny scrolled_page).page e "top-nav-collapse" ≡ true)
      (bar ∷ [])
scroll_marks_example = scroll_marks tiny tiny_classes scrolled_page bar [] (bar ∷ []) refl refl

anchor_click_cases_example :
    let o = on_anchor_click tiny scrolled_page link in
    (HasNoTarget tiny scrolled_page link × Fails tiny scrolled_page o)
    ⊎ ((target : TinyElement) × HasTarget tiny scrolled_page link target
        × Scrolls tiny scrolled_page link (root ∷ []) target o)
anchor_click_cases_example = anchor_click_cases tiny scrolled_page link (root ∷ []) refl

click_scrolls :
    (on_anchor_click tiny scrolled_page link).page ≡ record scrolled_page { scrolled = 71 }
unfolding on_anchor_click
click_scrolls = refl
