-- ===== src/Reports/Menu.antt =====
-- js/menu.js of a report: the HTML of the menu, and which of its links is active.
pub mod Entries
pub mod Links
use graffi_tab_backend.Prelude.{
  ℕ, zero, suc, ◌+◌, ◌-◌, ◌*◌, ◌/◌, ◌%◌, Bool, true, false, Option, none, some, List, [], ◌∷◌, ◌++◌,
  ◌==◌, ltb, length, take, if◌then◌else◌,
}
use graffi_tab_backend.Prelude.Text.{Text, codes}
use graffi_tab_backend.Reports.{Header, Contents, group, request, nil, cons}

-- A number as JavaScript writes it; `fuel` is above the number of digits.
abbrev digits : ℕ → ℕ → Text → Text
digits zero n rest = rest
digits (suc fuel) n rest =
    let more = digits fuel (n / 10) ((b'0' + n % 10) ∷ rest) in
    if ltb n 10 then (b'0' + n) ∷ rest else more

abbrev pub decimal : ℕ → Text
decimal n = digits (suc n) n []

-- `getItemLink`
abbrev pub get_item_link : Header → Text
get_item_link item = item.path_formatted ++ codes ".html"

abbrev pub menu_item_max_length : ℕ
menu_item_max_length = 50

-- `displayName`
pub display_name : Text → Text
display_name name =
    if ltb menu_item_max_length (length name)
    then take menu_item_max_length name ++ codes "..."
    else name

abbrev title : Text → Text
title name =
    if ltb menu_item_max_length (length name) then codes " title=\"" ++ name ++ codes "\"" else []

-- The class of an item with a parent; an empty parent counts as none.
abbrev style : ℕ → Option Text → Text
style level none = []
style level (some []) = []
style level (some (c ∷ cs)) =
    codes " class=\""
    ++ (if level == 0 then codes "child-of-ROOT " else [])
    ++ codes "child-of-menu-"
    ++ (c ∷ cs)
    ++ codes "\""

abbrev expand_button : Header → ℕ → Bool → Text
expand_button item level is_group =
    codes "<span id=\"menu-"
    ++ item.path_formatted
    ++ codes "\" style=\"margin-left: "
    ++ decimal (level * 10)
    ++ codes "px;\" class=\"expand-button"
    ++ (if is_group then [] else codes " hidden")
    ++ codes "\">&nbsp;</span>"

-- `menuItem`
pub menu_item : Header → ℕ → Option Text → Bool → Text
unfolding display_name
menu_item item level parent is_group =
    codes "<li"
    ++ style level parent
    ++ codes "><div class=\"item\">"
    ++ expand_button item level is_group
    ++ codes "<a href=\""
    ++ get_item_link item
    ++ codes "\""
    ++ title item.name
    ++ codes ">"
    ++ display_name item.name
    ++ codes "</a></div></li>"

-- `if (level > 0) items += menuItem(group, level - 1, parent, true)`
abbrev own_item : Header → ℕ → Option Text → Text
own_item h level parent = if ltb 0 level then menu_item h (level - 1) parent true else []

-- The loop of `menuItemsForGroup` over the contents of a group.
unfoldable pub menu_items_of : Contents → ℕ → Text → Text
menu_items_of nil level parent = []
menu_items_of (cons (group h inner) rest) level parent =
    own_item h (level + 1) (some parent)
    ++ menu_items_of inner (level + 1) h.path_formatted
    ++ menu_items_of rest level parent
menu_items_of (cons (request h) rest) level parent =
    menu_item h level (some parent) false ++ menu_items_of rest level parent

-- `menuItemsForGroup`
unfoldable pub menu_items_for_group : Header → Contents → ℕ → Option Text → Text
unfolding menu_items_of
menu_items_for_group h contents level parent =
    own_item h level parent ++ menu_items_of contents level h.path_formatted

-- What `setDetailsMenu` appends.
pub details_menu : Header → Contents → Text
unfolding menu_items_for_group
details_menu h contents = menu_items_for_group h contents 0 none

abbrev cons_first : ℕ → List Text → List Text
cons_first c [] = (c ∷ []) ∷ []
cons_first c (t ∷ ts) = (c ∷ t) ∷ ts

-- `link.split('/')`
abbrev split : Text → List Text
split [] = [] ∷ []
split (c ∷ cs) = let rest = split cs in if c == b'/' then [] ∷ rest else cons_first c rest

abbrev last : Text → List Text → Text
last t [] = t
last t (u ∷ us) = last u us

-- `getLink`
pub get_link : Text → Text
get_link link = if ltb 1 (length (split link)) then last [] (split link) else link
