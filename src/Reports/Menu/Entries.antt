-- ===== src/Reports/Menu/Entries.antt =====
-- The menu as a list of entries.
use graffi_tab_backend.Prelude.{
  ℕ, ◌+◌, ◌-◌, ◌≡◌, refl, Bool, true, false, some, List, [], ◌∷◌, ◌++◌, arith,
}
use graffi_tab_backend.Prelude.Text.{Text}
use graffi_tab_backend.Reports.{Header, Contents, group, request, nil, cons}
use graffi_tab_backend.Reports.Menu.{menu_item, menu_items_for_group, menu_items_of, details_menu}

-- An item of the menu, with its level, its parent, and whether it is a group.
pub record Entry : Type 0 where
  pub item : Header
  pub level : ℕ
  pub parent : Text
  pub is_group : Bool

abbrev pub entry_texts : List Entry → Text
entry_texts [] = []
entry_texts (e ∷ es) = menu_item e.item e.level (some e.parent) e.is_group ++ entry_texts es

-- The items of some contents at a level, a group before what it contains.
pub entries : Contents → ℕ → Text → List Entry
entries nil level parent = []
entries (cons (request h) rest) level parent =
    record { item = h; level = level; parent = parent; is_group = false }
    ∷ entries rest level parent
entries (cons (group h inner) rest) level parent =
    record { item = h; level = level; parent = parent; is_group = true }
      ∷ entries inner (level + 1) h.path_formatted
    ++ entries rest level parent

append_assoc : (s t u : Text) → (s ++ t) ++ u ≡ s ++ (t ++ u)
append_assoc [] t u = refl
append_assoc (c ∷ s) t u = ground (arith, append_assoc s t u)

entry_texts-append :
    (es fs : List Entry) → entry_texts (es ++ fs) ≡ entry_texts es ++ entry_texts fs
entry_texts-append [] fs = refl
entry_texts-append (e ∷ es) fs = ground (
  arith,
  entry_texts-append es fs,
  append_assoc (menu_item e.item e.level (some e.parent) e.is_group) (entry_texts es)
      (entry_texts fs),
)

menu_items_of-eq-entry_texts :
    (contents : Contents) (level : ℕ) (parent : Text)
    → menu_items_of contents level parent ≡ entry_texts (entries contents level parent)
unfolding menu_items_of entries
menu_items_of-eq-entry_texts nil level parent = refl
menu_items_of-eq-entry_texts (cons (request h) rest) level parent =
    ground (arith, menu_items_of-eq-entry_texts rest level parent)
menu_items_of-eq-entry_texts (cons (group h inner) rest) level parent =
    let within = menu_items_of-eq-entry_texts inner (level + 1) h.path_formatted in
    let after = menu_items_of-eq-entry_texts rest level parent in
    let both =
      entry_texts-append (entries inner (level + 1) h.path_formatted) (entries rest level parent) in
    let assoc =
      append_assoc (menu_item h level (some parent) true)
        (entry_texts (entries inner (level + 1) h.path_formatted))
        (entry_texts (entries rest level parent)) in
    let back : level + 1 - 1 ≡ level = omega arith in
    ground (arith, within, after, both, assoc, back)

-- The menu of a report is the texts of the items below the root, each once and in order: a group
-- before its contents, an item at the level of its depth and under the id of the group that it
-- stands in.
pub details_menu-eq-entry_texts :
    (h : Header) (contents : Contents)
    → details_menu h contents ≡ entry_texts (entries contents 0 h.path_formatted)
unfolding details_menu menu_items_for_group
details_menu-eq-entry_texts h contents = menu_items_of-eq-entry_texts contents 0 h.path_formatted
