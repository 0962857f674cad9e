-- ===== src/Searches/Found.antt =====
-- What the searches find.
use graffi_tab_backend.Prelude.{
  ℕ, ◌≡◌, ◌∙◌, refl, inl, inr, Bool, true, false, ◌&&◌, ◌||◌, none, some, List, [], ◌∷◌, any, find,
  select, IsKeyed, All, arith, Option-cases,
}
use graffi_tab_backend.Prelude.Text.{Text}
use graffi_tab_backend.Prelude.Sorting.{listed, listed-order_by, listed-select}
use graffi_tab_backend.Model.{Database}
use graffi_tab_backend.Model.Account.{User}
use graffi_tab_backend.Model.Content.{Streamable}
use graffi_tab_backend.Streamables.Visibility.{is_visible}
use graffi_tab_backend.Users.Profiles.{is_activated}
use graffi_tab_backend.Searches.{Collation, anywhere, matches, search_user, streamables_for_hashtag}
use graffi_tab_backend.Searches.Plain.{IsPlain, occurs, matches-anywhere}

any-matches :
    (collation : Collation) (q : Text) (hs : List Text)
    → All IsPlain q
    → any (matches collation (anywhere q)) hs ≡ any (occurs collation q) hs
any-matches collation q [] h = refl
any-matches collation q (x ∷ hs) h =
    ground (arith, matches-anywhere collation q x h, any-matches collation q hs h)

-- Where no two streamables share an id, the search for a text whose lower-case form, in any locale,
-- has no wildcard finds exactly the streamables that the user may see and that have a hashtag in
-- which that form occurs, by the characters that the collation of the column takes for the same.
pub listed-streamables_for_hashtag :
    (collation : Collation) (lower_case : Text → Text) (text : Text) (current id : ℕ) (d : Database)
    → IsKeyed d.streamables.rows
    → All IsPlain (lower_case text)
    → listed id (streamables_for_hashtag collation (anywhere (lower_case text)) current d)
      ≡ elim (find id d.streamables.rows) [
        | none ↦ false
        | some v ↦ is_visible current v && any (occurs collation (lower_case text)) v.hashtags
      ]
listed-streamables_for_hashtag collation lower_case text current id d k plain =
    let q : Text = lower_case text in
    let p : ℕ → Streamable → Bool =
      (λ _ v. any (matches collation (anywhere q)) v.hashtags && is_visible current v) in
    listed-order_by (λ v. v.created_on) id (select p d.streamables.rows)
    ∙ listed-select p id d.streamables.rows k
    ∙ elim (Option-cases (find id d.streamables.rows)) [
      | inl e ↦ rw e
      | inr (v, e) ↦
          rw (e, any-matches collation q v.hashtags plain)
            (and_comm (any (occurs collation q) v.hashtags) (is_visible current v))
    ]
  where
    and_comm : (a b : Bool) → (a && b) ≡ (b && a)
    and_comm true true = refl
    and_comm true false = refl
    and_comm false true = refl
    and_comm false false = refl

-- Where no two users share an id, the search for a text without wildcards finds exactly the
-- activated users in whose username, first name or last name it occurs, by the same characters.
pub listed-search_user :
    (collation : Collation) (q : Text) (id : ℕ) (d : Database)
    → IsKeyed d.users.rows
    → All IsPlain q
    → listed id (search_user collation (anywhere q) d) ≡ elim (find id d.users.rows) [
      | none ↦ false
      | some u ↦
          (occurs collation q u.username
            || occurs collation q u.first_name
            || occurs collation q u.last_name)
          && is_activated u
    ]
listed-search_user collation q id d k plain =
    let p : ℕ → User → Bool = (λ _ u.
      (matches collation (anywhere q) u.username
        || matches collation (anywhere q) u.first_name
        || matches collation (anywhere q) u.last_name)
      && is_activated u) in
    listed-select p id d.users.rows k ∙ elim (Option-cases (find id d.users.rows)) [
      | inl e ↦ rw e
      | inr (u, e) ↦ ground (
        arith,
        matches-anywhere collation q u.username plain,
        matches-anywhere collation q u.first_name plain,
        matches-anywhere collation q u.last_name plain,
      )
    ]
