-- ===== src/TextUtils/Tags.antt =====
-- What the job that parses a text leaves: the hashtags of the streamable.
use graffi_tab_backend.Prelude.{
  ℕ, ◌≡◌, ◌∙◌, refl, ap, inl, inr, Bool, true, false, ◌||◌, some, List, [], ◌∷◌, ◌++◌, any, find,
  find-update, update, arith, Bool-cases, if◌then◌else◌,
}
use graffi_tab_backend.Prelude.Text.{Text, text_eq, text_eq_iff}
use graffi_tab_backend.Errors.{ok}
use graffi_tab_backend.Model.Content.{Streamable}
use graffi_tab_backend.Backend.{Backend}
use graffi_tab_backend.Streamables.{update_streamable}
use graffi_tab_backend.TextUtils.Mentions.{for_each_step}
use graffi_tab_backend.TextUtils.{parse_hashtag, for_each, add_hashtag}

abbrev pub has : Text → List Text → Bool
has tag tags = any (λ h. text_eq h tag) tags

-- One tag more, unless it is there.
abbrev pub add_tag : Text → List Text → List Text
add_tag tag tags = if has tag tags then tags else (tags ++ tag ∷ [])

abbrev pub add_tags : List Text → List Text → List Text
add_tags [] tags = tags
add_tags (g ∷ gs) tags = add_tags gs (add_tag g tags)

abbrev pub with_tags : List Text → Streamable → Streamable
with_tags tags v = record v { hashtags = tags }

has-append : (x : Text) (s t : List Text) → has x (s ++ t) ≡ (has x s || has x t)
has-append x [] t = refl
has-append x (y ∷ s) t = ground (arith, has-append x s t)

has-same : (x y : Text) (tags : List Text) → text_eq x y ≡ true → has x tags ≡ has y tags
has-same x y tags h = ap (λ z. has z tags) ((text_eq_iff x y).0 h)

has-add_tag : (x g : Text) (tags : List Text) → has x (add_tag g tags) ≡ (has x tags || text_eq g x)
has-add_tag x g tags = elim (Bool-cases (text_eq g x)) [
  | inl e ↦ ground (arith, has-append x tags (g ∷ []), has-same g x tags e)
  | inr e ↦ ground (arith, has-append x tags (g ∷ []))
]

-- Exactly the old tags and the new ones.
pub has-add_tags :
    (x : Text) (gs tags : List Text) → has x (add_tags gs tags) ≡ (has x tags || has x gs)
has-add_tags x [] tags = ground arith
has-add_tags x (g ∷ gs) tags =
    ground (arith, has-add_tags x gs (add_tag g tags), has-add_tag x g tags)

-- No tag stands twice.
abbrev pub IsTagSet : List Text → Type 0
IsTagSet [] = Unit
IsTagSet (x ∷ tags) = (has x tags ≡ false) × IsTagSet tags

text_eq_sym : (a b : Text) → text_eq a b ≡ false → text_eq b a ≡ false
text_eq_sym a b h = ground (arith, text_eq_iff a b, text_eq_iff b a)

concat-IsTagSet :
    (g : Text) (tags : List Text) → IsTagSet tags → has g tags ≡ false → IsTagSet (tags ++ g ∷ [])
concat-IsTagSet g [] h e = (refl, tt)
concat-IsTagSet g (x ∷ tags) (p, h) e =
    ground (arith, concat-IsTagSet g tags h, has-append x tags (g ∷ []), text_eq_sym x g)

add_tag-IsTagSet : (g : Text) (tags : List Text) → IsTagSet tags → IsTagSet (add_tag g tags)
add_tag-IsTagSet g tags h = elim (Bool-cases (has g tags)) [
  | inl e ↦ rw e h
  | inr e ↦ rw e (concat-IsTagSet g tags h e)
]

pub add_tags-IsTagSet : (gs tags : List Text) → IsTagSet tags → IsTagSet (add_tags gs tags)
add_tags-IsTagSet [] tags h = h
add_tags-IsTagSet (g ∷ gs) tags h =
    add_tags-IsTagSet gs (add_tag g tags) (add_tag-IsTagSet g tags h)

update_same :
    (k : ℕ) (f g : Streamable → Streamable) (t : List (ℕ × Streamable)) {v : Streamable}
    → find k t ≡ some v
    → f v ≡ g v
    → update k f t ≡ update k g t
update_same k f g [] {v} e h = refl
update_same k f g ((j, w) ∷ t) {v} e h = ground (arith, update_same k f g t {v = v})

update_twice :
    (k : ℕ) (f g : Streamable → Streamable) (t : List (ℕ × Streamable))
    → update k g (update k f t) ≡ update k (λ w. g (f w)) t
update_twice k f g [] = refl
update_twice k f g ((j, w) ∷ t) = ground (arith, update_twice k f g t)

update_id :
    (k : ℕ) (f : Streamable → Streamable) (t : List (ℕ × Streamable)) {v : Streamable}
    → find k t ≡ some v
    → f v ≡ v
    → update k f t ≡ t
update_id k f [] {v} e h = refl
update_id k f ((j, w) ∷ t) {v} e h = ground (arith, update_id k f t {v = v})

-- The state with other tags on the streamable.
abbrev pub tagged : ℕ → List Text → Backend → Backend
tagged id tags s = record s { db = update_streamable id (with_tags tags) s.db }

parse_hashtag_lem :
    (id : ℕ) (g : Text) (s : Backend) {v : Streamable}
    → find id s.db.streamables.rows ≡ some v
    → parse_hashtag id g s ≡ (ok tt, tagged id (add_tag g v.hashtags) s)
unfolding parse_hashtag
parse_hashtag_lem id g s {v} e = elim (Bool-cases (has g v.hashtags)) [
  | inl h ↦ ground (arith, update_id id (with_tags v.hashtags) s.db.streamables.rows {v = v} e refl)
  | inr h ↦ ground (
    arith,
    update_same id (add_hashtag g) (with_tags (v.hashtags ++ g ∷ [])) s.db.streamables.rows {v = v}
        e refl,
  )
]

pub parse_hashtags_lem :
    (id : ℕ) (gs : List Text) (s : Backend) {v : Streamable}
    → find id s.db.streamables.rows ≡ some v
    → for_each (parse_hashtag id) gs s ≡ (ok tt, tagged id (add_tags gs v.hashtags) s)
parse_hashtags_lem id [] s {v} e =
    ground (arith, update_id id (with_tags v.hashtags) s.db.streamables.rows {v = v} e refl)
parse_hashtags_lem id (g ∷ gs) s {v} e =
    let tags : List Text = add_tag g v.hashtags in
    let rows = s.db.streamables.rows in
    let there : find id (update id (with_tags tags) rows) ≡ some (with_tags tags v) =
      ground (arith, find-update id id (with_tags tags) rows) in
    let later = parse_hashtags_lem id gs (tagged id tags s) {v = with_tags tags v} there in
    for_each_step (parse_hashtag id) g gs s (tagged id tags s) (parse_hashtag_lem id g s {v = v} e)
    ∙ later
    ∙ ap
        (λ t. (
          ok tt,
          record s { db = record (s.db) { streamables = record (s.db.streamables) { rows = t } } },
        ))
        (update_twice id (with_tags tags) (with_tags (add_tags gs tags)) rows)
